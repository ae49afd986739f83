-- ===== src/Tpc/Channel/Threads/Counts.antt =====
-- Counting the messages that are in a range of levels, and the threads that stand at a place.
use kiruna.Base.{
  ℕ, zero, suc, ◌+◌, ◌≤◌, ◌<◌, List, [], ◌∷◌, none, some, get_elem?, set, total, ◌≡◌, arith, refl,
}

module _ {ℓ} {A : Type ℓ} (w : A → ℕ) where
  -- The sum over the entries from `l` on.
  abbrev pub total_from : ℕ → List A → ℕ
  total_from l [] = 0
  total_from zero (x ∷ xs) = w x + total_from zero xs
  total_from (suc l) (x ∷ xs) = total_from l xs

  pub total_from-zero : (xs : List A) → total_from 0 xs ≡ total w xs
  total_from-zero [] = refl
  total_from-zero (x ∷ xs) = omega (arith, total_from-zero xs)

  pub total_from-step :
      (k : ℕ) (xs : List A) (a : A)
      → get_elem? xs k ≡ some a
      → total_from k xs ≡ w a + total_from (suc k) xs
  total_from-step k [] a e = ground arith
  total_from-step zero (x ∷ xs) a e = ground arith
  total_from-step (suc k) (x ∷ xs) a e = total_from-step k xs a e

  pub total_from-end : (k : ℕ) (xs : List A) → get_elem? xs k ≡ none → total_from k xs ≡ 0
  total_from-end k [] e = refl
  total_from-end zero (x ∷ xs) e = ground arith
  total_from-end (suc k) (x ∷ xs) e = total_from-end k xs e

  -- A write at `k` counts from `l` on if `l ≤ k`.
  pub total_from-set_le :
      (l k : ℕ) (xs : List A) (old new : A)
      → get_elem? xs k ≡ some old
      → l ≤ k
      → total_from l (set xs k new) + w old ≡ total_from l xs + w new
  total_from-set_le l k [] old new e h = ground arith
  total_from-set_le zero zero (x ∷ xs) old new e h = ground arith
  total_from-set_le zero (suc k) (x ∷ xs) old new e h =
      omega (arith, total_from-set_le zero k xs old new e (omega arith))
  total_from-set_le (suc l) zero (x ∷ xs) old new e h = absurd (omega arith)
  total_from-set_le (suc l) (suc k) (x ∷ xs) old new e h =
      total_from-set_le l k xs old new e (omega arith)

  pub total_from-set_lt :
      (l k : ℕ) (xs : List A) (new : A) → k < l → total_from l (set xs k new) ≡ total_from l xs
  total_from-set_lt l k [] new h = refl
  total_from-set_lt zero k (x ∷ xs) new h = absurd (omega arith)
  total_from-set_lt (suc l) zero (x ∷ xs) new h = refl
  total_from-set_lt (suc l) (suc k) (x ∷ xs) new h = total_from-set_lt l k xs new (omega arith)

pub total_mono {ℓ} :
    {A : Type ℓ} (v w : A → ℕ) → ((a : A) → v a ≤ w a) → (xs : List A) → total v xs ≤ total w xs
total_mono v w h [] = omega arith
total_mono v w h (x ∷ xs) = omega (arith, h x, total_mono v w h xs)
