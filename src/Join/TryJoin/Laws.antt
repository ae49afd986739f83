-- ===== src/Join/TryJoin/Laws.antt =====
-- `try_join2` against its two futures: which result it gives, from when each future ends.
use kiruna.Base.{
  ℕ, suc, Bool, true, false, List, [], ◌∷◌, Poll, ready, pending, Result, ok, err, returns, Option,
  some, none, ◌≡◌, refl, sym, ap, ◌∙◌, arith, drive, leb, if◌then◌else◌,
}
use kiruna.Join.Slot.{ReadyOrNot, future, finished}
use kiruna.Join.TryJoin.{
  Error2, of_a, of_b, polling, Tried, settled, failed, attempt, try_slot, new, finish, after_b,
  after_a, poll,
}

abbrev later {ℓ} : {R : Type ℓ} → Option (ℕ × R) → Option (ℕ × R)
later none = none
later (some (n, r)) = some (suc n, r)

module _ {ℓ κ} {C : Type κ} {F A E : Type ℓ} (poll_f : C → F → Poll (Result A E) × F) where
  -- One round, then the rest.
  abbrev arrived : Poll (Result A E) × F → (F → Option (ℕ × Result A E)) → Option (ℕ × Result A E)
  arrived (ready r, f) rest = some (0, r)
  arrived (pending, f) rest = later (rest f)

  -- The round in which a future that is polled alone ends, and its result.
  unfoldable pub ends : List C → F → Option (ℕ × Result A E)
  ends [] f = none
  ends (cx ∷ cs) f = arrived (poll_f cx f) (ends cs)

  ends_slot : List C → ReadyOrNot F A → Option (ℕ × Result A E)
  ends_slot cs (future f) = ends cs f
  ends_slot cs (finished a) = some (0, ok a)

  -- What the round that makes `t` of a slot says of its end.
  abbrev Fits : List C → Tried F A E → Option (ℕ × Result A E) → Type ℓ
  Fits cs (failed e f) x = x ≡ some (0, err e)
  Fits cs (settled (finished a)) x = x ≡ some (0, ok a)
  Fits cs (settled (future f)) x = x ≡ later (ends cs f)

  attempt-Fits :
      (cs : List C) (r : Poll (Result A E) × F) → Fits cs (attempt r) (arrived r (ends cs))
  attempt-Fits cs (ready (ok a), f) = refl
  attempt-Fits cs (ready (err e), f) = refl
  attempt-Fits cs (pending, f) = refl

  try_slot-Fits :
      (cx : C) (cs : List C) (s : ReadyOrNot F A)
      → Fits cs (try_slot poll_f cx s) (ends_slot (cx ∷ cs) s)
  unfolding try_slot ends ends_slot
  try_slot-Fits cx cs (future f) = attempt-Fits cs (poll_f cx f)
  try_slot-Fits cx cs (finished a) = refl

-- Both values; or the error that comes in the earlier round, that of `a` if both come together.
abbrev pub first_error {ℓ} :
    {A B D E : Type ℓ}
    → Option (ℕ × Result A D)
    → Option (ℕ × Result B E)
    → Option (Result (A × B) (Error2 D E))
first_error none none = none
first_error none (some (j, ok b)) = none
first_error none (some (j, err e)) = some (err (of_b e))
first_error (some (i, ok a)) none = none
first_error (some (i, ok a)) (some (j, ok b)) = some (ok (a, b))
first_error (some (i, ok a)) (some (j, err e)) = some (err (of_b e))
first_error (some (i, err d)) none = some (err (of_a d))
first_error (some (i, err d)) (some (j, ok b)) = some (err (of_a d))
first_error (some (i, err d)) (some (j, err e)) = some (err (if leb i j then of_a d else of_b e))

module _ {ℓ} {A B D E : Type ℓ} where
  first_error-later :
      (x : Option (ℕ × Result A D)) (y : Option (ℕ × Result B E))
      → first_error (later x) (later y) ≡ first_error x y
  first_error-later x y = ground arith

  first_error-a :
      (d : D) (y : Option (ℕ × Result B E))
      → first_error {A = A} (some (0, err d)) y ≡ some (err (of_a d))
  first_error-a d y = ground arith

  first_error-b :
      (e : E) (x : Option (ℕ × Result A D))
      → first_error {B = B} (later x) (some (0, err e)) ≡ some (err (of_b e))
  first_error-b e x = ground arith

  first_error-later_ok :
      (a : A) (y : Option (ℕ × Result B E))
      → first_error {D = D} (some (0, ok a)) (later y) ≡ first_error (some (0, ok a)) y
  first_error-later_ok a y = ground arith

  first_error-ok_later :
      (b : B) (x : Option (ℕ × Result A D))
      → first_error {E = E} (later x) (some (0, ok b)) ≡ first_error x (some (0, ok b))
  first_error-ok_later b x = ground arith

module _ {ℓ κ} {C : Type κ} {F G A B D E : Type ℓ} (poll_a : C → F → Poll (Result A D) × F)
    (poll_b : C → G → Poll (Result B E) × G) where
  abbrev Agrees : List C → ReadyOrNot F A → ReadyOrNot G B → Type ℓ
  Agrees cs s t =
      drive (poll poll_a poll_b) cs (polling s t)
      ≡ returns (first_error (ends_slot poll_a cs s) (ends_slot poll_b cs t))

  abbrev joined : ReadyOrNot F A → ReadyOrNot G B → Bool
  joined (finished a) (finished b) = true
  joined (finished a) (future g) = false
  joined (future f) t = false

  round :
      (cx : C) (cs : List C) (s : ReadyOrNot F A) (t : ReadyOrNot G B) (s' : Tried F A D)
      (t' : Tried G B E)
      → try_slot poll_a cx s ≡ s'
      → try_slot poll_b cx t ≡ t'
      → Fits poll_a cs s' (ends_slot poll_a (cx ∷ cs) s)
      → Fits poll_b cs t' (ends_slot poll_b (cx ∷ cs) t)
      → ((a : ReadyOrNot F A) (b : ReadyOrNot G B) → joined a b ≡ false → Agrees cs a b)
      → Agrees (cx ∷ cs) s t
  unfolding drive poll
  round cx cs s t (failed d f) t' p q x y ih =
      rw (p, after_a, x) (ap returns (sym (first_error-a d (ends_slot poll_b (cx ∷ cs) t))))
  round cx cs s t (settled (finished a)) (failed e g) p q x y ih =
      rw (p, after_a, q, after_b, x, y) refl
  round cx cs s t (settled (future f)) (failed e g) p q x y ih =
      rw (p, after_a, q, after_b, x, y) (ap returns (sym (first_error-b e (ends poll_a cs f))))
  round cx cs s t (settled (finished a)) (settled (finished b)) p q x y ih =
      rw (p, after_a, q, after_b, finish, x, y) refl
  round cx cs s t (settled (finished a)) (settled (future g)) p q x y ih =
      rw (p, after_a, q, after_b, finish, x, y)
        (unfold ends_slot in
          ih (finished a) (future g) refl
          ∙ ap returns (sym (first_error-later_ok a (ends poll_b cs g))))
  round cx cs s t (settled (future f)) (settled (finished b)) p q x y ih =
      rw (p, after_a, q, after_b, finish, x, y)
        (unfold ends_slot in
          ih (future f) (finished b) refl
          ∙ ap returns (sym (first_error-ok_later b (ends poll_a cs f))))
  round cx cs s t (settled (future f)) (settled (future g)) p q x y ih =
      rw (p, after_a, q, after_b, finish, x, y)
        (unfold ends_slot in
          ih (future f) (future g) refl
          ∙ ap returns (sym (first_error-later (ends poll_a cs f) (ends poll_b cs g))))

  drive-polling :
      (cs : List C) (s : ReadyOrNot F A) (t : ReadyOrNot G B) → joined s t ≡ false → Agrees cs s t
  unfolding drive ends ends_slot
  drive-polling [] (finished a) (finished b) e = cc
  drive-polling [] (finished a) (future g) e = refl
  drive-polling [] (future f) (finished b) e = refl
  drive-polling [] (future f) (future g) e = refl
  drive-polling (cx ∷ cs) s t e =
      round cx cs s t (try_slot poll_a cx s) (try_slot poll_b cx t) refl refl
        (try_slot-Fits poll_a cx cs s) (try_slot-Fits poll_b cx cs t)
        (λ a b j. drive-polling cs a b j)

  -- Whatever the two futures do, a caller that polls `try_join2` until it is ready meets no panic.
  -- It gets both values if both futures end well when polled alone with the same contexts. If one of
  -- them ends with an error it gets that error, marked with its side, whether or not the other ever
  -- ends; if both do, the error of the earlier round, and that of `a` if they come in one round.
  -- Otherwise it gets nothing.
  pub drive-try_join2 :
      (cs : List C) (a : F) (b : G)
      → drive (poll poll_a poll_b) cs (new a b)
        ≡ returns (first_error (ends poll_a cs a) (ends poll_b cs b))
  unfolding new ends_slot
  drive-try_join2 cs a b = drive-polling cs (future a) (future b) refl
