-- ===== src/Tpc/Platform/Kernels.antt =====
-- The semaphores of the systems as plain numbers: the interfaces of `Macos` and `Windows` can hold.
use kiruna.Base.{
  ℕ, zero, suc, ◌+◌, ◌<◌, ◌==◌, ltb, true, if◌then◌else◌, Option, none, some, Result, ok, err, ◌≡◌,
  refl, ap, arith,
}
use kiruna.Tpc.Platform.Macos.{DispatchSemaphore}
use kiruna.Tpc.Platform.Windows.{WinSemaphore}

abbrev pub wait_now : ℕ → ℕ × ℕ
wait_now zero = (49, 0)
wait_now (suc n) = (0, n)

abbrev pub wait_forever : ℕ → Option (ℕ × ℕ)
wait_forever zero = none
wait_forever (suc n) = some (0, n)

pub wait_now-zero : (s t : ℕ) → wait_now s ≡ (0, t) → s ≡ t + 1
wait_now-zero zero t e = cc
wait_now-zero (suc s) t e = let same : s ≡ t = ap (λ p. p.1) e in omega arith

pub wait_now-suc : (s t n : ℕ) → wait_now s ≡ (suc n, t) → s ≡ 0
wait_now-suc zero t n e = refl
wait_now-suc (suc s) t n e = cc

abbrev pub plain : DispatchSemaphore
plain = record {
  State = ℕ;
  count = λ s. s;
  new = λ n. n;
  signal = λ s. s + 1;
  wait_now = wait_now;
  wait_forever = wait_forever;
  count-new = λ n. refl;
  count-signal = λ s. refl;
  wait_now-zero = wait_now-zero;
  wait_now-suc = wait_now-suc;
  wait_forever-suc = λ s n e. (n, rw e refl, refl);
  wait_forever-zero = λ s z. rw z refl;
}

pub record Limited : Type 0 where
  pub count : ℕ
  pub limit : ℕ

abbrev pub release : Limited → Result Limited ℕ
release s = if ltb s.count s.limit then ok (record s { count = s.count + 1 }) else err 298

abbrev pub wait : Limited → ℕ → Option (ℕ × Limited)
wait s time = elim s.count [
  | zero ↦ if time == 0 then some (258, s) else none
  | suc n ↦ some (0, record s { count = n })
]

abbrev pub create : (initial most : ℕ) → Result Limited ℕ
create initial most = ok (record { count = initial; limit = most })

pub create_lem : (n m : ℕ) (s : Limited) → create n m ≡ ok s → (s.count ≡ n) × (s.limit ≡ m)
create_lem n m s e = (ground arith, ground arith)

pub release_lem :
    (s : Limited)
    → s.count < s.limit
    → (t : Limited) × (release s ≡ ok t) × (t.count ≡ s.count + 1) × (t.limit ≡ s.limit)
release_lem s below =
    let room : ltb s.count s.limit ≡ true = ground arith in
    (record s { count = s.count + 1 }, rw room refl, refl, refl)

abbrev pub limited : WinSemaphore
limited = record {
  State = Limited;
  count = λ s. s.count;
  limit = λ s. s.limit;
  create = create;
  release = release;
  wait = wait;
  create_lem = create_lem;
  release_lem = release_lem;
  wait-suc = λ s n time e. (record s { count = n }, rw e refl, refl, refl);
  wait-now = λ s z. rw z refl;
  wait-forever = λ s z. rw z refl;
}
