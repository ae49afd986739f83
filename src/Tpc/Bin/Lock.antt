-- ===== src/Tpc/Bin/Lock.antt =====
-- tpc/src/bin.rs: `OurFuture::poll` under many workers. `queued` counts the `Work` messages of one
-- future, and `signalled` tells whether it was woken since a poll last began. The wakers are in
-- `Waker`; the future itself decides when it is woken.
use kiruna.Base.{
  ℕ, zero, suc, ◌+◌, ◌-◌, ◌≤◌, List, [], ◌∷◌, ◌++◌, Bool, true, false, ◌≡◌, refl, arith, total,
  total-middle, ap, subst, sym, ◌∙◌,
}

-- Where a worker stands: elsewhere, before the `compare_exchange` with a message in hand, or in the
-- poll of the underlying future.
pub data Pc : Type 0 where
  away holding polling : Pc

pub record Shared : Type 0 where
  pub locked : Bool
  pub queued : ℕ
  pub signalled : Bool

-- `OurFuture::new`, and the message that spawns it.
abbrev pub fresh : Shared
fresh = record { locked = false; queued = 1; signalled = true }

pub data Move (m : Shared) : Pc → Shared → Pc → Type 0 where
  take : 1 ≤ m.queued → Move m away (record m { queued = m.queued - 1 }) holding
  acquire :
      m.locked ≡ false → Move m holding (record m { locked = true; signalled = false }) polling
  retry : m.locked ≡ true → Move m holding (record m { queued = m.queued + 1 }) away
  release : Move m polling (record m { locked = false }) away
  wakes : (p : Pc) → Move m p (record m { queued = m.queued + 1; signalled = true }) p

pub record System : Type 0 where
  pub shared : Shared
  pub workers : List Pc

pub data Step (s t : System) : Type 0 where
  moves :
      (before after : List Pc) {p p' : Pc} {m' : Shared}
      → s.workers ≡ before ++ (p ∷ after)
      → Move s.shared p m' p'
      → t.shared ≡ m'
      → t.workers ≡ before ++ (p' ∷ after)
      → Step s t

abbrev pub all_away : ℕ → List Pc
all_away zero = []
all_away (suc n) = away ∷ all_away n

pub data Reach (n : ℕ) : System → Type 0 where
  start : Reach n (record { shared = fresh; workers = all_away n })
  later : {s t : System} → Reach n s → Step s t → Reach n t

abbrev pub polls : Pc → ℕ
polls polling = 1
polls _ = 0

abbrev pub holds : Pc → ℕ
holds holding = 1
holds _ = 0

abbrev pub bit : Bool → ℕ
bit true = 1
bit false = 0

bit-le : (b : Bool) → bit b ≤ 1
bit-le true = omega arith
bit-le false = omega arith

total-all_away : (n : ℕ) → (total polls (all_away n) ≡ 0) × (total holds (all_away n) ≡ 0)
total-all_away zero = (refl, refl)
total-all_away (suc n) = (omega (arith, (total-all_away n).0), omega (arith, (total-all_away n).1))

Move-Sound :
    (m m' : Shared) (p p' : Pc) (a h : ℕ)
    → Move m p m' p'
    → polls p + a ≡ bit m.locked
    → bit m.signalled ≤ m.queued + (holds p + h)
    → (polls p' + a ≡ bit m'.locked) × (bit m'.signalled ≤ m'.queued + (holds p' + h))
Move-Sound m m' p p' a h (take q) e k = (e, omega (arith, q, k))
Move-Sound m m' p p' a h (acquire q) e k = (omega (arith, e, ap bit q), omega arith)
Move-Sound m m' p p' a h (retry q) e k = (e, omega (arith, k))
Move-Sound m m' p p' a h release e k = (omega (arith, e, bit-le m.locked), k)
Move-Sound m m' p p' a h (wakes _) e k = (e, omega (arith, k))

-- However many workers there are and however their steps and the wakeups interleave, at most one
-- worker polls the future at a time, and exactly where the lock is taken. A wakeup is not lost: until
-- a poll begins after it, a message for the future is queued or in the hands of a worker.
pub Reach-excludes :
    (n : ℕ) (s : System)
    → Reach n s
    → (total polls s.workers ≡ bit s.shared.locked)
      × (bit s.shared.signalled ≤ s.shared.queued + total holds s.workers)
Reach-excludes n s start = let (a, b) = total-all_away n in (a, omega (arith, b))
Reach-excludes n t (later {s} r (moves before after {p} {p'} {m'} w m c w')) =
    let (e, k) = Reach-excludes n s r in
    let (e', k') =
      Move-Sound s.shared m' p p' (total polls before + total polls after)
        (total holds before + total holds after) m
        (sym (total-middle polls before after p) ∙ ap (total polls) (sym w) ∙ e)
        (subst (λ x. bit s.shared.signalled ≤ s.shared.queued + x)
          (ap (total holds) w ∙ total-middle holds before after p) k) in
    rw (c, w', total-middle polls before after p', total-middle holds before after p') (e', k')
