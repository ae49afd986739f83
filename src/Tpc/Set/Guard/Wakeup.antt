-- ===== src/Tpc/Set/Guard/Wakeup.antt =====
-- The wakeups of tpc/src/set.rs under many threads: the jobs of a set end on the threads of the pool
-- while its guard is polled on another. `woken` holds the wakers that were woken since the last poll
-- began.
use kiruna.Base.{
  ℕ, zero, suc, ◌+◌, ◌≤◌, List, [], ◌∷◌, ◌++◌, Option, none, some, ◌≡◌, ◌⊎◌, inl, inr, refl, sym,
  ap, ◌∙◌, subst, arith, total, total-middle, Has, Has-append_left, Has-append_right, replicate,
}
use kiruna.Base.AtomicWaker.{AtomicWaker}

-- A job is in its closure or its future, between its `fetch_sub` and its wake, or at its end.
pub data Job : Type 0 where
  running waking finished : Job

-- The guard between polls, or inside a poll: before it registers its waker, and before the load that
-- follows.
pub data Guard : Type 0 where
  idle : Guard
  registering registered waiting : (waker : ℕ) → Guard
  ready : Guard

abbrev pub to_list : Option ℕ → List ℕ
to_list none = []
to_list (some w) = w ∷ []

module _ (A : AtomicWaker) where
  pub record Shared : Type 0 where
    pub children_remaining : ℕ
    pub waker : A.State
    pub woken : List ℕ

  pub record System : Type 0 where
    pub shared : Shared
    pub jobs : List Job
    pub guard : Guard

  -- A step of a job.
  pub data Work (m : Shared) : Job → Shared → Job → Type 0 where
    ends_last :
        m.children_remaining ≡ 1 → Work m running (record m { children_remaining = 0 }) waking
    ends :
        (n : ℕ)
        → m.children_remaining ≡ n + 2
        → Work m running (record m { children_remaining = n + 1 }) finished
    wakes :
        Work m waking
          (record m { waker = A.take m.waker; woken = m.woken ++ to_list (A.held m.waker) })
          finished

  -- A step of the guard. `InternalGuard::poll` loads the counter before it registers its waker,
  -- `SimpleGuard::poll` does not.
  pub data Poll (m : Shared) : Guard → Shared → Guard → Type 0 where
    begins :
        {g : Guard} (w : ℕ)
        → (g ≡ idle) ⊎ ((k : ℕ) × (g ≡ waiting k))
        → Poll m g (record m { woken = [] }) (registering w)
    sees_early : {w : ℕ} → m.children_remaining ≡ 0 → Poll m (registering w) m ready
    registers :
        {w : ℕ} → Poll m (registering w) (record m { waker = A.register w m.waker }) (registered w)
    sees_zero : {w : ℕ} → m.children_remaining ≡ 0 → Poll m (registered w) m ready
    sees_more : {w : ℕ} → 1 ≤ m.children_remaining → Poll m (registered w) m (waiting w)

  pub data Step (s t : System) : Type 0 where
    works :
        (before after : List Job) {j j' : Job} {m' : Shared}
        → s.jobs ≡ before ++ (j ∷ after)
        → Work s.shared j m' j'
        → t.shared ≡ m'
        → t.jobs ≡ before ++ (j' ∷ after)
        → t.guard ≡ s.guard
        → Step s t
    polls :
        {m' : Shared} {g' : Guard}
        → Poll s.shared s.guard m' g'
        → t.shared ≡ m'
        → t.guard ≡ g'
        → t.jobs ≡ s.jobs
        → Step s t

  -- `n` jobs that were handed to the pool.
  abbrev pub init : ℕ → System
  init n = record {
    shared = record { children_remaining = n; waker = A.new; woken = [] };
    jobs = replicate n running;
    guard = idle;
  }

  pub data Reach (n : ℕ) : System → Type 0 where
    start : Reach n (init n)
    later : {s t : System} → Reach n s → Step s t → Reach n t

  abbrev pub runs : Job → ℕ
  runs running = 1
  runs _ = 0

  abbrev pub wakings : Job → ℕ
  wakings waking = 1
  wakings _ = 0

  -- What the guard relies on, when `w` jobs are about to wake.
  abbrev Served : Shared → ℕ → Guard → Type 0
  Served m w idle = Unit
  Served m w (registering k) = Unit
  Served m w (registered k) = (A.held m.waker ≡ some k) ⊎ Has k m.woken
  Served m w (waiting k) =
      ((A.held m.waker ≡ some k) × (1 ≤ m.children_remaining + w)) ⊎ Has k m.woken
  Served m w ready = m.children_remaining ≡ 0

  woken-Has :
      (m : Shared) (v : ℕ) → A.held m.waker ≡ some v → Has v (m.woken ++ to_list (A.held m.waker))
  woken-Has m v h = Has-append_right v m.woken _ (subst (λ o. Has v (to_list o)) (sym h) (inl refl))

  Work-runs :
      (m m' : Shared) (j j' : Job) (r : ℕ)
      → Work m j m' j'
      → runs j + r ≡ m.children_remaining
      → runs j' + r ≡ m'.children_remaining
  Work-runs m m' j j' r (ends_last e) h = omega (arith, e, h)
  Work-runs m m' j j' r (ends n e) h = omega (arith, e, h)
  Work-runs m m' j j' r wakes h = h

  Work-Served :
      (m m' : Shared) (j j' : Job) (w : ℕ) (g : Guard)
      → Work m j m' j'
      → Served m (wakings j + w) g
      → Served m' (wakings j' + w) g
  Work-Served m m' j j' w idle k h = tt
  Work-Served m m' j j' w (registering v) k h = tt
  Work-Served m m' j j' w (registered v) (ends_last e) h = h
  Work-Served m m' j j' w (registered v) (ends n e) h = h
  Work-Served m m' j j' w (registered v) wakes (inl h) = inr (woken-Has m v h)
  Work-Served m m' j j' w (registered v) wakes (inr h) = inr (Has-append_left v m.woken _ h)
  Work-Served m m' j j' w (waiting v) (ends_last e) (inl h) = inl (h.0, omega arith)
  Work-Served m m' j j' w (waiting v) (ends n e) (inl h) = inl (h.0, omega arith)
  Work-Served m m' j j' w (waiting v) (ends_last e) (inr h) = inr h
  Work-Served m m' j j' w (waiting v) (ends n e) (inr h) = inr h
  Work-Served m m' j j' w (waiting v) wakes (inl h) = inr (woken-Has m v h.0)
  Work-Served m m' j j' w (waiting v) wakes (inr h) = inr (Has-append_left v m.woken _ h)
  Work-Served m m' j j' w ready (ends_last e) h = refl
  Work-Served m m' j j' w ready (ends n e) h = absurd (omega (arith, e, h))
  Work-Served m m' j j' w ready wakes h = h

  Poll-Served :
      (m m' : Shared) (w : ℕ) (g g' : Guard)
      → Poll m g m' g'
      → Served m w g
      → (m'.children_remaining ≡ m.children_remaining) × Served m' w g'
  Poll-Served m m' w g g' (begins k e) h = (refl, tt)
  Poll-Served m m' w g g' (sees_early e) h = (refl, e)
  Poll-Served m m' w g g' (registers {w = k}) h = (refl, inl (A.held-register k m.waker))
  Poll-Served m m' w g g' (sees_zero e) h = (refl, e)
  Poll-Served m m' w g g' (sees_more e) (inl h) = (refl, inl (h, omega (arith, e)))
  Poll-Served m m' w g g' (sees_more e) (inr h) = (refl, inr h)

  record Sound (s : System) : Type 0 where
    counted : total runs s.jobs ≡ s.shared.children_remaining
    served : Served s.shared (total wakings s.jobs) s.guard

  total-replicate : (n : ℕ) → total runs (replicate n running) ≡ n
  total-replicate zero = refl
  total-replicate (suc n) = omega (arith, total-replicate n)

  Step-Sound : (s t : System) → Step s t → Sound s → Sound t
  Step-Sound s t (polls {m'} {g'} p c g j) h =
      let (same, v) = Poll-Served s.shared m' (total wakings s.jobs) s.guard g' p h.served in
      record { counted = rw (j, c) (h.counted ∙ sym same); served = rw (j, c, g) v }
  Step-Sound s t (works before after {j} {j'} {m'} w k c w' g) h = record {
    counted =
        rw (w', c, total-middle runs before after j')
          (Work-runs s.shared m' j j' (total runs before + total runs after) k
            (sym (total-middle runs before after j) ∙ ap (total runs) (sym w) ∙ h.counted));
    served =
        rw (w', c, g, total-middle wakings before after j')
          (Work-Served s.shared m' j j' (total wakings before + total wakings after) s.guard k (
            subst (λ x. Served s.shared x s.guard)
              (ap (total wakings) w ∙ total-middle wakings before after j) h.served));
  }

  Reach-Sound : (n : ℕ) {s : System} → Reach n s → Sound s
  Reach-Sound n start = record { counted = total-replicate n; served = tt }
  Reach-Sound n (later {s} {t} r p) = Step-Sound s t p (Reach-Sound n r)

  -- In every interleaving of the jobs of a set with the polls of its guard: when every job has ended
  -- and none is still about to wake, a guard whose last poll was pending has been woken through the
  -- waker of that poll, after the poll began; and a guard that answered ready has no job that still
  -- runs.
  pub Reach-wakes :
      (n : ℕ) (s : System)
      → Reach n s
      → ((k : ℕ)
          → s.guard ≡ waiting k
          → total runs s.jobs + total wakings s.jobs ≡ 0
          → Has k s.shared.woken)
        × (s.guard ≡ ready → total runs s.jobs ≡ 0)
  Reach-wakes n s r =
      let h = Reach-Sound n r in
      (
        λ k g z. ended k z h.counted (subst (Served s.shared (total wakings s.jobs)) g h.served),
        λ g. h.counted ∙ subst (Served s.shared (total wakings s.jobs)) g h.served,
      )
    where
      ended :
          (k : ℕ)
          → total runs s.jobs + total wakings s.jobs ≡ 0
          → total runs s.jobs ≡ s.shared.children_remaining
          → Served s.shared (total wakings s.jobs) (waiting k)
          → Has k s.shared.woken
      ended k z c (inl h) = absurd (omega (arith, z, c, h.1))
      ended k z c (inr h) = h
