-- ===== src/Tpc/Set/Pool/Build.antt =====
-- `set_sync` of tpc/src/set/vec.rs on the workers of tpc/src/bin.rs: the polls of its guard, the
-- messages that they send, the turns of a worker, and the jobs that it runs.
use kiruna.Base.{
  ℕ, zero, suc, ◌+◌, ◌-◌, ◌≤◌, ◌<◌, ◌^◌, u32, List, [], ◌∷◌, map, length, length-map, Bool, false,
  All, Has, inl, inr, none, some, ready, Outcome, returns, ◌>>=◌, >>=-eq-returns, ◌≡◌, refl, ap,
  ◌∙◌, subst, arith, ne→==, ◌==◌,
}
use kiruna.Base.Priority.{Priority}
use kiruna.Tpc.Global.{GlobalState}
use kiruna.Tpc.Channel.Platform.{Semaphore, ArrayQueue}
use kiruna.Tpc.Bin.{ThreadMessage, simple, Bin, enforce, turn, sleeps, user_waiting_bin}
use kiruna.Tpc.Bin.Spawning.{
  Loaded, send_each-Loaded, Loaded-view, user_waiting_bin-Loaded, any_priority,
}
use kiruna.Tpc.Bin.Spawning.Drain.{turns, turns-drains}
use kiruna.Tpc.Set.Guard.{finish_one, set_simple_scoped, simple_poll, poll_thunk}
use kiruna.Tpc.Set.Guard.Jobs.{wakes_of}
use kiruna.Tpc.Set.Pool.{numbers, new_job, spawn_jobs-send_each, perform, perform_all, polled}
use kiruna.Tpc.Set.Vec.{
  Strategy, ChildPlan, ChildPlanner, proposed, new, collect, Memory, empty, job, run_jobs,
}
use kiruna.Tpc.Set.Vec.Plan.{Tiles, new-collect}
use kiruna.Tpc.Set.Vec.Fill.{run_jobs-fills}

length-numbers : (n first : ℕ) → length (numbers n first) ≡ n
unfolding numbers
length-numbers zero first = refl
length-numbers (suc n) first = ap suc (length-numbers n (first + 1))

numbers-below : (n first : ℕ) → All (λ i. i < first + n) (numbers n first)
unfolding numbers
numbers-below zero first = tt
numbers-below (suc n) first = (
  omega arith,
  subst (λ e. All (λ i. i < e) (numbers n (first + 1))) (omega arith) (numbers-below n (first + 1)),
)

numbers-Has : (n first k : ℕ) → k < n → Has (first + k) (numbers n first)
unfolding numbers
numbers-Has zero first k h = absurd (omega arith)
numbers-Has (suc n) first zero h = inl (omega arith)
numbers-Has (suc n) first (suc k) h = inr (
    subst (λ i. Has i (numbers n (first + 1))) (omega arith)
      (numbers-Has n (first + 1) k (omega arith)))

wakes_of-suc : (n : ℕ) → (suc n == 1) ∷ wakes_of n ≡ wakes_of (suc n)
wakes_of-suc zero = refl
wakes_of-suc (suc n) =
    ap (λ b. b ∷ wakes_of (suc n)) (ne→== (suc (suc n)) 1 (λ z. omega (arith, z)))

-- The jobs one after another, from a store and a counter, and which of them wake the guard.
abbrev pub new_jobs {ℓ} :
    {M : Type ℓ} → (ℕ → M → Outcome M) → List ℕ → M × ℕ → Outcome ((M × ℕ) × List Bool)
new_jobs creator [] s = returns (s, [])
new_jobs creator (j ∷ order) s = new_job creator j s >>= λ (m, l).
    new_jobs creator order (m, l.children_remaining) >>= λ (end, ws). returns (end, l.wakes ∷ ws)

new_jobs-run_jobs {ℓ} :
    {O : Type ℓ} (f : ℕ → O) (plans : List ChildPlan) (order : List ℕ) (m out : Memory O)
    → length order < 2 ^ 32
    → run_jobs false f plans order m ≡ returns out
    → new_jobs (job false f plans) order (m, length order)
      ≡ returns ((out, 0), wakes_of (length order))
unfolding new_job run_jobs finish_one
new_jobs-run_jobs f plans [] m out small e = ap (λ o. returns ((o, 0), [])) (cc)
new_jobs-run_jobs f plans (i ∷ order) m out small e =
    let (m', one, others) =
      >>=-eq-returns (job false f plans i m) (run_jobs false f plans order) e in
    let rest = new_jobs-run_jobs f plans order m' out (omega arith) others in
    let one_less : u32 (suc (length order) + 0xffffffff) ≡ length order = omega arith in
    rw (one, one_less, rest) (ap (λ ws. returns ((out, 0), ws)) (wakes_of-suc (length order)))

-- The jobs of plans that lie end to end, in the order of their numbers.
new_jobs-fills {ℓ} :
    {O : Type ℓ} (f : ℕ → O) (len : ℕ) (plans : List ChildPlan) (n : ℕ)
    → Tiles 0 len plans
    → length plans ≡ n
    → n < 2 ^ 32
    → (output : Memory O) × (new_jobs (job false f plans) (numbers n 0) (empty, n)
        ≡ returns ((output, 0), wakes_of n))
      × ((j : ℕ) → j < len → output j ≡ some (f j))
      × ((j : ℕ) → len ≤ j → output j ≡ none)
new_jobs-fills f len plans n tiles count small =
    let (output, ran, inside, outside) =
      run_jobs-fills f len plans (numbers n 0) tiles
        (subst (λ e. All (λ i. i < e) (numbers n 0)) (omega (arith, count)) (numbers-below n 0))
        (λ i h.
          subst (λ k. Has k (numbers n 0)) (omega arith)
            (numbers-Has n 0 i (omega (arith, count)))) in
    let run =
      new_jobs-run_jobs f plans (numbers n 0) empty output (omega (arith, length-numbers n 0))
        ran in
    (
      output,
      subst
          (λ k.
            new_jobs (job false f plans) (numbers n 0) (empty, k)
            ≡ returns ((output, 0), wakes_of k))
          (length-numbers n 0) run,
      inside,
      outside,
    )

module _ (S : Semaphore) (Q : ArrayQueue (ThreadMessage ℕ)) where
  -- The first poll of a guard with `n` jobs sends them to level 1 of a new bin.
  simple_poll-Loaded :
      (p : Priority) (state : GlobalState) (n waker remaining : ℕ)
      → n ≤ 1_000_000
      → (b : Bin S Q) × (polled S Q p
            (simple_poll waker remaining (set_simple_scoped n).0).0
            (user_waiting_bin S Q state)
          ≡ returns b)
        × Loaded S Q b.channel (map simple (numbers n 0)) (1_000_000 - n)
  unfolding polled perform_all perform simple_poll set_simple_scoped enforce
  simple_poll-Loaded p state n waker remaining h =
      let (b, same, l, _) =
        send_each-Loaded S Q (map simple (numbers n 0)) [] (1_000_000 - n)
          (enforce S Q n (user_waiting_bin S Q state))
          (subst (Loaded S Q _ [])
            (omega
              (arith, length-map {B = ThreadMessage ℕ} simple (numbers n 0), length-numbers n 0))
            (user_waiting_bin-Loaded S Q state)) in
      (b, any_priority S Q p _ _ ∙ rw (spawn_jobs-send_each S Q (numbers n 0), same) refl, l)

  Loaded-turns :
      (b : Bin S Q) (n room : ℕ)
      → Loaded S Q b.channel (map simple (numbers n 0)) room
      → (b' : Bin S Q) × (turns S Q n b ≡ returns (map simple (numbers n 0), b'))
        × (turn S Q false b' ≡ returns sleeps)
  Loaded-turns b n room l =
      let (b', drained, asleep) =
        turns-drains S Q (map simple (numbers n 0)) b (Loaded-view S Q b.channel _ room l)
          l.holds in
      (
        b',
        subst (λ k. turns S Q k b ≡ returns (map simple (numbers n 0), b'))
            (length-map {B = ThreadMessage ℕ} simple (numbers n 0) ∙ length-numbers n 0) drained,
        asleep,
      )

  -- `set_sync` on the pool, from its call to its vector, for a type whose drop does nothing: for a length and a request of jobs that are
  -- not 0, and of at most 1,000,000 jobs, the planner makes the plans, and the first poll of the guard
  -- sends one job for each of them to a new bin without a panic. A worker that nobody else disturbs
  -- takes every job once, in the order of their numbers, and then sleeps. Run in that order the
  -- jobs bring the counter of the guard from their number to 0, and the last of them alone wakes it. A
  -- poll that then reads the counter is ready, and the slots hold the values that `f` builds for
  -- them, from slot 0 up to `len` and nowhere else.
  pub set_sync-on_pool {ℓ} :
      {O : Type ℓ} (f : ℕ → O) (cpus : ℕ) (s : Strategy) (len : ℕ) (p : Priority)
      (state : GlobalState) (waker remaining : ℕ)
      → 0 < len
      → 0 < proposed cpus s
      → proposed cpus s ≤ 1_000_000
      → (planner : ChildPlanner) × (plans : List ChildPlan) × (b b' : Bin S Q) × (output : Memory O)
        × (new cpus s len ≡ returns planner)
        × (collect (suc planner.target_jobs) planner ≡ some plans)
        × (polled S Q p
              (simple_poll waker remaining (set_simple_scoped (length plans)).0).0
              (user_waiting_bin S Q state)
            ≡ returns b)
        × (turns S Q (length plans) b ≡ returns (map simple (numbers (length plans) 0), b'))
        × (turn S Q false b' ≡ returns sleeps)
        × (new_jobs
              (job false f plans)
              (numbers (length plans) 0)
              (empty, (set_simple_scoped (length plans)).1)
            ≡ returns ((output, 0), wakes_of (length plans)))
        × ((again : ℕ)
            → (simple_poll again 0
                (simple_poll waker remaining (set_simple_scoped (length plans)).0).1.1).1.0
              ≡ ready tt)
        × ((j : ℕ) → j < len → output j ≡ some (f j))
        × ((j : ℕ) → len ≤ j → output j ≡ none)
  unfolding simple_poll set_simple_scoped poll_thunk
  set_sync-on_pool f cpus s len p state waker remaining hl hp few =
      let (planner, plans, made, collected, count, tiles, balanced, work) =
        new-collect cpus s len (omega arith) hl hp in
      let n = length plans in
      let (output, ran, inside, outside) = new_jobs-fills f len plans n tiles refl (omega arith) in
      let (b, sent, l) = simple_poll-Loaded p state n waker remaining (omega arith) in
      let (b', drained, asleep) = Loaded-turns b n _ l in
      (
        planner,
        plans,
        b,
        b',
        output,
        made,
        collected,
        sent,
        drained,
        asleep,
        ran,
        λ again. refl,
        inside,
        outside,
      )
