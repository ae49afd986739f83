-- ===== src/Tpc/Bin/Workers.antt =====
-- The number of live workers of the thread pool of tpc/src/bin.rs against its counter.
use kiruna.Base.{
  ℕ, zero, suc, ◌+◌, ◌-◌, ◌≤◌, ◌<◌, ◌^◌, min, u16, ltb, leb, if◌then◌else◌, [], Bool, Bool-cases,
  ◌==◌, true, false, length, ◌≡◌, ◌⊎◌, inl, inr, refl, arith, leb→le, leb→lt, ltb→lt,
}
use kiruna.Tpc.Global.{GlobalState, new, to_u64, update_thread_counts, of_u64-small}
use kiruna.Tpc.Bin.{launch, enforce_spare_thread_policy, one_less, consider_shutdown}

-- The state of the pool beside the workers that are alive.
pub record Pool : Type 0 where
  pub state : GlobalState
  pub live : ℕ

-- A caller makes room for tasks: the launched threads live.
abbrev pub expect : ℕ → Pool → Pool
expect coming_soon p =
    let (state, launched) = enforce_spare_thread_policy coming_soon p.state in
    record { state = state; live = p.live + length launched }

-- A live worker receives `Idle`: it returns from its entry point where it shuts down.
abbrev pub idle_worker : Bool → Pool → Pool
idle_worker late p =
    let (state, done) = consider_shutdown late p.state in
    record { state = state; live = if done then p.live - 1 else p.live }

pub data Reach (cpus : ℕ) : Pool → Type 0 where
  start : Reach cpus (record { state = new cpus; live = 0 })
  expects : {p : Pool} (coming_soon : ℕ) → Reach cpus p → Reach cpus (expect coming_soon p)
  idles : {p : Pool} (late : Bool) → 1 ≤ p.live → Reach cpus p → Reach cpus (idle_worker late p)

pub length-launch : (old i n : ℕ) → length (launch old i n) ≡ n
unfolding launch
length-launch old i zero = refl
length-launch old i (suc n) = omega (arith, length-launch old (suc i) n)

pub record Counted (cpus : ℕ) (p : Pool) : Type 0 where
  pub cores : p.state.physical_cpus ≡ cpus
  pub word : p.state.thread_counts ≡ p.live
  pub bound : p.live ≤ cpus

new-Counted : (cpus : ℕ) → Counted cpus (record { state = new cpus; live = 0 })
unfolding new to_u64
new-Counted cpus = record { cores = refl; word = refl; bound = omega arith }

-- A counter that is not behind what is asked for stays.
enforce_spare_thread_policy-cases :
    (coming_soon : ℕ) (g : GlobalState)
    → g.physical_cpus < 2 ^ 16
    → g.thread_counts < 2 ^ 16
    → let proposed = min coming_soon g.physical_cpus in
      ((proposed ≤ g.thread_counts) × (enforce_spare_thread_policy coming_soon g ≡ (g, [])))
      ⊎ ((g.thread_counts < proposed)
          × (enforce_spare_thread_policy coming_soon g ≡ (
            record g { thread_counts = proposed },
            launch g.thread_counts 0 (proposed - g.thread_counts),
          )))
unfolding enforce_spare_thread_policy to_u64
enforce_spare_thread_policy-cases coming_soon g fits small =
    let narrow : u16 (min coming_soon g.physical_cpus) ≡ min coming_soon g.physical_cpus =
      omega arith in
    let read = of_u64-small g.thread_counts small in
    elim (Bool-cases (leb (min coming_soon g.physical_cpus) g.thread_counts)) [
      | inl e ↦
          inl
            (leb→le (min coming_soon g.physical_cpus) g.thread_counts e, rw (narrow, read, e) refl)
      | inr e ↦
          inr
            (leb→lt (min coming_soon g.physical_cpus) g.thread_counts e, rw (narrow, read, e) refl)
    ]

pub consider_shutdown-many :
    (g : GlobalState)
    → g.thread_counts < 2 ^ 16
    → 1 < g.thread_counts
    → consider_shutdown true g ≡ (record g { thread_counts = g.thread_counts - 1 }, true)
unfolding consider_shutdown one_less update_thread_counts to_u64
consider_shutdown-many g small many =
    let read = of_u64-small g.thread_counts small in
    let above : ltb 1 g.thread_counts ≡ true = ground arith in
    let moved : (g.thread_counts == (g.thread_counts - 1)) ≡ false = ground arith in
    rw (read, above, moved) refl

consider_shutdown-cases :
    (late : Bool) (g : GlobalState)
    → g.thread_counts < 2 ^ 16
    → (consider_shutdown late g ≡ (g, false))
      ⊎ ((1 < g.thread_counts)
          × (consider_shutdown late g ≡ (record g { thread_counts = g.thread_counts - 1 }, true)))
unfolding consider_shutdown one_less update_thread_counts to_u64
consider_shutdown-cases false g small = inl refl
consider_shutdown-cases true g small =
    let read = of_u64-small g.thread_counts small in
    elim (Bool-cases (ltb 1 g.thread_counts)) [
      | inl e ↦
          let many : 1 < g.thread_counts = ltb→lt 1 g.thread_counts e in
          inr (many, consider_shutdown-many g small many)
      | inr e ↦
          let same : (g.thread_counts == g.thread_counts) ≡ true = ground arith in
          inl (rw (read, e, same) refl)
    ]

expect-Counted :
    (cpus coming_soon : ℕ) (p : Pool)
    → cpus < 2 ^ 16
    → Counted cpus p
    → Counted cpus (expect coming_soon p) × (min coming_soon cpus ≤ (expect coming_soon p).live)
expect-Counted cpus coming_soon p fits h =
    elim (enforce_spare_thread_policy-cases coming_soon p.state (omega (arith, h.cores))
      (omega (arith, h.word, h.bound))) [
        | inl (enough, e) ↦ rw e (
          record { cores = h.cores; word = omega (arith, h.word); bound = omega (arith, h.bound) },
          omega (arith, h.cores, h.word),
        )
        | inr (more, e) ↦
            let n =
              length-launch p.state.thread_counts 0
                (min coming_soon p.state.physical_cpus - p.state.thread_counts) in
            rw (e, n)
              (
                record {
                  cores = h.cores;
                  word = omega (arith, h.word);
                  bound = omega (arith, h.word, h.cores);
                },
                omega (arith, h.cores, h.word),
              )
      ]

idle_worker-Counted :
    (cpus : ℕ) (late : Bool) (p : Pool)
    → cpus < 2 ^ 16
    → Counted cpus p
    → 1 ≤ p.live
    → Counted cpus (idle_worker late p) × (1 ≤ (idle_worker late p).live)
idle_worker-Counted cpus late p fits h alive =
    elim (consider_shutdown-cases late p.state (omega (arith, h.word, h.bound))) [
      | inl e ↦ rw e (record { cores = h.cores; word = h.word; bound = h.bound }, alive)
      | inr (many, e) ↦ rw e (
        record { cores = h.cores; word = omega (arith, h.word); bound = omega (arith, h.bound) },
        omega (arith, h.word),
      )
    ]

Reach-Counted : (cpus : ℕ) → cpus < 2 ^ 16 → {p : Pool} → Reach cpus p → Counted cpus p
Reach-Counted cpus fits start = new-Counted cpus
Reach-Counted cpus fits (expects n r) = (expect-Counted cpus n _ fits (Reach-Counted cpus fits r)).0
Reach-Counted cpus fits (idles late alive r) =
    (idle_worker-Counted cpus late _ fits (Reach-Counted cpus fits r) alive).0

-- From the start of the program, whatever tasks are announced and whichever idle messages the
-- workers receive, the counter of the global state is the number of live workers, and there are
-- never more of them than processors. After `coming_soon` tasks are announced there are at least as
-- many workers as tasks or as processors, and no idle message takes the last worker away. The number
-- of processors fits 16 bits.
pub Reach-workers :
    (cpus : ℕ) (p : Pool)
    → cpus < 2 ^ 16
    → Reach cpus p
    → (p.state.thread_counts ≡ p.live)
      × (p.live ≤ cpus)
      × ((coming_soon : ℕ) → min coming_soon cpus ≤ (expect coming_soon p).live)
      × ((late : Bool) → 1 ≤ p.live → 1 ≤ (idle_worker late p).live)
Reach-workers cpus p fits r =
    let h = Reach-Counted cpus fits r in
    (
      h.word,
      h.bound,
      λ n. (expect-Counted cpus n p fits h).1,
      λ late alive. (idle_worker-Counted cpus late p fits h alive).1,
    )
