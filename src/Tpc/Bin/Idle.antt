-- ===== src/Tpc/Bin/Idle.antt =====
-- From the timer of tpc/src/bin.rs, through its idle messages, to the workers that shut down.
use kiruna.Base.{
  ℕ, zero, suc, ◌-◌, ◌/◌, ◌≤◌, ◌<◌, ◌^◌, ltb, List, [], ◌∷◌, replicate, length-replicate, Outcome,
  returns, ◌>>=◌, true, ◌≡◌, refl, ap, ◌∙◌, subst, arith,
}
use kiruna.Tpc.Global.{GlobalState, to_u64, read_thread_counts, of_u64-small}
use kiruna.Tpc.Channel.Platform.{Semaphore, ArrayQueue}
use kiruna.Tpc.Channel.Levels.{view, Holds}
use kiruna.Tpc.Bin.{
  ThreadMessage, idle, runs, polls, stays, shuts_down, sleeps, Bin, user_waiting_bin,
  user_waiting_timer_callback, send_each, obey, turn,
}
use kiruna.Tpc.Bin.Workers.{consider_shutdown-many}
use kiruna.Tpc.Bin.Spawning.{Loaded, send_each-Loaded, Loaded-view, user_waiting_bin-Loaded}
use kiruna.Tpc.Bin.Spawning.Drain.{turn-first, turn-none}

-- Turns of workers that have had nothing useful to do for long, one after the other: how many of them
-- shut down. It stops where a worker has something else to do.
abbrev pub late_turns :
    (S : Semaphore) {Job : Type 0} (Q : ArrayQueue (ThreadMessage Job))
    → ℕ
    → Bin S Q
    → Outcome (ℕ × Bin S Q)
late_turns S Q zero b = returns (0, b)
late_turns S Q (suc n) b = turn S Q true b >>= elim [
  | shuts_down b' ↦ late_turns S Q n b' >>= λ (k, b''). returns (suc k, b'')
  | stays b' ↦ late_turns S Q n b'
  | runs job b' ↦ returns (0, b')
  | polls future b' ↦ returns (0, b')
  | sleeps ↦ returns (0, b)
]

module _ (S : Semaphore) {Job : Type 0} (Q : ArrayQueue (ThreadMessage Job)) where
  late_turns-shut_down :
      (n : ℕ) (b : Bin S Q)
      → view S Q b.channel ≡ [] ∷ replicate n idle ∷ []
      → Holds S Q b.channel
      → b.state.thread_counts < 2 ^ 16
      → n < b.state.thread_counts
      → (b' : Bin S Q) × (late_turns S Q n b ≡ returns (n, b'))
        × (b'.state.thread_counts ≡ b.state.thread_counts - n)
        × (turn S Q true b' ≡ returns sleeps)
  unfolding obey
  late_turns-shut_down zero b v h small many = (b, refl, omega arith, turn-none S Q true b v h)
  late_turns-shut_down (suc n) b v h small many =
      let (c, t, v', k) = turn-first S Q true idle (replicate n idle) b v h in
      let fewer : Bin S Q = record b {
        channel = c;
        state = record b.state { thread_counts = b.state.thread_counts - 1 };
      } in
      let (b', ran, left, asleep) = late_turns-shut_down n fewer v' k (omega arith) (omega arith) in
      (
        b',
        rw (t, consider_shutdown-many b.state small (omega arith), ran) refl,
        omega (arith, left),
        asleep,
      )

  user_waiting_timer_callback-asks :
      (b : Bin S Q) (n : ℕ)
      → (read_thread_counts b.state).user_waiting ≡ n
      → 2 ≤ n
      → user_waiting_timer_callback S Q b ≡ send_each S Q (replicate (n / 2) idle) b
  unfolding user_waiting_timer_callback
  user_waiting_timer_callback-asks b n counts two =
      let several : ltb 1 n ≡ true = ground arith in rw (counts, several) refl

  -- A tick of the timer lets every other worker go: with n workers, at least 2 and fewer than 2^16, it
  -- sends n / 2 idle messages to the bin, without a panic; as many workers that have had nothing
  -- useful to do for long then shut down, one for each message, n - n / 2 remain, which is at least
  -- one, and the next worker that looks for a message sleeps.
  pub user_waiting_timer_callback-halves :
      (state : GlobalState) (n : ℕ)
      → state.thread_counts ≡ to_u64 (record { user_waiting = n })
      → 2 ≤ n
      → n < 2 ^ 16
      → (b b' : Bin S Q) × (user_waiting_timer_callback S Q (user_waiting_bin S Q state)
          ≡ returns b)
        × (view S Q b.channel ≡ [] ∷ replicate (n / 2) idle ∷ [])
        × (late_turns S Q (n / 2) b ≡ returns (n / 2, b'))
        × ((read_thread_counts b'.state).user_waiting ≡ n - n / 2)
        × (1 ≤ n - n / 2)
        × (turn S Q true b' ≡ returns sleeps)
  unfolding user_waiting_bin read_thread_counts to_u64
  user_waiting_timer_callback-halves state n word two small =
      let asked : List (ThreadMessage Job) = replicate (n / 2) idle in
      let counts : (read_thread_counts state).user_waiting ≡ n =
        of_u64-small state.thread_counts (omega (arith, word)) ∙ word in
      let (b, sends, l, kept) =
        send_each-Loaded S Q asked [] (1_000_000 - n / 2) (user_waiting_bin S Q state) (
          subst (Loaded S Q (user_waiting_bin S Q state).channel [])
            (omega (arith, length-replicate {A = ThreadMessage Job} (n / 2) idle))
            (user_waiting_bin-Loaded S Q state)) in
      let count : b.state.thread_counts ≡ n = ap (λ g. g.thread_counts) kept ∙ word in
      let v = Loaded-view S Q b.channel asked _ l in
      let (b', ran, left, asleep) =
        late_turns-shut_down (n / 2) b v l.holds (omega (arith, count)) (omega (arith, count)) in
      (
        b,
        b',
        user_waiting_timer_callback-asks (user_waiting_bin S Q state) n counts two ∙ sends,
        v,
        ran,
        of_u64-small b'.state.thread_counts (omega (arith, left, count))
            ∙ omega (arith, left, count),
        omega arith,
        asleep,
      )
