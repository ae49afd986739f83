-- ===== src/BlockParty/Pool/Mails/Run.antt =====
-- Runs of the worker of block_party/src/pool.rs, turn by turn.
use kiruna.Base.{
  ℕ, ◌+◌, ◌≤◌, List, [], ◌∷◌, ◌++◌, map, map-append, returns, Bool, ◌==◌, if◌then◌else◌, ◌≡◌, inl,
  inr, refl, ap, sym, ◌∙◌, subst, arith, total-append, All, All-append,
}
use kiruna.BlockParty.Pool.{WakeResult, WorkerSideInfo, Worker, read_greedy, begin}
use kiruna.BlockParty.Pool.Mails.{
  Event, arrives, turns, occurs, mailbox_of, run, arrived, mailed, places, greedy,
}
use kiruna.BlockParty.Pool.Mails.Turns.{
  Answers, Sound, Own, Meets, Rightly, Turned, turn-receives, turn-waits,
}

module _ {T O : Type 0} (Belongs : T → ℕ → Type 0) (Says : T → O → Type 0) where
  turn-Turned :
      (one_wait_only : Bool) (wait_any : List T → WakeResult O) (w : Worker T ℕ O)
      (infos : List (WorkerSideInfo T ℕ))
      → Rightly Belongs Says w infos
      → Sound Belongs Says (turns wait_any)
      → Turned Belongs Says one_wait_only (wait_any (read_greedy w).tasks) w
  turn-Turned one_wait_only wait_any w [] r sound = turn-receives Belongs Says one_wait_only _ w r
  turn-Turned one_wait_only wait_any w (x ∷ infos) r sound =
      let all = (x ∷ infos) ++ w.receiver in
      let asked : (read_greedy w).tasks ≡ map (λ k. k.task) all =
        ap (λ v. v.tasks) (greedy w (x ∷ infos) r.keeps) in
      turn-waits Belongs Says one_wait_only _ w x infos r (
        subst (λ ts. Answers Belongs Says ts (wait_any ts)) (sym asked)
          (sound x.task (map (λ k. k.task) (infos ++ w.receiver))))

  -- What a run comes to: every mailbox is where it was, or has come with a task, and each mail that has
  -- been sent is right.
  abbrev Moved : Bool → List (Event T O) → Worker T ℕ O → Type 0
  Moved one_wait_only es w =
      (w' : Worker T ℕ O) × (rest : List (Event T O)) × (run one_wait_only es w
        ≡ returns (w', rest))
      × ((m : ℕ) → places m w' + occurs m (arrived rest) ≡ places m w + occurs m (arrived es))
      × All (Meets Belongs Says) w'.mails

  run-Moved :
      (one_wait_only : Bool) (es : List (Event T O)) (w : Worker T ℕ O)
      (infos : List (WorkerSideInfo T ℕ))
      → Rightly Belongs Says w infos
      → All (Sound Belongs Says) es
      → Moved one_wait_only es w
  run-Moved one_wait_only [] w infos r sound = (w, [], refl, λ m. refl, r.met)
  run-Moved one_wait_only (arrives i ∷ es) w infos r sound =
      let v : Worker T ℕ O = record w { receiver = w.receiver ++ (i ∷ []) } in
      let (w', rest, ran, moved, met) =
        run-Moved one_wait_only es v infos
          (record {
            keeps = record { in_tasks = r.keeps.in_tasks; in_mailboxes = r.keeps.in_mailboxes };
            own = r.own;
            own_receiver =
                All-append (Own Belongs Says) w.receiver (i ∷ []) r.own_receiver (sound.0, tt);
            met = r.met;
          })
          sound.1 in
      (
        w',
        rest,
        ran,
        λ m.
            let unit : ℕ → ℕ = λ n. if n == m then 1 else 0 in
            let more : occurs m (map mailbox_of v.receiver)
                ≡ occurs m (map mailbox_of w.receiver) + (unit i.mailbox + 0) =
              ap (occurs m) (map-append mailbox_of w.receiver (i ∷ []))
              ∙ total-append unit (map mailbox_of w.receiver) (i.mailbox ∷ []) in
            omega (arith, moved m, more),
        met,
      )
  run-Moved one_wait_only (turns wait_any ∷ es) w infos r sound =
      elim (turn-Turned one_wait_only wait_any w infos r sound.0) [
        | inl ended ↦ (w, es, rw ended refl, λ m. refl, r.met)
        | inr (v, infos', turned, k, same) ↦
            let (w', rest, ran, moved, met) = run-Moved one_wait_only es v infos' k sound.1 in
            (w', rest, rw turned ran, λ m. omega (arith, moved m, same m), met)
      ]

  -- A worker starts with nothing to do, tasks arrive with their mailboxes, and `wait_any` only ever
  -- names a task that it was shown, with an output of it. The worker panics in no turn. At every time
  -- each mailbox that has arrived is in exactly one place, as often as it has arrived: it has got mail,
  -- its task is waited for, or it is still in the channel. So no mailbox is lost, and one that arrives
  -- once never gets a second mail, which its assertion would refuse. Each mail is an output of a task
  -- that its mailbox came with.
  pub run-mails :
      (one_wait_only : Bool) (es : List (Event T O))
      → All (Sound Belongs Says) es
      → (w' : Worker T ℕ O) × (rest : List (Event T O)) × (run one_wait_only es (begin [])
          ≡ returns (w', rest))
        × ((m : ℕ) → places m w' + occurs m (arrived rest) ≡ occurs m (arrived es))
        × ((m : ℕ) → occurs m (mailed w') ≤ occurs m (arrived es))
        × All (Meets Belongs Says) w'.mails
  unfolding begin read_greedy
  run-mails one_wait_only es sound =
      let (w', rest, ran, moved, met) =
        run-Moved one_wait_only es (begin []) []
          (record {
            keeps = record { in_tasks = refl; in_mailboxes = refl };
            own = tt;
            own_receiver = tt;
            met = tt;
          })
          sound in
      (w', rest, ran, λ m. omega (arith, moved m), λ m. omega (arith, moved m), met)
