-- ===== src/Sync/Executor/Some.antt =====
-- `do_some` ends, for futures that have only so many wakes to give.
use kiruna.Base.{
  ℕ, zero, suc, ◌≤◌, ◌<◌, List, [], ◌∷◌, some, returns, length, All, total, ◌≡◌, arith, refl, subst,
  ap,
}
use kiruna.Sync.Executor.{Polled, Executor, recv, do_some}
use kiruna.Sync.Executor.Invariant.{IsValid, present}
use kiruna.Sync.Executor.Turn.{Frugal, cost, do_a_wakeup-cost}

module _ {Fut : Type 0} (poll : ℕ → Fut → Polled Fut) (n : ℕ) (weight : Fut → ℕ)
    (frugal : Frugal poll n weight) where
  -- The loop ends: no message is left, no task has been added or lost its place, and `num_active` counts
  -- those that have not finished.
  abbrev pub Emptied : ℕ → Executor Fut → Type 0
  Emptied fuel e =
      (e' : Executor Fut) × (do_some poll fuel e ≡ returns (some e'))
      × (e'.channel ≡ [])
      × (length e'.tasks ≡ n)
      × (e'.num_active ≡ total present e'.tasks)

  -- The first turn, if there is one, and then the others.
  turn-Emptied :
      (fuel : ℕ) (e : Executor Fut)
      → IsValid e
      → length e.tasks ≡ n
      → cost weight e ≤ fuel
      → ((e1 : Executor Fut)
          → IsValid e1
          → length e1.tasks ≡ n
          → cost weight e1 < fuel
          → Emptied fuel e1)
      → Emptied (suc fuel) e
  unfolding do_some recv
  turn-Emptied fuel e v sized h others = go e.channel refl
    where
      go : (c : List ℕ) → e.channel ≡ c → Emptied (suc fuel) e
      go [] q = (e, cc q, q, sized, v.counted)
      go (i ∷ rest) q =
          let known = subst (All (λ k. k < length e.tasks)) q v.known in
          let waiting : IsValid (record e { channel = rest }) = record {
            few = v.few;
            counted = v.counted;
            known = known.1;
          } in
          let (e1, turned, v1, sized1, cheaper) =
            do_a_wakeup-cost poll n weight frugal (record e { channel = rest }) i known.0 sized
              waiting in
          let (e', ran, empty, sized', counted) =
            others e1 v1 sized1 (omega (arith, cheaper, ap length q)) in
          (e', cc (q, turned, ran), empty, sized', counted)

  -- `do_some` comes back, however the tasks wake each other and whether they finish or not: with one
  -- unit of fuel more than there are messages and wakes to pay for, its loop ends without a panic. Then
  -- the channel is empty, no task has been added or lost its place, and `num_active` still counts
  -- those that have not finished.
  pub do_some-empties :
      (fuel : ℕ) (e : Executor Fut)
      → IsValid e
      → length e.tasks ≡ n
      → cost weight e < fuel
      → Emptied fuel e
  do_some-empties zero e v sized h = absurd (omega arith)
  do_some-empties (suc fuel) e v sized h =
      turn-Emptied fuel e v sized (omega arith) (do_some-empties fuel)
