-- ===== src/Tpc/Channel/Threads/Safety.antt =====
-- No interleaving makes `recv_all` miss its element, or a pop fail.
use kiruna.Base.{
  get_elem?-replicate, ℕ, zero, suc, ◌+◌, List, ◌∷◌, ◌++◌, some, Fault, get_elem?, replicate,
  length, total, ◌≡◌, ◌≢◌, arith, refl, ap, subst,
}
use kiruna.Tpc.Channel.Platform.{Semaphore, ArrayQueue}
use kiruna.Tpc.Channel.{SharedOne, new}
use kiruna.Tpc.Channel.Threads.{Pc, outside, panicked, System, Reach, start, later}
use kiruna.Tpc.Channel.Threads.Invariant.{at, holds, past, dead, tokens, stored, Inv}
use kiruna.Tpc.Channel.Threads.Moves.{gather, Step-Inv}

idle_total : (n : ℕ) (w : Pc → ℕ) → w outside ≡ 0 → total w (replicate n outside) ≡ 0
idle_total zero w z = refl
idle_total (suc n) w z = omega (arith, z, idle_total n w z)

module _ (S : Semaphore) {E : Type 0} (Q : ArrayQueue E) where
  no_tokens :
      (n : ℕ) (x : SharedOne S Q) → tokens S Q x ≡ 0 → total (tokens S Q) (replicate n x) ≡ 0
  no_tokens zero x z = refl
  no_tokens (suc n) x z = omega (arith, z, no_tokens n x z)

  init-Inv : (bounded levels n : ℕ) → Inv S Q (new S Q bounded levels) (replicate n outside)
  unfolding new
  init-Inv bounded levels n = record {
    settled = λ l s g.
        let same = get_elem?-replicate levels _ s l g in
        subst (λ r. stored S Q r ≡ tokens S Q r + total (at l) (replicate n outside)) same
          (omega (arith, ap length ((Q.new_lem bounded).0), S.count-new, idle (at l) refl));
    balanced = omega (arith, no_tokens levels _ S.count-new, S.count-new, idle holds refl);
    supplied = λ l pos. omega (arith, idle (past l) refl);
    alive = idle dead refl;
  }
    where
      idle : (w : Pc → ℕ) → w outside ≡ 0 → total w (replicate n outside) ≡ 0
      idle w z = idle_total n w z

  Reach-Inv :
      (n : ℕ) {bounded levels : ℕ} {s : System S Q}
      → Reach S Q 0 bounded levels (replicate n outside) s
      → Inv S Q s.chan s.threads
  Reach-Inv n {bounded} {levels} start = init-Inv bounded levels n
  Reach-Inv n (later r st) = Step-Inv S Q st (Reach-Inv n r)

  -- Where `recv_immediate` is called for level 0 alone, as the executor does, no order of steps of any
  -- number of threads brings one into the panic `No element found` of `recv_all`, or makes the
  -- `pop().unwrap()` of `recv_nonblock` fail.
  pub Reach-alive :
      (bounded levels n : ℕ) (s : System S Q) (before after : List Pc) (p : Pc)
      → Reach S Q 0 bounded levels (replicate n outside) s
      → s.threads ≡ before ++ (p ∷ after)
      → (p ≢ panicked Fault.no_element) × (p ≢ panicked Fault.unwrap_none)
  Reach-alive bounded levels n s before after p r e =
      (λ q. absurd (omega (arith, sums, ap dead q)), λ q. absurd (omega (arith, sums, ap dead q)))
    where
      sums : dead p + total dead (before ++ after) ≡ 0
      sums = (gather S Q before after p (subst (Inv S Q s.chan) e (Reach-Inv n r))).alive

  -- While no thread is inside a method, every semaphore shows what is stored: the global one the number
  -- of all messages, and each local one the length of its queue.
  pub Reach-quiet :
      (bounded levels n : ℕ) (s : System S Q)
      → Reach S Q 0 bounded levels (replicate n outside) s
      → s.threads ≡ replicate n outside
      → (S.count s.chan.global_semaphore ≡ total (tokens S Q) s.chan.shared)
        × ((l : ℕ) (x : SharedOne S Q)
            → get_elem? s.chan.shared l ≡ some x
            → tokens S Q x ≡ length (Q.contents x.queue))
  Reach-quiet bounded levels n s r e =
      let inv = subst (Inv S Q s.chan) e (Reach-Inv n r) in
      (
        omega (arith, inv.balanced, idle_total n holds refl),
        λ l x g. omega (arith, inv.settled l x g, idle_total n (at l) refl),
      )
