-- ===== src/Stream/Threadpool/Signals.antt =====
-- The tasks and the signals of stream/src/windows/threadpool.rs.
use kiruna.Base.{
  ℕ, zero, suc, ◌+◌, ◌≤◌, List, [], ◌∷◌, ◌++◌, length, length-append, replicate, none, some, ◌≡◌,
  refl, ap, subst, arith, total, total-middle, ◌↔◌, append_assoc,
}
use kiruna.Stream.Threadpool.{
  channel_bound, semaphore_max, WorkerPc, asleep, receiving, Threadpool, threadpool, enqueue,
  release, work, elsewhere, sent, System, Step, sends, releases, works, sending, Reach, start,
  later,
}

abbrev pub in_hand : WorkerPc → ℕ
in_hand asleep = 0
in_hand receiving = 1

total-replicate : (n : ℕ) → total sending (replicate n elsewhere) ≡ 0
total-replicate zero = refl
total-replicate (suc n) = omega (arith, total-replicate n)

module _ {T : Type 0} where
  -- What `between` senders, who have sent and not released yet, leave.
  record Sound (p : Threadpool T) (accepted : List T) (between : ℕ) : Type 0 where
    ordered : accepted ≡ p.ran ++ p.channel
    counted : length p.channel ≡ p.semaphore + in_hand p.worker + between + p.lost
    bounded : p.semaphore ≤ semaphore_max
    room : length p.channel ≤ channel_bound

  enqueue-Sound :
      (task : T) (p q : Threadpool T) (accepted : List T) (between : ℕ)
      → enqueue task p ≡ some q
      → Sound p accepted between
      → Sound q (accepted ++ (task ∷ [])) (suc between)
  unfolding enqueue
  enqueue-Sound task p q accepted between e h =
      ground (arith, length-append p.channel (task ∷ []), append_assoc p.ran p.channel (task ∷ []))

  release-Sound :
      (p : Threadpool T) (accepted : List T) (between : ℕ)
      → Sound p accepted (suc between)
      → Sound (release p) accepted between
  unfolding release
  release-Sound p accepted between h = ground arith

  work-Sound :
      (p q : Threadpool T) (accepted : List T) (between : ℕ)
      → work p ≡ some q
      → Sound p accepted between
      → Sound q accepted between
  unfolding work
  work-Sound p q accepted between e h = step p.worker p.semaphore p.channel refl refl refl
    where
      step :
          (w : WorkerPc) (n : ℕ) (c : List T)
          → p.worker ≡ w
          → p.semaphore ≡ n
          → p.channel ≡ c
          → Sound q accepted between
      step asleep zero c ew en ec = ground arith
      step asleep (suc n) c ew en ec = ground arith
      step receiving n [] ew en ec = ground arith
      step receiving n (x ∷ xs) ew en ec = ground (arith, append_assoc p.ran (x ∷ []) xs)

  Step-Sound :
      {s t : System T}
      → Step s t
      → Sound s.pool s.accepted (total sending s.senders)
      → Sound t.pool t.accepted (total sending t.senders)
  Step-Sound {s} {t} (sends before after task es e et ea) h =
      let same : total sending s.senders ≡ total sending before + total sending after =
        omega (arith, ap (total sending) es, total-middle sending before after elsewhere) in
      rw (et, ea, total-middle sending before after sent)
        (subst (Sound t.pool (s.accepted ++ (task ∷ []))) (omega arith) (
          enqueue-Sound task s.pool t.pool s.accepted _ e (subst (Sound s.pool s.accepted) same h)))
  Step-Sound {s} {t} (releases before after es e et ea) h =
      let same : total sending s.senders ≡ suc (total sending before + total sending after) =
        omega (arith, ap (total sending) es, total-middle sending before after sent) in
      rw (e, et, ea, total-middle sending before after elsewhere)
        (subst (Sound (release s.pool) s.accepted) (omega arith)
          (release-Sound s.pool s.accepted _ (subst (Sound s.pool s.accepted) same h)))
  Step-Sound {s} {t} (works e et ea) h =
      rw (et, ea) (work-Sound s.pool t.pool s.accepted (total sending s.senders) e h)

  Reach-Sound :
      {threads : ℕ} {s : System T}
      → Reach threads s
      → Sound s.pool s.accepted (total sending s.senders)
  unfolding threadpool
  Reach-Sound {threads} start =
      rw (total-replicate threads)
        (record { ordered = refl; counted = refl; bounded = omega arith; room = omega arith })
  Reach-Sound (later r st) = Step-Sound st (Reach-Sound r)

  work-none_iff :
      (p : Threadpool T) (accepted : List T) (between : ℕ)
      → Sound p accepted between
      → (work p ≡ none) ↔ ((p.worker ≡ asleep) × (p.semaphore ≡ 0))
  unfolding work
  work-none_iff p accepted between h = split p.worker p.semaphore p.channel refl refl refl
    where
      split :
          (w : WorkerPc) (n : ℕ) (c : List T)
          → p.worker ≡ w
          → p.semaphore ≡ n
          → p.channel ≡ c
          → (work p ≡ none) ↔ ((p.worker ≡ asleep) × (p.semaphore ≡ 0))
      split asleep zero c ew en ec = ground arith
      split asleep (suc n) c ew en ec = ground arith
      split receiving n [] ew en ec = ground arith
      split receiving n (x ∷ xs) ew en ec = ground arith

  -- Whatever threads send, in every interleaving with the worker: the tasks run in the order in which
  -- the channel took them, none is lost or run twice, the channel and the semaphore stay within their
  -- bounds, and the worker blocks only in its wait for the semaphore, never in `recv`. The tasks that
  -- are stored are as many as the signals, the one the worker has taken, the senders between their two
  -- calls and the signals that were lost.
  pub Reach-runs :
      {threads : ℕ} {s : System T}
      → Reach threads s
      → (s.accepted ≡ s.pool.ran ++ s.pool.channel)
        × (length s.pool.channel ≤ channel_bound)
        × (s.pool.semaphore ≤ semaphore_max)
        × ((work s.pool ≡ none) ↔ ((s.pool.worker ≡ asleep) × (s.pool.semaphore ≡ 0)))
        × (length s.pool.channel
            ≡ s.pool.semaphore + in_hand s.pool.worker + total sending s.senders + s.pool.lost)
  Reach-runs {threads} {s} r =
      let h = Reach-Sound r in
      (h.ordered, h.room, h.bounded, work-none_iff s.pool s.accepted _ h, h.counted)
