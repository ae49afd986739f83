-- ===== src/BlockParty/Pool/Shutdown.antt =====
-- The shutdown of the worker of block_party/src/pool.rs against a task that arrives meanwhile.
use kiruna.Base.{ℕ, zero, suc, Bool, true, false, List, [], ◌∷◌, ◌++◌, replicate, ◌≡◌, refl}
use kiruna.BlockParty.Pool.Wakeup.{
  SenderPc, away, WorkerPc, gone, waiting, resting, Shared, Sender, sends, launches, swaps, spawns,
  wakes, top, Worker, takes, asks, rests, notices, mails, refreshes, receives, times_out,
  shuts_down, System, Step, sender, worker, Reach, start, later,
}

-- The senders of a middle that are all away are away.
all_away :
    (n : ℕ) (before after : List SenderPc) (pc : SenderPc)
    → replicate n away ≡ before ++ (pc ∷ after)
    → pc ≡ away
all_away zero [] after pc e = cc
all_away zero (b ∷ before) after pc e = cc
all_away (suc n) [] after pc e = cc
all_away (suc n) (b ∷ before) after pc e = all_away n before after pc (cc)

module _ {I : Type 0} (threads : ℕ) where
  -- The first of the threads at a place, the others away.
  abbrev first_at : SenderPc → Shared I → System I
  first_at pc p = record { shared = p; senders = pc ∷ replicate threads away }

  first_moves :
      {b : Bool} {p q : Shared I} {pc pc' : SenderPc}
      → Reach b (suc threads) (first_at pc p)
      → Sender p pc q pc'
      → Reach b (suc threads) (first_at pc' q)
  first_moves {pc = pc} {pc' = pc'} r m =
      later r (sender [] (replicate threads away) pc pc' refl m refl)

  worker_moves :
      {b : Bool} {p q : Shared I}
      → Reach b (suc threads) (first_at away p)
      → Worker b p q
      → Reach b (suc threads) (first_at away q)
  worker_moves r m = later r (worker m refl)

  -- A pool by its flag, where its worker stands, and what is in the channel and with the worker.
  abbrev pool : Bool → WorkerPc → List I → List I → Bool → Shared I
  pool flag place channel tasks told = record {
    receiver = channel;
    thread_launched = flag;
    woken = told;
    worker = place;
    tasks = tasks;
  }

  Reach-waiting :
      (b : Bool) (first : I)
      → Reach b (suc threads) (first_at away (pool true waiting [] (first ∷ []) false))
  Reach-waiting b first =
      let begun =
        first_moves (first_moves (first_moves start (sends first refl)) (launches refl)) spawns in
      worker_moves (worker_moves begun (takes first [] refl refl)) (asks first [] refl refl refl)

  Reach-resting :
      (b : Bool) (first : I) → Reach b (suc threads) (first_at away (pool true resting [] [] false))
  unfolding top
  Reach-resting false first = worker_moves (Reach-waiting false first) (mails [] [] first refl refl)
  Reach-resting true first =
      worker_moves (worker_moves (Reach-waiting true first) (mails [] [] first refl refl))
        (refreshes refl)

  Reach-stranded :
      (b : Bool) (first info : I)
      → Reach b (suc threads) (first_at away (pool false gone (info ∷ []) [] true))
  Reach-stranded b first info =
      let leaves = worker_moves (Reach-resting b first) (times_out refl refl) in
      let launched =
        first_moves (first_moves (first_moves leaves (sends info refl)) (swaps refl)) wakes in
      worker_moves launched (shuts_down refl)

-- Into a channel that is full nobody can send, and a worker that is gone makes no move.
no_send :
    {I : Type 0} {p q : Shared I} {pc pc' : SenderPc} (info : I) (rest : List I)
    → p.receiver ≡ info ∷ rest
    → pc ≡ away
    → ¬ Sender p pc q pc'
no_send info rest full e (sends i empty) = cc
no_send info rest full e (launches f) = cc
no_send info rest full e (swaps f) = cc
no_send info rest full e spawns = cc
no_send info rest full e wakes = cc

no_work : {I : Type 0} {b : Bool} {p q : Shared I} → p.worker ≡ gone → ¬ Worker b p q
no_work e (takes info rest w c) = cc
no_work e (asks info rest w c t) = cc
no_work e (rests w c t) = cc
no_work e (notices w) = cc
no_work e (mails before after info w t) = cc
no_work e (refreshes w) = cc
no_work e (receives info rest w c) = cc
no_work e (times_out w c) = cc
no_work e (shuts_down w) = cc

stuck :
    {I : Type 0} {b : Bool} {s t : System I} (threads : ℕ) (info : I)
    → s.shared.receiver ≡ info ∷ []
    → s.shared.worker ≡ gone
    → s.senders ≡ replicate threads away
    → ¬ Step b s t
stuck threads info full left back (sender before after pc pc' e m e') =
    no_send info [] full (all_away threads before after pc (cc)) m
stuck threads info full left back (worker m e) = no_work left m

-- With any number of threads there is a history of the pool that strands a task and the pool with it: the
-- worker has mailed its first task and its `recv_timeout` has passed, and before it stores that it has
-- gone a thread launches another task, finds the flag still set, and returns. Then the task is in
-- the channel, all the launches have returned, no worker is there, and no step of any thread
-- is possible again: every further launch blocks for ever in its `send`.
pub Reach-strands :
    {I : Type 0} (one_wait_only : Bool) (threads : ℕ) (first info : I)
    → (s : System I) × Reach one_wait_only (suc threads) s
      × (s.shared.receiver ≡ info ∷ [])
      × (s.shared.worker ≡ gone)
      × (s.senders ≡ replicate (suc threads) away)
      × ((t : System I) → ¬ Step one_wait_only s t)
Reach-strands one_wait_only threads first info = (
  first_at threads away (pool threads false gone (info ∷ []) [] true),
  Reach-stranded threads one_wait_only first info,
  refl,
  refl,
  refl,
  λ t. stuck (suc threads) info refl refl refl,
)
