-- ===== src/BlockParty/Pool/Wakeup/Heard.antt =====
-- Which tasks the worker of block_party/src/pool.rs hears of, and that there is one worker at most.
use kiruna.Base.{
  ℕ, zero, suc, ◌+◌, ◌≤◌, Bool, true, false, if◌then◌else◌, List, [], ◌∷◌, ◌++◌, replicate, total,
  total-middle, ◌≡◌, ◌⊎◌, inl, inr, refl, ap, arith,
}
use kiruna.BlockParty.Pool.Wakeup.{
  SenderPc, away, sent, launching, swapped, WorkerPc, gone, reading, waiting, refreshing, resting,
  leaving, Shared, Sender, sends, launches, swaps, spawns, wakes, top, Worker, takes, asks, rests,
  notices, mails, refreshes, receives, times_out, shuts_down, System, Step, sender, worker, Reach,
  start, later,
}

-- A sender that has sent a task and not finished its call, and one that is to spawn the worker.
abbrev pub between : SenderPc → ℕ
between away = 0
between sent = 1
between launching = 1
between swapped = 1

abbrev pub to_spawn : SenderPc → ℕ
to_spawn away = 0
to_spawn sent = 0
to_spawn launching = 1
to_spawn swapped = 0

abbrev pub alive : WorkerPc → ℕ
alive gone = 0
alive reading = 1
alive waiting = 1
alive refreshing = 1
alive resting = 1
alive leaving = 1

abbrev pub waits : WorkerPc → Bool
waits waiting = true
waits gone = false
waits reading = false
waits refreshing = false
waits resting = false
waits leaving = false

abbrev pub bit : Bool → ℕ
bit true = 1
bit false = 0

bit_le : (b : Bool) → bit b ≤ 1
bit_le true = omega arith
bit_le false = omega arith

total-away : (w : SenderPc → ℕ) (n : ℕ) → w away ≡ 0 → total w (replicate n away) ≡ 0
total-away w zero z = refl
total-away w (suc n) z = omega (arith, z, total-away w n z)

module _ {I : Type 0} where
  -- The worker hears of the task in the channel: it does not wait, or it is woken, or a sender is still
  -- to wake it.
  abbrev pub Heard : Shared I → ℕ → Type 0
  Heard p n = (p.receiver ≡ []) ⊎ ((waits p.worker ≡ false) ⊎ ((p.woken ≡ true) ⊎ (1 ≤ n)))

  -- `n` senders are between their calls, of which `k` are to spawn the worker.
  record Sound (p : Shared I) (n k : ℕ) : Type 0 where
    single : alive p.worker + k ≡ bit p.thread_launched
    heard : Heard p n

  -- Where the worker goes on, it neither waits nor is gone.
  top-waits : (tasks : List I) → waits (top tasks) ≡ false
  unfolding top
  top-waits [] = refl
  top-waits (i ∷ is) = refl

  top-alive : (tasks : List I) → alive (top tasks) ≡ 1
  unfolding top
  top-alive [] = refl
  top-alive (i ∷ is) = refl

  mailed-waits : (b : Bool) (tasks : List I) → waits (if b then refreshing else top tasks) ≡ false
  mailed-waits true tasks = refl
  mailed-waits false tasks = top-waits tasks

  mailed-alive : (b : Bool) (tasks : List I) → alive (if b then refreshing else top tasks) ≡ 1
  mailed-alive true tasks = refl
  mailed-alive false tasks = top-alive tasks

  Sender-Sound :
      {p q : Shared I} {pc pc' : SenderPc} (n k : ℕ)
      → Sender p pc q pc'
      → Sound p (between pc + n) (to_spawn pc + k)
      → Sound q (between pc' + n) (to_spawn pc' + k)
  Sender-Sound n k (sends info e) h = record {
    single = h.single;
    heard = inr (inr (inr (omega arith)));
  }
  Sender-Sound n k (launches e) h = record {
    single = omega (arith, ap bit e, h.single);
    heard = h.heard;
  }
  Sender-Sound n k (swaps e) h = h
  Sender-Sound {p} n k spawns h = record {
    single = omega (arith, bit_le p.thread_launched, h.single);
    heard = inr (inl refl);
  }
  Sender-Sound n k wakes h = record { single = h.single; heard = inr (inr (inl refl)) }

  -- The worker moves on to a place where it does not wait.
  moves_on :
      {p q : Shared I} (n k : ℕ)
      → alive p.worker ≡ 1
      → alive q.worker ≡ 1
      → waits q.worker ≡ false
      → q.thread_launched ≡ p.thread_launched
      → Sound p n k
      → Sound q n k
  moves_on n k before after still flag h = record {
    single = omega (arith, before, after, ap bit flag, h.single);
    heard = inr (inl still);
  }

  Worker-Sound :
      {one_wait_only : Bool} {p q : Shared I} (n k : ℕ)
      → Worker one_wait_only p q
      → Sound p n k
      → Sound q n k
  Worker-Sound n k (takes info rest w e) h =
      moves_on n k (ap alive w) (ap alive w) (ap waits w) refl h
  Worker-Sound n k (asks info rest w e t) h = record {
    single = omega (arith, ap alive w, h.single);
    heard = inl e;
  }
  Worker-Sound n k (rests w e t) h = moves_on n k (ap alive w) refl refl refl h
  Worker-Sound n k (notices w) h = moves_on n k (ap alive w) refl refl refl h
  Worker-Sound {one_wait_only} n k (mails before after info w e) h =
      moves_on n k (ap alive w) (mailed-alive one_wait_only (before ++ after))
        (mailed-waits one_wait_only (before ++ after)) refl h
  Worker-Sound {p} n k (refreshes w) h =
      moves_on n k (ap alive w) (top-alive p.tasks) (top-waits p.tasks) refl h
  Worker-Sound n k (receives info rest w e) h = moves_on n k (ap alive w) refl refl refl h
  Worker-Sound n k (times_out w e) h = moves_on n k (ap alive w) refl refl refl h
  Worker-Sound {p} n k (shuts_down w) h = record {
    single = omega (arith, ap alive w, bit_le p.thread_launched, h.single);
    heard = inr (inl refl);
  }

  Step-Sound :
      {one_wait_only : Bool} {s t : System I}
      → Step one_wait_only s t
      → Sound s.shared (total between s.senders) (total to_spawn s.senders)
      → Sound t.shared (total between t.senders) (total to_spawn t.senders)
  Step-Sound {s} {t} (sender before after pc pc' es m et) h =
      let n = total between before + total between after in
      let k = total to_spawn before + total to_spawn after in
      rw (et, total-middle between before after pc', total-middle to_spawn before after pc')
        (Sender-Sound n k m (
          rw (es, total-middle between before after pc, total-middle to_spawn before after pc) at
            h))
  Step-Sound {s} {t} (worker m et) h =
      rw et (Worker-Sound (total between s.senders) (total to_spawn s.senders) m h)

  Reach-Sound :
      {one_wait_only : Bool} {threads : ℕ} {s : System I}
      → Reach one_wait_only threads s
      → Sound s.shared (total between s.senders) (total to_spawn s.senders)
  Reach-Sound {threads} start = record {
    single = omega (arith, total-away to_spawn threads refl);
    heard = inl refl;
  }
  Reach-Sound (later r st) = Step-Sound st (Reach-Sound r)

  -- In every interleaving of any number of senders with the worker, its shutdown included, there is
  -- one worker at most: the flag is set exactly while one runs or one sender is to spawn it. And the
  -- worker hears of every task: while it waits in `wait_any` with a task in the channel, its side
  -- channel has been woken, or a sender that has sent has still to finish its call.
  pub Reach-hears :
      {one_wait_only : Bool} {threads : ℕ} {s : System I}
      → Reach one_wait_only threads s
      → (alive s.shared.worker + total to_spawn s.senders ≡ bit s.shared.thread_launched)
        × Heard s.shared (total between s.senders)
  Reach-hears r = let h = Reach-Sound r in (h.single, h.heard)
