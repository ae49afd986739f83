-- ===== src/BlockParty/Tests.antt =====
-- Runs of the mailbox and the pool of block_party/src.
use kiruna.Base.{
  ℕ, ◌+◌, ◌-◌, List, length, arith, [], ◌∷◌, true, false, Option, none, some, returns, ready,
  pending, replicate, map, Has, get_elem?-some, ◌≡◌, refl,
}
use kiruna.Base.AtomicWaker.{AtomicWaker}
use kiruna.Base.Priority.{Priority}
use kiruna.BlockParty.Mailbox.{Mailbox, Future, send_mail, new, poll}
use kiruna.BlockParty.Mailbox.Delivery.{poll_all, poll_all-delivers}
use kiruna.BlockParty.Pool.{task, WorkerSideInfo, Worker, WakeResult, begin}
use kiruna.BlockParty.Pool.Mails.{Event, arrives, turns, run, places, arrived, mailed, occurs}
use kiruna.BlockParty.Pool.Mails.Turns.{Sound}
use kiruna.BlockParty.Front.{send_mails, run-delivers}
use kiruna.BlockParty.Pool.Wakeup.{System, Reach, Step, gone, away}
use kiruna.BlockParty.Pool.Shutdown.{Reach-strands}

abbrev cell : AtomicWaker
cell = record {
  State = Option ℕ;
  held = λ s. s;
  new = none;
  register = λ w s. some w;
  take = λ s. none;
  held-new = refl;
  held-register = λ w s. refl;
  held-take = λ s. refl;
}

-- Task 40 is polled with the wakers 1 and 2, its output is 23, and it is polled with waker 3.
poll_all-delivers_example :
    (f : Future cell ℕ ℕ) × (poll_all cell (1 ∷ 2 ∷ []) (new cell 40 Priority.testing)
      ≡ returns (40 ∷ [], f))
    × ((m : Mailbox cell ℕ) × (send_mail cell 23 f.mailbox ≡ returns (m, some 2))
        × ((f' : Future cell ℕ ℕ) × (poll cell 3 (λ k. k) (record f { mailbox = m })
              ≡ returns (record { answer = ready 23; future = f'; launches = none }))))
poll_all-delivers_example = poll_all-delivers cell 40 Priority.testing 1 (2 ∷ []) 23 3

abbrev first : WorkerSideInfo ℕ ℕ
first = record { task = 10; mailbox = 0 }

abbrev second : WorkerSideInfo ℕ ℕ
second = record { task = 11; mailbox = 1 }

-- Two tasks arrive, and `wait_any` names the last of those that it is shown.
abbrev last_one : List ℕ → WakeResult ℕ
last_one tasks = task (length tasks - 1) 99

abbrev history : List (Event ℕ ℕ)
history = arrives first ∷ turns last_one ∷ arrives second ∷ turns last_one ∷ turns last_one ∷ []

-- Task 10 of future 0, task 11 of future 1, and so on; each may answer 99. Future `m` is polled with
-- the waker `m + 20`.
abbrev OutputOf : ℕ → ℕ → Type 0
OutputOf t o = o ≡ 99

last_one-Sound : Sound {T = ℕ} {O = ℕ} (λ t m. t ≡ m + 10) OutputOf (turns last_one)
last_one-Sound t ts =
    let (u, g) = get_elem?-some (t ∷ ts) (length (t ∷ ts) - 1) (omega arith) in (u, g, refl)

run-delivers_example :
    (fs : ℕ → Future cell ℕ ℕ) × ((m : ℕ)
      → poll cell (m + 20) (λ k. k) (new cell (m + 10) Priority.testing)
        ≡ returns (record { answer = pending; future = fs m; launches = some (m + 10) }))
    × ((w : Worker ℕ ℕ ℕ) × (rest : List (Event ℕ ℕ)) × (run false history (begin [])
          ≡ returns (w, rest))
        × ((m : ℕ) → places m w + occurs m (arrived rest) ≡ occurs m (arrived history))
        × ((gs : ℕ → Future cell ℕ ℕ) × (send_mails cell w.mails fs
              ≡ returns (gs, map (λ p. p.0 + 20) w.mails))
            × ((m v : ℕ) (o : ℕ)
                → Has (m, o) w.mails
                → OutputOf (m + 10) o
                  × ((f : Future cell ℕ ℕ) × (poll cell v (λ k. k) (gs m)
                        ≡ returns (record { answer = ready o; future = f; launches = none }))))
            × ((m v : ℕ)
                → occurs m (mailed w) ≡ 0
                → (f : Future cell ℕ ℕ) × (poll cell v (λ k. k) (gs m)
                    ≡ returns (record { answer = pending; future = f; launches = none })))))
run-delivers_example =
    run-delivers cell OutputOf false Priority.testing (λ m. m + 20) (λ m. m + 10) history
      (refl, (last_one-Sound, (refl, (last_one-Sound, (last_one-Sound, tt))))) (λ m. ground arith)

-- Task 5 arrives while the worker leaves that has run task 4; there are two threads.
Reach-strands_example :
    (s : System ℕ) × Reach true 2 s
    × (s.shared.receiver ≡ 5 ∷ [])
    × (s.shared.worker ≡ gone)
    × (s.senders ≡ replicate 2 away)
    × ((t : System ℕ) → ¬ Step true s t)
Reach-strands_example = Reach-strands true 1 4 5
