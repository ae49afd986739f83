-- ===== src/Stream/Threadpool/Burst.antt =====
-- stream/src/windows/threadpool.rs: tasks that are sent faster than the worker takes them.
use kiruna.Base.{
  ◌+◌, ◌≤◌, ◌<◌, List, [], ◌∷◌, ◌++◌, length, length-append, append_assoc, append-nil, Option, none,
  some, ◌≡◌, refl, ap, arith,
}
use kiruna.Stream.Threadpool.{
  asleep, Threadpool, threadpool, enqueue, release, send, wait, receive, work, in_thread,
}

module _ {T : Type 0} where
  -- One call of `add_task` after the other.
  abbrev pub send_all : List T → Threadpool T → Option (Threadpool T)
  send_all [] p = some p
  send_all (task ∷ tasks) p = elim (send task p) [ none ↦ none | some q ↦ send_all tasks q ]

  -- What a burst leaves where the semaphore is full.
  abbrev loses : List T → Threadpool T → Threadpool T
  loses tasks p = record p { channel = p.channel ++ tasks; lost = p.lost + length tasks }

  send-full :
      (task : T) (p : Threadpool T)
      → p.semaphore ≡ 2
      → length p.channel < 5
      → send task p ≡ some (loses (task ∷ []) p)
  unfolding send enqueue release
  send-full task p e h = ground arith

  send_all-full :
      (tasks : List T) (p : Threadpool T)
      → p.semaphore ≡ 2
      → length p.channel + length tasks ≤ 5
      → send_all tasks p ≡ some (loses tasks p)
  send_all-full [] p e h =
      rw (append-nil p.channel) (ap (λ n. some (record p { lost = n })) (omega arith))
  send_all-full (task ∷ tasks) p e h =
      let full : send task p ≡ some (loses (task ∷ []) p) = send-full task p e (omega arith) in
      let rest : send_all tasks (loses (task ∷ []) p) ≡ some (loses tasks (loses (task ∷ []) p)) =
        send_all-full tasks (loses (task ∷ []) p) e
          (omega (arith, length-append p.channel (task ∷ []))) in
      ground (arith, append_assoc p.channel (task ∷ []) tasks)

  -- The signals of tasks that come back to back are lost from the third on, since nobody reads whether
  -- `ReleaseSemaphore` failed: of three to five tasks that threads add while the worker sleeps, it
  -- runs the first two, and goes back to sleep with the others in the channel.
  pub send_all-strands :
      (a b c : T) (rest : List T)
      → length rest ≤ 2
      → (p : Threadpool T) × (send_all (a ∷ b ∷ c ∷ rest) threadpool ≡ some p)
        × ((in_thread 4 p).ran ≡ a ∷ b ∷ [])
        × ((in_thread 4 p).channel ≡ c ∷ rest)
        × (work (in_thread 4 p) ≡ none)
  unfolding send enqueue release threadpool wait receive work in_thread
  send_all-strands a b c rest h =
      let two : Threadpool T = record {
        channel = a ∷ b ∷ [];
        semaphore = 2;
        worker = asleep;
        ran = [];
        lost = 0;
      } in
      (loses (c ∷ rest) two, send_all-full (c ∷ rest) two refl (omega arith), refl, refl, refl)
