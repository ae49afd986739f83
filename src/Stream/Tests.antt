-- ===== src/Stream/Tests.antt =====
-- Runs of the reads of stream/src.
use kiruna.Base.{
  ℕ, ◌==◌, if◌then◌else◌, List, [], ◌∷◌, ◌++◌, ◌+◌, ◌^◌, ◌<◌, ◌↔◌, take, drop, map, concat, none,
  some, ready, Result, ok, err, ◌≡◌, refl, arith, returns, panics, Fault,
}
use kiruna.Base.Priority.{user_waiting}
use kiruna.Stream.Macos.{
  Dispatch, at_priority, into, handler, write_data, write_static, write_boxed,
}
use kiruna.Stream.Macos.RoundTrip.{Writes, finished, static, boxed, Writes-all_loop}
use kiruna.Stream.Overlapped.{started, Operation, new, proceed, poll_parent}
use kiruna.Stream.Overlapped.Completion.{Act, polls, run, last_waker, run-completes}
use kiruna.Stream.Read.{
  Event, ReadResult, write_begin_op, write_resume_op, read_begin_op, read_resume_op, all_result,
  error_broken_pipe, all_loop,
}
use kiruna.Stream.Write.{start, request, WriteFile}
use kiruna.Stream.Write
use kiruna.Stream.Write.Whole.{write_static-whole_iff}
use kiruna.Stream.Read.Whole.{Arrival, chunk, poll, act, begin, failure, reply, run-reads}

-- A write that is polled with waker 4, begun, and polled with waker 6; the system then completes it.
abbrev two_polls : List (Act Event)
two_polls = begin ∷ polls 6 ∷ []

abbrev completed : Event
completed = failure 0

run-completes_example :
    (o : Operation (List ℕ) (Result (Unit {0}) ℕ)) × (run write_begin_op write_resume_op
        (polls 4 ∷ two_polls)
        (new (7 ∷ 8 ∷ []))
      ≡ returns (some o))
    × (o.woken ≡ [])
    × ((proceed write_begin_op write_resume_op completed o).woken
        ≡ last_waker write_begin_op write_resume_op 4 two_polls ∷ [])
    × ((v : ℕ)
        → (o' : Operation (List ℕ) (Result (Unit {0}) ℕ)) × (poll_parent v
              (proceed write_begin_op write_resume_op completed o)
            ≡ returns (ready (ok tt), o'))
          × ((u : ℕ) → poll_parent u o' ≡ panics Fault.explicit_panic))
unfolding write_begin_op write_resume_op
run-completes_example =
    run-completes write_begin_op write_resume_op (7 ∷ 8 ∷ []) 4 two_polls (started (7 ∷ 8 ∷ []))
      completed (ok tt) (7 ∷ 8 ∷ []) refl refl

abbrev arriving : List Arrival
arriving = chunk (1 ∷ 2 ∷ []) ∷ poll 3 ∷ chunk (9 ∷ []) ∷ []

run-reads_example :
    (o : Operation (List ℕ) ReadResult) × (run read_begin_op read_resume_op
        (polls 4 ∷ begin ∷ map act arriving)
        (new [])
      ≡ returns (some o))
    × ((v : ℕ)
        → (r : ReadResult) × (o' : Operation (List ℕ) ReadResult) × (poll_parent v
              (proceed read_begin_op read_resume_op (failure 109) o)
            ≡ returns (ready r, o'))
          × (all_result r ≡ (if 109 == error_broken_pipe then ok (1 ∷ 2 ∷ 9 ∷ []) else err 109)))
run-reads_example = run-reads 4 arriving 109 (λ z. omega (arith, z))

-- A descriptor that takes all it is given, and a system with one queue.
abbrev stream : Dispatch ℕ
stream = record {
  State = List ℕ;
  written = λ s fd. s;
  global = λ qos. some 5;
  write_completion = λ s fd bytes q. (0, s ++ bytes);
  write_completion-zero = λ s fd bytes q e. refl;
}

-- Two bytes in a static buffer and one in a box.
abbrev two_writes :
    Writes stream 1 (at_priority user_waiting) ((1 ∷ 2 ∷ []) ∷ (3 ∷ []) ∷ []) [] (1 ∷ 2 ∷ 3 ∷ [])
unfolding write_static write_boxed write_data into handler
two_writes = static refl (boxed refl finished)

Writes-all_loop_example :
    (all_loop (map reply ((1, []) ∷ (2, 3 ∷ []) ∷ []) ++ (([], 0) ∷ [])) []
      ≡ some (ok (concat ((1 ∷ 2 ∷ []) ∷ (3 ∷ []) ∷ []))))
    × (all_loop (map reply ((1, []) ∷ (2, 3 ∷ []) ∷ []) ++ (([], 5) ∷ [])) [] ≡ some (err 5))
    × (all_loop (map reply ((1, []) ∷ (2, 3 ∷ []) ∷ [])) [] ≡ none)
Writes-all_loop_example =
    Writes-all_loop stream two_writes ((1, []) ∷ (2, 3 ∷ []) ∷ []) 4 [] refl refl

-- A file that does as it is asked.
abbrev file : WriteFile
file = record {
  State = List ℕ;
  content = λ s. s;
  write_file_ex =
      λ r s. take (start r) s ++ (take r.length_low r.bytes ++ drop (start r + r.length_low) s);
  write_file_ex_lem = λ r s h. refl;
}

write_static-whole_iff_example :
    (o : Operation (List ℕ) (Result (Unit {0}) ℕ)) × (run write_begin_op write_resume_op
        (polls 4 ∷ begin ∷ map polls (6 ∷ []))
        (Write.write_static (7 ∷ 8 ∷ []))
      ≡ returns (some o))
    × ((v : ℕ)
        → (o' : Operation (List ℕ) (Result (Unit {0}) ℕ)) × (poll_parent v
              (proceed write_begin_op write_resume_op (failure 5) o)
            ≡ returns (ready (err 5), o')))
    × ((file.content (file.write_file_ex (request (7 ∷ 8 ∷ [])) []) ≡ 7 ∷ 8 ∷ []) ↔ (2 < 2 ^ 32))
write_static-whole_iff_example = write_static-whole_iff file (7 ∷ 8 ∷ []) [] 4 (6 ∷ []) 5 refl

-- The second write takes the place of the first one.
request_run :
    file.write_file_ex (request (9 ∷ [])) (file.write_file_ex (request (7 ∷ [])) []) ≡ 9 ∷ []
unfolding request
request_run = refl
