-- ===== src/Stream/Read/Whole.antt =====
-- Reading a whole stream, by the overlapped operations of Windows and by the loop of macOS.
use kiruna.Base.{
  append-nil, append_assoc, concat, ℕ, suc, ◌==◌, if◌then◌else◌, List, [], ◌∷◌, ◌++◌, map, none,
  some, ready, ok, err, ◌≡◌, ◌≢◌, refl, ap, sym, ◌∙◌, arith, ne→==, false, returns,
}
use kiruna.Stream.Overlapped.{started, Operation, new, proceed, poll_parent}
use kiruna.Stream.Overlapped.Completion.{Act, polls, system, run, advance, run-completes}
use kiruna.Stream.Read.{
  Event, error_broken_pipe, ReadResult, read_impl, read_begin_op, read_resume_op, all_result,
  once_result, all_loop,
}

-- What the system and the executor do while a stream is read on Windows: the child begins, chunks
-- arrive, and polls come in between.
pub data Arrival : Type 0 where
  chunk : List ℕ → Arrival
  poll : ℕ → Arrival

abbrev pub act : Arrival → Act Event
act (chunk bytes) = system (record { error_code = 0; bytes = bytes; refused = none })
act (poll w) = polls w

abbrev pub chunks : List Arrival → List ℕ
chunks [] = []
chunks (chunk bytes ∷ arrivals) = bytes ++ chunks arrivals
chunks (poll w ∷ arrivals) = chunks arrivals

abbrev pub begin : Act Event
begin = system (record { error_code = 0; bytes = []; refused = none })

abbrev pub failure : ℕ → Event
failure code = record { error_code = code; bytes = []; refused = none }

advance-chunks :
    (arrivals : List Arrival) (buffer : List ℕ)
    → advance read_begin_op read_resume_op (map act arrivals) (started buffer)
      ≡ some (started (buffer ++ chunks arrivals))
unfolding read_resume_op read_impl
advance-chunks [] buffer = ap (λ x. some (started x)) (sym (append-nil buffer))
advance-chunks (poll w ∷ arrivals) buffer = advance-chunks arrivals buffer
advance-chunks (chunk bytes ∷ arrivals) buffer =
    advance-chunks arrivals (buffer ++ bytes)
    ∙ ap (λ x. some (started x)) (append_assoc buffer bytes (chunks arrivals))

-- On Windows, a read of a whole stream gives the chunks that arrived, in their order and joined, when
-- the pipe breaks, however the polls fall between them; any other error code is the result itself.
-- The read is pending until then.
pub run-reads :
    (w : ℕ) (arrivals : List Arrival) (code : ℕ)
    → code ≢ 0
    → (o : Operation (List ℕ) ReadResult) × (run read_begin_op read_resume_op
          (polls w ∷ begin ∷ map act arrivals)
          (new [])
        ≡ returns (some o))
      × ((v : ℕ)
          → (r : ReadResult) × (o' : Operation (List ℕ) ReadResult) × (poll_parent v
                (proceed read_begin_op read_resume_op (failure code) o)
              ≡ returns (ready r, o'))
            × (all_result r
                ≡ (if code == error_broken_pipe then ok (chunks arrivals) else err code)))
unfolding all_result read_resume_op read_begin_op read_impl
run-reads w arrivals code nonzero =
    let differs : (code == 0) ≡ false = ne→== code 0 nonzero in
    let (o, e, z, k, d) =
      run-completes read_begin_op read_resume_op [] w (begin ∷ map act arrivals)
        (started (chunks arrivals)) (failure code) (err (code, chunks arrivals)) (chunks arrivals)
        (advance-chunks arrivals []) (rw differs refl) in
    (o, e, λ v. (err (code, chunks arrivals), (d v).0, (d v).1, refl))

-- A reply with a chunk that is not empty.
abbrev pub content : ℕ × List ℕ → List ℕ
content (b, bs) = b ∷ bs

abbrev pub reply : ℕ × List ℕ → List ℕ × ℕ
reply c = (content c, 0)

all_loop-append :
    (cs : List (ℕ × List ℕ)) (rest : List (List ℕ × ℕ)) (buffer : List ℕ)
    → all_loop (map reply cs ++ rest) buffer ≡ all_loop rest (buffer ++ concat (map content cs))
unfolding all_loop once_result
all_loop-append [] rest buffer = ap (all_loop rest) (sym (append-nil buffer))
all_loop-append (c ∷ cs) rest buffer =
    all_loop-append cs rest (buffer ++ content c)
    ∙ ap (all_loop rest) (append_assoc buffer (content c) (concat (map content cs)))

-- On macOS, a read of a whole stream gives the chunks that arrived before the first empty one, joined
-- in their order, and asks for nothing after it; an error ends it at once, and is its
-- result; without either it still waits.
pub all_loop-joins :
    (cs : List (ℕ × List ℕ)) (code : ℕ) (rest : List (List ℕ × ℕ))
    → (all_loop (map reply cs ++ (([], 0) ∷ rest)) [] ≡ some (ok (concat (map content cs))))
      × (all_loop (map reply cs ++ (([], suc code) ∷ rest)) [] ≡ some (err (suc code)))
      × (all_loop (map reply cs) [] ≡ none)
unfolding all_loop once_result
all_loop-joins cs code rest = (
  all_loop-append cs _ [],
  all_loop-append cs _ [] ∙ rw (all_loop, ne→== (suc code) 0 (λ z. omega (arith, z))) refl,
  ap (λ r. all_loop r []) (sym (append-nil (map reply cs))) ∙ all_loop-append cs [] [],
)
