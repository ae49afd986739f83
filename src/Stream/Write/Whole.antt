-- ===== src/Stream/Write/Whole.antt =====
-- A whole write on Windows, from its future to the file.
use kiruna.Base.{
  ℕ, zero, suc, u32, ◌+◌, ◌^◌, ◌<◌, ◌≤◌, ◌==◌, if◌then◌else◌, List, [], ◌∷◌, ◌++◌, map, take, drop,
  length, take-length_le, drop-length_le, length-take_le, append-nil, some, ready, Result, ok, err,
  returns, ◌≡◌, ◌↔◌, refl, ap, sym, ◌∙◌, arith,
}
use kiruna.Stream.Overlapped.{Operation, started, proceed, poll_parent}
use kiruna.Stream.Overlapped.Completion.{polls, run, advance, run-completes}
use kiruna.Stream.Read.{write_begin_op, write_resume_op}
use kiruna.Stream.Read.Whole.{begin, failure}
use kiruna.Stream.Write.{request, WriteFile, write_static}

advance-polls :
    (wakers : List ℕ) (buffer : List ℕ)
    → advance write_begin_op write_resume_op (map polls wakers) (started buffer)
      ≡ some (started buffer)
advance-polls [] buffer = refl
advance-polls (w ∷ wakers) buffer = advance-polls wakers buffer

-- What a completion with the code answers.
resumed :
    (code : ℕ) (buffer : List ℕ)
    → write_resume_op (failure code) buffer
      ≡ (ready (if code == 0 then ok tt else err code), buffer)
unfolding write_resume_op
resumed zero buffer = refl
resumed (suc code) buffer = ground arith

module _ (d : WriteFile) where
  -- A write to a file that it is not shorter than leaves nothing of what the file held.
  content-request :
      (buffer : List ℕ) (s : d.State)
      → length (d.content s) ≤ u32 (length buffer)
      → d.content (d.write_file_ex (request buffer) s) ≡ take (u32 (length buffer)) buffer
  unfolding request
  content-request buffer s short =
      let k = u32 (length buffer) in
      let gone : drop (0 + k) (d.content s) ≡ [] =
        drop-length_le (0 + k) (d.content s) (omega arith) in
      d.write_file_ex_lem (request buffer) s (omega arith)
      ∙ ap (λ rest. take k buffer ++ rest) gone
      ∙ append-nil (take k buffer)

  -- On Windows a write answers `Ok` where the system completes it with the code 0, and with the code
  -- where it is another, whatever polls come before. Of a buffer that is requested to be written to
  -- an empty file the whole is there afterwards exactly where it has less than 2^32 bytes, which
  -- the answer does not depend on.
  pub write_static-whole_iff :
      (buffer : List ℕ) (s : d.State) (w : ℕ) (wakers : List ℕ) (code : ℕ)
      → d.content s ≡ []
      → (o : Operation (List ℕ) (Result (Unit {0}) ℕ)) × (run write_begin_op write_resume_op
            (polls w ∷ begin ∷ map polls wakers)
            (write_static buffer)
          ≡ returns (some o))
        × ((v : ℕ)
            → (o' : Operation (List ℕ) (Result (Unit {0}) ℕ)) × (poll_parent v
                  (proceed write_begin_op write_resume_op (failure code) o)
                ≡ returns (ready (if code == 0 then ok tt else err code), o')))
        × ((d.content (d.write_file_ex (request buffer) s) ≡ buffer) ↔ (length buffer < 2 ^ 32))
  unfolding write_static write_begin_op
  write_static-whole_iff buffer s w wakers code fresh =
      let (o, e, _, _, answers) =
        run-completes write_begin_op write_resume_op buffer w (begin ∷ map polls wakers)
          (started buffer) (failure code) (if code == 0 then ok tt else err code) buffer
          (advance-polls wakers buffer) (ap some (resumed code buffer)) in
      (
        o,
        e,
        λ v. let (o', k, _) = answers v in (o', k),
        (
          λ h.
              let same = sym (content-request buffer s (omega (arith, ap length fresh))) ∙ h in
              omega (arith, length-take_le (u32 (length buffer)) buffer, ap length same),
          λ h.
              content-request buffer s (omega (arith, ap length fresh))
              ∙ take-length_le (u32 (length buffer)) buffer (omega arith),
        ),
      )

  -- Of two writes of buffers of the same length to an empty file only the second one is there, since
  -- every write is at the offset 0.
  request-over :
      (a b : List ℕ) (s : d.State)
      → d.content s ≡ []
      → length a ≡ length b
      → length b < 2 ^ 32
      → d.content (d.write_file_ex (request b) (d.write_file_ex (request a) s)) ≡ b
  request-over a b s fresh same small =
      let t = d.write_file_ex (request a) s in
      let first : d.content t ≡ take (u32 (length a)) a =
        content-request a s (omega (arith, ap length fresh)) in
      content-request b t (omega (arith, ap length first, length-take_le (u32 (length a)) a))
      ∙ take-length_le (u32 (length b)) b (omega arith)
