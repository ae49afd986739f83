-- ===== src/Stream/Read.antt =====
-- The payloads of stream/src/windows/read.rs and stream/src/windows/write.rs, and the loop of
-- stream/src/macos/read.rs. Buffers are lists of bytes.
pub mod Whole
use kiruna.Base.{
  ℕ, u32, ◌==◌, if◌then◌else◌, List, [], ◌∷◌, ◌++◌, length, Option, none, some, Poll, ready,
  pending, Result, ok, err,
}

-- What the system tells the child: the arguments of the completion handler (unused when an operation
-- begins) with the bytes that it put behind the buffer, and what `GetLastError` says where the next
-- call of `ReadFileEx` or `WriteFileEx` is refused.
pub record Event : Type 0 where
  pub error_code : ℕ
  pub bytes : List ℕ
  pub refused : Option ℕ

-- `ERROR_BROKEN_PIPE`, as the Windows headers number it.
abbrev pub error_broken_pipe : ℕ
error_broken_pipe = 109

abbrev pub read_size : ℕ
read_size = 255

-- The result of a read: an error comes with the buffer so far.
abbrev pub ReadResult : Type 0
ReadResult = Result (List ℕ) (ℕ × List ℕ)

-- The offset and the size of the request that `ReadChild::read_impl` makes.
unfoldable pub request : List ℕ → ℕ × ℕ
request buffer = (u32 (length buffer), read_size)

-- `ReadChild::read_impl`, by whether the request is refused.
unfoldable pub read_impl : Option ℕ → List ℕ → Poll ReadResult × List ℕ
read_impl none buffer = (pending, buffer)
read_impl (some e) buffer = (ready (err (e, buffer)), buffer)

-- `ReadChild::begin_op`
unfoldable pub read_begin_op : Event → List ℕ → Poll ReadResult × List ℕ
read_begin_op e buffer = read_impl e.refused buffer

-- `ReadChild::resume_op`
unfoldable pub read_resume_op : Event → List ℕ → Poll ReadResult × List ℕ
read_resume_op e buffer =
    if e.error_code == 0
    then read_impl e.refused (buffer ++ e.bytes)
    else (ready (err (e.error_code, buffer)), buffer)

-- The match of `Read::all` on the result of its future.
unfoldable pub all_result : ReadResult → Result (List ℕ) ℕ
all_result (ok buffer) = ok buffer
all_result (err (e, buffer)) = if e == error_broken_pipe then ok buffer else err e

-- `WriteOp::begin_op` and `WriteOp::resume_op`; the payload never changes.
unfoldable pub write_begin_op : Event → List ℕ → Poll (Result (Unit {0}) ℕ) × List ℕ
write_begin_op e buffer = elim e.refused [
  | none ↦ (pending, buffer)
  | some code ↦ (ready (err code), buffer)
]

unfoldable pub write_resume_op : Event → List ℕ → Poll (Result (Unit {0}) ℕ) × List ℕ
write_resume_op e buffer =
    if e.error_code == 0 then (ready (ok tt), buffer) else (ready (err e.error_code), buffer)

-- The completion handler of `Read::once` of macOS.
unfoldable pub once_result : List ℕ → ℕ → Result (List ℕ) ℕ
once_result bytes e = if e == 0 then ok bytes else err e

-- `Read::all` of macOS, from the buffer so far: `none` says that it still waits for a reply.
unfoldable pub all_loop : List (List ℕ × ℕ) → List ℕ → Option (Result (List ℕ) ℕ)
all_loop [] buffer = none
all_loop ((bytes, e) ∷ replies) buffer = elim (once_result bytes e) [
  | err code ↦ some (err code)
  | ok new_data ↦ elim new_data [
    | [] ↦ some (ok buffer)
    | b ∷ bs ↦ all_loop replies (buffer ++ (b ∷ bs))
  ]
]
