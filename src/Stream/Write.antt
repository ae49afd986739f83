-- ===== src/Stream/Write.antt =====
-- stream/src/windows/write.rs: the requests that a write makes, over `WriteFileEx`, which is an
-- interface.
pub mod Whole
use kiruna.Base.{ℕ, u32, ◌+◌, ◌*◌, ◌^◌, List, ◌++◌, take, drop, length, ◌≤◌, ◌≡◌}
use kiruna.Stream.Overlapped.{Operation, new}

-- The arguments of `WriteFileEx`: a pointer to the bytes, the offset, as two words of 32 bits, and
-- the number of bytes.
pub record Request : Type 0 where
  pub bytes : List ℕ
  pub offset : ℕ
  pub offset_high : ℕ
  pub length_low : ℕ

-- `WriteOp::begin_op`, up to its call of the system.
unfoldable pub request : List ℕ → Request
request slice = record {
  bytes = slice;
  offset = 0;
  offset_high = 0;
  length_low = u32 (length slice);
}

abbrev pub start : Request → ℕ
start r = r.offset + r.offset_high * 2 ^ 32

-- A file of the system, for requests that it carries out as a whole: the bytes from the offset on are
-- replaced.
pub record WriteFile : Type 1 where
  pub State : Type 0
  pub content : State → List ℕ
  pub write_file_ex : Request → State → State
  pub write_file_ex_lem :
      (r : Request) (s : State)
      → start r ≤ length (content s)
      → content (write_file_ex r s)
        ≡ take (start r) (content s)
          ++ (take r.length_low r.bytes ++ drop (start r + r.length_low) (content s))

-- `Write::write_static` and `Write::write_boxed`: the slice is static, or in a box.
unfoldable pub write_static : {R : Type 0} → List ℕ → Operation (List ℕ) R
write_static buffer = new buffer

abbrev write_boxed : {R : Type 0} → List ℕ → Operation (List ℕ) R
write_boxed buffer = new buffer
