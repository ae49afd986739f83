-- ===== src/Base/Words.antt =====
-- Machine integers: a value is a number, and the wrap of each cast or operation is written out.
use Prim.Native.Nat.{ℕ, ◌%◌, ◌^◌}

abbrev pub u16 : ℕ → ℕ
u16 n = n % 2 ^ 16

abbrev pub u32 : ℕ → ℕ
u32 n = n % 2 ^ 32

abbrev pub u64 : ℕ → ℕ
u64 n = n % 2 ^ 64
