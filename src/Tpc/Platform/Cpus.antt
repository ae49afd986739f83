-- ===== src/Tpc/Platform/Cpus.antt =====
-- tpc/src/platform/windows/physical_cpus.rs: `threadpool_size`. The buffer that
-- `GetSystemCpuSetInformation` fills is a function from offsets, and the environment's variable is
-- what it says, and what `u16::from_str` makes of it.
pub mod Bounds
use kiruna.Base.{
  ℕ, zero, suc, ◌+◌, ◌/◌, ◌^◌, u16, u32, ltb, ◌==◌, if◌then◌else◌, Bool, true, false, List, [], ◌∷◌,
  length, Option, none, some, Outcome, returns, panics, Fault, ◌>>=◌,
}

-- `SYSTEM_CPU_SET_INFORMATION`
pub record CpuSetInformation : Type 0 where
  pub kind : ℕ
  pub core_index : ℕ
  pub size : ℕ

abbrev pub contains : ℕ → List ℕ → Bool
contains c [] = false
contains c (x ∷ xs) = if x == c then true else contains c xs

-- `HashSet::insert`
unfoldable pub insert : ℕ → List ℕ → List ℕ
insert c cores = if contains c cores then cores else c ∷ cores

-- What the loop keeps.
pub record Counts : Type 0 where
  pub unique_cores : List ℕ
  pub logical_cores : ℕ

-- The body of the loop, for one element.
unfoldable pub count : CpuSetInformation → Counts → Counts
unfolding insert
count e c =
    if e.kind == 0
    then record {
      unique_cores = insert e.core_index c.unique_cores;
      logical_cores = u16 (c.logical_cores + 1);
    }
    else c

-- `while byte_offset < _returned_len`; `none` says that the fuel ran out.
unfoldable pub scan : (ℕ → CpuSetInformation) → ℕ → ℕ → ℕ → Counts → Option Counts
scan element returned_len zero byte_offset c = none
scan element returned_len (suc fuel) byte_offset c =
    let rest =
      scan element returned_len fuel (u32 (byte_offset + (element byte_offset).size))
        (count (element byte_offset) c) in
    if ltb byte_offset returned_len then rest else some c

-- The end of `threadpool_size`, with the checked cast of the number of unique cores.
unfoldable pub average : Counts → Outcome ℕ
average c =
    if ltb (length c.unique_cores) (2 ^ 16)
    then returns (u16 (length c.unique_cores + c.logical_cores) / 2)
    else panics Fault.unwrap_err

-- What the system says: whether the second call succeeded, and the buffer.
pub record CpuSets : Type 0 where
  pub succeeded : Bool
  pub returned_len : ℕ
  pub element : ℕ → CpuSetInformation

-- `threadpool_size`; the inner `none` says that the fuel ran out.
unfoldable pub threadpool_size : Option (Option ℕ) → CpuSets → ℕ → Outcome (Option ℕ)
threadpool_size (some none) sets fuel = panics Fault.unwrap_err
threadpool_size (some (some size)) sets fuel = returns (some size)
threadpool_size none sets fuel =
    if sets.succeeded
    then elim (scan sets.element sets.returned_len fuel 0
        (record { unique_cores = []; logical_cores = 0 })) [
          | none ↦ returns none
          | some c ↦ average c >>= λ size. returns (some size)
        ]
    else panics Fault.assertion
