-- ===== src/Seek/Dispatch/Tests.antt =====
-- A read of macOS whose data come in three parts.
use kiruna.Base.{ℕ, List, [], ◌∷◌, ◌++◌, map, true, some, ok, err, returns, ◌≡◌, refl, arith}
use kiruna.Base.Priority.{testing}
use kiruna.Seek.Dispatch.{Dispatch, Call, Read, read}
use kiruna.Seek.Dispatch.Reads.{part, answer, read-joins}

abbrev two_parts : List (List ℕ)
two_parts = (1 ∷ 2 ∷ []) ∷ (3 ∷ []) ∷ []

abbrev last_part : Call
last_part = (true, 4 ∷ [], 0)

abbrev system : Dispatch ℕ ℕ ℕ
system = record {
  global = some 0;
  open_file = λ path. ok 3;
  read_completion = λ file q. ([], 0);
  io = λ file q. some file;
  io_read = λ io offset size q. map part two_parts ++ (last_part ∷ []);
  try_clone = λ file. err 24;
}

abbrev opened : Read ℕ ℕ
opened = record { file = 3; io = 3; priority = testing }

read-joins_example : read system 0 4 opened ≡ returns (answer two_parts last_part)
read-joins_example = read-joins system opened 0 4 0 two_parts last_part refl (omega arith) refl
