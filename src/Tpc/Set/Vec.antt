-- ===== src/Tpc/Set/Vec.antt =====
-- tpc/src/set/vec.rs: how the slots of a vector are divided into jobs, and what the jobs write.
-- `usize` has 64 bits, and 32-bit products wrap, as in a release build. The memory of the output
-- is a function from the slot to what was last written there.
pub mod Plan
pub mod Fill
pub mod Build
mod Tests
use kiruna.Base.{
  ℕ, zero, suc, ◌+◌, ◌-◌, ◌*◌, ◌/◌, ◌%◌, min, u32, leb, ◌==◌, if◌then◌else◌, List, [], ◌∷◌, Bool,
  Option, none, some, Outcome, returns, panics, Fault, ◌>>=◌, get_elem?,
}

pub data Strategy : Type 0 where
  jobs : ℕ → Strategy
  jobs_per_core : ℕ → Strategy

pub record ChildPlan : Type 0 where
  pub base_offset : ℕ
  pub len : ℕ

pub record ChildPlanner : Type 0 where
  pub i : ℕ
  pub k : ℕ
  pub m : ℕ
  pub target_jobs : ℕ

-- `proposed`, where `cpus` is `GlobalState::global().physical_cpus`.
unfoldable pub proposed : ℕ → Strategy → ℕ
proposed cpus (jobs n) = n
proposed cpus (jobs_per_core n) = u32 (n * cpus)

pub target : ℕ → Strategy → ℕ → ℕ
unfolding proposed
target cpus s len = if leb len (proposed cpus s) then u32 len else proposed cpus s

-- `ChildPlanner::new`: both divisions panic on a divisor of 0.
pub new : ℕ → Strategy → ℕ → Outcome ChildPlanner
unfolding target
new cpus s len =
    let n = target cpus s len in
    if n == 0
    then panics Fault.division_by_zero
    else returns (record { i = 0; k = len / n; m = len % n; target_jobs = n })

-- The start of job `i`, and the end of job `i - 1`.
pub offset : ChildPlanner → ℕ → ℕ
offset p i = i * p.k + min i p.m

-- `Iterator::next`.
pub next : ChildPlanner → Option (ChildPlan × ChildPlanner)
unfolding offset
next p =
    let start = offset p p.i in
    let end = offset p (p.i + 1) in
    if p.i == p.target_jobs
    then none
    else some (record { base_offset = start; len = end - start }, record p { i = p.i + 1 })

-- `for plan in child_planner { jobs.push(..) }`, on fuel.
pub collect : ℕ → ChildPlanner → Option (List ChildPlan)
collect zero p = none
collect (suc fuel) p = elim (next p) [
  | none ↦ some []
  | some (plan, p') ↦ elim (collect fuel p') [ none ↦ none | some plans ↦ some (plan ∷ plans) ]
]

-- The memory behind `output.as_mut_ptr()`.
abbrev pub Memory {ℓ} : Type ℓ → Type ℓ
Memory O = ℕ → Option O

abbrev pub placed {ℓ} : {O : Type ℓ} → Memory O → ℕ → O → Memory O
placed mem slot val j = if slot == j then some val else mem j

-- `*write_ptr = val`, an assignment: it drops what lies there, which is undefined where nothing was
-- written yet, unless a drop of the type does nothing. `needs_drop` is that of `std::mem`.
unfoldable pub write {ℓ} :
    {O : Type ℓ} → (needs_drop : Bool) → Memory O → ℕ → O → Outcome (Memory O)
write needs_drop mem slot val = elim (mem slot) [
  | some old ↦ returns (placed mem slot val)
  | none ↦ if needs_drop then panics Fault.drop_of_uninitialised else returns (placed mem slot val)
]

module _ {ℓ} {O : Type ℓ} (needs_drop : Bool) (f : ℕ → O) where
  -- The `for _ in 0..item.len` loop of a job, from `slot` on.
  pub fill : ℕ → ℕ → Memory O → Outcome (Memory O)
  unfolding write
  fill zero slot mem = returns mem
  fill (suc n) slot mem = write needs_drop mem slot (f slot) >>= fill n (slot + 1)

  -- `job_creator(index)`; `&jobs[index]` panics out of range.
  pub job : List ChildPlan → ℕ → Memory O → Outcome (Memory O)
  unfolding fill
  job plans index mem = elim (get_elem? plans index) [
    | none ↦ panics Fault.index_out_of_bounds
    | some item ↦ fill item.len item.base_offset mem
  ]

  -- The jobs in the order in which the workers happen to run them.
  unfoldable pub run_jobs : List ChildPlan → List ℕ → Memory O → Outcome (Memory O)
  unfolding job
  run_jobs plans [] mem = returns mem
  run_jobs plans (i ∷ order) mem = job plans i mem >>= run_jobs plans order

-- `Vec::with_capacity`: nothing is written yet.
abbrev pub empty {ℓ} : {O : Type ℓ} → Memory O
empty j = none

-- `set_sync`, where `order` is the order in which the workers happen to run the jobs, and the answer
-- is the memory with the length that is set at the end. The inner `none` says that the fuel of the
-- loop over the planner ran out.
unfoldable pub set_sync {ℓ} :
    {O : Type ℓ}
    → (needs_drop : Bool) → (ℕ → O)
    → ℕ
    → Strategy
    → ℕ
    → List ℕ
    → Outcome (Option (Memory O × ℕ))
set_sync needs_drop f cpus strategy len order = new cpus strategy len >>= λ child_planner.
    elim (collect (suc child_planner.target_jobs) child_planner) [
      | none ↦ returns none
      | some plans ↦
          run_jobs needs_drop f plans order empty >>= λ output. returns (some (output, len))
    ]
