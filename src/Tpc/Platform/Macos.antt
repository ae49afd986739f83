-- ===== src/Tpc/Platform/Macos.antt =====
-- tpc/src/platform/macos/semaphore.rs and tpc/src/platform/macos/physical_cpus.rs, over the calls of
-- the system that they make, which are an interface and an argument.
use kiruna.Base.{
  ℕ, zero, suc, ◌+◌, ◌==◌, if◌then◌else◌, Option, none, some, Outcome, returns, panics, Fault, ◌≡◌,
  refl, u16, arith,
}
use kiruna.Tpc.Channel.Platform.{Semaphore}

-- The semaphore of dispatch. A wait that ends at once answers 0 and takes one from the count, or
-- answers another number where the count is 0; one that does not end at once is `none` there.
pub record DispatchSemaphore : Type 1 where
  pub State : Type 0
  pub count : State → ℕ
  pub new : ℕ → State
  pub signal : State → State
  pub wait_now : State → ℕ × State
  pub wait_forever : State → Option (ℕ × State)
  pub count-new : (n : ℕ) → count (new n) ≡ n
  pub count-signal : (s : State) → count (signal s) ≡ count s + 1
  pub wait_now-zero : (s t : State) → wait_now s ≡ (0, t) → count s ≡ count t + 1
  pub wait_now-suc : (s t : State) (n : ℕ) → wait_now s ≡ (suc n, t) → count s ≡ 0
  pub wait_forever-suc :
      (s : State) (n : ℕ)
      → count s ≡ suc n
      → (t : State) × (wait_forever s ≡ some (0, t)) × (count t ≡ n)
  pub wait_forever-zero : (s : State) → count s ≡ 0 → wait_forever s ≡ none

-- The match on the answer of `wait`; `none` stands for `Err(())`.
unfoldable pub taken : {S : Type 0} → ℕ × S → Option S
taken (zero, s) = some s
taken (suc n, s) = none

taken-some : {S : Type 0} (a : ℕ × S) (t : S) → taken a ≡ some t → a ≡ (0, t)
unfolding taken
taken-some (zero, s) t e = cc
taken-some (suc n, s) t e = cc

taken-none : {S : Type 0} (a : ℕ × S) → taken a ≡ none → (n : ℕ) × (t : S) × (a ≡ (suc n, t))
unfolding taken
taken-none (zero, s) e = cc
taken-none (suc n, s) e = (n, s, refl)

module _ (d : DispatchSemaphore) where
  -- `Semaphore::new`
  unfoldable pub new : d.State
  new = d.new 0

  -- `signal`
  unfoldable pub signal : d.State → d.State
  signal s = d.signal s

  -- `wait_forever`, which does not read the answer; `none` says that it sleeps.
  unfoldable pub wait_forever : d.State → Option d.State
  wait_forever s = elim (d.wait_forever s) [ none ↦ none | some (answer, t) ↦ some t ]

  -- `decrement_immediate`
  unfoldable pub decrement_immediate : d.State → Option d.State
  decrement_immediate s = taken (d.wait_now s)

  pub decrement_immediate-some :
      (s t : d.State) → decrement_immediate s ≡ some t → d.count s ≡ d.count t + 1
  unfolding decrement_immediate
  decrement_immediate-some s t e = d.wait_now-zero s t (taken-some (d.wait_now s) t e)

  pub decrement_immediate-none : (s : d.State) → decrement_immediate s ≡ none → d.count s ≡ 0
  unfolding decrement_immediate
  decrement_immediate-none s e =
      let (n, t, answers) = taken-none (d.wait_now s) e in d.wait_now-suc s t n answers

  -- A thread that waits after a signal does not sleep, and leaves the count as it was before.
  signal-wakes :
      (s : d.State) → (t : d.State) × (wait_forever (signal s) ≡ some t) × (d.count t ≡ d.count s)
  unfolding signal wait_forever
  signal-wakes s =
      let counted : d.count (d.signal s) ≡ d.count s + 1 = d.count-signal s in
      let raised : d.count (d.signal s) ≡ suc (d.count s) = omega arith in
      let (t, answers, back) = d.wait_forever-suc (d.signal s) (d.count s) raised in
      (t, rw (wait_forever, answers) refl, back)

  -- The semaphore that `Tpc.Channel` takes.
  abbrev pub semaphore : Semaphore
  unfolding new signal
  semaphore = record {
    State = d.State;
    count = d.count;
    new = new;
    signal = signal;
    decrement = decrement_immediate;
    count-new = d.count-new 0;
    count-signal = d.count-signal;
    decrement-some = decrement_immediate-some;
    decrement-none = decrement_immediate-none;
  }

-- `threadpool_size`, from the code that `sysctlbyname` returns and the number that it stores.
unfoldable pub threadpool_size : (code cores : ℕ) → Outcome ℕ
threadpool_size code cores = if code == 0 then returns (u16 cores) else panics Fault.explicit_panic
