-- ===== src/Seek/Front.antt =====
-- seek/src/lib.rs: `Read`, which wraps the `Read` of the platform.
use kiruna.Base.{ℕ, List, Result, ok, err, Outcome, returns, ◌>>=◌}
use kiruna.Base.Priority.{Priority}

-- `imp`: what a platform offers.
pub record Imp (E R : Type 0) : Type 0 where
  pub all : List ℕ → Priority → Outcome (Result (List ℕ) E)
  pub new : List ℕ → Priority → Outcome (Result R E)
  pub read : ℕ → ℕ → R → Outcome (Result (List ℕ) E × R)
  pub async_clone : R → Priority → Outcome (Result R E)

-- `Error`; `Buffer` and `Read` are what they wrap.
pub data Error (E : Type 0) : Type 0 where
  error : E → Error E

-- `.map(..).map_err(|e| Error(e))`
abbrev pub wrap : {A E : Type 0} → Result A E → Result A (Error E)
wrap (ok a) = ok a
wrap (err e) = err (error e)

module _ {E R : Type 0} (imp : Imp E R) where
  -- `Read::all`
  unfoldable pub all : List ℕ → Priority → Outcome (Result (List ℕ) (Error E))
  all path priority = imp.all path priority >>= λ r. returns (wrap r)

  -- `Read::new`
  unfoldable pub new : List ℕ → Priority → Outcome (Result R (Error E))
  new path priority = imp.new path priority >>= λ r. returns (wrap r)

  -- `Read::read`
  unfoldable pub read : ℕ → ℕ → R → Outcome (Result (List ℕ) (Error E) × R)
  read offset size r = imp.read offset size r >>= λ (bytes, r'). returns (wrap bytes, r')

  -- `Read::async_clone`
  unfoldable pub async_clone : R → Priority → Outcome (Result R (Error E))
  async_clone r priority = imp.async_clone r priority >>= λ c. returns (wrap c)
