-- ===== src/Seek/Laws.antt =====
-- What the callback of a read sends, and the form of a fixed path.
use kiruna.Base.{
  append-nil, append_assoc, concat, ℕ, suc, ◌==◌, if◌then◌else◌, List, [], ◌∷◌, ◌++◌, map, Bool,
  true, false, Bool-cases, Option, none, some, ok, err, Outcome, returns, panics, Fault, ◌>>=◌, ◌≡◌,
  ◌≢◌, inl, inr, refl, ap, sym, ◌∙◌, All, arith, ==→ne, ne→==,
}
use kiruna.Seek.{Environment, environment, complete, callback, backslash, drain_prefix, fix_path}

-- The callback is called for each part, which is not the last; nothing may be sent.
abbrev pub parts : List (List ℕ) → Environment → Outcome (Option Environment)
parts [] e = returns (some e)
parts (c ∷ cs) e =
    callback false c 0 e >>= λ (sent, e'). elim sent [ none ↦ parts cs e' | some r ↦ returns none ]

abbrev pub holding : List ℕ → Environment
holding bytes = record { data_so_far = some bytes; completer = true }

parts-holding :
    (cs : List (List ℕ)) (bytes : List ℕ)
    → parts cs (holding bytes) ≡ returns (some (holding (bytes ++ concat cs)))
unfolding callback
parts-holding [] bytes = ap (λ x. returns (some (holding x))) (sym (append-nil bytes))
parts-holding (c ∷ cs) bytes =
    parts-holding cs (bytes ++ c)
    ∙ ap (λ x. returns (some (holding x))) (append_assoc bytes c (concat cs))

-- The parts of a read are gathered without anything being sent. The last one sends them all, joined
-- in their order; an error in its place sends the error instead. A further last part
-- panics.
pub parts-sends :
    (cs : List (List ℕ)) (last : List ℕ) (code : ℕ)
    → (e : Environment) × (parts cs environment ≡ returns (some e))
      × ((e' : Environment) × (callback true last 0 e ≡ returns (some (ok (concat cs ++ last)), e'))
          × ((bytes : List ℕ) → callback true bytes 0 e' ≡ panics Fault.unwrap_none))
      × ((e' : Environment) × (callback true last (suc code) e
            ≡ returns (some (err (suc code)), e'))
          × ((bytes : List ℕ) → callback true bytes 0 e' ≡ panics Fault.unwrap_none))
unfolding callback complete environment
parts-sends cs last code =
    let differs = ne→== (suc code) 0 (λ z. omega (arith, z)) in
    (
      holding (concat cs),
      parts-holding cs [],
      (record { data_so_far = none; completer = false }, refl, λ bytes. refl),
      (
        record { data_so_far = some (concat cs); completer = false },
        rw (callback, differs) refl,
        λ bytes. refl,
      ),
    )

All-backslash : (path : List ℕ) → All (λ c. c ≢ 47) (map backslash path)
unfolding backslash
All-backslash [] = tt
All-backslash (c ∷ path) = (
  elim (Bool-cases (c == 47)) [
    | inl e ↦ rw e (λ z. omega (arith, z))
    | inr e ↦ rw e (==→ne c 47 e)
  ],
  All-backslash path,
)

All-if :
    (b : Bool) (xs ys : List ℕ)
    → All (λ c. c ≢ 47) xs
    → All (λ c. c ≢ 47) ys
    → All (λ c. c ≢ 47) (if b then xs else ys)
All-if true xs ys hx hy = hx
All-if false xs ys hx hy = hy

All-drain_prefix : (path : List ℕ) → All (λ c. c ≢ 47) path → All (λ c. c ≢ 47) (drain_prefix path)
unfolding drain_prefix
All-drain_prefix [] h = tt
All-drain_prefix (a ∷ []) h = h
All-drain_prefix (a ∷ b ∷ []) h = h
All-drain_prefix (a ∷ b ∷ c ∷ []) h = h
All-drain_prefix (a ∷ b ∷ c ∷ d ∷ rest) h =
    All-if (a == 92) _ _
      (All-if (b == 92) _ _ (All-if (c == 63) _ _ (All-if (d == 92) _ _ h.1.1.1.1 h) h) h) h

-- A fixed path has no slash, whichever path it is made from; an absolute path that begins with the
-- verbatim prefix, written with either kind of slash, loses exactly that prefix.
pub fix_path-All :
    (is_relative : List ℕ → Bool) (absolute : List ℕ → List ℕ) (path : List ℕ)
    → All (λ c. c ≢ 47) (fix_path is_relative absolute path)
      × ((rest : List ℕ)
          → is_relative (92 ∷ 92 ∷ 63 ∷ 92 ∷ rest) ≡ false
          → fix_path is_relative absolute (92 ∷ 92 ∷ 63 ∷ 92 ∷ rest) ≡ map backslash rest)
      × ((rest : List ℕ)
          → is_relative (47 ∷ 47 ∷ 63 ∷ 47 ∷ rest) ≡ false
          → fix_path is_relative absolute (47 ∷ 47 ∷ 63 ∷ 47 ∷ rest) ≡ map backslash rest)
unfolding fix_path drain_prefix backslash
fix_path-All is_relative absolute path = (
  All-drain_prefix _ (All-backslash (if is_relative path then absolute path else path)),
  λ rest h. rw h refl,
  λ rest h. rw h refl,
)
