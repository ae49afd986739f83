-- ===== src/Tpc/Channel/Threads/Invariant.antt =====
-- What the semaphores, the queues and the threads have to do with one another at every moment.
use kiruna.Base.{
  ℕ, ◌+◌, ◌≤◌, ◌<◌, List, ◌∷◌, some, leb, ◌==◌, if◌then◌else◌, Fault, get_elem?, set, length, total,
  total-set, get_elem?-set_self, get_elem?-set_ne, get_elem?-lt_length, ◌≡◌, ◌≢◌, arith, ap, sym,
  ◌∙◌, subst,
}
use native.Mathlib.Decide.{dec_lt, ℕ_discrete}
use kiruna.Tpc.Channel.Platform.{Semaphore, ArrayQueue}
use kiruna.Tpc.Channel.{SharedOne, Channel}
use kiruna.Tpc.Channel.Threads.{
  Pc, pushed, announced, trying, restoring, scanning, popping, panicked, write,
}
use kiruna.Tpc.Channel.Threads.Counts.{total_from, total_from-set_le, total_from-set_lt}

-- A thread that has put an element into level `l` and not announced it, or that has been promised
-- one there.
abbrev pub at : ℕ → Pc → ℕ
at l (pushed k) = if l == k then 1 else 0
at l (popping k) = if l == k then 1 else 0
at l p = 0

-- A thread that stands between the global semaphore and a local one.
abbrev pub holds : Pc → ℕ
holds announced = 1
holds trying = 1
holds restoring = 1
holds (scanning k) = 1
holds p = 0

-- A thread in `recv_all` that has passed all levels below `l` and found them empty.
abbrev pub past : ℕ → Pc → ℕ
past l (scanning k) = if leb l k then 1 else 0
past l p = 0

abbrev pub dead : Pc → ℕ
dead (panicked Fault.no_element) = 1
dead (panicked Fault.unwrap_none) = 1
dead p = 0

module _ (S : Semaphore) {E : Type 0} (Q : ArrayQueue E) where
  abbrev pub tokens : SharedOne S Q → ℕ
  tokens s = S.count s.local_semaphore

  abbrev pub stored : SharedOne S Q → ℕ
  stored s = length (Q.contents s.queue)

  pub record Inv (m : Channel S Q) (ts : List Pc) : Type 0 where
    pub settled :
        (l : ℕ) (s : SharedOne S Q)
        → get_elem? m.shared l ≡ some s
        → stored s ≡ tokens s + total (at l) ts
    pub balanced : total tokens m.shared ≡ S.count m.global_semaphore + total holds ts
    pub supplied : (l : ℕ) → 0 < l → total (past l) ts ≤ total_from tokens l m.shared
    pub alive : total dead ts ≡ 0

  -- The fields are sums, so the order of the threads does not matter to them.
  module _ (m : Channel S Q) (p p' : Pc) (rest : List Pc) where
    abbrev Before : Type 0
    Before = Inv m (p ∷ rest)

    settled-write :
        (k : ℕ) (s s' : SharedOne S Q)
        → get_elem? m.shared k ≡ some s
        → stored s' + (tokens s + at k p) ≡ stored s + (tokens s' + at k p')
        → ((l : ℕ) → l ≢ k → at l p ≡ at l p')
        → Before
        → (l : ℕ) (r : SharedOne S Q) → get_elem? (set m.shared k s') l ≡ some r
        → stored r ≡ tokens r + total (at l) (p' ∷ rest)
    settled-write k s s' g change same inv l r q = elim (ℕ_discrete k l) [
      | yes here ↦
          let stays : get_elem? (set m.shared k s') k ≡ some s' =
            get_elem?-set_self m.shared k s' (get_elem?-lt_length m.shared k g) in
          let new : s' ≡ r = cc (ap (get_elem? (set m.shared k s')) here) in
          subst (λ x. stored x ≡ tokens x + total (at l) (p' ∷ rest)) new
            (subst (λ i. stored s' ≡ tokens s' + total (at i) (p' ∷ rest)) here
              (omega (arith, inv.settled k s g, change)))
      | no there ↦
          let old : get_elem? m.shared l ≡ some r =
            sym (get_elem?-set_ne m.shared k l s' there) ∙ q in
          omega (arith, inv.settled l r old, same l (λ e. there (sym e)))
    ]

    supplied-write :
        (k : ℕ) (s s' : SharedOne S Q)
        → get_elem? m.shared k ≡ some s
        → ((l : ℕ) → 0 < l → l ≤ k → past l p' + tokens s ≤ past l p + tokens s')
        → ((l : ℕ) → 0 < l → k < l → past l p' ≤ past l p)
        → Before
        → (l : ℕ) → 0 < l
        → total (past l) (p' ∷ rest) ≤ total_from tokens l (set m.shared k s')
    supplied-write k s s' g below above inv l pos = elim (dec_lt k l) [
      | yes h ↦
          omega
            (arith, total_from-set_lt tokens l k m.shared s' h, inv.supplied l pos, above l pos h)
      | no h ↦ omega (
        arith,
        total_from-set_le tokens l k m.shared s s' g (omega arith),
        inv.supplied l pos,
        below l pos (omega arith),
      )
    ]

    -- A step that writes to level `k`.
    pub written :
        (k : ℕ) (s s' : SharedOne S Q)
        → get_elem? m.shared k ≡ some s
        → stored s' + (tokens s + at k p) ≡ stored s + (tokens s' + at k p')
        → ((l : ℕ) → l ≢ k → at l p ≡ at l p')
        → tokens s' + holds p ≡ tokens s + holds p'
        → ((l : ℕ) → 0 < l → l ≤ k → past l p' + tokens s ≤ past l p + tokens s')
        → ((l : ℕ) → 0 < l → k < l → past l p' ≤ past l p)
        → dead p' ≡ 0
        → Before
        → Inv (write S Q m k s') (p' ∷ rest)
    written k s s' g change same balance below above lives inv = record {
      settled = settled-write k s s' g change same inv;
      balanced = omega (arith, inv.balanced, total-set tokens m.shared k s s' g, balance);
      supplied = supplied-write k s s' g below above inv;
      alive = omega (arith, inv.alive, lives);
    }

    -- A step that writes at most to the global semaphore.
    pub unwritten :
        (g : S.State)
        → S.count g + holds p' ≡ S.count m.global_semaphore + holds p
        → ((l : ℕ) → at l p ≡ at l p')
        → ((l : ℕ) → 0 < l → past l p' ≤ past l p)
        → dead p' ≡ 0
        → Before
        → Inv (record m { global_semaphore = g }) (p' ∷ rest)
    unwritten g balance same ahead lives inv = record {
      settled = λ l s q. omega (arith, inv.settled l s q, same l);
      balanced = omega (arith, inv.balanced, balance);
      supplied = λ l pos. omega (arith, inv.supplied l pos, ahead l pos);
      alive = omega (arith, inv.alive, lives);
    }
