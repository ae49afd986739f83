-- ===== src/BlockParty/Pool/Mails.antt =====
-- Many turns of the worker of block_party/src/pool.rs, while senders add tasks: which mailboxes get
-- mail. A mailbox is its number.
pub mod Turns
pub mod Run
use kiruna.Base.{
  ℕ, zero, suc, ◌+◌, List, [], ◌∷◌, ◌++◌, map, map-append, get_elem?, none, some, Outcome, returns,
  ◌>>=◌, Bool, ◌==◌, if◌then◌else◌, ◌≡◌, refl, ap, ◌∙◌, arith, total, total-append,
}
use kiruna.BlockParty.Pool.{WakeResult, WorkerSideInfo, Worker, read_greedy, turn}
use kiruna.BlockParty.Pool.Pairs.{Keeps, kept, others, read_greedy-kept}

-- A task arrives, or the worker makes a turn, in which `wait_any` answers the tasks it is shown.
pub data Event (T O : Type 0) : Type 0 where
  arrives : WorkerSideInfo T ℕ → Event T O
  turns : (List T → WakeResult O) → Event T O

-- How often a mailbox stands in a list.
abbrev pub occurs : ℕ → List ℕ → ℕ
occurs m = total (λ k. if k == m then 1 else 0)

abbrev pub mailbox_of : {T : Type 0} → WorkerSideInfo T ℕ → ℕ
mailbox_of i = i.mailbox

total-others :
    {T : Type 0} (weight : ℕ → ℕ) (xs : List (WorkerSideInfo T ℕ)) (idx : ℕ)
    (i : WorkerSideInfo T ℕ)
    → get_elem? xs idx ≡ some i
    → total weight (map mailbox_of (others idx xs)) + weight i.mailbox
      ≡ total weight (map mailbox_of xs)
total-others weight [] idx i h = cc
total-others weight (x ∷ xs) zero i h = let same : x ≡ i = cc in ground (arith, same)
total-others weight (x ∷ xs) (suc idx) i h = omega (arith, total-others weight xs idx i h)

module _ {T O : Type 0} where
  -- The worker's loop ends where a turn has nothing to do; what comes later is left over.
  abbrev pub run :
      Bool → List (Event T O) → Worker T ℕ O → Outcome (Worker T ℕ O × List (Event T O))
  run one_wait_only [] w = returns (w, [])
  run one_wait_only (arrives i ∷ es) w =
      run one_wait_only es (record w { receiver = w.receiver ++ (i ∷ []) })
  run one_wait_only (turns wait_any ∷ es) w =
      turn one_wait_only (wait_any (read_greedy w).tasks) w
      >>= elim [ none ↦ returns (w, es) | some w' ↦ run one_wait_only es w' ]

  -- The mailboxes of the tasks that arrive.
  abbrev pub arrived : List (Event T O) → List ℕ
  arrived [] = []
  arrived (arrives i ∷ es) = i.mailbox ∷ arrived es
  arrived (turns wait_any ∷ es) = arrived es

  abbrev pub mailed : Worker T ℕ O → List ℕ
  mailed w = map (λ p. p.0) w.mails

  -- Where a mailbox may be: it has got mail, its task waits, or it is still to be received.
  abbrev pub places : ℕ → Worker T ℕ O → ℕ
  places m w = occurs m (mailed w) + (occurs m w.mailboxes + occurs m (map mailbox_of w.receiver))

  pub greedy :
      (w : Worker T ℕ O) (infos : List (WorkerSideInfo T ℕ))
      → Keeps w infos
      → read_greedy w ≡ kept (record w { receiver = [] }) (infos ++ w.receiver)
  greedy w infos h =
      let same : w ≡ kept w infos = rw (h.in_tasks, h.in_mailboxes) refl in
      ap read_greedy same ∙ read_greedy-kept w infos

  pub occurs-all :
      (m : ℕ) (w : Worker T ℕ O) (infos : List (WorkerSideInfo T ℕ))
      → Keeps w infos
      → occurs m (map mailbox_of (infos ++ w.receiver))
        ≡ occurs m w.mailboxes + occurs m (map mailbox_of w.receiver)
  occurs-all m w infos h =
      rw (h.in_mailboxes, map-append mailbox_of infos w.receiver)
        (total-append (λ k. if k == m then 1 else 0) (map mailbox_of infos)
          (map mailbox_of w.receiver))

  -- The mail of one task changes the place of its mailbox.
  pub places-mailed :
      (m idx : ℕ) (w w' : Worker T ℕ O) (infos : List (WorkerSideInfo T ℕ)) (i : WorkerSideInfo T ℕ)
      (o : O)
      → Keeps w infos
      → get_elem? (infos ++ w.receiver) idx ≡ some i
      → Keeps w' (others idx (infos ++ w.receiver))
      → w'.mails ≡ w.mails ++ ((i.mailbox, o) ∷ [])
      → w'.receiver ≡ []
      → places m w' ≡ places m w
  places-mailed m idx w w' infos i o h g k mails received =
      let unit : ℕ → ℕ = λ n. if n == m then 1 else 0 in
      let mail : occurs m (mailed w') ≡ occurs m (mailed w) + (unit i.mailbox + 0) =
        ap (λ ps. occurs m (map (λ p. p.0) ps)) mails
        ∙ ap (occurs m) (map-append (λ p. p.0) w.mails ((i.mailbox, o) ∷ []))
        ∙ total-append unit (mailed w) (i.mailbox ∷ []) in
      omega (
        arith,
        mail,
        ap (occurs m) k.in_mailboxes,
        ap (λ r. occurs m (map mailbox_of r)) received,
        total-others unit (infos ++ w.receiver) idx i g,
        occurs-all m w infos h,
      )
