-- ===== src/BlockParty/Pool/Pairs.antt =====
-- The worker of block_party/src/pool.rs keeps each mailbox beside its task.
use kiruna.Base.{
  append-nil, append_assoc, map-append, ℕ, zero, suc, ◌+◌, List, [], ◌∷◌, ◌++◌, map, some, returns,
  if◌then◌else◌, Bool, ◌≡◌, refl, ap, ◌∙◌, get_elem?,
}
use kiruna.BlockParty.Pool.{
  task, WorkerSideInfo, Worker, remove, push, push_all, read_greedy, wait_any_one, turn,
}

-- The list without the element at the index.
abbrev pub others : {A : Type 0} → ℕ → List A → List A
others i [] = []
others zero (x ∷ xs) = xs
others (suc i) (x ∷ xs) = x ∷ others i xs

remove-map :
    {A B : Type 0} (f : A → B) (xs : List A) (i : ℕ) (a : A)
    → get_elem? xs i ≡ some a
    → remove i (map f xs) ≡ returns (f a, map f (others i xs))
unfolding remove
remove-map f [] i a h = cc
remove-map f (x ∷ xs) zero a h = let same : x ≡ a = cc in rw same refl
remove-map f (x ∷ xs) (suc i) a h = rw (remove-map f xs i a h) refl

module _ {T M O : Type 0} where
  -- The two lists of the worker are the tasks and the mailboxes of these, in this order.
  pub record Keeps (w : Worker T M O) (infos : List (WorkerSideInfo T M)) : Type 0 where
    pub in_tasks : w.tasks ≡ map (λ i. i.task) infos
    pub in_mailboxes : w.mailboxes ≡ map (λ i. i.mailbox) infos

  push_all-eq :
      (is : List (WorkerSideInfo T M)) (w : Worker T M O)
      → push_all is w ≡ record w {
        tasks = w.tasks ++ map (λ i. i.task) is;
        mailboxes = w.mailboxes ++ map (λ i. i.mailbox) is;
      }
  unfolding push
  push_all-eq [] w = rw (append-nil w.tasks, append-nil w.mailboxes) refl
  push_all-eq (i ∷ is) w =
      push_all-eq is (push i w)
      ∙ rw
          (
            append_assoc w.tasks (i.task ∷ []) (map (λ i. i.task) is),
            append_assoc w.mailboxes (i.mailbox ∷ []) (map (λ i. i.mailbox) is),
          )
          refl

  abbrev pub kept : Worker T M O → List (WorkerSideInfo T M) → Worker T M O
  kept w infos = record w {
    tasks = map (λ i. i.task) infos;
    mailboxes = map (λ i. i.mailbox) infos;
  }

  pub read_greedy-kept :
      (w : Worker T M O) (infos : List (WorkerSideInfo T M))
      → read_greedy (kept w infos) ≡ kept (record w { receiver = [] }) (infos ++ w.receiver)
  unfolding read_greedy
  read_greedy-kept w infos =
      push_all-eq w.receiver (record (kept w infos) { receiver = [] })
      ∙ rw (map-append (λ i. i.task) infos w.receiver, map-append (λ i. i.mailbox) infos w.receiver)
          refl

  -- A turn of a worker that holds tasks takes in everything that the receiver has, and waits; where
  -- `wait_any` names the index of a task that it was shown, the output goes to the mailbox that came
  -- with that very task, both are dropped, and the other tasks keep their mailboxes. The turn does not
  -- panic.
  pub turn-Keeps :
      (one_wait_only : Bool) (w : Worker T M O) (x : WorkerSideInfo T M)
      (infos : List (WorkerSideInfo T M)) (idx : ℕ) (i : WorkerSideInfo T M) (o : O)
      → Keeps w (x ∷ infos)
      → get_elem? ((x ∷ infos) ++ w.receiver) idx ≡ some i
      → (w' : Worker T M O) × (turn one_wait_only (task idx o) w ≡ returns (some w'))
        × Keeps w' (others idx ((x ∷ infos) ++ w.receiver))
        × (w'.mails ≡ w.mails ++ ((i.mailbox, o) ∷ []))
        × (w'.receiver ≡ [])
  unfolding turn wait_any_one
  turn-Keeps one_wait_only w x infos idx i o h g =
      let same : w ≡ kept w (x ∷ infos) = rw (h.in_tasks, h.in_mailboxes) refl in
      let all = (x ∷ infos) ++ w.receiver in
      let taken = read_greedy-kept w (x ∷ infos) in
      let t = remove-map (λ k. k.task) all idx i g in
      let m = remove-map (λ k. k.mailbox) all idx i g in
      let w' : Worker T M O = record {
        receiver = [];
        tasks = map (λ k. k.task) (others idx all);
        mailboxes = map (λ k. k.mailbox) (others idx all);
        mails = w.mails ++ ((i.mailbox, o) ∷ []);
        refreshes = if one_wait_only then w.refreshes + 1 else w.refreshes;
      } in
      (
        w',
        ap (turn one_wait_only (task idx o)) same ∙ rw (taken, t, m) refl,
        record { in_tasks = refl; in_mailboxes = refl },
        refl,
        refl,
      )
