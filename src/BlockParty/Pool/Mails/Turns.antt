-- ===== src/BlockParty/Pool/Mails/Turns.antt =====
-- One turn of the worker of block_party/src/pool.rs: it keeps each mailbox beside its task, and sends
-- each output to the mailbox of its own task.
use kiruna.Base.{
  ℕ, zero, suc, ◌+◌, List, [], ◌∷◌, ◌++◌, map, get_elem?, All-append, All-get, none, some, returns,
  Bool, ◌≡◌, ◌⊎◌, inl, inr, refl, ap, sym, ◌∙◌, subst, arith, All,
}
use kiruna.BlockParty.Pool.{
  WakeResult, task, sidechannel, WorkerSideInfo, Worker, wait_any_one, read_greedy, turn, push,
}
use kiruna.BlockParty.Pool.Pairs.{Keeps, others, turn-Keeps}
use kiruna.BlockParty.Pool.Mails.{Event, arrives, turns, places, greedy, occurs-all, places-mailed}

All-others :
    {A : Type 0} (P : A → Type 0) (xs : List A) (idx : ℕ) → All P xs → All P (others idx xs)
All-others P [] idx all = tt
All-others P (x ∷ xs) zero all = all.1
All-others P (x ∷ xs) (suc idx) all = (all.0, All-others P xs idx all.1)

get_elem?-map :
    {A B : Type 0} (f : A → B) (xs : List A) (idx : ℕ) (b : B)
    → get_elem? (map f xs) idx ≡ some b
    → (a : A) × (get_elem? xs idx ≡ some a) × (f a ≡ b)
get_elem?-map f [] idx b h = cc
get_elem?-map f (x ∷ xs) zero b h = (x, refl, cc)
get_elem?-map f (x ∷ xs) (suc idx) b h = get_elem?-map f xs idx b h

-- `Belongs t m` says that the mailbox `m` came with the task `t`, and `Says t o` that `o` is an output
-- of `t`.
module _ {T O : Type 0} (Belongs : T → ℕ → Type 0) (Says : T → O → Type 0) where
  -- `wait_any` names a task that it was shown, with an output of it.
  abbrev pub Answers : List T → WakeResult O → Type 0
  Answers tasks (task idx o) = (t : T) × (get_elem? tasks idx ≡ some t) × Says t o
  Answers tasks sidechannel = Unit

  abbrev pub Sound : Event T O → Type 0
  Sound (arrives i) = Belongs i.task i.mailbox
  Sound (turns wait_any) = (t : T) (ts : List T) → Answers (t ∷ ts) (wait_any (t ∷ ts))

  abbrev pub Own : WorkerSideInfo T ℕ → Type 0
  Own i = Belongs i.task i.mailbox

  -- The mail is an output of the task that its mailbox came with.
  abbrev pub Meets : ℕ × O → Type 0
  Meets p = (t : T) × Belongs t p.0 × Says t p.1

  -- The worker keeps its two lists for these, and every mail that it has sent is right.
  pub record Rightly (w : Worker T ℕ O) (infos : List (WorkerSideInfo T ℕ)) : Type 0 where
    pub keeps : Keeps w infos
    pub own : All Own infos
    pub own_receiver : All Own w.receiver
    pub met : All Meets w.mails

  -- A turn of such a worker.
  abbrev pub Turned : Bool → WakeResult O → Worker T ℕ O → Type 0
  Turned one_wait_only answer w =
      (turn one_wait_only answer w ≡ returns none)
      ⊎ ((w' : Worker T ℕ O) × (infos : List (WorkerSideInfo T ℕ)) × (turn one_wait_only answer w
            ≡ returns (some w'))
          × Rightly w' infos
          × ((m : ℕ) → places m w' ≡ places m w))

  pub turn-receives :
      (one_wait_only : Bool) (answer : WakeResult O) (w : Worker T ℕ O)
      → Rightly w []
      → Turned one_wait_only answer w
  unfolding turn push
  turn-receives one_wait_only answer w r = go w.receiver refl
    where
      go : (rs : List (WorkerSideInfo T ℕ)) → w.receiver ≡ rs → Turned one_wait_only answer w
      go [] e = inl (rw (r.keeps.in_tasks, turn, e) refl)
      go (i ∷ rest) e =
          let owned : All Own (i ∷ rest) = subst (All Own) e r.own_receiver in
          inr (
            push i (record w { receiver = rest }),
            i ∷ [],
            cc (r.keeps.in_tasks, e),
            record {
              keeps = record {
                in_tasks = ap (λ ts. ts ++ (i.task ∷ [])) r.keeps.in_tasks;
                in_mailboxes = ap (λ ts. ts ++ (i.mailbox ∷ [])) r.keeps.in_mailboxes;
              };
              own = (owned.0, tt);
              own_receiver = owned.1;
              met = r.met;
            },
            λ m. rw (r.keeps.in_mailboxes, e) (omega arith),
          )

  pub turn-waits :
      (one_wait_only : Bool) (answer : WakeResult O) (w : Worker T ℕ O) (x : WorkerSideInfo T ℕ)
      (infos : List (WorkerSideInfo T ℕ))
      → Rightly w (x ∷ infos)
      → Answers (read_greedy w).tasks answer
      → Turned one_wait_only answer w
  unfolding turn wait_any_one
  turn-waits one_wait_only (task idx o) w x infos r (t, g, says) =
      let h = r.keeps in
      let all = (x ∷ infos) ++ w.receiver in
      let owned = All-append Own (x ∷ infos) w.receiver r.own r.own_receiver in
      let asked : (read_greedy w).tasks ≡ map (λ k. k.task) all =
        ap (λ v. v.tasks) (greedy w (x ∷ infos) h) in
      let (i, at, same) =
        get_elem?-map (λ k. k.task) all idx t (ap (λ ts. get_elem? ts idx) (sym asked) ∙ g) in
      let (w', ended, k, mails, received) = turn-Keeps one_wait_only w x infos idx i o h at in
      inr (
        w',
        others idx all,
        ended,
        record {
          keeps = k;
          own = All-others Own all idx owned;
          own_receiver = subst (All Own) (sym received) tt;
          met = subst (All Meets) (sym mails) (
              All-append Meets w.mails ((i.mailbox, o) ∷ []) r.met (
                (i.task, All-get Own all idx i owned at, subst (λ u. Says u o) (sym same) says),
                tt,
              ));
        },
        λ m. places-mailed m idx w w' (x ∷ infos) i o h at k mails received,
      )
  turn-waits one_wait_only sidechannel w x infos r a =
      let h = r.keeps in
      let all = (x ∷ infos) ++ w.receiver in
      let v : Worker T ℕ O = record w {
        receiver = [];
        tasks = map (λ k. k.task) all;
        mailboxes = map (λ k. k.mailbox) all;
        refreshes = w.refreshes + 1;
      } in
      inr (
        v,
        all,
        rw (h.in_tasks, turn, greedy w (x ∷ infos) h) refl,
        record {
          keeps = record { in_tasks = refl; in_mailboxes = refl };
          own = All-append Own (x ∷ infos) w.receiver r.own r.own_receiver;
          own_receiver = tt;
          met = r.met;
        },
        λ m. omega (arith, occurs-all m w (x ∷ infos) h),
      )
