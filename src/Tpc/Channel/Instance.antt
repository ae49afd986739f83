-- ===== src/Tpc/Channel/Instance.antt =====
-- A semaphore that is a number, and a queue that is a list: the interfaces of `Platform` can hold.
use kiruna.Base.{
  ℕ, zero, suc, ◌+◌, ◌≤◌, List, [], ◌∷◌, ◌++◌, Option, none, some, ltb, if◌then◌else◌, length, ◌≡◌,
  arith, refl,
}
use kiruna.Tpc.Channel.Platform.{Semaphore, ArrayQueue}

abbrev pub count_down : ℕ → Option ℕ
count_down zero = none
count_down (suc n) = some n

pub count_down-some : (s t : ℕ) → count_down s ≡ some t → s ≡ t + 1
count_down-some zero t e = cc
count_down-some (suc s) t e = ground arith

pub count_down-none : (s : ℕ) → count_down s ≡ none → s ≡ 0
count_down-none zero e = refl
count_down-none (suc s) e = cc

abbrev pub counter : Semaphore
counter = record {
  State = ℕ;
  count = λ s. s;
  new = 0;
  signal = λ s. s + 1;
  decrement = count_down;
  count-new = refl;
  count-signal = λ s. refl;
  decrement-some = count_down-some;
  decrement-none = count_down-none;
}

pub record Bounded (E : Type 0) : Type 0 where
  pub room : ℕ
  pub items : List E

abbrev pub push_back : {E : Type 0} → Bounded E → E → Option (Bounded E)
push_back q e =
    if ltb (length q.items) q.room then some (record q { items = q.items ++ (e ∷ []) }) else none

abbrev pub pop_front : {E : Type 0} → Bounded E → Option (E × Bounded E)
pop_front q = elim q.items [ [] ↦ none | e ∷ rest ↦ some (e, record q { items = rest }) ]

pub push_back-some :
    {E : Type 0} (q q' : Bounded E) (e : E)
    → push_back q e ≡ some q'
    → (q'.items ≡ q.items ++ (e ∷ [])) × (q'.room ≡ q.room)
push_back-some q q' e h = (ground arith, ground arith)

pub push_back-none :
    {E : Type 0} (q : Bounded E) (e : E) → push_back q e ≡ none → q.room ≤ length q.items
push_back-none q e h = ground arith

pub pop_front-some :
    {E : Type 0} (q q' : Bounded E) (e : E)
    → pop_front q ≡ some (e, q')
    → (q.items ≡ e ∷ q'.items) × (q'.room ≡ q.room)
pop_front-some q q' e h = (ground arith, ground arith)

pub pop_front-none : {E : Type 0} (q : Bounded E) → pop_front q ≡ none → q.items ≡ []
pop_front-none q h = ground arith

abbrev pub list_queue : {E : Type 0} → ArrayQueue E
list_queue = record {
  State = Bounded _;
  new = λ n. record { room = n; items = [] };
  push = push_back;
  pop = pop_front;
  capacity = λ q. q.room;
  contents = λ q. q.items;
  new_lem = λ n. (refl, refl);
  push-some = push_back-some;
  push-none = push_back-none;
  pop-some = pop_front-some;
  pop-none = pop_front-none;
}
