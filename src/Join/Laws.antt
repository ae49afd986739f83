-- ===== src/Join/Laws.antt =====
-- `join2` against its two futures, each polled on its own.
use kiruna.Base.{
  List, [], ◌∷◌, Poll, ready, pending, returns, ap, ◌∙◌, Option, some, none, ◌≡◌, refl, arith,
  drive,
}
use kiruna.Join.{polling, new, finish, poll}
use kiruna.Join.Slot.{ReadyOrNot, future, finished, settle, poll_slot, alone, alone-finished}

-- What two slots have to say together.
abbrev pub both {ℓ} : {F G A B : Type ℓ} → ReadyOrNot F A → ReadyOrNot G B → Option (A × B)
both (finished a) (finished b) = some (a, b)
both (finished a) (future g) = none
both (future f) b = none

abbrev output {ℓ} : {F O : Type ℓ} → ReadyOrNot F O → Option O
output (future f) = none
output (finished o) = some o

-- What a future gives by itself, polled with each context in turn until it is ready.
abbrev given {ℓ} : {F O : Type ℓ} → Poll O × F → (F → Option O) → Option O
given (ready o, f) rest = some o
given (pending, f) rest = rest f

module _ {ℓ κ} {C : Type κ} {F O : Type ℓ} (poll_f : C → F → Poll O × F) where
  unfoldable pub gives : List C → F → Option O
  gives [] f = none
  gives (cx ∷ cs) f = given (poll_f cx f) (gives cs)

  alone-gives : (cs : List C) (f : F) → output (alone poll_f cs (future f)) ≡ gives cs f
  unfolding alone gives poll_slot
  alone-gives [] f = refl
  alone-gives (cx ∷ cs) f = go (alone-gives cs) (poll_f cx f)
    where
      go :
          ((g : F) → output (alone poll_f cs (future g)) ≡ gives cs g)
          → (r : Poll O × F) → output (alone poll_f cs (settle r)) ≡ given r (gives cs)
      go ih (ready o, f') = ap output (alone-finished poll_f cs o)
      go ih (pending, f') = ih f'

-- The pair of two outputs that are both there.
abbrev pub pair {ℓ} : {A B : Type ℓ} → Option A → Option B → Option (A × B)
pair (some a) (some b) = some (a, b)
pair (some a) none = none
pair none b = none

both-pair {ℓ} :
    {F G A B : Type ℓ} (s : ReadyOrNot F A) (t : ReadyOrNot G B)
    → both s t ≡ pair (output s) (output t)
both-pair (finished a) (finished b) = refl
both-pair (finished a) (future g) = refl
both-pair (future f) t = refl

module _ {ℓ κ} {C : Type κ} {F G A B : Type ℓ} (poll_a : C → F → Poll A × F)
    (poll_b : C → G → Poll B × G) where
  abbrev Agrees : List C → ReadyOrNot F A → ReadyOrNot G B → Type ℓ
  Agrees cs s t =
      drive (poll poll_a poll_b) cs (polling s t)
      ≡ returns (both (alone poll_a cs s) (alone poll_b cs t))

  -- One round, by the slots that it leaves.
  round :
      (cx : C) (cs : List C) (s : ReadyOrNot F A) (t : ReadyOrNot G B) (s' : ReadyOrNot F A)
      (t' : ReadyOrNot G B)
      → poll_slot poll_a cx s ≡ s'
      → poll_slot poll_b cx t ≡ t'
      → (both s' t' ≡ none → Agrees cs s' t')
      → Agrees (cx ∷ cs) s t
  unfolding drive poll alone
  round cx cs s t (finished a) (finished b) p q ih =
      rw (p, q, finish, alone-finished poll_a cs a, alone-finished poll_b cs b)
  round cx cs s t (finished a) (future g) p q ih = rw (p, q, finish) (ih refl)
  round cx cs s t (future f) t' p q ih = rw (p, q, finish) (ih refl)

  drive-polling :
      (cs : List C) (s : ReadyOrNot F A) (t : ReadyOrNot G B) → both s t ≡ none → Agrees cs s t
  unfolding drive alone
  drive-polling [] s t e = ground arith
  drive-polling (cx ∷ cs) s t e =
      round cx cs s t (poll_slot poll_a cx s) (poll_slot poll_b cx t) refl refl
        (drive-polling cs (poll_slot poll_a cx s) (poll_slot poll_b cx t))

  -- Whatever the two futures do, and whichever contexts they are polled with, a caller that polls
  -- `join2` until it is ready meets no panic, and gets the pair of the outputs that the two futures
  -- give when each is polled by itself with the same contexts, until it is ready; it gets nothing exactly
  -- when one of them is then still pending.
  pub drive-join2 :
      (cs : List C) (a : F) (b : G)
      → drive (poll poll_a poll_b) cs (new a b)
        ≡ returns (pair (gives poll_a cs a) (gives poll_b cs b))
  unfolding new
  drive-join2 cs a b =
      drive-polling cs (future a) (future b) refl
      ∙ ap returns (
          both-pair (alone poll_a cs (future a)) (alone poll_b cs (future b))
          ∙ rw (alone-gives poll_a cs a, alone-gives poll_b cs b) refl)
