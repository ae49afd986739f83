-- ===== src/Join/Slot.antt =====
-- join/src/lib.rs: `ReadyOrNot`, and the step that polls a slot which is still a future.
use kiruna.Base.{List, [], ◌∷◌, Poll, ready, pending, ◌≡◌, refl}

pub data ReadyOrNot {ℓ κ} (F : Type ℓ) (O : Type κ) : Type (ℓ ⊔ κ) where
  future : F → ReadyOrNot F O
  finished : O → ReadyOrNot F O

abbrev pub settle {ℓ} : {F O : Type ℓ} → Poll O × F → ReadyOrNot F O
settle (ready o, f) = finished o
settle (pending, f) = future f

module _ {ℓ κ} {C : Type κ} {F O : Type ℓ} (poll : C → F → Poll O × F) where
  -- `if let ReadyOrNot::Future(f) = a { if let Poll::Ready(r) = f.poll(cx) { *a = Ready(r) } }`
  unfoldable pub poll_slot : C → ReadyOrNot F O → ReadyOrNot F O
  poll_slot cx (future f) = settle (poll cx f)
  poll_slot cx (finished o) = finished o

  -- The slot on its own: polled with each context in turn until it is ready.
  unfoldable pub alone : List C → ReadyOrNot F O → ReadyOrNot F O
  alone [] s = s
  alone (cx ∷ cs) s = alone cs (poll_slot cx s)

  pub alone-finished : (cs : List C) (o : O) → alone cs (finished o) ≡ finished o
  unfolding alone poll_slot
  alone-finished [] o = refl
  alone-finished (cx ∷ cs) o = alone-finished cs o
