-- ===== src/Futures/Laws.antt =====
-- `Map` and `PanicFuture` of futures/src/lib.rs against the future that they hold.
use kiruna.Base.{
  List, [], ◌∷◌, Option, none, some, Poll, ready, pending, Result, ok, err, Outcome, returns,
  panics, Fault, ◌≡◌, refl, drive,
}
use kiruna.Futures.{new, poll_map, poll_panic, awaits, resolved, poll_panic_fn}

-- The future on its own, polled with each context until it is ready.
abbrev pub alone : {C F A : Type 0} → (C → F → Poll A × F) → List C → F → Option A
alone poll [] f = none
alone poll (cx ∷ cs) f =
    let rest = alone poll cs (poll cx f).1 in
    elim (poll cx f).0 [ ready r ↦ some r | pending ↦ rest ]

abbrev pub mapped : {A B : Type 0} → (A → B) → Option A → Option B
mapped f none = none
mapped f (some a) = some (f a)

-- A result that is an error panics.
abbrev pub panicking : {O E : Type 0} → Option (Result O E) → Outcome (Option O)
panicking none = returns none
panicking (some (ok o)) = returns (some o)
panicking (some (err e)) = panics Fault.explicit_panic

-- A caller that polls a `Map` until it is ready gets the operation's value at the output of the
-- future, at the same poll at which the future alone would give it, and meets no panic.
pub drive-map :
    {C F A B : Type 0} (poll : C → F → Poll A × F) (cs : List C) (f : F) (operation : A → B)
    → drive (poll_map poll) cs (new f operation) ≡ returns (mapped operation (alone poll cs f))
unfolding drive poll_map new
drive-map poll [] f operation = refl
drive-map {C} {F} {A} {B} poll (cx ∷ cs) f operation =
    go (poll cx f).0 refl (drive-map poll cs (poll cx f).1 operation)
  where
    go :
        (a : Poll A)
        → (poll cx f).0 ≡ a
        → drive (poll_map poll) cs (new (poll cx f).1 operation)
          ≡ returns (mapped operation (alone poll cs (poll cx f).1))
        → drive (poll_map poll) (cx ∷ cs) (new f operation)
          ≡ returns (mapped operation (alone poll (cx ∷ cs) f))
    go (ready r) e ih = rw (alone, drive, poll_map, e) refl
    go pending e ih = rw (alone, drive, poll_map, e) ih

-- A caller that polls a `PanicFuture` until it is ready gets the value where the future gives one,
-- panics where it gives an error, and finds it pending where the future is.
pub drive-panic :
    {C F O E : Type 0} (poll : C → F → Poll (Result O E) × F) (cs : List C) (f : F)
    → drive (poll_panic poll) cs f ≡ panicking (alone poll cs f)
unfolding drive poll_panic
drive-panic poll [] f = refl
drive-panic {C} {F} {O} {E} poll (cx ∷ cs) f =
    go (poll cx f).0 refl (drive-panic poll cs (poll cx f).1)
  where
    go :
        (a : Poll (Result O E))
        → (poll cx f).0 ≡ a
        → drive (poll_panic poll) cs (poll cx f).1 ≡ panicking (alone poll cs (poll cx f).1)
        → drive (poll_panic poll) (cx ∷ cs) f ≡ panicking (alone poll (cx ∷ cs) f)
    go (ready (ok o)) e ih = rw (alone, drive, poll_panic, e) refl
    go (ready (err x)) e ih = rw (alone, drive, poll_panic, e) refl
    go pending e ih = rw (alone, drive, poll_panic, e) ih

-- The async fn `panic` and `PanicFuture` come to the same over every caller: the same value at the
-- same poll, the same panic, or both are pending.
pub drive-panic_fn :
    {C F O E : Type 0} (poll : C → F → Poll (Result O E) × F) (cs : List C) (f : F)
    → drive (poll_panic_fn poll) cs (awaits f) ≡ drive (poll_panic poll) cs f
unfolding drive poll_panic poll_panic_fn
drive-panic_fn poll [] f = refl
drive-panic_fn {C} {F} {O} {E} poll (cx ∷ cs) f =
    go (poll cx f).0 refl (drive-panic_fn poll cs (poll cx f).1)
  where
    go :
        (a : Poll (Result O E))
        → (poll cx f).0 ≡ a
        → drive (poll_panic_fn poll) cs (awaits (poll cx f).1)
          ≡ drive (poll_panic poll) cs (poll cx f).1
        → drive (poll_panic_fn poll) (cx ∷ cs) (awaits f) ≡ drive (poll_panic poll) (cx ∷ cs) f
    go (ready (ok o)) e ih = rw (drive, poll_panic_fn, poll_panic, resolved, e) refl
    go (ready (err x)) e ih = rw (drive, poll_panic_fn, poll_panic, resolved, e) refl
    go pending e ih = rw (drive, poll_panic_fn, poll_panic, resolved, e) ih
