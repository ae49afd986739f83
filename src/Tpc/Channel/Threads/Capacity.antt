-- ===== src/Tpc/Channel/Threads/Capacity.antt =====
-- The methods of tpc/src/channel.rs leave the capacities of the queues alone.
use kiruna.Base.{
  ℕ, zero, suc, List, [], ◌∷◌, map, Option, some, get_elem?, set, returns, ◌≡◌, refl, ap, ◌∙◌,
  subst,
}
use kiruna.Tpc.Channel.Platform.{Semaphore, ArrayQueue}
use kiruna.Tpc.Channel.{SharedOne, Channel, got, send, recv_immediate, recv_all}
use kiruna.Tpc.Channel.Threads.{
  Pc, Move, push, push_full, signal_local, signal_global, try_global, try_nothing, try_hit,
  try_miss, restore, wait, scan_hit, scan_miss, scan_end, pop, pop_nothing,
}
use kiruna.Tpc.Channel.Threads.Methods.{Run, done, then, Sends, Tries, send-Run, recv_immediate-Run}
use kiruna.Tpc.Channel.Threads.Scan.{Takes, recv_all-Run}

map-set_same :
    {A B : Type 0} (f : A → B) (xs : List A) (k : ℕ) (x y : A)
    → get_elem? xs k ≡ some x
    → f y ≡ f x
    → map f (set xs k y) ≡ map f xs
map-set_same f [] k x y g e = refl
map-set_same f (z ∷ xs) zero x y g e =
    let same : z ≡ x = cc in ap (λ v. v ∷ map f xs) (cc (e, ap f same))
map-set_same f (z ∷ xs) (suc k) x y g e = ap (◌∷◌ (f z)) (map-set_same f xs k x y g e)

module _ (S : Semaphore) {E : Type 0} (Q : ArrayQueue E) where
  abbrev pub room : SharedOne S Q → ℕ
  room s = Q.capacity s.queue

  abbrev pub rooms : Channel S Q → List ℕ
  rooms c = map room c.shared

  Move-rooms :
      {preferred : ℕ} {m m' : Channel S Q} {p p' : Pc}
      → Move S Q preferred m p m' p'
      → rooms m' ≡ rooms m
  Move-rooms {m = m} (push k e s q g h) = map-set_same room m.shared k s _ g (Q.push-some _ q e h).1
  Move-rooms (push_full k e s g h) = refl
  Move-rooms {m = m} (signal_local {level = k} s g) = map-set_same room m.shared k s _ g refl
  Move-rooms signal_global = refl
  Move-rooms (try_global t h) = refl
  Move-rooms (try_nothing h) = refl
  Move-rooms {preferred} {m} (try_hit s t g h) = map-set_same room m.shared preferred s _ g refl
  Move-rooms (try_miss s g h) = refl
  Move-rooms restore = refl
  Move-rooms (wait t h) = refl
  Move-rooms {m = m} (scan_hit {level = k} s t g h) = map-set_same room m.shared k s _ g refl
  Move-rooms (scan_miss s g h) = refl
  Move-rooms (scan_end g) = refl
  Move-rooms {m = m} (pop {level = k} s e q g h) =
      map-set_same room m.shared k s _ g (Q.pop-some _ q e h).1
  Move-rooms (pop_nothing s g h) = refl

  Run-rooms :
      {preferred : ℕ} {m m' : Channel S Q} {p p' : Pc} {ins outs : List (ℕ × E)}
      → Run S Q preferred m p m' p' ins outs
      → rooms m' ≡ rooms m
  Run-rooms done = refl
  Run-rooms (then mv r) = Run-rooms r ∙ Move-rooms mv

  pub recv_immediate-rooms :
      (c c' : Channel S Q) (level : ℕ) (s : SharedOne S Q) (o : Option E)
      → get_elem? c.shared level ≡ some s
      → recv_immediate S Q c level ≡ returns (o, c')
      → rooms c' ≡ rooms c
  recv_immediate-rooms c c' level s o g e =
      Run-rooms (subst (Tries S Q level c) e (recv_immediate-Run S Q level c s g))

  pub recv_all-rooms :
      (c c' : Channel S Q) (m : E) → recv_all S Q c ≡ returns (got m c') → rooms c' ≡ rooms c
  recv_all-rooms c c' m e = Run-rooms ((subst (Takes S Q 0 c) e (recv_all-Run S Q 0 c)).1)

  pub send-rooms :
      (c c' : Channel S Q) (m : E) (level : ℕ) (s : SharedOne S Q)
      → get_elem? c.shared level ≡ some s
      → send S Q c m level ≡ returns c'
      → rooms c' ≡ rooms c
  send-rooms c c' m level s g e =
      Run-rooms (subst (Sends S Q 0 c level m) e (send-Run S Q 0 c level m s g))
