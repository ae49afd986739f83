-- ===== src/Tpc/Channel/Threads/Progress.antt =====
-- What a thread finds in the channel of tpc/src/channel.rs after others have used it together.
use kiruna.Base.{
  ℕ, suc, List, [], ◌∷◌, ◌++◌, append-nil, none, some, get_elem?, replicate, length, length-eq_zero,
  All, total, le-total, ◌≡◌, ◌⊎◌, inl, inr, refl, ap, ◌∙◌, subst, arith,
}
use kiruna.Tpc.Channel.Platform.{Semaphore, ArrayQueue}
use kiruna.Tpc.Channel.{SharedOne, Channel}
use kiruna.Tpc.Channel.Levels.{size, view, take_first, Holds, recv_all-takes}
use kiruna.Tpc.Channel.Threads.{outside, System, Reach}
use kiruna.Tpc.Channel.Threads.Invariant.{tokens}
use kiruna.Tpc.Channel.Threads.Safety.{Reach-quiet}
use kiruna.Tpc.Channel.Threads.Order.{on, all_pushed, all_popped, Reach-Ordered}
use kiruna.Tpc.Channel.Threads.Methods.{Run}
use kiruna.Tpc.Channel.Threads.Scan.{Takes, recv_all-Run}

All-each :
    {A : Type 0} (P : A → Type 0) (xs : List A)
    → ((i : ℕ) (x : A) → get_elem? xs i ≡ some x → P x)
    → All P xs
All-each P [] each = tt
All-each P (x ∷ xs) each = (each 0 x refl, All-each P xs (λ i y g. each (suc i) y g))

total_congr :
    {A : Type 0} (v w : A → ℕ) (xs : List A) → All (λ x. v x ≡ w x) xs → total v xs ≡ total w xs
total_congr v w [] all = refl
total_congr v w (x ∷ xs) all = omega (arith, all.0, total_congr v w xs all.1)

module _ (S : Semaphore) {E : Type 0} (Q : ArrayQueue E) where
  -- While all threads are outside, the semaphores count the messages.
  quiet-Holds :
      (bounded levels n : ℕ) (s : System S Q)
      → Reach S Q 0 bounded levels (replicate n outside) s
      → s.threads ≡ replicate n outside
      → Holds S Q s.chan
  quiet-Holds bounded levels n s r quiet =
      let (counted, settled) = Reach-quiet S Q bounded levels n s r quiet in
      let all = All-each _ s.chan.shared settled in
      record {
        settled = all;
        counted = counted ∙ total_congr (tokens S Q) (size S Q) s.chan.shared all;
      }

  -- Threads have used the channel in any way, `recv_immediate` for level 0 alone, and all of them are
  -- outside again. Either every message that was pushed has been popped, level by level in the order
  -- of the pushes, and a `recv_all` can only wait; or a thread that calls `recv_all` now comes back by
  -- its own steps, with the oldest message of the first level that has one.
  pub Reach-serves :
      (bounded levels n : ℕ) (s : System S Q)
      (r : Reach S Q 0 bounded levels (replicate n outside) s)
      → s.threads ≡ replicate n outside
      → ((S.decrement s.chan.global_semaphore ≡ none)
          × ((l : ℕ) (x : SharedOne S Q)
              → get_elem? s.chan.shared l ≡ some x
              → on l (all_pushed S Q r) ≡ on l (all_popped S Q r)))
        ⊎ ((level : ℕ) × (e : E) × (c' : Channel S Q) × Run S Q 0 s.chan outside c' outside []
              ((level, e) ∷ [])
            × (take_first (view S Q s.chan) ≡ some (e, view S Q c')))
  Reach-serves bounded levels n s r quiet =
      let h = quiet-Holds bounded levels n s r quiet in
      elim (recv_all-takes S Q s.chan h) [
        | inl (empty, w) ↦
            let stuck : S.decrement s.chan.global_semaphore ≡ none =
              subst (Takes S Q 0 s.chan) w (recv_all-Run S Q 0 s.chan) in
            inl (
              stuck,
              λ l x g.
                  let nothing : length (Q.contents x.queue) ≡ 0 = omega (
                    arith,
                    S.decrement-none _ stuck,
                    h.counted,
                    le-total (size S Q) s.chan.shared l x g,
                  ) in
                  Reach-Ordered S Q r l x g
                  ∙ ap (λ xs. on l (all_popped S Q r) ++ xs) (length-eq_zero _ nothing)
                  ∙ append-nil (on l (all_popped S Q r)),
            )
        | inr (e, c', w, first, h') ↦
            let (level, run) = subst (Takes S Q 0 s.chan) w (recv_all-Run S Q 0 s.chan) in
            inr (level, e, c', run, first)
      ]
