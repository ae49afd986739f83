-- ===== src/Tpc/Global.antt =====
-- tpc/src/global.rs: the shared state of the thread pool. `threadpool_size()` is a parameter of
-- `new`, and a `fetch_update` is one atomic step.
use kiruna.Base.{
  ℕ, ◌<◌, ◌^◌, u16, u32, ◌==◌, if◌then◌else◌, Result, ok, err, ◌≡◌, ◌≢◌, ◌⊎◌, inl, inr, refl, sym,
  ◌∙◌, arith, Bool, true, false, ==→eq, ==→ne,
}

pub record ThreadCounts : Type 0 where
  pub user_waiting : ℕ

-- `From<u64>`: the low half of the word, as `u16`.
unfoldable pub of_u64 : ℕ → ThreadCounts
of_u64 u = record { user_waiting = u16 (u32 u) }

-- `Into<u64>`
unfoldable pub to_u64 : ThreadCounts → ℕ
to_u64 t = t.user_waiting

pub record GlobalState : Type 0 where
  pub physical_cpus : ℕ
  pub thread_counts : ℕ

unfoldable pub new : ℕ → GlobalState
unfolding to_u64
new cpus = record { physical_cpus = cpus; thread_counts = to_u64 (record { user_waiting = 0 }) }

unfoldable pub read_thread_counts : GlobalState → ThreadCounts
read_thread_counts g = of_u64 g.thread_counts

-- `Ok` and `Err` both carry what was there before; nothing is stored where nothing changes.
unfoldable pub update_thread_counts :
    (ThreadCounts → ThreadCounts) → GlobalState → Result ThreadCounts ThreadCounts × GlobalState
update_thread_counts atomic_fn g =
    let old = of_u64 g.thread_counts in
    let out = to_u64 (atomic_fn old) in
    if g.thread_counts == out then (err old, g) else (ok old, record g { thread_counts = out })

pub of_u64-small : (u : ℕ) → u < 2 ^ 16 → (of_u64 u).user_waiting ≡ u
unfolding of_u64
of_u64-small u h = omega arith

-- After an update the counts are what the function computed from the old ones; the update answers
-- `Ok` where that is another count and `Err` where it is the same, each with the old counts. Both
-- counts are within 16 bits.
pub update_thread_counts-reads :
    (f : ThreadCounts → ThreadCounts) (g : GlobalState)
    → g.thread_counts < 2 ^ 16
    → (f (read_thread_counts g)).user_waiting < 2 ^ 16
    → ((read_thread_counts (update_thread_counts f g).1).user_waiting
        ≡ (f (read_thread_counts g)).user_waiting)
      × ((((f (read_thread_counts g)).user_waiting ≡ (read_thread_counts g).user_waiting)
            × ((update_thread_counts f g).0 ≡ err (read_thread_counts g)))
          ⊎ (((f (read_thread_counts g)).user_waiting ≢ (read_thread_counts g).user_waiting)
              × ((update_thread_counts f g).0 ≡ ok (read_thread_counts g))))
unfolding read_thread_counts update_thread_counts to_u64
update_thread_counts-reads f g small fits = go (g.thread_counts == out) refl
  where
    out : ℕ
    out = to_u64 (f (of_u64 g.thread_counts))

    go :
        (b : Bool)
        → (g.thread_counts == out) ≡ b
        → ((read_thread_counts (update_thread_counts f g).1).user_waiting
            ≡ (f (read_thread_counts g)).user_waiting)
          × ((((f (read_thread_counts g)).user_waiting ≡ (read_thread_counts g).user_waiting)
                × ((update_thread_counts f g).0 ≡ err (read_thread_counts g)))
              ⊎ (((f (read_thread_counts g)).user_waiting ≢ (read_thread_counts g).user_waiting)
                  × ((update_thread_counts f g).0 ≡ ok (read_thread_counts g))))
    go true e =
        let same : g.thread_counts ≡ out = ==→eq g.thread_counts out e in
        rw e (
          (of_u64-small g.thread_counts small ∙ same),
          inl ((sym same ∙ sym (of_u64-small g.thread_counts small)), refl),
        )
    go false e = rw e (
      of_u64-small out fits,
      inr ((λ q. ==→ne g.thread_counts out e (sym (q ∙ of_u64-small g.thread_counts small))), refl),
    )
