-- ===== src/Tpc/Bin/Waker.antt =====
-- tpc/src/bin.rs: `UserWaitingBinWaker`, the virtual table of the wakers over the reference count
-- of an `Arc<OurFuture>`. The wakers and the queued messages that hold a pointer are counted beside
-- the count that the code keeps.
use kiruna.Base.{ℕ, ◌+◌, ◌-◌, ◌≤◌, ◌≡◌, ◌↔◌, refl, arith}

pub record Handle : Type 0 where
  pub strong : ℕ
  pub wakers : ℕ
  pub messages : ℕ

-- `Arc::new` and the message that a spawning method sends.
unfoldable pub spawned : Handle
spawned = record { strong = 1; wakers = 0; messages = 1 }

-- A worker takes a message apart: `Arc::into_raw`, and the waker made of the pointer.
unfoldable pub raw_waker : Handle → Handle
raw_waker h = record h { wakers = h.wakers + 1; messages = h.messages - 1 }

-- `UserWaitingBinWaker::clone`: `increment_strong_count`, and a second waker.
pub clone : Handle → Handle
clone h = record h { strong = h.strong + 1; wakers = h.wakers + 1 }

-- `UserWaitingBinWaker::wake`: the waker's pointer goes into a message.
pub wake : Handle → Handle
wake h = record h { wakers = h.wakers - 1; messages = h.messages + 1 }

-- `UserWaitingBinWaker::wake_by_ref`: another pointer goes into a message.
pub wake_by_ref : Handle → Handle
wake_by_ref h = record h { strong = h.strong + 1; messages = h.messages + 1 }

-- `UserWaitingBinWaker::drop`: the waker's pointer is dropped.
pub drop : Handle → Handle
drop h = record h { strong = h.strong - 1; wakers = h.wakers - 1 }

-- What the program does with one future: each call through a waker has the waker.
pub data Reach : Handle → Type 0 where
  spawns : Reach spawned
  takes : {h : Handle} → 1 ≤ h.messages → Reach h → Reach (raw_waker h)
  clones : {h : Handle} → 1 ≤ h.wakers → Reach h → Reach (clone h)
  wakes : {h : Handle} → 1 ≤ h.wakers → Reach h → Reach (wake h)
  wakes_by_ref : {h : Handle} → 1 ≤ h.wakers → Reach h → Reach (wake_by_ref h)
  drops : {h : Handle} → 1 ≤ h.wakers → Reach h → Reach (drop h)

strong_sum : {h : Handle} → Reach h → h.strong ≡ h.wakers + h.messages
unfolding spawned raw_waker clone wake wake_by_ref drop
strong_sum spawns = refl
strong_sum (takes p r) = omega (arith, strong_sum r, p)
strong_sum (clones p r) = omega (arith, strong_sum r, p)
strong_sum (wakes p r) = omega (arith, strong_sum r, p)
strong_sum (wakes_by_ref p r) = omega (arith, strong_sum r, p)
strong_sum (drops p r) = omega (arith, strong_sum r, p)

-- After any history of a future's wakers and messages, its reference count is the number of the
-- wakers and messages that point to it. So it is freed exactly when no one points to it any more,
-- and no waker or message dangles.
pub Reach-strong :
    (h : Handle)
    → Reach h
    → (h.strong ≡ h.wakers + h.messages) × ((h.strong ≡ 0) ↔ ((h.wakers ≡ 0) × (h.messages ≡ 0)))
Reach-strong h r =
    let e = strong_sum r in
    (e, ((λ z. (omega (arith, e, z), omega (arith, e, z))), λ (w, m). omega (arith, e, w, m)))
