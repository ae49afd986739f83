-- ===== src/Tpc/Channel.antt =====
-- tpc/src/channel.rs: the channel with levels. Each method runs here without interruption; the
-- interleavings of many threads are in the children `Threads` and below.
pub mod Platform
pub mod Instance
pub mod Levels
pub mod Immediate
pub mod Threads
mod Tests
use kiruna.Base.{
  ℕ, List, [], ◌∷◌, Option, none, some, Outcome, returns, panics, Fault, ◌>>=◌, get_elem?, set,
  replicate,
}
use Platform.{Semaphore, ArrayQueue}

pub record SharedOne (S : Semaphore) {E : Type 0} (Q : ArrayQueue E) : Type 0 where
  pub queue : Q.State
  pub local_semaphore : S.State

pub record Channel (S : Semaphore) {E : Type 0} (Q : ArrayQueue E) : Type 0 where
  pub shared : List (SharedOne S Q)
  pub global_semaphore : S.State

-- What `recv_all` comes to: an element, or a wait for the global semaphore.
pub data Received (S : Semaphore) {E : Type 0} (Q : ArrayQueue E) : Type 0 where
  got : E → Channel S Q → Received S Q
  waits : Received S Q

module _ (S : Semaphore) {E : Type 0} (Q : ArrayQueue E) where
  -- `SharedOne::send`, with its assertion that the queue takes the element
  pub send_one : SharedOne S Q → E → Outcome (SharedOne S Q)
  send_one s element = elim (Q.push s.queue element) [
    | none ↦ panics Fault.assertion
    | some q ↦ returns (record { queue = q; local_semaphore = S.signal s.local_semaphore })
  ]

  -- `self.queue.pop().unwrap()`
  pub pop_one : Q.State → S.State → Outcome (Option (E × SharedOne S Q))
  pop_one q local = elim (Q.pop q) [
    | none ↦ panics Fault.unwrap_none
    | some (e, q') ↦ returns (some (e, record { queue = q'; local_semaphore = local }))
  ]

  -- `SharedOne::recv_nonblock`
  pub recv_nonblock : SharedOne S Q → Outcome (Option (E × SharedOne S Q))
  unfolding pop_one
  recv_nonblock s = elim (S.decrement s.local_semaphore) [
    | none ↦ returns none
    | some local ↦ pop_one s.queue local
  ]

  -- `Channel::new`
  unfoldable pub new : ℕ → ℕ → Channel S Q
  new bounded levels = record {
    shared = replicate levels (record { queue = Q.new bounded; local_semaphore = S.new });
    global_semaphore = S.new;
  }

  -- `Channel::send`
  pub send : Channel S Q → E → ℕ → Outcome (Channel S Q)
  send c message level = elim (get_elem? c.shared level) [
    | none ↦ panics Fault.index_out_of_bounds
    | some s ↦ send_one s message >>= λ s'.
        returns (record {
          shared = set c.shared level s';
          global_semaphore = S.signal c.global_semaphore;
        })
  ]

  -- The branch of `recv_immediate` behind the global semaphore, which has come down to `global`.
  pub recv_level : Channel S Q → S.State → ℕ → Outcome (Option E × Channel S Q)
  recv_level c global level = elim (get_elem? c.shared level) [
    | none ↦ panics Fault.index_out_of_bounds
    | some s ↦ recv_nonblock s >>= elim [
      | some (e, s') ↦
          returns (some e, record { shared = set c.shared level s'; global_semaphore = global })
      | none ↦ returns (none, record c { global_semaphore = S.signal global })
    ]
  ]

  -- `Channel::recv_immediate`
  pub recv_immediate : Channel S Q → ℕ → Outcome (Option E × Channel S Q)
  unfolding recv_level
  recv_immediate c level = elim (S.decrement c.global_semaphore) [
    | none ↦ returns (none, c)
    | some global ↦ recv_level c global level
  ]

  -- The loop of `Channel::recv_all` over the levels, and the panic behind it
  pub scan : List (SharedOne S Q) → Outcome (E × List (SharedOne S Q))
  scan [] = panics Fault.no_element
  scan (s ∷ ss) =
      let rest = scan ss in
      recv_nonblock s >>= elim [
        | some (e, s') ↦ returns (e, s' ∷ ss)
        | none ↦ rest >>= λ (e, ss'). returns (e, s ∷ ss')
      ]

  -- `Channel::recv_all`
  pub recv_all : Channel S Q → Outcome (Received S Q)
  unfolding scan
  recv_all c = elim (S.decrement c.global_semaphore) [
    | none ↦ returns waits
    | some global ↦ scan c.shared >>= λ (e, shared).
        returns (got e (record { shared = shared; global_semaphore = global }))
  ]
