-- ===== src/Disruptor/Poller.antt =====
-- `EventPoller` of RingBuffer.hpp over the multi-threaded claim strategy. A call is made on one
-- memory: what publishers add in the meantime is seen by a later call.
pub mod Laws
use opencmw_cpp.Base.{
  ℕ, zero, suc, ◌-◌, ◌^◌, Bool, true, false, List, [], ◌∷◌, Option, none, some, ltb, ◌==◌,
  if◌then◌else◌,
}
use opencmw_cpp.Disruptor.Slots.{slot}
use opencmw_cpp.Disruptor.Sequence.{get_minimum_sequence}
use opencmw_cpp.Disruptor.Multi.{Memory, highest_published}

pub data PollState : Type 0 where
  processing : PollState
  gating : PollState
  idle : PollState
  unknown : PollState

-- What a handler answers: go on, stop behind this event, or an exception. A handler without a
-- result always goes on.
pub data Answer : Type 0 where
  go_on : Answer
  stop : Answer
  throws : Answer

pub record EventPoller : Type 0 where
  pub sequence : ℕ
  pub last_available : ℕ

abbrev pub initial : EventPoller
initial = record { sequence = 0; last_available = 0 }

-- Where the loop over the events ends: the events that are processed, whether the handler threw,
-- and the events that it was called with.
pub record Delivery (A : Type 0) : Type 0 where
  pub processed : ℕ
  pub thrown : Bool
  pub delivered : List (ℕ × A)

-- the event from which `poll` looks for published ones
unfoldable pub first_unknown : EventPoller → ℕ
first_unknown poller =
    if ltb (suc poller.sequence) poller.last_available
    then poller.last_available - 1
    else poller.sequence

-- the number of the events up to the available sequence of `poll`
unfoldable pub available_events : {A : Type 0} → (size : ℕ) → Memory A → List ℕ → EventPoller → ℕ
unfolding first_unknown
available_events size m sequences poller =
    highest_published size (first_unknown poller) (get_minimum_sequence sequences (2 ^ 63)) m

module _ {A : Type 0} (size : ℕ) (m : Memory A) (handler : A → ℕ → Bool → Answer) where
  -- the `do ... while` of `poll` from an event on, over the events that are available behind it
  unfoldable pub deliver : (available rounds event : ℕ) → Delivery A
  deliver available zero event = record { processed = event; thrown = false; delivered = [] }
  deliver available (suc rounds) event =
      let entry = m.entries (slot size event) in
      let rest = deliver available rounds (suc event) in
      elim (handler entry event (suc event == available)) [
        | go_on ↦ record rest { delivered = (event, entry) ∷ rest.delivered }
        | stop ↦ record { processed = suc event; thrown = false; delivered = (event, entry) ∷ [] }
        | throws ↦ record { processed = event; thrown = true; delivered = (event, entry) ∷ [] }
      ]

  -- `poll` for the values of its gating sequences: the state that it returns, or `none` for the
  -- exception of the handler, the poller behind it and the events that the handler was called with
  unfoldable pub poll : List ℕ → EventPoller → Option PollState × EventPoller × List (ℕ × A)
  unfolding deliver available_events
  poll sequences poller =
      let available = available_events size m sequences poller in
      let run = deliver available (available - poller.sequence) poller.sequence in
      if ltb poller.sequence available
      then (
        (if run.thrown then none else some processing),
        record { sequence = run.processed; last_available = available },
        run.delivered,
      )
      else (
        some (if ltb poller.sequence m.cursor then gating else idle),
        record poller { last_available = available },
        [],
      )
