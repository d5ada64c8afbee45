-- ===== src/Disruptor/Multi.antt =====
-- `MultiThreadedStrategy` of ClaimStrategy.hpp with the entries of RingBuffer.hpp: the memory that
-- the threads share, and the calls that read or write it once. The claims, whose loops other
-- threads interrupt, are in Threads.
pub mod Laws
use opencmw_cpp.Base.{ℕ, zero, suc, ◌+◌, ◌-◌, ◌^◌, Bool, List, ltb, leb, ◌==◌, if◌then◌else◌}
use opencmw_cpp.Disruptor.Slots.{slot, flag}
use opencmw_cpp.Disruptor.Sequence.{put, get_minimum_sequence}

pub record Memory (A : Type 0) : Type 0 where
  pub cursor : ℕ
  pub cache : ℕ  -- _gatingSequenceCache
  pub flags : ℕ → ℕ  -- _availableBuffer
  pub entries : ℕ → A
  pub gating : ℕ → ℕ  -- the sequence of each dependent

-- the constructor, with nothing published and nothing read
abbrev pub initial : {A : Type 0} → A → Memory A
initial blank = record {
  cursor = 0;
  cache = 0;
  flags = λ _. 2 ^ 32 - 1;
  entries = λ _. blank;
  gating = λ _. 0;
}

module _ {A : Type 0} where
  -- `isAvailable`
  unfoldable pub is_available : (size event : ℕ) → Memory A → Bool
  is_available size event m = m.flags (slot size event) == flag size event

  -- `publish`, through `setAvailable`
  unfoldable pub publish : (size event : ℕ) → Memory A → Memory A
  publish size event m = record m { flags = put (slot size event) (flag size event) m.flags }

  -- the call of the translator on the entry of an event, which leaves `content` there
  unfoldable pub translate : (size event : ℕ) → A → Memory A → Memory A
  translate size event content m = record m { entries = put (slot size event) content m.entries }

  -- the loop of `getHighestPublishedSequence` over the next events
  unfoldable pub published_run : (size rounds event : ℕ) → Memory A → ℕ
  unfolding is_available
  published_run size zero event m = event
  published_run size (suc rounds) event m =
      let rest = published_run size rounds (suc event) m in
      if is_available size event m then rest else event

  -- `getHighestPublishedSequence`: the number of the events up to the result
  unfoldable pub highest_published : (size first available : ℕ) → Memory A → ℕ
  unfolding published_run
  highest_published size first available m =
      if leb first available then published_run size (available - first) first m else available

  -- `getRemainingCapacity`: what is negative in the source, for a dependent more than a round
  -- behind, is 0 here.
  unfoldable pub remaining_capacity : (size : ℕ) → List ℕ → Memory A → ℕ
  remaining_capacity size gating m = get_minimum_sequence gating m.cursor + size - m.cursor
