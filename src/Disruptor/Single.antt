-- ===== src/Disruptor/Single.antt =====
-- `SingleThreadedStrategy` of ClaimStrategy.hpp, for one publisher. A call is one piece, as the
-- publisher is alone; what it reads of its dependents is the list `gating` of their sequences.
pub mod Laws
use opencmw_cpp.Base.{
  ℕ, suc, ◌+◌, ◌-◌, [], ◌∷◌, Bool, true, false, ◌||◌, List, Option, none, some, ltb, if◌then◌else◌,
}
use opencmw_cpp.Disruptor.Sequence.{get_minimum_sequence}

pub record SingleThreaded : Type 0 where
  pub cursor : ℕ
  pub next_value : ℕ
  pub cached_value : ℕ

abbrev pub initial : SingleThreaded
initial = record { cursor = 0; next_value = 0; cached_value = 0 }

-- `wrapPoint > minimum`, with the buffer's size brought to the other side
abbrev pub wraps : (size minimum current claim : ℕ) → Bool
wraps size minimum current claim = ltb (minimum + size) (current + claim)

-- the test whether the cached minimum has to be read again
abbrev pub needs_minimum : (size cached current claim : ℕ) → Bool
needs_minimum size cached current claim = wraps size cached current claim || ltb current cached

-- `hasAvailableCapacity`, which may renew the cached minimum
unfoldable pub has_available_capacity :
    (size : ℕ) → List ℕ → (claim : ℕ) → SingleThreaded → Bool × SingleThreaded
has_available_capacity size gating claim s =
    let minimum = get_minimum_sequence gating s.next_value in
    if needs_minimum size s.cached_value s.next_value claim
    then (
      (if wraps size minimum s.next_value claim then false else true),
      record s { cached_value = minimum },
    )
    else (true, s)

-- `tryNext`: `none` for the exception, which leaves the cached minimum renewed
unfoldable pub try_next :
    (size : ℕ) → List ℕ → (claim : ℕ) → SingleThreaded → Option ℕ × SingleThreaded
unfolding has_available_capacity
try_next size gating claim s =
    let checked = has_available_capacity size gating claim s in
    if checked.0
    then (some (s.next_value + claim), record checked.1 { next_value = s.next_value + claim })
    else (none, checked.1)

-- The loop of `next` over what it reads of the dependents, a reading for each round: the first
-- minimum with room, or `none` while all readings are too small.
unfoldable pub await_minimum : (size : ℕ) → List (List ℕ) → (current claim : ℕ) → Option ℕ
await_minimum size [] current claim = none
await_minimum size (gating ∷ later) current claim =
    let minimum = get_minimum_sequence gating current in
    let rest = await_minimum size later current claim in
    if wraps size minimum current claim then rest else some minimum

-- `next`, which waits for room; the cursor is set before it waits
unfoldable pub next :
    (size : ℕ) → List (List ℕ) → (claim : ℕ) → SingleThreaded → Option (ℕ × SingleThreaded)
unfolding await_minimum
next size readings claim s =
    let target = s.next_value + claim in
    if needs_minimum size s.cached_value s.next_value claim
    then elim (await_minimum size readings s.next_value claim) [
      | none ↦ none
      | some minimum ↦
          some
            (target, record { cursor = s.next_value; next_value = target; cached_value = minimum })
    ]
    else some (target, record s { next_value = target })

-- `getRemainingCapacity`: what is negative in the source, for a dependent more than a round behind,
-- is 0 here.
unfoldable pub remaining_capacity : (size : ℕ) → List ℕ → SingleThreaded → ℕ
remaining_capacity size gating s = get_minimum_sequence gating s.next_value + size - s.next_value

-- `publish` of the sequence of an event, and `isAvailable` of an event
unfoldable pub publish : (event : ℕ) → SingleThreaded → SingleThreaded
publish event s = record s { cursor = suc event }

unfoldable pub is_available : (event : ℕ) → SingleThreaded → Bool
is_available event s = ltb event s.cursor

-- `getHighestPublishedSequence`
unfoldable pub highest_published : (first available : ℕ) → ℕ
highest_published first available = available
