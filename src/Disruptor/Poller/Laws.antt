-- ===== src/Disruptor/Poller/Laws.antt =====
-- What a poller hands to its handler.
use opencmw_cpp.Base.{
  ℕ, suc, ◌+◌, ◌^◌, ◌≤◌, ◌<◌, ◌≡◌, ◌==◌, Bool, true, false, Option, none, some, List, [], ◌∷◌, ◌⊎◌,
  ltb, length, if◌then◌else◌,
}
use opencmw_cpp.Disruptor.Slots.{slot}
use opencmw_cpp.Disruptor.Sequence.{get_minimum_sequence}
use opencmw_cpp.Disruptor.Multi.{Memory, is_available}
use opencmw_cpp.Disruptor.Poller.{
  Answer, go_on, stop, throws, EventPoller, available_events, PollState, processing, gating, idle,
}

-- The events from `first` on, one after another, each with its entry.
abbrev pub IsInOrder : {A : Type 0} → (size first : ℕ) → Memory A → List (ℕ × A) → Type 0
IsInOrder size first m [] = Unit
IsInOrder size first m ((e, a) ∷ rest) =
    (e ≡ first) × (a ≡ m.entries (slot size e)) × IsInOrder size (suc first) m rest

abbrev is_throws : Answer → Bool
is_throws go_on = false
is_throws stop = false
is_throws throws = true

-- What a poller has seen as available and not processed yet is published.
abbrev pub HasSeen : {A : Type 0} → (size : ℕ) → Memory A → EventPoller → Type 0
HasSeen size m poller =
    (e : ℕ) → poller.sequence ≤ e → e < poller.last_available → is_available size e m ≡ true

-- a call that the handler ends by an exception leaves its last event unprocessed
abbrev unprocessed : Option PollState → ℕ
unprocessed none = 1
unprocessed (some state) = 0

-- the handler's answer to one call, which says whether the event is the last one available
abbrev pub answer : {A : Type 0} → (A → ℕ → Bool → Answer) → ℕ → ℕ × A → Answer
answer handler available (e, a) = handler a e (suc e == available)

-- Every call but the last one is answered by `go_on`.
abbrev pub GoesOn : {A : Type 0} → (A → ℕ → Bool → Answer) → ℕ → List (ℕ × A) → Type 0
GoesOn handler available [] = Unit
GoesOn handler available (call ∷ calls) =
    (calls ≡ []) ⊎ ((answer handler available call ≡ go_on) × GoesOn handler available calls)

-- the answer to the last call, `go_on` without a call
abbrev pub last_answer : {A : Type 0} → (A → ℕ → Bool → Answer) → ℕ → Answer → List (ℕ × A) → Answer
last_answer handler available before [] = before
last_answer handler available before (call ∷ calls) =
    last_answer handler available (answer handler available call) calls

-- what the poller returns: the state for no event, or `none` for an exception
abbrev pub state_behind : {A : Type 0} → PollState → List (ℕ × A) → Answer → Option PollState
state_behind at_rest [] last = some at_rest
state_behind at_rest (call ∷ calls) throws = none
state_behind at_rest (call ∷ calls) go_on = some processing
state_behind at_rest (call ∷ calls) stop = some processing

-- What a call of `poll` promises of its result.
pub record IsPoll {A : Type 0} (size : ℕ) (m : Memory A) (handler : A → ℕ → Bool → Answer)
    (sequences : List ℕ) (poller : EventPoller)
    (result : Option PollState × EventPoller × List (ℕ × A)) : Type 0 where
  pub in_order : IsInOrder size poller.sequence m result.2
  pub published :
      (e : ℕ)
      → poller.sequence ≤ e
      → e < poller.sequence + length result.2
      → is_available size e m ≡ true
  pub goes_on : GoesOn handler (available_events size m sequences poller) result.2
  pub complete :
      last_answer handler (available_events size m sequences poller) go_on result.2 ≡ go_on
      → (get_minimum_sequence sequences (2 ^ 63) ≤ poller.sequence + length result.2)
        ⊎ (is_available size (poller.sequence + length result.2) m ≡ false)
  pub state :
      result.0
      ≡ state_behind
          (if ltb poller.sequence m.cursor then gating else idle)
          result.2
          (last_answer handler (available_events size m sequences poller) go_on result.2)
  pub advances : result.1.sequence + unprocessed result.0 ≡ poller.sequence + length result.2
  pub remembers : result.1.last_available ≡ available_events size m sequences poller
  pub seen : HasSeen size m result.1
