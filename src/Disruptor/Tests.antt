-- ===== src/Disruptor/Tests.antt =====
-- Runs of the ring buffer, and the theorems at concrete inputs.
use opencmw_cpp.Base.{
  ℕ, ◌+◌, ◌≤◌, ◌<◌, ◌≡◌, ◌⊎◌, inl, refl, true, false, [], ◌∷◌, none, some, arith, ℕ_discrete, leb,
  if◌then◌else◌, ◌^◌, ◌-◌,
}
use opencmw_cpp.Disruptor.Multi.{Memory, is_available, publish, translate}
use opencmw_cpp.Disruptor.Threads.{
  blocking, throwing, begin, load, enough, pick_first, compare, read_again, store, win, write,
  make_available, System, Step, publisher, dependent, Reach, start, after, start_of, advance,
  written,
}
use opencmw_cpp.Disruptor.Threads.Invariant.Defs.{Holds}
use opencmw_cpp.Disruptor.Threads.Safety.{
  IsReadable, IsKept, readable_event-IsKept, claims_within_round, claimed-published_or_held,
  written_entry-kept,
}
use opencmw_cpp.Disruptor.Multi.{highest_published, published_run}
use opencmw_cpp.Disruptor.Multi.Laws.{IsPublishedRun, highest_published-IsPublishedRun}
use opencmw_cpp.Disruptor.Poller.{
  go_on, stop, throws, processing, initial, poll, deliver, available_events, first_unknown,
}
use opencmw_cpp.Disruptor.Sequence.{get_minimum_sequence}
use opencmw_cpp.Disruptor.Single.{
  SingleThreaded, has_available_capacity, try_next, remaining_capacity,
}
use opencmw_cpp.Disruptor.Single.Laws.{IsRoomy, try_next-IsRoomy, try_next-capacity}

zero_le_zero : 0 ≤ 0
zero_le_zero = omega arith

zero_lt_one : 0 < 1
zero_lt_one = omega arith

zero_lt_two : 0 < 2
zero_lt_two = omega arith

one_lt_two : 1 < 2
one_lt_two = omega arith

zero_lt_three : 0 < 3
zero_lt_three = omega arith

-- A publisher claims the next event, writes `content` there and publishes it.
one_published :
    (s : System ℕ) × Reach 2 1 true 0 s
    × (s.memory.cursor ≡ 1)
    × IsReadable 2 0 0 s.memory
    × (s.memory.entries 0 ≡ 7)
unfolding publish translate is_available ℕ_discrete
one_published =
    let s0 : Reach 2 1 true 0 (start_of 0) = start in
    let s1 = after s0 (publisher 0 (begin {call = blocking} {n = 1} zero_lt_one)) in
    let s2 = after s1 (publisher 0 load) in
    let s3 = after s2 (publisher 0 (enough refl)) in
    let s4 = after s3 (publisher 0 (win refl)) in
    let s5 = after s4 (publisher 0 (write 7)) in
    let s6 = after s5 (publisher 0 make_available) in
    (_, s6, refl, (zero_le_zero, zero_lt_one, refl), refl)

-- The body of `getMinimumSequence` that reads the least sequence again, with two dependents: the
-- publisher picks dependent 0 while both stand at 0, dependent 0 moves on to 2, and the publisher
-- reads that 2 as the minimum. It overwrites the event that dependent 1 has still to read.
unread_event_overwritten :
    (s : System ℕ) × (t : System ℕ) × Reach 2 2 false 0 s
    × Step 2 2 false s t
    × IsReadable 2 1 0 s.memory
    × (s.memory.entries 0 ≡ 7)
    × (t.memory.entries 0 ≡ 9)
unfolding publish translate is_available ℕ_discrete
unread_event_overwritten =
    let s0 : Reach 2 2 false 0 (start_of 0) = start in
    let a1 = after s0 (publisher 0 (begin {call = blocking} {n = 1} zero_lt_one)) in
    let a2 = after a1 (publisher 0 load) in
    let a3 = after a2 (publisher 0 (enough refl)) in
    let a4 = after a3 (publisher 0 (win refl)) in
    let a5 = after a4 (publisher 0 (write 7)) in
    let a6 = after a5 (publisher 0 make_available) in
    let b1 = after a6 (publisher 0 (begin {call = blocking} {n = 1} zero_lt_one)) in
    let b2 = after b1 (publisher 0 load) in
    let b3 = after b2 (publisher 0 (enough refl)) in
    let b4 = after b3 (publisher 0 (win refl)) in
    let b5 = after b4 (publisher 0 (write 8)) in
    let b6 = after b5 (publisher 0 make_available) in
    let c1 = after b6 (publisher 0 (begin {call = blocking} {n = 1} zero_lt_one)) in
    let c2 = after c1 (publisher 0 load) in
    let c3 = after c2 (publisher 0 (pick_first refl refl zero_lt_two)) in
    let c4 = after c3 (publisher 0 (compare one_lt_two)) in
    let c5 = after c4 (dependent 0 zero_lt_two zero_lt_two refl) in
    let c6 = after c5 (dependent 0 zero_lt_two one_lt_two refl) in
    let c7 = after c6 (publisher 0 read_again) in
    let c8 = after c7 (publisher 0 (store refl)) in
    let c9 = after c8 (publisher 0 load) in
    let d1 = after c9 (publisher 0 (enough refl)) in
    let d2 = after d1 (publisher 0 (win refl)) in
    (_, _, d2, publisher 0 (write 9), (zero_le_zero, zero_lt_three, refl), refl, refl)

-- The same publisher before the publication.
one_written : (s : System ℕ) × Reach 2 1 true 0 s × (s.pc 0 ≡ written 0 1)
unfolding publish translate is_available ℕ_discrete
one_written =
    let s0 : Reach 2 1 true 0 (start_of 0) = start in
    let s1 = after s0 (publisher 0 (begin {call = throwing} {n = 1} zero_lt_one)) in
    let s2 = after s1 (publisher 0 load) in
    let s3 = after s2 (publisher 0 (enough refl)) in
    let s4 = after s3 (publisher 0 (win refl)) in
    let s5 = after s4 (publisher 0 (write 7)) in (_, s5, refl)

readable_event-IsKept_example :
    IsKept 2 0 (one_published.0).memory (advance 0 (one_published.0).memory)
unfolding one_published
readable_event-IsKept_example =
    readable_event-IsKept zero_lt_one (inl refl) one_published.1 0 0
      (dependent 0 zero_lt_one (one_published.3).1 (one_published.3).2) zero_lt_one one_published.3

claims_within_round_example :
    ((one_published.0).memory.gating 0 ≤ (one_published.0).memory.cursor)
    × ((one_published.0).memory.cursor ≤ (one_published.0).memory.gating 0 + 2)
claims_within_round_example =
    claims_within_round zero_lt_one (inl refl) one_published.1 0 zero_lt_one

claimed-published_or_held_example :
    (is_available 2 0 (one_published.0).memory ≡ true)
    ⊎ ((i : ℕ) × Holds ((one_published.0).pc i) 0)
claimed-published_or_held_example =
    claimed-published_or_held zero_lt_one (inl refl) one_published.1 0 (one_published.3).1
      (omega (arith, one_published.2))

written_entry-kept_example :
    (publish 2 0 (one_written.0).memory).entries 0 ≡ (one_written.0).memory.entries 0
unfolding one_written
written_entry-kept_example =
    written_entry-kept zero_lt_one (inl refl) one_written.1 0 0 1 one_written.2
      (publisher 0 make_available)

-- a ring of four with the events 0 and 1 published and 2 claimed
abbrev ring : Memory ℕ
ring = record {
  cursor = 3;
  cache = 0;
  flags = λ i. if leb i 1 then 0 else 2 ^ 32 - 1;
  entries = λ i. i + 10;
  gating = λ _. 0;
}

highest_published-IsPublishedRun_example : IsPublishedRun 4 0 (highest_published 4 0 3 ring) 3 ring
highest_published-IsPublishedRun_example = highest_published-IsPublishedRun 4 ring 0 3 (omega arith)

highest_published_gap : highest_published 4 0 3 ring ≡ 2
unfolding highest_published published_run is_available
highest_published_gap = refl

poll_two :
    poll 4 ring (λ _. λ _. λ _. go_on) (3 ∷ []) initial
    ≡ (some processing, record { sequence = 2; last_available = 2 }, (0, 10) ∷ (1, 11) ∷ [])
unfolding poll deliver available_events first_unknown get_minimum_sequence highest_published
    published_run is_available
poll_two = refl

-- a handler that stops behind the first event, and one that throws there
poll_stops :
    poll 4 ring (λ _. λ _. λ _. stop) (3 ∷ []) initial
    ≡ (some processing, record { sequence = 1; last_available = 2 }, (0, 10) ∷ [])
unfolding poll deliver available_events first_unknown get_minimum_sequence highest_published
    published_run is_available
poll_stops = refl

poll_throws :
    poll 4 ring (λ _. λ _. λ _. throws) (3 ∷ []) initial
    ≡ (none, record { sequence = 0; last_available = 2 }, (0, 10) ∷ [])
unfolding poll deliver available_events first_unknown get_minimum_sequence highest_published
    published_run is_available
poll_throws = refl

abbrev busy : SingleThreaded
busy = record { cursor = 3; next_value = 3; cached_value = 0 }

behind_busy : busy.next_value ≤ get_minimum_sequence (1 ∷ 2 ∷ []) busy.next_value + 4
unfolding get_minimum_sequence
behind_busy = omega arith

try_next-capacity_example :
    (try_next 4 (1 ∷ 2 ∷ []) 2 busy).0
    ≡ (if leb 2 (remaining_capacity 4 (1 ∷ 2 ∷ []) busy) then some 5 else none)
try_next-capacity_example =
    try_next-capacity 4 (1 ∷ 2 ∷ []) 2 busy (omega arith) (omega arith, (omega arith, tt))
      behind_busy

try_next_refused :
    (try_next 4 (1 ∷ 2 ∷ []) 3 busy)
    ≡ (none, record { cursor = 3; next_value = 3; cached_value = 1 })
unfolding try_next has_available_capacity get_minimum_sequence
try_next_refused = refl

try_next-IsRoomy_example : IsRoomy 4 (1 ∷ 2 ∷ []) (try_next 4 (1 ∷ 2 ∷ []) 2 busy).1
try_next-IsRoomy_example = try_next-IsRoomy 4 (1 ∷ 2 ∷ []) 2 busy (record {
  cached_claimed = omega arith;
  cached_behind = (omega arith, (omega arith, tt));
  fits = (omega arith, (omega arith, tt));
})
