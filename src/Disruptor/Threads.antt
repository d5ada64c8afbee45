-- ===== src/Disruptor/Threads.antt =====
-- The loops of `next` and `tryNext` of `MultiThreadedStrategy` in ClaimStrategy.hpp, and
-- `publishEvent` and `tryPublishEvent` of RingBuffer.hpp, as any number of threads run them: a step
-- is one access of one thread to the shared memory. A dependent reads an event and then moves its
-- sequence; one that moves it once for several events takes several of these steps in a row. The
-- set of the dependents, which are numbered from 0, stays as it is.
pub mod Invariant
pub mod Safety
use opencmw_cpp.Base.{ℕ, suc, ◌+◌, ◌<◌, min, Bool, true, false, ◌≡◌, ◌≢◌, ltb, if◌then◌else◌}
use opencmw_cpp.Disruptor.Sequence.{put}
use opencmw_cpp.Disruptor.Single.{wraps, needs_minimum}
use opencmw_cpp.Disruptor.Multi.{Memory, initial, is_available, publish, translate}

-- which of the two calls a thread is in
pub data Call : Type 0 where
  blocking : Call  -- next
  throwing : Call  -- tryNext

-- Where a publisher stands, with the local variables that are live there: the number of events that
-- it claims and the cursor that it has read.
pub data Pc : Type 0 where
  idle : Pc
  starting : Call → (claim : ℕ) → Pc  -- head of the loop
  loaded : Call → (claim current : ℕ) → Pc  -- the cursor is read
  scanning : Call → (claim current i least : ℕ) → Pc  -- libc++: `least` of the copied values
  picking : Call → (claim current i best : ℕ) → Pc  -- libstdc++: the dependent that is `best` so far
  found : Call → (claim current minimum : ℕ) → Pc  -- `getMinimumSequence` has returned
  exchanging : Call → (claim current : ℕ) → Pc  -- before the compareAndSet
  claimed : (first end : ℕ) → Pc  -- the events `first` up to `end` are its own
  written : (first end : ℕ) → Pc  -- and the entry of `first` is written

-- Behind a publication: the next event of the claim, or the end of it.
abbrev pub published : (first end : ℕ) → Pc
published first end = if ltb (suc first) end then claimed (suc first) end else idle

-- One access of one publisher, for a ring of `size` entries and `dependents` gating sequences.
-- `copies` tells which of the two bodies of `getMinimumSequence` is compiled: that of libc++ copies
-- the values, the other keeps the place of the least one and reads it again.
pub data Move {A : Type 0} (size dependents : ℕ) (copies : Bool) (m : Memory A)
    : Pc → Memory A → Pc → Type 0 where
  begin : {call : Call} {n : ℕ} → 0 < n → Move size dependents copies m idle m (starting call n)
  load :
      {call : Call} {n : ℕ}
      → Move size dependents copies m (starting call n) m (loaded call n m.cursor)
  enough :
      {call : Call} {n c : ℕ}
      → needs_minimum size m.cache c n ≡ false
      → Move size dependents copies m (loaded call n c) m (exchanging call n c)
  scan :
      {call : Call} {n c : ℕ}
      → copies ≡ true
      → needs_minimum size m.cache c n ≡ true
      → Move size dependents copies m (loaded call n c) m (scanning call n c 0 c)
  copy :
      {call : Call} {n c i least : ℕ}
      → i < dependents
      → Move size dependents copies m
          (scanning call n c i least)
          m
          (scanning call n c (suc i) (min least (m.gating i)))
  copied :
      {call : Call} {n c least : ℕ}
      → Move size dependents copies m (scanning call n c dependents least) m (found call n c least)
  none_to_pick :
      {call : Call} {n c : ℕ}
      → copies ≡ false
      → needs_minimum size m.cache c n ≡ true
      → dependents ≡ 0
      → Move size dependents copies m (loaded call n c) m (found call n c c)
  pick_first :
      {call : Call} {n c : ℕ}
      → copies ≡ false
      → needs_minimum size m.cache c n ≡ true
      → 0 < dependents
      → Move size dependents copies m (loaded call n c) m (picking call n c 1 0)
  compare :
      {call : Call} {n c i best : ℕ}
      → i < dependents
      → Move size dependents copies m
          (picking call n c i best)
          m
          (picking call n c (suc i) (if ltb (m.gating i) (m.gating best) then i else best))
  read_again :
      {call : Call} {n c best : ℕ}
      → Move size dependents copies m
          (picking call n c dependents best)
          m
          (found call n c (min c (m.gating best)))
  spin :
      {n c g : ℕ}
      → wraps size g c n ≡ true
      → Move size dependents copies m (found blocking n c g) m (starting blocking n)
  store :
      {n c g : ℕ}
      → wraps size g c n ≡ false
      → Move size dependents copies m
          (found blocking n c g)
          (record m { cache = g })
          (starting blocking n)
  refuse :
      {n c g : ℕ}
      → wraps size g c n ≡ true
      → Move size dependents copies m (found throwing n c g) (record m { cache = g }) idle
  allow :
      {n c g : ℕ}
      → wraps size g c n ≡ false
      → Move size dependents copies m
          (found throwing n c g)
          (record m { cache = g })
          (exchanging throwing n c)
  win :
      {call : Call} {n c : ℕ}
      → m.cursor ≡ c
      → Move size dependents copies m
          (exchanging call n c)
          (record m { cursor = c + n })
          (claimed c (c + n))
  lose :
      {call : Call} {n c : ℕ}
      → m.cursor ≢ c
      → Move size dependents copies m (exchanging call n c) m (starting call n)
  write :
      {first end : ℕ} (content : A)
      → Move size dependents copies m
          (claimed first end)
          (translate size first content m)
          (written first end)
  make_available :
      {first end : ℕ}
      → Move size dependents copies m
          (written first end)
          (publish size first m)
          (published first end)

-- the memory and the place of each publisher
pub record System (A : Type 0) : Type 0 where
  pub memory : Memory A
  pub pc : ℕ → Pc

abbrev pub advance : {A : Type 0} → ℕ → Memory A → Memory A
advance j m = record m { gating = put j (suc (m.gating j)) m.gating }

-- One step of a publisher, or of a dependent that has read the event at its sequence.
pub data Step {A : Type 0} (size dependents : ℕ) (copies : Bool) (s : System A)
    : System A → Type 0 where
  publisher :
      (i : ℕ) {m : Memory A} {p : Pc}
      → Move size dependents copies s.memory (s.pc i) m p
      → Step size dependents copies s (record { memory = m; pc = put i p s.pc })
  dependent :
      (j : ℕ)
      → j < dependents
      → s.memory.gating j < s.memory.cursor
      → is_available size (s.memory.gating j) s.memory ≡ true
      → Step size dependents copies s (record { memory = advance j s.memory; pc = s.pc })

abbrev pub start_of : {A : Type 0} → A → System A
start_of blank = record { memory = initial blank; pc = λ _. idle }

pub data Reach {A : Type 0} (size dependents : ℕ) (copies : Bool) (blank : A)
    : System A → Type 0 where
  start : Reach size dependents copies blank (start_of blank)
  after :
      {s t : System A}
      → Reach size dependents copies blank s
      → Step size dependents copies s t
      → Reach size dependents copies blank t
