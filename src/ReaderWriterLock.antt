-- ===== src/ReaderWriterLock.antt =====
-- core/include/ReaderWriterLock.hpp: the lock as any number of threads use it. A step is one access
-- of one thread to the counter. The counter is an int64_t; as it counts threads, it stays far from
-- its bounds, and its wrap-around is left out.
pub mod Laws
pub mod Tests
use opencmw_cpp.Base.{
  ℤ, pos, negsuc, ℕ, zero, suc, ◌+◌, Bool, true, false, ◌≡◌, ◌≢◌, List, [], ◌∷◌, ◌++◌,
}

-- `x + 1`
unfoldable pub increment : ℤ → ℤ
increment (pos n) = pos (suc n)
increment (negsuc zero) = pos 0
increment (negsuc (suc n)) = negsuc n

-- `x - 1`
unfoldable pub decrement : ℤ → ℤ
decrement (pos zero) = negsuc 0
decrement (pos (suc n)) = pos n
decrement (negsuc n) = negsuc (suc n)

-- `ReaderWriterLockType`
pub data LockType : Type 0 where
  read write : LockType

-- The value that is expected: `if (expected < 0) expected = 0;` for readers, and the other way
-- round for writers.
unfoldable pub clamp : LockType → ℤ → ℤ
clamp read (pos n) = pos n
clamp read (negsuc n) = pos 0
clamp write (pos n) = pos 0
clamp write (negsuc n) = negsuc n

-- the value behind a lock: one more for a reader, one less for a writer
unfoldable pub locked : LockType → ℤ → ℤ
unfolding increment decrement
locked read x = increment x
locked write x = decrement x

-- `unlock`: the value behind it
unfoldable pub unlocked : LockType → ℤ → ℤ
unfolding increment decrement
unlocked read x = decrement x
unlocked write x = increment x

-- which of the two calls a thread is in
pub data Call : Type 0 where
  lock try_lock : Call

-- Where a thread stands: outside, in front of its exchange with the value that it has read, or
-- behind a lock.
pub data Pc : Type 0 where
  idle : Pc
  trying : Call → LockType → (read : ℤ) → Pc
  holding : LockType → Pc

-- One access of one thread: the counter and where the thread stands, before and behind it. An
-- exchange that fails leaves the value of the counter in `expected`.
pub data Move (counter : ℤ) : Pc → ℤ → Pc → Type 0 where
  load : {c : Call} {t : LockType} → Move counter idle counter (trying c t counter)
  exchange :
      {c : Call} {t : LockType} {x : ℤ}
      → clamp t x ≡ counter
      → Move counter (trying c t x) (locked t counter) (holding t)
  give_up :
      {t : LockType} {x : ℤ} → clamp t x ≢ counter → Move counter (trying try_lock t x) counter idle
  retry :
      {t : LockType} {x : ℤ}
      → clamp t x ≢ counter
      → Move counter (trying lock t x) counter (trying lock t counter)
  unlock : {t : LockType} → Move counter (holding t) (unlocked t counter) idle

pub record System : Type 0 where
  pub counter : ℤ
  pub threads : List Pc

-- a step of one of the threads
pub data Step (s : System) : System → Type 0 where
  moves :
      (front : List Pc) (pc : Pc) (back : List Pc) {counter' : ℤ} {pc' : Pc}
      → s.threads ≡ front ++ pc ∷ back
      → Move s.counter pc counter' pc'
      → Step s (record { counter = counter'; threads = front ++ pc' ∷ back })

pub data Reach (s : System) : System → Type 0 where
  here : Reach s s
  next : {t u : System} → Reach s t → Step t u → Reach s u

-- `value() == 0`, before any thread calls the lock
abbrev pub initial : List Pc → System
initial threads = record { counter = pos 0; threads = threads }
