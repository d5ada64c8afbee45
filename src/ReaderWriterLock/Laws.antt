-- ===== src/ReaderWriterLock/Laws.antt =====
-- Readers and writers never hold the lock together.
use opencmw_cpp.Base.{
  ℤ, pos, negsuc, ℕ, zero, suc, ◌+◌, ◌≡◌, ◌≢◌, refl, sym, ap, ◌∙◌, subst, inl, inr, ◌⊎◌, ◌↔◌, List,
  [], ◌∷◌, ◌++◌, All, arith,
}
use opencmw_cpp.ReaderWriterLock.{
  increment, decrement, LockType, read, write, clamp, locked, unlocked, Pc, idle, trying, holding,
  Move, load, exchange, give_up, retry, unlock, System, Step, moves, Reach, here, next, initial,
}

abbrev reads : Pc → ℕ
reads idle = 0
reads (trying c t x) = 0
reads (holding read) = 1
reads (holding write) = 0

abbrev writes : Pc → ℕ
writes idle = 0
writes (trying c t x) = 0
writes (holding read) = 0
writes (holding write) = 1

-- how many threads hold the lock as readers, and how many as writers
abbrev pub readers : List Pc → ℕ
readers [] = 0
readers (pc ∷ pcs) = reads pc + readers pcs

abbrev pub writers : List Pc → ℕ
writers [] = 0
writers (pc ∷ pcs) = writes pc + writers pcs

-- the holders of the other kind
abbrev pub others : LockType → List Pc → ℕ
others read pcs = writers pcs
others write pcs = readers pcs

-- -n
abbrev pub minus : ℕ → ℤ
minus zero = pos 0
minus (suc n) = negsuc n

-- The counter counts the readers, or the writers below zero, and there are only readers or only
-- writers.
abbrev Counts : ℤ → (r w : ℕ) → Type 0
Counts counter r w = ((counter ≡ pos r) × (w ≡ 0)) ⊎ ((counter ≡ minus w) × (r ≡ 0))

abbrev pub IsExclusive : System → Type 0
IsExclusive s = Counts s.counter (readers s.threads) (writers s.threads)

zero-add : (n : ℕ) → 0 + n ≡ n
zero-add n = omega arith

one-add : (n : ℕ) → 1 + n ≡ suc n
one-add n = omega arith

-- a value that a reader may expect is not below zero, and one of a writer not above it
clamp-read_ne : (x : ℤ) (n : ℕ) → clamp read x ≢ negsuc n
unfolding clamp
clamp-read_ne (pos k) n = λ e. cc
clamp-read_ne (negsuc k) n = λ e. cc

clamp-write_ne : (x : ℤ) (n : ℕ) → clamp write x ≢ pos (suc n)
unfolding clamp
clamp-write_ne (pos k) n = λ e. cc
clamp-write_ne (negsuc k) n = λ e. cc

decrement-minus : (n : ℕ) → decrement (minus n) ≡ negsuc n
unfolding decrement
decrement-minus zero = refl
decrement-minus (suc n) = refl

increment-minus : (n : ℕ) → increment (negsuc n) ≡ minus n
unfolding increment
increment-minus zero = refl
increment-minus (suc n) = refl

without_idle : {counter : ℤ} {r w : ℕ} → Counts counter (0 + r) (0 + w) → Counts counter r w
without_idle {counter} {r} {w} h =
    subst (λ k. Counts counter k w) (zero-add r) (subst (Counts counter (0 + r)) (zero-add w) h)

enters :
    {counter : ℤ} (t : LockType) (x : ℤ) (r w : ℕ)
    → clamp t x ≡ counter
    → Counts counter r w
    → Counts (locked t counter) (reads (holding t) + r) (writes (holding t) + w)
unfolding locked increment
enters read x r w e (inl (c, no_writer)) = inl (ground (arith, c), ground (arith, no_writer))
enters read x r zero e (inr (c, no_reader)) = inl (ground (arith, c, no_reader), omega arith)
enters read x r (suc w) e (inr (c, no_reader)) = absurd (clamp-read_ne x w (e ∙ c))
enters write x zero w e (inl (c, no_writer)) =
    inr (rw c (ground (arith, decrement-minus 0, no_writer)), omega arith)
enters write x (suc r) w e (inl (c, no_writer)) = absurd (clamp-write_ne x r (e ∙ c))
enters write x r w e (inr (c, no_reader)) =
    inr (rw c (ground (arith, decrement-minus w)), ground (arith, no_reader))

leaves :
    {counter : ℤ} (t : LockType) (r w : ℕ)
    → Counts counter (reads (holding t) + r) (writes (holding t) + w)
    → Counts (unlocked t counter) (0 + r) (0 + w)
unfolding unlocked decrement
leaves read r w (inl (c, no_writer)) = inl (rw (c, one-add r) (ground arith), no_writer)
leaves read r w (inr (c, some_reader)) = absurd (omega arith)
leaves write r w (inl (c, some_writer)) = absurd (omega arith)
leaves write r w (inr (c, no_reader)) =
    inr (rw (c, one-add w, increment-minus w, zero-add w) refl, no_reader)

-- A move changes the counter as it changes the numbers of the holders, of which the others hold
-- `r` and `w`.
Move-Counts :
    {counter counter' : ℤ} {pc pc' : Pc} (r w : ℕ)
    → Move counter pc counter' pc'
    → Counts counter (reads pc + r) (writes pc + w)
    → Counts counter' (reads pc' + r) (writes pc' + w)
Move-Counts r w load h = h
Move-Counts r w (exchange {c} {t} {x} e) h = enters t x r w e (without_idle h)
Move-Counts r w (give_up e) h = h
Move-Counts r w (retry e) h = h
Move-Counts r w (unlock {t}) h = leaves t r w h

-- the others, in front of and behind a thread
module _ (f : Pc → ℕ) where
  abbrev total : List Pc → ℕ
  total [] = 0
  total (pc ∷ pcs) = f pc + total pcs

  total-append :
      (front : List Pc) (pc : Pc) (back : List Pc)
      → total (front ++ pc ∷ back) ≡ f pc + (total front + total back)
  total-append [] pc back = omega arith
  total-append (x ∷ front) pc back = omega (arith, total-append front pc back)

readers-total : (pcs : List Pc) → readers pcs ≡ total reads pcs
readers-total [] = refl
readers-total (pc ∷ pcs) = ap (◌+◌ (reads pc)) (readers-total pcs)

writers-total : (pcs : List Pc) → writers pcs ≡ total writes pcs
writers-total [] = refl
writers-total (pc ∷ pcs) = ap (◌+◌ (writes pc)) (writers-total pcs)

readers-append :
    (front : List Pc) (pc : Pc) (back : List Pc)
    → readers (front ++ pc ∷ back) ≡ reads pc + (total reads front + total reads back)
readers-append front pc back = readers-total (front ++ pc ∷ back) ∙ total-append reads front pc back

writers-append :
    (front : List Pc) (pc : Pc) (back : List Pc)
    → writers (front ++ pc ∷ back) ≡ writes pc + (total writes front + total writes back)
writers-append front pc back =
    writers-total (front ++ pc ∷ back) ∙ total-append writes front pc back

Step-IsExclusive : {s s' : System} → Step s s' → IsExclusive s → IsExclusive s'
Step-IsExclusive {s} (moves front pc back {counter'} {pc'} e move) h =
    rw (readers-append front pc' back, writers-append front pc' back)
      (Move-Counts _ _ move (
        rw⁻¹ (readers-append front pc back, writers-append front pc back)
          (subst (λ pcs. Counts s.counter (readers pcs) (writers pcs)) e h)))

no_readers : (pcs : List Pc) → All (λ pc. pc ≡ idle) pcs → readers pcs ≡ 0
no_readers [] h = refl
no_readers (pc ∷ pcs) h = omega (arith, ap reads h.0, no_readers pcs h.1)

no_writers : (pcs : List Pc) → All (λ pc. pc ≡ idle) pcs → writers pcs ≡ 0
no_writers [] h = refl
no_writers (pc ∷ pcs) h = omega (arith, ap writes h.0, no_writers pcs h.1)

-- Whatever threads use the lock, each from outside, and in whatever order they take their steps: the
-- counter is the number of the readers that hold the lock, and then no writer holds it, or it is
-- minus the number of the writers, and then no reader does.
pub Reach-IsExclusive :
    (threads : List Pc) (s : System)
    → All (λ pc. pc ≡ idle) threads
    → Reach (initial threads) s
    → IsExclusive s
Reach-IsExclusive threads s idle_all here =
    inl (ap pos (sym (no_readers threads idle_all)), no_writers threads idle_all)
Reach-IsExclusive threads s idle_all (next r step) =
    Step-IsExclusive step (Reach-IsExclusive threads _ idle_all r)

clamp-read_iff :
    (counter : ℤ) (r w : ℕ) → Counts counter r w → (clamp read counter ≡ counter) ↔ (w ≡ 0)
unfolding clamp
clamp-read_iff counter r w (inl (c, no_writer)) = (λ e. no_writer, λ e. rw c refl)
clamp-read_iff counter r zero (inr (c, no_reader)) = (λ e. refl, λ e. rw c refl)
clamp-read_iff counter r (suc w) (inr (c, no_reader)) =
    (λ e. absurd (clamp-read_ne counter w (e ∙ c)), λ e. absurd (omega arith))

clamp-write_iff :
    (counter : ℤ) (r w : ℕ) → Counts counter r w → (clamp write counter ≡ counter) ↔ (r ≡ 0)
unfolding clamp
clamp-write_iff counter zero w (inl (c, no_writer)) = (λ e. refl, λ e. rw c refl)
clamp-write_iff counter (suc r) w (inl (c, no_writer)) =
    (λ e. absurd (clamp-write_ne counter r (e ∙ c)), λ e. absurd (omega arith))
clamp-write_iff counter r zero (inr (c, no_reader)) = (λ e. no_reader, λ e. rw c refl)
clamp-write_iff counter r (suc w) (inr (c, no_reader)) = (λ e. no_reader, λ e. rw c refl)

-- In a state in which the counter counts the holders, the exchange of a thread that has just read
-- the counter succeeds exactly if no thread of the other kind holds the lock.
pub clamp_self_iff :
    (t : LockType) (s : System)
    → IsExclusive s
    → (clamp t s.counter ≡ s.counter) ↔ (others t s.threads ≡ 0)
clamp_self_iff read s h = clamp-read_iff s.counter (readers s.threads) (writers s.threads) h
clamp_self_iff write s h = clamp-write_iff s.counter (readers s.threads) (writers s.threads) h
