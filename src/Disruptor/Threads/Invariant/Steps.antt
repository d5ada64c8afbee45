-- ===== src/Disruptor/Threads/Invariant/Steps.antt =====
-- Every step of the threads keeps the invariant, which holds at the start.
use native.Mathlib.Nat.{div-eq_of_lt}
use opencmw_cpp.Base.{
  ℕ, ◌-◌, ◌^◌, ◌∙◌, ℕ_discrete, suc, ◌+◌, ◌≤◌, ◌<◌, ◌≡◌, ◌⊎◌, inl, refl, sym, ap, subst, Bool, true,
  arith, ltb, if◌then◌else◌, min,
}
use opencmw_cpp.Disruptor.Slots.{slot, flag, stale_flag}
use opencmw_cpp.Disruptor.Sequence.{put}
use opencmw_cpp.Disruptor.Multi.{Memory, initial, publish, translate, is_available}
use opencmw_cpp.Disruptor.Threads.{
  blocking, throwing, Pc, idle, starting, loaded, scanning, picking, found, exchanging, claimed,
  written, Move, begin, load, enough, scan, copy, copied, none_to_pick, pick_first, compare,
  read_again, spin, store, refuse, allow, win, lose, write, make_available, System, Step, publisher,
  dependent, Reach, start, after,
}
use opencmw_cpp.Disruptor.Threads.Invariant.Defs.{first_held, end_held, IsKnown, Inv}
use opencmw_cpp.Disruptor.Threads.Invariant.Moves.{quiet}
use opencmw_cpp.Disruptor.Threads.Invariant.Claims.{claim_events, publish_event, read_event}

available-flag :
    {A : Type 0} (size e : ℕ) (m : Memory A)
    → is_available size e m ≡ true
    → m.flags (slot size e) ≡ flag size e
unfolding is_available
available-flag size e m h = ground arith

fresh_flag : (size e : ℕ) → e < size → 2 ^ 32 - 1 ≡ stale_flag size e
fresh_flag size e h = omega (arith, div-eq_of_lt h)

-- The minimum that `getMinimumSequence` returns is behind every dependent: it copies the values, or
-- has one dependent at most.
abbrev pub IsSteady : (dependents : ℕ) → Bool → Type 0
IsSteady dependents copies = (copies ≡ true) ⊎ (dependents ≤ 1)

copied_least :
    (gating : ℕ → ℕ) (i least : ℕ)
    → ((j : ℕ) → j < i → least ≤ gating j)
    → (j : ℕ) → j < suc i
    → min least (gating i) ≤ gating j
copied_least gating i least low j lt = elim (ℕ_discrete j i) [
  | yes same ↦ subst (λ x. min least (gating i) ≤ gating x) (sym same) (omega arith)
  | no before ↦ omega (arith, low j (omega arith))
]

module _ {A : Type 0} {size dependents : ℕ} {m : Memory A} {pc : ℕ → Pc} where
  IsKnown-at :
      (i : ℕ) {q : Pc} → pc i ≡ q → Inv size dependents m pc → IsKnown size dependents m.gating q
  IsKnown-at i at inv = subst (λ q. IsKnown size dependents m.gating q) at (inv.known i)

  -- a step that neither gains nor loses an event and leaves the memory as it is
  keep :
      (i : ℕ) {q : Pc} (p : Pc)
      → pc i ≡ q
      → first_held p ≡ first_held q
      → end_held p ≡ end_held q
      → IsKnown size dependents m.gating p
      → Inv size dependents m pc
      → Inv size dependents m (put i p pc)
  keep i p at first_same end_same known inv =
      quiet i p m.cache m.entries inv (first_same ∙ sym (ap first_held at))
        (end_same ∙ sym (ap end_held at)) known inv.cached

  -- a step that stores a minimum
  keep_cached :
      (i : ℕ) {q : Pc} (p : Pc) (g : ℕ)
      → pc i ≡ q
      → first_held p ≡ first_held q
      → end_held p ≡ end_held q
      → IsKnown size dependents m.gating p
      → ((j : ℕ) → j < dependents → g ≤ m.gating j)
      → Inv size dependents m pc
      → Inv size dependents (record m { cache = g }) (put i p pc)
  keep_cached i p g at first_same end_same known low inv =
      quiet i p g m.entries inv (first_same ∙ sym (ap first_held at))
        (end_same ∙ sym (ap end_held at)) known low

  pub Move-Inv :
      {copies : Bool} {n : Memory A} {q p : Pc} (i : ℕ)
      → 0 < dependents
      → IsSteady dependents copies
      → Move size dependents copies m q n p
      → pc i ≡ q
      → Inv size dependents m pc
      → Inv size dependents n (put i p pc)
  unfolding translate publish
  Move-Inv i pos steady (begin {call} {n} some_event) at inv =
      keep i (starting call n) at refl refl some_event inv
  Move-Inv i pos steady (load {call} {n}) at inv =
      keep i (loaded call n m.cursor) at refl refl (IsKnown-at i at inv) inv
  Move-Inv i pos steady (enough {call} {n} {c} h) at inv =
      keep i (exchanging call n c) at refl refl
        (IsKnown-at i at inv, λ j lt. ground (arith, inv.cached j lt)) inv
  Move-Inv i pos steady (scan {call} {n} {c} h k) at inv =
      keep i (scanning call n c 0 c) at refl refl
        (IsKnown-at i at inv, λ j lt. absurd (omega arith)) inv
  Move-Inv i pos steady (copy {call} {n} {c} {i = x} {least} h) at inv =
      let known = IsKnown-at i at inv in
      keep i (scanning call n c (suc x) (min least (m.gating x))) at refl refl
        (known.0, copied_least m.gating x least known.1) inv
  Move-Inv i pos steady (copied {call} {n} {c} {least}) at inv =
      keep i (found call n c least) at refl refl (IsKnown-at i at inv) inv
  Move-Inv i pos steady (none_to_pick h k none_there) at inv = absurd (omega arith)
  Move-Inv i pos steady (pick_first {call} {n} {c} h k some_there) at inv =
      keep i (picking call n c 1 0) at refl refl (IsKnown-at i at inv, pos, ground (arith, steady))
        inv
  Move-Inv i pos steady (compare {call} {n} {c} {i = x} {best} h) at inv =
      let known = IsKnown-at i at inv in
      keep i (picking call n c (suc x) (if ltb (m.gating x) (m.gating best) then x else best)) at
        refl refl (known.0, ground arith, known.2) inv
  Move-Inv i pos steady (read_again {call} {n} {c} {best}) at inv =
      let known = IsKnown-at i at inv in
      keep i (found call n c (min c (m.gating best))) at refl refl
        (
          known.0,
          λ j lt.
              let only : best ≡ j = omega (arith, known.1, known.2) in
              subst (λ x. min c (m.gating best) ≤ m.gating x) only (omega arith),
        )
        inv
  Move-Inv i pos steady (spin {n} {c} {g} h) at inv =
      keep i (starting blocking n) at refl refl (IsKnown-at i at inv).0 inv
  Move-Inv i pos steady (store {n} {c} {g} h) at inv =
      let known = IsKnown-at i at inv in
      keep_cached i (starting blocking n) g at refl refl known.0 known.1 inv
  Move-Inv i pos steady (refuse {n} {c} {g} h) at inv =
      keep_cached i idle g at refl refl tt (IsKnown-at i at inv).1 inv
  Move-Inv i pos steady (allow {n} {c} {g} h) at inv =
      let known = IsKnown-at i at inv in
      keep_cached i (exchanging throwing n c) g at refl refl
        (known.0, λ j lt. ground (arith, known.1 j lt)) known.1 inv
  Move-Inv i pos steady (win {call} {n} {c} same) at inv =
      let known = IsKnown-at i at inv in
      subst (λ x. Inv size dependents (record m { cursor = x + n }) (put i (claimed x (x + n)) pc))
        same
        (claim_events inv i n pos known.0 (λ j lt. omega (arith, same, known.1 j lt))
          (ap end_held at))
  Move-Inv i pos steady (lose {call} {n} {c} other) at inv =
      keep i (starting call n) at refl refl (IsKnown-at i at inv).0 inv
  Move-Inv i pos steady (write {first} {end} content) at inv =
      quiet i (written first end) m.cache (put (slot size first) content m.entries) inv
        (sym (ap first_held at)) (sym (ap end_held at)) (IsKnown-at i at inv) inv.cached
  Move-Inv i pos steady (make_available {first} {end}) at inv =
      publish_event inv i first end at pos (IsKnown-at i at inv)

Inv-start :
    {A : Type 0} (size dependents : ℕ) (blank : A) → Inv size dependents (initial blank) (λ _. idle)
Inv-start size dependents blank = record {
  window = λ j lt. (omega arith, omega arith);
  cached = λ j lt. omega arith;
  known = λ i. tt;
  held = λ i e h. absurd (omega (arith, h.1));
  unread = λ i e j h. absurd (omega (arith, h.1));
  unique = λ i k e h. absurd (omega (arith, h.1));
  slots = λ e low high. inl (fresh_flag size e (omega arith));
}

module _ {A : Type 0} {size dependents : ℕ} {copies : Bool} where
  pub Step-Inv :
      {s t : System A}
      → 0 < dependents
      → IsSteady dependents copies
      → Step size dependents copies s t
      → Inv size dependents s.memory s.pc
      → Inv size dependents t.memory t.pc
  Step-Inv pos steady (publisher i move) inv = Move-Inv i pos steady move refl inv
  Step-Inv {s} pos steady (dependent j lt behind here) inv =
      read_event inv j behind (available-flag size (s.memory.gating j) s.memory here)

  pub Reach-Inv :
      {blank : A} {s : System A}
      → 0 < dependents
      → IsSteady dependents copies
      → Reach size dependents copies blank s
      → Inv size dependents s.memory s.pc
  Reach-Inv {blank} pos steady start = Inv-start size dependents blank
  Reach-Inv pos steady (after r step) = Step-Inv pos steady step (Reach-Inv pos steady r)
