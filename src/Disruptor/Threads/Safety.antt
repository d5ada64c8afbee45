-- ===== src/Disruptor/Threads/Safety.antt =====
-- What the ring buffer promises its publishers and dependents, whatever the order of their steps.
use opencmw_cpp.Base.{
  ℕ, ◌+◌, ◌≤◌, ◌<◌, ◌≡◌, ◌≢◌, ◌⊎◌, inl, inr, refl, sym, ap, ◌∙◌, subst, Bool, true, arith,
}
use opencmw_cpp.Disruptor.Slots.{
  slot, flag, stale_flag, slot-injective, flag-ne-stale_flag, slot-add_size, stale_flag-add_size,
}
use opencmw_cpp.Disruptor.Sequence.{put_ne}
use opencmw_cpp.Disruptor.Multi.{Memory, is_available, publish, translate}
use opencmw_cpp.Disruptor.Threads.{
  Pc, Move, write, make_available, System, Step, publisher, dependent, Reach, claimed, written,
}
use opencmw_cpp.Disruptor.Threads.Invariant.Defs.{Holds, IsKnown, Inv}
use opencmw_cpp.Disruptor.Threads.Invariant.Steps.{IsSteady, Reach-Inv}

-- An event that a dependent has still to read and may read: it is claimed and published.
abbrev pub IsReadable : {A : Type 0} → (size j e : ℕ) → Memory A → Type 0
IsReadable size j e m = (m.gating j ≤ e) × (e < m.cursor) × (is_available size e m ≡ true)

-- Its content and its mark are as they were.
abbrev pub IsKept : {A : Type 0} → (size e : ℕ) → (before now : Memory A) → Type 0
IsKept size e before now =
    (now.entries (slot size e) ≡ before.entries (slot size e)) × (is_available size e now ≡ true)

module _ {A : Type 0} {size dependents : ℕ} {m : Memory A} {pc : ℕ → Pc}
    (inv : Inv size dependents m pc) (j e : ℕ) (one : j < dependents)
    (readable : IsReadable size j e m) where
  -- the slot of an event that a publisher holds is another one
  apart_from_held : (i d : ℕ) → Holds (pc i) d → slot size d ≢ slot size e
  unfolding is_available
  apart_from_held i d holds same =
      let near = inv.window j one in
      let old = inv.held i d holds in
      let is_same : d ≡ e =
        slot-injective size d e (omega (arith, near.1, readable.0, old.0))
          (omega (arith, near.1, readable.1, inv.unread i d j holds one)) same in
      let marked : m.flags (slot size e) ≡ flag size e = ground (arith, readable.2) in
      flag-ne-stale_flag size e
        (sym marked ∙ subst (λ x. m.flags (slot size x) ≡ stale_flag size x) is_same old.1)

  IsKept-by-Move :
      {copies : Bool} {n : Memory A} {q p : Pc} (i : ℕ)
      → Move size dependents copies m q n p
      → pc i ≡ q
      → IsKept size e m n
  unfolding is_available publish translate
  IsKept-by-Move i (write {first} {end} content) at =
      let holds : Holds (pc i) first =
        subst (λ q. Holds q first) (sym at)
          (omega arith, subst (IsKnown size dependents m.gating) at (inv.known i)) in
      (
        put_ne (slot size first) (slot size e) content m.entries (apart_from_held i first holds),
        readable.2,
      )
  IsKept-by-Move i (make_available {first} {end}) at =
      let holds : Holds (pc i) first =
        subst (λ q. Holds q first) (sym at)
          (omega arith, subst (IsKnown size dependents m.gating) at (inv.known i)) in
      (
        refl,
        ground (
          arith,
          readable.2,
          put_ne (slot size first) (slot size e) (flag size first) m.flags
              (apart_from_held i first holds),
        ),
      )
  IsKept-by-Move i _ at = (refl, readable.2)

not_both : {a b c d : ℕ} → claimed a b ≢ written c d
not_both e = cc

module _ {A : Type 0} {size dependents : ℕ} {copies : Bool} {blank : A} {s : System A}
    (some_dependent : 0 < dependents) (steady : IsSteady dependents copies)
    (reach : Reach size dependents copies blank s) where
  -- In every state that the threads reach from the empty buffer, with a dependent at least and a
  -- minimum that is read in one piece or of one dependent, no step of any thread changes the entry
  -- of a published event that a dependent has still to read, nor the mark that it is published.
  pub readable_event-IsKept :
      {t : System A} (j e : ℕ)
      → Step size dependents copies s t
      → j < dependents
      → IsReadable size j e s.memory
      → IsKept size e s.memory t.memory
  unfolding is_available
  readable_event-IsKept j e (publisher i move) one readable =
      IsKept-by-Move (Reach-Inv some_dependent steady reach) j e one readable i move refl
  readable_event-IsKept j e (dependent k lt behind here) one readable = (refl, readable.2)

  -- In every state that the threads reach from the empty buffer, with a dependent at least and a
  -- minimum that is read in one piece or of one dependent, a publisher is never more than
  -- a round ahead of a dependent, and no dependent is ahead of the claims.
  pub claims_within_round :
      (j : ℕ)
      → j < dependents
      → (s.memory.gating j ≤ s.memory.cursor) × (s.memory.cursor ≤ s.memory.gating j + size)
  claims_within_round j one = (Reach-Inv some_dependent steady reach).window j one

  -- In such a state two publishers never hold events with the same slot.
  pub held_slots-ne :
      (i k d e : ℕ) → i ≢ k → Holds (s.pc i) d → Holds (s.pc k) e → slot size d ≢ slot size e
  held_slots-ne i k d e apart holds holds' same =
      let inv = Reach-Inv some_dependent steady reach in
      let near = inv.window 0 some_dependent in
      let is_same : d ≡ e =
        slot-injective size d e
          (omega (arith, near.1, inv.unread k e 0 holds' some_dependent, inv.held i d holds))
          (omega (arith, near.1, inv.unread i d 0 holds some_dependent, inv.held k e holds'))
          same in
      apart (inv.unique i k e (subst (Holds (s.pc i)) is_same holds) holds')

  -- In every state that the threads reach from the empty buffer, with a dependent at least and a
  -- minimum that is read in one piece or of one dependent, every claimed event of the
  -- last round is published, or a publisher still holds it: no claim is lost.
  pub claimed-published_or_held :
      (e : ℕ)
      → e < s.memory.cursor
      → s.memory.cursor ≤ e + size
      → (is_available size e s.memory ≡ true) ⊎ ((i : ℕ) × Holds (s.pc i) e)
  unfolding is_available
  claimed-published_or_held e below recent =
      let inv = Reach-Inv some_dependent steady reach in
      elim (inv.slots (e + size) recent (omega arith)) [
        | inl mark ↦
            let next : s.memory.flags (slot size e) ≡ flag size e =
              ap s.memory.flags (sym (slot-add_size size e))
              ∙ mark
              ∙ stale_flag-add_size size e (omega arith) in
            inl (ground (arith, next))
        | inr (d, i, round, holds) ↦
            let same : d ≡ e = omega arith in inr (i, subst (Holds (s.pc i)) same holds)
      ]

  written_kept_by-Move :
      (i k first end : ℕ) {n : Memory A} {q p : Pc}
      → s.pc i ≡ written first end
      → first < end
      → Move size dependents copies s.memory q n p
      → s.pc k ≡ q
      → n.entries (slot size first) ≡ s.memory.entries (slot size first)
  unfolding publish translate
  written_kept_by-Move i k first end at some_event (write {first = other} {end = last} content)
        at' =
      let more : other < last =
        subst (IsKnown size dependents s.memory.gating) at'
          ((Reach-Inv some_dependent steady reach).known k) in
      let apart : k ≢ i = λ same. absurd (not_both (sym at' ∙ ap s.pc same ∙ at)) in
      put_ne (slot size other) (slot size first) content s.memory.entries (
        held_slots-ne k i other first apart
          (subst (λ q. Holds q other) (sym at') (omega arith, more))
          (subst (λ q. Holds q first) (sym at) (omega arith, some_event)))
  written_kept_by-Move i k first end at some_event _ at' = refl

  -- In every state that the threads reach from the empty buffer, with a dependent at least and a
  -- minimum that is read in one piece or of one dependent, the entry that a publisher has
  -- written for an event is the same behind any step of any thread, up to the publication of the
  -- event by this publisher and with it.
  pub written_entry-kept :
      {t : System A} (i first end : ℕ)
      → s.pc i ≡ written first end
      → Step size dependents copies s t
      → t.memory.entries (slot size first) ≡ s.memory.entries (slot size first)
  written_entry-kept i first end at (publisher k move) =
      written_kept_by-Move i k first end at
        (subst (IsKnown size dependents s.memory.gating) at
          ((Reach-Inv some_dependent steady reach).known i))
        move refl
  written_entry-kept i first end at (dependent k lt behind here) = refl
