-- ===== src/Disruptor/Multi/Laws.antt =====
-- What `getHighestPublishedSequence` finds.
use opencmw_cpp.Base.{
  ℕ, zero, suc, ◌+◌, ◌-◌, ◌≤◌, ◌<◌, ◌≡◌, ◌⊎◌, inl, inr, true, false, arith, Bool-cases, le→leb,
  subst, ℕ_discrete,
}
use opencmw_cpp.Disruptor.Multi.{Memory, is_available, published_run, highest_published}

-- Every event from `first` up to `end` is published, and the next one is not or lies behind the
-- events that may be asked for.
pub record IsPublishedRun {A : Type 0} (size first end available : ℕ) (m : Memory A) : Type 0 where
  pub starts : first ≤ end
  pub ends : end ≤ available
  pub published : (e : ℕ) → first ≤ e → e < end → is_available size e m ≡ true
  pub maximal : (end ≡ available) ⊎ (is_available size end m ≡ false)

module _ {A : Type 0} (size : ℕ) (m : Memory A) where
  published_run-IsPublishedRun :
      (rounds event : ℕ)
      → IsPublishedRun size event (published_run size rounds event m) (event + rounds) m
  unfolding published_run
  published_run-IsPublishedRun zero event = record {
    starts = omega arith;
    ends = omega arith;
    published = λ e h k. absurd (omega arith);
    maximal = inl (omega arith);
  }
  published_run-IsPublishedRun (suc rounds) event =
      let next = published_run-IsPublishedRun rounds (suc event) in
      elim (Bool-cases (is_available size event m)) [
        | inl here ↦ rw here (record {
          starts = omega (arith, next.starts);
          ends = omega (arith, next.ends);
          published = λ e h k. elim (ℕ_discrete event e) [
            | yes same ↦ subst (λ x. is_available size x m ≡ true) same here
            | no apart ↦ next.published e (omega arith) k
          ];
          maximal = ground (arith, next.maximal);
        })
        | inr gap ↦ rw gap (record {
          starts = omega arith;
          ends = omega arith;
          published = λ e h k. absurd (omega arith);
          maximal = inr gap;
        })
      ]

  -- From an event that is not behind the available ones, `getHighestPublishedSequence` goes exactly
  -- to the end of the published events that follow one another without a gap.
  pub highest_published-IsPublishedRun :
      (first available : ℕ)
      → first ≤ available
      → IsPublishedRun size first (highest_published size first available m) available m
  unfolding highest_published
  highest_published-IsPublishedRun first available h =
      let whole : first + (available - first) ≡ available = omega arith in
      rw (le→leb first available h) (
        subst (λ a. IsPublishedRun size first (published_run size (available - first) first m) a m)
          whole (published_run-IsPublishedRun (available - first) first))
