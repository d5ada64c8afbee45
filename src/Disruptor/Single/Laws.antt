-- ===== src/Disruptor/Single/Laws.antt =====
-- The single publisher claims a slot exactly when no dependent still needs it.
use opencmw_cpp.Base.{
  ℕ, ◌+◌, ◌≤◌, ◌≡◌, List, [], ◌∷◌, ◌⊎◌, none, some, All, arith, leb, if◌then◌else◌, Bool-cases, inl,
  inr,
}
use opencmw_cpp.Disruptor.Sequence.{get_minimum_sequence, le-get_minimum_sequence_iff}
use opencmw_cpp.Disruptor.Single.{
  SingleThreaded, wraps, needs_minimum, try_next, has_available_capacity, remaining_capacity,
}

-- Claimed events fit the ring beside what each dependent has still to read, and the cached minimum
-- is behind both the publisher and the dependents.
pub record IsRoomy (size : ℕ) (gating : List ℕ) (s : SingleThreaded) : Type 0 where
  pub cached_claimed : s.cached_value ≤ s.next_value
  pub cached_behind : All (λ g. s.cached_value ≤ g) gating
  pub fits : All (λ g. s.next_value ≤ g + size) gating

All-map : {P Q : ℕ → Type 0} → ((g : ℕ) → P g → Q g) → (gs : List ℕ) → All P gs → All Q gs
All-map f [] h = tt
All-map f (g ∷ gs) h = (f g h.0, All-map f gs h.1)

module _ (size : ℕ) (gating : List ℕ) (claim : ℕ) (s : SingleThreaded) where
  -- For a publisher whose cached minimum is behind the publisher and every dependent, `tryNext`
  -- claims the events asked for exactly when the remaining capacity is enough for them, and
  -- otherwise reports that there is no capacity: the cache never changes the outcome.
  pub try_next-capacity :
      s.cached_value ≤ s.next_value
      → All (λ g. s.cached_value ≤ g) gating
      → s.next_value ≤ get_minimum_sequence gating s.next_value + size
      → (try_next size gating claim s).0 ≡ (
          if leb claim (remaining_capacity size gating s)
          then some (s.next_value + claim)
          else none)
  unfolding try_next has_available_capacity remaining_capacity
  try_next-capacity h1 h2 h3 =
      ground (arith, le-get_minimum_sequence_iff s.cached_value s.next_value gating)

  cached_after :
      ((try_next size gating claim s).1.cached_value ≡ s.cached_value)
      ⊎ ((try_next size gating claim s).1.cached_value ≡ get_minimum_sequence gating s.next_value)
  unfolding try_next has_available_capacity
  cached_after = elim (Bool-cases (needs_minimum size s.cached_value s.next_value claim)) [
    | inl e ↦ inr (ground (arith, e))
    | inr e ↦ inl (ground (arith, e))
  ]

  next_value_after :
      ((try_next size gating claim s).1.next_value ≡ s.next_value)
      ⊎ (((try_next size gating claim s).1.next_value ≡ s.next_value + claim)
          × (s.next_value + claim ≤ (try_next size gating claim s).1.cached_value + size))
  unfolding try_next has_available_capacity
  next_value_after = elim (Bool-cases (needs_minimum size s.cached_value s.next_value claim)) [
    | inl e ↦
        elim (Bool-cases
          (wraps size (get_minimum_sequence gating s.next_value) s.next_value claim)) [
            | inl full ↦ inl (ground arith)
            | inr room ↦ inr (ground arith, ground arith)
          ]
    | inr e ↦ inr (ground arith, ground arith)
  ]

  -- A call of `tryNext` by a publisher whose claimed events fit the ring leaves them fitting, also
  -- when there is no capacity, and keeps the cached minimum behind everyone.
  pub try_next-IsRoomy :
      IsRoomy size gating s → IsRoomy size gating (try_next size gating claim s).1
  try_next-IsRoomy inv =
      let low : ((get_minimum_sequence gating s.next_value ≤ s.next_value)
          × All (λ v. get_minimum_sequence gating s.next_value ≤ v) gating) =
        (le-get_minimum_sequence_iff (get_minimum_sequence gating s.next_value) s.next_value
            gating).0
          (omega arith) in
      let behind : All (λ g. (try_next size gating claim s).1.cached_value ≤ g) gating =
        elim cached_after [
          | inl e ↦ All-map (λ g h. omega arith) gating inv.cached_behind
          | inr e ↦ All-map (λ g h. omega arith) gating low.1
        ] in
      record {
        cached_claimed = ground (arith, cached_after, next_value_after);
        cached_behind = behind;
        fits = elim next_value_after [
          | inl e ↦ All-map (λ g h. omega arith) gating inv.fits
          | inr e ↦ All-map (λ g h. omega (arith, e.0, e.1)) gating behind
        ];
      }

-- one of a list has the property
abbrev pub Some : {A : Type 0} → (A → Type 0) → List A → Type 0
Some P [] = ⊥
Some P (x ∷ xs) = P x ⊎ Some P xs

-- The dependents leave room for a claim.
abbrev pub HasRoom : (size current claim : ℕ) → List ℕ → Type 0
HasRoom size current claim gating = All (λ g. current + claim ≤ g + size) gating
