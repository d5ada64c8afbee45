-- ===== src/Broker/Services/Laws.antt =====
-- Which service a request reaches: the shortest name that is a prefix of the name that is asked for.
use opencmw_cpp.Base.{
  ℕ, ◌≤◌, ◌≡◌, refl, ◌⊎◌, inl, inr, Bytes, true, false, ◌&&◌, List, [], ◌∷◌, Option, none, some,
  starts_with, length, arith, Bool-cases, &&-left, &&-right, subst, sym,
}
use opencmw_cpp.Broker.{Broker, Service}
use opencmw_cpp.Broker.Services.{
  remove_slash, less_by_length, best_loop, key_of, best_matching_service,
}

abbrev pub Services : Type 0
Services = List (Bytes × Service)

-- a service of the map whose name, without its slash, is a prefix
pub data IsCandidate (sn : Bytes) : Bytes → Bytes → Services → Type 0 where
  here :
      {name : Bytes} {s : Service} {rest : Services}
      → starts_with sn (remove_slash name) ≡ true
      → IsCandidate sn (remove_slash name) name ((name, s) ∷ rest)
  there :
      {n key name : Bytes} {s : Service} {rest : Services}
      → IsCandidate sn n key rest
      → IsCandidate sn n key ((name, s) ∷ rest)

no_candidate {ℓ} : {A : Type ℓ} {sn n key : Bytes} → IsCandidate sn n key [] → A
no_candidate c = elim c [ ]

le_refl : (n : ℕ) → n ≤ n
le_refl n = omega arith

length-less : (n b : Bytes) → less_by_length n b ≡ true → length n ≤ length b
unfolding less_by_length
length-less n b h = ground arith

length-not-less : (n b : Bytes) → less_by_length n b ≡ false → length b ≤ length n
unfolding less_by_length
length-not-less n b h = ground arith

-- From a name that the loop has, it ends with that one or with a candidate, and with one that is
-- not longer than it and than every candidate.
pub record IsBest (sn : Bytes) (start : Bytes × Bytes) (services : Services) (end : Bytes × Bytes)
    : Type 0 where
  pub chosen : (end ≡ start) ⊎ IsCandidate sn end.0 end.1 services
  pub not_longer : length end.0 ≤ length start.0
  pub shortest : (n key : Bytes) → IsCandidate sn n key services → length end.0 ≤ length n

keep_shortest :
    {sn : Bytes} {start : Bytes × Bytes} {name : Bytes} {s : Service} {services : Services}
    {end : Bytes × Bytes} {n key : Bytes}
    → (starts_with sn (remove_slash name) && less_by_length (remove_slash name) start.0) ≡ false
    → IsBest sn start services end
    → IsCandidate sn n key ((name, s) ∷ services)
    → length end.0 ≤ length n
keep_shortest h v (there {n = n} {key = key} c) = v.shortest n key c
keep_shortest {start = start} h v (here {name = name} p) =
    omega (arith, v.not_longer, length-not-less (remove_slash name) start.0 (ground (arith, h, p)))

keep :
    (sn : Bytes) (start : Bytes × Bytes) (name : Bytes) (s : Service) (services : Services)
    (end : Bytes × Bytes)
    → (starts_with sn (remove_slash name) && less_by_length (remove_slash name) start.0) ≡ false
    → IsBest sn start services end
    → IsBest sn start ((name, s) ∷ services) end
keep sn start name s services end h v = record {
  chosen = elim v.chosen [ inl e ↦ inl e | inr c ↦ inr (there c) ];
  not_longer = v.not_longer;
  shortest = λ n key c. keep_shortest h v c;
}

swap_shortest :
    {sn : Bytes} {name : Bytes} {s : Service} {services : Services} {end : Bytes × Bytes}
    {n key : Bytes}
    → IsBest sn (remove_slash name, name) services end
    → IsCandidate sn n key ((name, s) ∷ services)
    → length end.0 ≤ length n
swap_shortest v (there {n = n} {key = key} c) = v.shortest n key c
swap_shortest v (here p) = v.not_longer

start_or_there :
    {sn : Bytes} {name : Bytes} (s : Service) {services : Services} {end : Bytes × Bytes}
    → starts_with sn (remove_slash name) ≡ true
    → (end ≡ (remove_slash name, name)) ⊎ IsCandidate sn end.0 end.1 services
    → IsCandidate sn end.0 end.1 ((name, s) ∷ services)
start_or_there {sn} {name} s {services} h (inl e) =
    subst (λ (x : Bytes × Bytes). IsCandidate sn x.0 x.1 ((name, s) ∷ services)) (sym e) (here h)
start_or_there s h (inr c) = there c

swap :
    (sn : Bytes) (start : Bytes × Bytes) (name : Bytes) (s : Service) (services : Services)
    (end : Bytes × Bytes)
    → (starts_with sn (remove_slash name) && less_by_length (remove_slash name) start.0) ≡ true
    → IsBest sn (remove_slash name, name) services end
    → IsBest sn start ((name, s) ∷ services) end
swap sn start name s services end h v = record {
  chosen = inr (start_or_there s (&&-left _ _ h) v.chosen);
  not_longer = omega (
    arith,
    v.not_longer,
    length-less (remove_slash name) start.0 (
        &&-right (starts_with sn (remove_slash name)) (less_by_length (remove_slash name) start.0)
          h),
  );
  shortest = λ n key c. swap_shortest v c;
}

best_loop-some :
    (sn : Bytes) (start : Bytes × Bytes) (services : Services)
    → (end : Bytes × Bytes) × (best_loop sn (some start) services ≡ some end)
      × IsBest sn start services end
unfolding best_loop
best_loop-some sn start [] = (
  start,
  refl,
  record {
    chosen = inl refl;
    not_longer = le_refl (length start.0);
    shortest = λ n key c. no_candidate c;
  },
)
best_loop-some sn start ((name, s) ∷ services) =
    elim (Bool-cases
      (starts_with sn (remove_slash name) && less_by_length (remove_slash name) start.0)) [
        | inl h ↦
            let (end, e, v) = best_loop-some sn (remove_slash name, name) services in
            (end, rw (h) e, swap sn start name s services end h v)
        | inr h ↦
            let (end, e, v) = best_loop-some sn start services in
            (end, rw (h) e, keep sn start name s services end h v)
      ]

-- What a request for a name finds: no service if no name is a prefix, or else the service of a name
-- that is a prefix and is not longer than any other.
pub data IsMatch (sn : Bytes) (services : Services) : Option Bytes → Type 0 where
  no_match : ((n key : Bytes) → ¬ IsCandidate sn n key services) → IsMatch sn services none
  match :
      {n key : Bytes}
      → IsCandidate sn n key services
      → ((m other : Bytes) → IsCandidate sn m other services → length n ≤ length m)
      → IsMatch sn services (some key)

not_here :
    {sn name n key : Bytes} {s : Service} {services : Services}
    → starts_with sn (remove_slash name) ≡ false
    → IsCandidate sn n key ((name, s) ∷ services)
    → IsCandidate sn n key services
not_here h (there c) = c
not_here h (here p) = absurd (ground (arith, h, p))

skip :
    (sn name : Bytes) (s : Service) (services : Services) (r : Option Bytes)
    → starts_with sn (remove_slash name) ≡ false
    → IsMatch sn services r
    → IsMatch sn ((name, s) ∷ services) r
skip sn name s services r h (no_match k) = no_match (λ n key c. k n key (not_here h c))
skip sn name s services r h (match c k) = match (there c) (λ m other d. k m other (not_here h d))

best_loop-IsMatch :
    (sn : Bytes) (services : Services) → IsMatch sn services (key_of (best_loop sn none services))
unfolding best_loop
best_loop-IsMatch sn [] = no_match (λ n key c. no_candidate c)
best_loop-IsMatch sn ((name, s) ∷ services) =
    elim (Bool-cases (starts_with sn (remove_slash name))) [
      | inl h ↦
          let (end, e, v) = best_loop-some sn (remove_slash name, name) services in
          rw (h, e) (match (start_or_there s h v.chosen) (λ m other c. swap_shortest v c))
      | inr h ↦ rw h (skip sn name s services _ h (best_loop-IsMatch sn services))
    ]

-- `bestMatchingService` finds a service exactly if the name of one, without its leading slash, is a
-- prefix of the name that is asked for; it finds one whose name is not longer than any other such.
pub best_matching_service-IsMatch :
    (name : Bytes) (b : Broker)
    → IsMatch (remove_slash name) b.services (best_matching_service name b)
unfolding best_matching_service
best_matching_service-IsMatch name b = best_loop-IsMatch (remove_slash name) b.services
