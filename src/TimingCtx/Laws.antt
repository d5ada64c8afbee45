-- ===== src/TimingCtx/Laws.antt =====
-- How selectors match.
use opencmw_cpp.Base.{ℤ, pos, negsuc, ◌≡◌, true, arith, Bool-cases, inl, inr, subst}
use opencmw_cpp.TimingCtx.{int_eq, wildcard_value, TimingCtx, wildcard_match, timing_matches}

int_eq_refl : (n : ℤ) → int_eq n n ≡ true
unfolding int_eq
int_eq_refl (pos n) = ground arith
int_eq_refl (negsuc n) = ground arith

eq_of_int_eq : (m n : ℤ) → int_eq m n ≡ true → m ≡ n
unfolding int_eq
eq_of_int_eq (pos m) (pos n) h = ground arith
eq_of_int_eq (pos m) (negsuc n) h = cc
eq_of_int_eq (negsuc m) (pos n) h = cc
eq_of_int_eq (negsuc m) (negsuc n) h = ground arith

wildcard_match_refl : (n : ℤ) → wildcard_match n n ≡ true
unfolding wildcard_match
wildcard_match_refl n = ground (arith, int_eq_refl n)

wildcard_match_trans :
    (l m n : ℤ) → wildcard_match l m ≡ true → wildcard_match m n ≡ true → wildcard_match l n ≡ true
unfolding wildcard_match
wildcard_match_trans l m n h k = elim (Bool-cases (int_eq n wildcard_value)) [
  | inl any ↦ rw (wildcard_match, any)
  | inr given ↦
      subst (λ (x : ℤ). wildcard_match l x ≡ true) (eq_of_int_eq m n (ground (arith, k, given))) h
]

-- A timing context matches itself, so a filter passes the selector that is subscribed to.
timing_matches_refl : (t : TimingCtx) → timing_matches t t ≡ true
unfolding timing_matches
timing_matches_refl t = rw (
  wildcard_match_refl t.ids.cid,
  wildcard_match_refl t.ids.sid,
  wildcard_match_refl t.ids.pid,
  wildcard_match_refl t.ids.gid,
)

-- What matches a timing context matches all that it matches.
timing_matches_trans :
    (t u v : TimingCtx)
    → timing_matches t u ≡ true
    → timing_matches u v ≡ true
    → timing_matches t v ≡ true
unfolding timing_matches
timing_matches_trans t u v h k = rw (
  wildcard_match_trans t.ids.cid u.ids.cid v.ids.cid (ground (arith, h)) (ground (arith, k)),
  wildcard_match_trans t.ids.sid u.ids.sid v.ids.sid (ground (arith, h)) (ground (arith, k)),
  wildcard_match_trans t.ids.pid u.ids.pid v.ids.pid (ground (arith, h)) (ground (arith, k)),
  wildcard_match_trans t.ids.gid u.ids.gid v.ids.gid (ground (arith, h)) (ground (arith, k)),
)
