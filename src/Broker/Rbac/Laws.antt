-- ===== src/Broker/Rbac/Laws.antt =====
-- The three readers of a token agree, and read the parts of a token that is put together from them.
use opencmw_cpp.Base.{
  ℕ, suc, suc-add, ◌+◌, ◌≡◌, refl, ap, ap₂, Bytes, true, false, not, ◌==◌, ◌∷◌, ◌++◌, starts_with,
  starts_with-split, take, drop, all, find_index, find_index-append, take_append-length,
  drop_append-suc-length, Bool-cases, Option-cases, inl, inr,
}
use opencmw_cpp.Broker.Rbac.{rbac_prefix, role, hash, role_and_hash}

-- the prefix has five characters
drop_prefix :
    (i : ℕ) (rest : Bytes)
    → drop (i + 1) rest ≡ drop (suc (suc (suc (suc (suc i)))) + 1) (rbac_prefix ++ rest)
drop_prefix i rest = rw (suc-add, suc-add, suc-add, suc-add, suc-add)

agrees_with_prefix :
    (rest : Bytes)
    → role_and_hash (rbac_prefix ++ rest) ≡ (role (rbac_prefix ++ rest), hash (rbac_prefix ++ rest))
unfolding role_and_hash role hash starts_with find_index
agrees_with_prefix rest = elim (Option-cases (find_index (λ c. c == b',') rest)) [
  | inl e ↦ rw e
  | inr (i, e) ↦ rw e (ap (λ (s : Bytes). (take i rest, s)) (drop_prefix i rest))
]

agrees_without_prefix :
    (token : Bytes)
    → starts_with token rbac_prefix ≡ false
    → role_and_hash token ≡ (role token, hash token)
unfolding role_and_hash role hash
agrees_without_prefix token h = rw h

-- `roleAndHash` gives what `role` and `hash` give, for every token.
role_and_hash_agrees : (token : Bytes) → role_and_hash token ≡ (role token, hash token)
role_and_hash_agrees token = elim (Bool-cases (starts_with token rbac_prefix)) [
  | inr h ↦ agrees_without_prefix token h
  | inl h ↦ let (rest, e) = starts_with-split token rbac_prefix h in rw e (agrees_with_prefix rest)
]

-- A token of a role without a comma and a hash gives both back.
role_and_hash-token :
    (r h : Bytes)
    → all (λ c. not (c == b',')) r ≡ true
    → role_and_hash (rbac_prefix ++ (r ++ b',' ∷ h)) ≡ (r, h)
unfolding role_and_hash starts_with
role_and_hash-token r h k = rw (find_index-append (λ c. c == b',') r b',' h k refl) (
    ap₂ (λ (x y : Bytes). (x, y)) (take_append-length r (b',' ∷ h))
      (drop_append-suc-length r b',' h))
