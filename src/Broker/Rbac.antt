-- ===== src/Broker/Rbac.antt =====
-- src/majordomo/include/majordomo/Rbac.hpp: the role and the hash in a token.
pub mod Laws
use opencmw_cpp.Base.{
  ℕ, ◌+◌, Bytes, codes, ◌==◌, [], Option, none, some, starts_with, length, take, drop, find_index,
  not, if◌then◌else◌,
}

abbrev pub rbac_prefix : Bytes
rbac_prefix = codes "RBAC="

abbrev pub comma_in : Bytes → Option ℕ
comma_in s = find_index (λ c. c == b',') s

-- `parse_rbac::role`
unfoldable pub role : Bytes → Bytes
role token =
    if not (starts_with token rbac_prefix)
    then []
    else (let rest = drop (length rbac_prefix) token in
        elim (comma_in rest) [ none ↦ [] | some i ↦ take i rest ])

-- `parse_rbac::hash`: the comma is looked for in the whole token.
unfoldable pub hash : Bytes → Bytes
hash token =
    if not (starts_with token rbac_prefix)
    then []
    else elim (comma_in token) [ none ↦ [] | some i ↦ drop (i + 1) token ]

-- `parse_rbac::roleAndHash`
unfoldable pub role_and_hash : Bytes → Bytes × Bytes
role_and_hash token =
    if not (starts_with token rbac_prefix)
    then ([], [])
    else (let rest = drop (length rbac_prefix) token in
        elim (comma_in rest) [ none ↦ ([], []) | some i ↦ (take i rest, drop (i + 1) rest) ])
