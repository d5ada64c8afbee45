-- ===== src/Uri/Authority.antt =====
-- URI::parseAuthority: the user, the password, the host and the port of an authority.
pub mod Laws
use opencmw_cpp.Base.{ℕ, ◌+◌, Bytes, Bool, ◌==◌, [], none, some, take, drop, find_index}

-- The views that are set on demand. A view that is not set is empty.
pub record Authority : Type 0 where
  pub user_name : Bytes
  pub pwd : Bytes
  pub host_name : Bytes
  pub port : Bytes

abbrev pub is_at_sign : ℕ → Bool
is_at_sign c = c == b'@'

abbrev pub is_colon : ℕ → Bool
is_colon c = c == b':'

-- the part behind the user: the host, and the port behind the first colon
unfoldable pub parse_host : Bytes → Bytes → Bytes → Authority
parse_host user pwd s = elim (find_index is_colon s) [
  | none ↦ record { user_name = user; pwd = pwd; host_name = s; port = [] }
  | some i ↦ record { user_name = user; pwd = pwd; host_name = take i s; port = drop (i + 1) s }
]

-- the part in front of the at sign: the user, and the password behind the first colon
unfoldable pub parse_user : Bytes → Bytes → Authority
unfolding parse_host
parse_user s host = elim (find_index is_colon s) [
  | none ↦ parse_host s [] host
  | some i ↦ parse_host (take i s) (drop (i + 1) s) host
]

-- `parseAuthority`
unfoldable pub parse_authority_parts : Bytes → Authority
unfolding parse_user parse_host
parse_authority_parts s = elim (find_index is_at_sign s) [
  | none ↦ parse_host [] [] s
  | some i ↦ parse_user (take i s) (drop (i + 1) s)
]
