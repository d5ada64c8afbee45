-- ===== src/Uri.antt =====
-- src/core/include/URI.hpp: what the parts of the class share, and its fields.
pub mod Codec
pub mod Parse
pub mod Query
pub mod Factory
pub mod Authority
use opencmw_cpp.Base.{ℕ, Bytes, codes, Bool, ◌||◌, ◌==◌, is_alnum, has}

-- `enum uri_check`
pub data Check : Type 0 where
  strict relaxed : Check

-- The string and the views into it that `parseURI` sets. A view that is not set is empty.
pub record Uri : Type 0 where
  pub str : Bytes
  pub scheme : Bytes
  pub authority : Bytes
  pub path : Bytes
  pub query : Bytes
  pub fragment : Bytes

-- RFC 3986 section 2.3
unfoldable pub is_unreserved : ℕ → Bool
is_unreserved c = is_alnum c || (c == b'-' || (c == b'_' || (c == b'.' || c == b'~')))
