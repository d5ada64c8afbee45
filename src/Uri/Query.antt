-- ===== src/Uri/Query.antt =====
-- URI::queryParamMap, and the text that UriFactory::toString makes of a parameter map.
pub mod RoundTrip
pub mod Fuel
pub mod Laws
use mathlib.Core.Option
use opencmw_cpp.Base.{
  ℕ, zero, suc, ◌+◌, Bytes, codes, Bool, true, false, ◌||◌, ◌==◌, List, [], ◌∷◌, ◌++◌, Option, none,
  some, if◌then◌else◌, is_empty, has, length, take, drop, find_index, assign, bytes_discrete,
  Result, ok, err, ◌>>=◌, ◌>>◌, guard, uri_syntax, endless, all,
}
use opencmw_cpp.Uri.{Check, strict, relaxed, Uri, is_unreserved}
use opencmw_cpp.Uri.Codec.{encode, decode}
use opencmw_cpp.Uri.Parse.{at, require_all}

-- `std::unordered_map<std::string, std::optional<std::string>>`
abbrev pub Params : Type 0
Params = List (Bytes × Option Bytes)

unfoldable pub is_query_char : ℕ → Bool
unfolding is_unreserved has
is_query_char c = is_unreserved c || has c (codes "&;=%:/")

-- The literals end at their `\0`, so it is none of the characters that are searched for.
abbrev pub ends_key : ℕ → Bool
ends_key c = c == b'=' || (c == b';' || c == b'&')

abbrev pub ends_value : ℕ → Bool
ends_value c = c == b';' || c == b'&'

abbrev pub value_of : Bytes → Option Bytes
value_of [] = none
value_of (c ∷ s) = some (c ∷ s)

-- What a round does behind a key: the separator that ends the key, and what follows it. `next`
-- reads on from a position.
unfoldable pub after_key :
    Check → (Bytes → Params → Result Params) → ℕ → Bytes → Bytes → Params → Result Params
after_key check next separator key after m =
    if separator == b'='
    then (if is_empty after
        then ok (assign bytes_discrete key none m)
        else elim (find_index ends_value after) [
          | none ↦ do value ← decode check after; ok (assign bytes_discrete key (value_of value) m)
          | some j ↦ do
            value ← decode check (take j after)
            next (drop (j + 1) after) (assign bytes_discrete key (some value) m)
        ])
    else next after (assign bytes_discrete key none m)

-- The loop of `queryParamMap` on the query from `readPos` on. Each round but the last consumes a
-- separator, so the length of the query is fuel enough; without fuel the rest is not read.
unfoldable pub query_loop : Check → ℕ → Bytes → Params → Result Params
unfolding after_key
query_loop check fuel [] m = ok m
query_loop check zero (c ∷ s) m = err endless
query_loop check (suc fuel) (c ∷ s) m =
    let next = query_loop check fuel in
    elim (find_index ends_key (c ∷ s)) [
      | none ↦ ok (assign bytes_discrete (c ∷ s) none m)
      | some i ↦ do
        key ← decode check (take i (c ∷ s))
        after_key check next (at (c ∷ s) i) key (drop (i + 1) (c ∷ s)) m
    ]

unfoldable pub query_param_map : Check → Uri → Result Params
unfolding is_query_char query_loop
query_param_map check uri = if is_empty uri.query then ok [] else (do
  require_all check is_query_char uri.query
  query_loop check (length uri.query) uri.query [])

-- one round of the loop over `_queryMap` in `toString`
unfoldable pub append_param : Bytes → Bytes × Option Bytes → Bytes
unfolding encode
append_param query (key, value) =
    query
    ++ ((if is_empty query then [] else b'&' ∷ [])
        ++ (encode key ++ elim value [ none ↦ [] | some v ↦ b'=' ∷ encode v ]))

unfoldable pub append_params : Bytes → Params → Bytes
unfolding append_param
append_params query [] = query
append_params query (p ∷ ps) = append_params (append_param query p) ps
