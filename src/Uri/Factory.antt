-- ===== src/Uri/Factory.antt =====
-- URI::UriFactory: the parts of a URI under construction, `toString` and `build`.
pub mod Build
use opencmw_cpp.Base.{
  ℕ, Bytes, codes, Bool, ◌||◌, List, [], ◌∷◌, ◌++◌, Option, none, some, if◌then◌else◌, is_empty,
  starts_with, decimal, Result,
}
use opencmw_cpp.Uri.{Check, Uri}
use opencmw_cpp.Uri.Codec.{encode}
use opencmw_cpp.Uri.Parse.{parse_uri}
use opencmw_cpp.Uri.Query.{Params, append_params}

pub record UriFactory : Type 0 where
  pub authority : Bytes
  pub scheme : Bytes
  pub user_name : Bytes
  pub pwd : Bytes
  pub host : Bytes
  pub port : Option ℕ
  pub path : Bytes
  pub query : Bytes
  pub fragment : Bytes
  pub query_map : Params

abbrev pub empty_factory : UriFactory
empty_factory = record {
  authority = [];
  scheme = [];
  user_name = [];
  pwd = [];
  host = [];
  port = none;
  path = [];
  query = [];
  fragment = [];
  query_map = [];
}

-- an optional separator: `test ? "" : mark`
abbrev pub unless : Bool → Bytes → Bytes
unless b mark = if b then [] else mark

abbrev pub port_text : Option ℕ → Bytes
port_text none = []
port_text (some p) = b':' ∷ decimal p

-- The authority as it was given, or put together from its parts.
unfoldable pub authority_text : UriFactory → Bytes
authority_text f =
    if is_empty f.authority
    then (let colon = unless (is_empty f.pwd || is_empty f.user_name) (codes ":") in
        let pwd_part = if is_empty f.user_name then [] else f.pwd in
        let at_sign = unless (is_empty f.user_name) (codes "@") in
        f.user_name ++ (colon ++ (pwd_part ++ (at_sign ++ (f.host ++ port_text f.port)))))
    else f.authority

-- `toString`. Its writes to the mutable members `_authority` and `_query` are left out: a factory
-- prints once, in `build` and where the program prints one.
unfoldable pub to_string : UriFactory → Bytes
to_string f =
    let authority = authority_text f in
    let query = append_params f.query f.query_map in
    let colon = unless (is_empty f.scheme) (codes ":") in
    let slashes = unless (is_empty authority || starts_with authority (codes "//")) (codes "//") in
    let path_slash =
      unless (is_empty f.path || (starts_with f.path (codes "/") || is_empty authority))
        (codes "/") in
    let mark = unless (is_empty query || starts_with query (codes "?")) (codes "?") in
    let hash = unless (is_empty f.fragment || starts_with f.fragment (codes "#")) (codes "#") in
    f.scheme
    ++ (colon
        ++ (slashes
            ++ (authority
                ++ (path_slash ++ (f.path ++ (mark ++ (query ++ (hash ++ encode f.fragment))))))))

-- `build`
unfoldable pub build : Check → UriFactory → Result Uri
build check f = parse_uri check (to_string f)
