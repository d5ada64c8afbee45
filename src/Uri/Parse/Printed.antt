-- ===== src/Uri/Parse/Printed.antt =====
-- The path, the query and the fragment of a source that is put together from parts.
use opencmw_cpp.Base.{
  ℕ, ◌+◌, ◌-◌, ◌≡◌, refl, Bytes, Bool, true, not, ◌==◌, [], ◌++◌, append_assoc, length,
  length-append, all, all_mono, arith, ok, if◌then◌else◌, substr,
}
use opencmw_cpp.Uri.{Check, strict, relaxed}
use opencmw_cpp.Uri.Parse.{is_path_char, ends_path, require_all, parse_query, parse_rest}
use opencmw_cpp.Uri.Parse.Shapes.{
  is_hash, find_end, substr_middle, rest_text, rest_stops, rest_read,
}

pub require_all-ok :
    (check : Check) (p : ℕ → Bool) (s : Bytes) → all p s ≡ true → require_all check p s ≡ ok tt
require_all-ok strict p s h = rw h
require_all-ok relaxed p s h = refl

path_does_not_end : (c : ℕ) → is_path_char c ≡ true → not (ends_path c) ≡ true
unfolding is_path_char
path_does_not_end c h = ground arith

path_read :
    (pre path rest : Bytes)
    → substr (pre ++ (path ++ rest)) (length pre) (length pre + length path - length pre) ≡ path
path_read pre path rest = substr_middle pre path rest _ (omega arith)

-- The query and the fragment are read from the end of the path on.
rest_behind_path :
    (pre path query fragment : Bytes)
    → all (λ c. not (is_hash c)) query ≡ true
    → let src = pre ++ (path ++ rest_text query fragment) in
      (if length pre + length path == length src
        then ([], [])
        else parse_query src (length pre + length path))
      ≡ (query, fragment)
rest_behind_path pre path query fragment h =
    rw (← length-append pre path, ← append_assoc pre path (rest_text query fragment))
      (rest_read (pre ++ path) query fragment h)

pub parse_rest-text :
    (check : Check) (pre scheme authority path query fragment : Bytes)
    → all is_path_char path ≡ true
    → all (λ c. not (is_hash c)) query ≡ true
    → let src = pre ++ (path ++ rest_text query fragment) in
      parse_rest check src scheme authority (length pre)
      ≡ ok (record {
        str = src;
        scheme = scheme;
        authority = authority;
        path = path;
        query = query;
        fragment = fragment;
      })
unfolding parse_rest
parse_rest-text check pre scheme authority path query fragment hp hq =
    let rest = rest_text query fragment in
    rw (
      find_end ends_path pre path rest (all_mono _ _ path path_does_not_end hp)
          (rest_stops query fragment),
      path_read pre path rest,
      require_all-ok check is_path_char path hp,
      rest_behind_path pre path query fragment hq,
    )
