-- ===== src/Uri/Authority/Laws.antt =====
-- The parts of the authority that the factory prints.
use opencmw_cpp.Base.{
  ℕ, ◌≡◌, ◌≢◌, refl, Bytes, true, not, [], ◌∷◌, ◌++◌, append_assoc, all, find_index-append,
  take_append-length, drop_append-suc-length, decimal, some, is_empty_of_ne,
}
use opencmw_cpp.Uri.Authority.{is_at_sign, is_colon, parse_host, parse_user, parse_authority_parts}
use opencmw_cpp.Uri.Factory.{UriFactory, authority_text}

parse_host-text :
    (user pwd host port : Bytes)
    → all (λ c. not (is_colon c)) host ≡ true
    → parse_host user pwd (host ++ b':' ∷ port)
      ≡ record { user_name = user; pwd = pwd; host_name = host; port = port }
unfolding parse_host
parse_host-text user pwd host port h = rw (
  find_index-append is_colon host b':' port h refl,
  parse_host,
  take_append-length host (b':' ∷ port),
  drop_append-suc-length host b':' port,
)

parse_user-text :
    (user pwd host : Bytes)
    → all (λ c. not (is_colon c)) user ≡ true
    → parse_user (user ++ b':' ∷ pwd) host ≡ parse_host user pwd host
unfolding parse_user
parse_user-text user pwd host h = rw (
  find_index-append is_colon user b':' pwd h refl,
  parse_user,
  take_append-length user (b':' ∷ pwd),
  drop_append-suc-length user b':' pwd,
)

parse_authority-text :
    (user pwd host port : Bytes)
    → all (λ c. not (is_at_sign c)) (user ++ b':' ∷ pwd) ≡ true
    → all (λ c. not (is_colon c)) user ≡ true
    → all (λ c. not (is_colon c)) host ≡ true
    → parse_authority_parts ((user ++ b':' ∷ pwd) ++ b'@' ∷ (host ++ b':' ∷ port))
      ≡ record { user_name = user; pwd = pwd; host_name = host; port = port }
unfolding parse_authority_parts
parse_authority-text user pwd host port h k l = rw (
  find_index-append is_at_sign (user ++ b':' ∷ pwd) b'@' (host ++ b':' ∷ port) h refl,
  parse_authority_parts,
  take_append-length (user ++ b':' ∷ pwd) (b'@' ∷ (host ++ b':' ∷ port)),
  drop_append-suc-length (user ++ b':' ∷ pwd) b'@' (host ++ b':' ∷ port),
  parse_user-text user pwd (host ++ b':' ∷ port) k,
  parse_host-text user pwd host port l,
)

printed :
    (f : UriFactory) (n : ℕ)
    → f.authority ≡ []
    → f.user_name ≢ []
    → f.pwd ≢ []
    → f.port ≡ some n
    → authority_text f ≡ (f.user_name ++ b':' ∷ f.pwd) ++ b'@' ∷ (f.host ++ b':' ∷ decimal n)
unfolding authority_text
printed f n a u p e = rw (
  a,
  is_empty_of_ne f.user_name u,
  is_empty_of_ne f.pwd p,
  e,
  append_assoc f.user_name (b':' ∷ f.pwd) (b'@' ∷ (f.host ++ b':' ∷ decimal n)),
)

-- A factory without an authority of its own, with a user, a password and a port, prints an
-- authority whose parts are read back: if neither the user nor the password has an at sign, and
-- neither the user nor the host a colon.
pub parse_authority_parts-authority_text :
    (f : UriFactory) (n : ℕ)
    → f.authority ≡ []
    → f.user_name ≢ []
    → f.pwd ≢ []
    → f.port ≡ some n
    → all (λ c. not (is_at_sign c)) (f.user_name ++ b':' ∷ f.pwd) ≡ true
    → all (λ c. not (is_colon c)) f.user_name ≡ true
    → all (λ c. not (is_colon c)) f.host ≡ true
    → parse_authority_parts (authority_text f)
      ≡ record { user_name = f.user_name; pwd = f.pwd; host_name = f.host; port = decimal n }
parse_authority_parts-authority_text f n a u p e h k l =
    rw (printed f n a u p e) (parse_authority-text f.user_name f.pwd f.host (decimal n) h k l)
