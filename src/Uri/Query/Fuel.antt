-- ===== src/Uri/Query/Fuel.antt =====
-- The loop over a query ends: the length of the query is fuel enough, and more fuel changes nothing.
use opencmw_cpp.Base.{
  ℕ, zero, suc, ◌+◌, ◌≤◌, ◌≡◌, ◌≢◌, refl, ap, inl, inr, Bytes, ◌==◌, [], ◌∷◌, length, length-drop,
  take, drop, is_empty, find_index, arith, Error, Result, ok, err, undefined, endless, ◌>>=◌,
  Bool-cases, Option-cases,
}
use opencmw_cpp.Uri.{Check, strict, relaxed}
use opencmw_cpp.Uri.Codec.{check_escape, read_hex, read_hex_pair, decode}
use opencmw_cpp.Uri.Query.{Params, ends_key, ends_value, after_key, query_loop}

-- Two amounts of fuel give one result, and both are enough.
abbrev pub Ends : Result Params → Result Params → Type 0
Ends r r' = (r ≡ r') × (r ≢ err endless)

ok-Ends : (m : Params) → Ends (ok m) (ok m)
ok-Ends m = (refl, λ e. cc)

-- the exception of a call, anything without one
abbrev thrown_by {ℓ} : {A : Type ℓ} → Result A → Error
thrown_by (err e) = e
thrown_by (ok a) = undefined

>>=-ne-endless {ℓ κ} :
    {A : Type ℓ} {B : Type κ} (r : Result A) (f : A → Result B)
    → r ≢ err endless
    → ((a : A) → f a ≢ err endless)
    → (r >>= f) ≢ err endless
>>=-ne-endless (ok a) f h k = k a
>>=-ne-endless (err e) f h k = λ same. h (ap err (ap thrown_by same))

ok-ne-endless {ℓ} : {A : Type ℓ} (a : A) → ok a ≢ err endless
ok-ne-endless a = λ e. cc

-- What `decode` throws is its own.
check_escape-ne-endless : (check : Check) (a : ℕ) → check_escape check a ≢ err endless
unfolding check_escape
check_escape-ne-endless strict a = ground arith
check_escape-ne-endless relaxed a = ground arith

read_hex-ne-endless : (a : ℕ) → read_hex a ≢ err endless
unfolding read_hex
read_hex-ne-endless a = ground arith

read_hex_pair-ne-endless : (a b : ℕ) → read_hex_pair a b ≢ err endless
unfolding read_hex_pair
read_hex_pair-ne-endless a b = ground (arith, read_hex-ne-endless b)

decode-ne-endless : (check : Check) (s : Bytes) → decode check s ≢ err endless
unfolding decode
decode-ne-endless check [] = ok-ne-endless []
decode-ne-endless check (c ∷ []) = ground arith
decode-ne-endless check (c ∷ a ∷ []) = elim (Bool-cases (c == b'%')) [
  | inl e ↦
      rw (e, decode)
        (>>=-ne-endless (check_escape check a) _ (check_escape-ne-endless check a)
          (λ _. >>=-ne-endless (read_hex a) _ (read_hex-ne-endless a) (λ d. ok-ne-endless _)))
  | inr e ↦
      rw (e, decode)
        (>>=-ne-endless (decode check (a ∷ [])) _ (decode-ne-endless check (a ∷ []))
          (λ rest. ok-ne-endless _))
]
decode-ne-endless check (c ∷ a ∷ b ∷ s) = elim (Bool-cases (c == b'%')) [
  | inl e ↦
      rw (e, decode)
        (>>=-ne-endless (check_escape check a) _ (check_escape-ne-endless check a) (λ _.
          >>=-ne-endless (read_hex_pair a b) _ (read_hex_pair-ne-endless a b) (λ d.
            >>=-ne-endless (decode check s) _ (decode-ne-endless check s)
              (λ rest. ok-ne-endless _))))
  | inr e ↦
      rw (e, decode)
        (>>=-ne-endless (decode check (a ∷ b ∷ s)) _ (decode-ne-endless check (a ∷ b ∷ s))
          (λ rest. ok-ne-endless _))
]

-- A bind ends if the continuations do.
>>=-Ends :
    (r : Result Bytes) (f g : Bytes → Result Params)
    → r ≢ err endless
    → ((a : Bytes) → Ends (f a) (g a))
    → Ends (r >>= f) (r >>= g)
>>=-Ends (ok a) f g h k = k a
>>=-Ends (err e) f g h k = (refl, λ same. h (ap err (ap thrown_by same)))

-- A round reads on at a text no longer than what follows the key.
after_key-Ends :
    (check : Check) (f g : Bytes → Params → Result Params) (c : ℕ) (key after : Bytes) (m : Params)
    → ((s : Bytes) (n : Params) → length s ≤ length after → Ends (f s n) (g s n))
    → Ends (after_key check f c key after m) (after_key check g c key after m)
unfolding after_key
after_key-Ends check f g c key after m h = elim (Bool-cases (c == b'=')) [
  | inr flag ↦ rw flag (h after _ (omega arith))
  | inl value ↦ elim (Bool-cases (is_empty after)) [
    | inl none_left ↦ rw (value, none_left) (ok-Ends _)
    | inr more ↦ elim (Option-cases (find_index ends_value after)) [
      | inl last ↦
          rw (value, more, last)
            (>>=-Ends (decode check after) _ _ (decode-ne-endless check after) (λ v. ok-Ends _))
      | inr (j, e) ↦
          rw (value, more, e)
            (>>=-Ends (decode check (take j after)) _ _ (decode-ne-endless check (take j after))
              (λ v. h (drop (j + 1) after) _ (omega (arith, length-drop (j + 1) after))))
    ]
  ]
]

query_loop-next :
    (check : Check) (f g : ℕ) (c : ℕ) (s : Bytes) (m : Params)
    → ((t : Bytes) (n : Params)
        → length t ≤ length s
        → Ends (query_loop check f t n) (query_loop check g t n))
    → Ends (query_loop check (suc f) (c ∷ s) m) (query_loop check (suc g) (c ∷ s) m)
unfolding query_loop
query_loop-next check f g c s m h = elim (Option-cases (find_index ends_key (c ∷ s))) [
  | inl last ↦ rw (last, query_loop) (ok-Ends _)
  | inr (i, e) ↦
      rw (e, query_loop)
        (>>=-Ends (decode check (take i (c ∷ s))) _ _ (decode-ne-endless check (take i (c ∷ s)))
          (λ key.
            after_key-Ends check (query_loop check f) (query_loop check g) _ key _ m
              (λ t n shorter. h t n (omega (arith, length-drop (i + 1) (c ∷ s))))))
]

-- The loop over a query, from any map on, ends within as many rounds as the query has characters:
-- with fuel of at least this length it never runs out of fuel, and its result, which may be
-- an exception of `decode`, is the same for every such amount of fuel.
pub query_loop-fuel :
    (check : Check) (f g : ℕ) (s : Bytes) (m : Params)
    → length s ≤ f
    → length s ≤ g
    → (query_loop check f s m ≡ query_loop check g s m) × (query_loop check f s m ≢ err endless)
query_loop-fuel check f g [] m h k = unfold query_loop in ok-Ends m
query_loop-fuel check zero g (c ∷ s) m h k = absurd (omega arith)
query_loop-fuel check (suc f) zero (c ∷ s) m h k = absurd (omega arith)
query_loop-fuel check (suc f) (suc g) (c ∷ s) m h k =
    query_loop-next check f g c s m
      (λ t n shorter. query_loop-fuel check f g t n (omega arith) (omega arith))
