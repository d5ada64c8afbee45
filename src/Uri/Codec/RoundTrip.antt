-- ===== src/Uri/Codec/RoundTrip.antt =====
-- Decoding undoes encoding, and an encoded text is made of legal characters.
use opencmw_cpp.Base.{
  ℕ, ◌+◌, ◌*◌, ◌/◌, ◌%◌, ◌<◌, ◌≡◌, refl, ap, ◌∙◌, Bytes, true, false, ◌||◌, ◌==◌, [], ◌∷◌, ◌≢◌,
  is_alnum, All, all, arith, ok, ◌>>=◌, Bool-cases, inl, inr,
}
use opencmw_cpp.Uri.{Check, strict, relaxed, is_unreserved}
use opencmw_cpp.Uri.Codec.{
  hex_digit, encode, is_xdigit, hex_value, is_space, read_hex_pair, check_escape, decode,
}

abbrev pub IsByte : ℕ → Type 0
IsByte c = c < 256

hex_digit_facts :
    (d : ℕ)
    → d < 16
    → (is_xdigit (hex_digit d) ≡ true)
      × (is_space (hex_digit d) ≡ false)
      × (hex_value (hex_digit d) ≡ d)
unfolding is_xdigit is_space hex_value
hex_digit_facts d h = ground arith

-- A pair of digits is read as its value.
read_hex_pair-digits :
    (a b : ℕ)
    → is_xdigit a ≡ true
    → is_space a ≡ false
    → is_xdigit b ≡ true
    → read_hex_pair a b ≡ ok (hex_value a * 16 + hex_value b)
unfolding read_hex_pair
read_hex_pair-digits a b h k l = rw (k, h, l)

-- What `encode` writes for a byte is read back.
read_hex_pair-escape :
    (c : ℕ) → c < 256 → read_hex_pair (hex_digit (c / 16)) (hex_digit (c % 16)) ≡ ok c
read_hex_pair-escape c h =
    let hi = hex_digit_facts (c / 16) (omega arith) in
    let lo = hex_digit_facts (c % 16) (omega arith) in
    read_hex_pair-digits _ _ hi.0 hi.1 lo.0 ∙ rw (hi.2, lo.2) (ap ok (omega arith))

check_escape-digit : (check : Check) (d : ℕ) → d < 16 → check_escape check (hex_digit d) ≡ ok tt
unfolding check_escape
check_escape-digit strict d h = rw ((hex_digit_facts d h).0)
check_escape-digit relaxed d h = refl

-- an unreserved character is not decoded
decode-cons :
    (check : Check) (c : ℕ) (s : Bytes)
    → (c == b'%') ≡ false
    → decode check (c ∷ s) ≡ (decode check s >>= λ rest. ok (c ∷ rest))
unfolding decode
decode-cons check c [] h = rw h
decode-cons check c (a ∷ []) h = rw (h, decode)
decode-cons check c (a ∷ b ∷ s) h = rw (h, decode)

decode-escape :
    (check : Check) (c : ℕ) (s : Bytes)
    → c < 256
    → decode check (b'%' ∷ hex_digit (c / 16) ∷ hex_digit (c % 16) ∷ s)
      ≡ (decode check s >>= λ rest. ok (c ∷ rest))
unfolding decode
decode-escape check c s h =
    rw (check_escape-digit check (c / 16) (omega arith), read_hex_pair-escape c h)

unreserved-ne-percent : (c : ℕ) → is_unreserved c ≡ true → (c == b'%') ≡ false
unfolding is_unreserved
unreserved-ne-percent c h = ground arith

-- Decoding an encoded byte string, strictly or not, gives the string back.
pub decode-encode : (check : Check) (s : Bytes) → All IsByte s → decode check (encode s) ≡ ok s
unfolding encode
decode-encode check [] h = unfold decode in refl
decode-encode check (c ∷ s) h = elim (Bool-cases (is_unreserved c)) [
  | inl plain ↦ rw (
    plain,
    decode-cons check c (encode s) (unreserved-ne-percent c plain),
    decode-encode check s h.1,
  )
  | inr reserved ↦ rw (reserved, decode-escape check c (encode s) h.0, decode-encode check s h.1)
]

hex_digit-alnum : (d : ℕ) → d < 16 → is_alnum (hex_digit d) ≡ true
hex_digit-alnum d h = ground arith

-- An encoded text holds unreserved characters, letters, digits and percent signs, and nothing else.
pub encode_is_legal :
    (s : Bytes) → All IsByte s → all (λ c. is_unreserved c || c == b'%') (encode s) ≡ true
unfolding encode
encode_is_legal [] h = refl
encode_is_legal (c ∷ s) h = elim (Bool-cases (is_unreserved c)) [
  | inl plain ↦ rw (plain, plain, encode_is_legal s h.1)
  | inr reserved ↦
      unfold is_unreserved in
      ground (
        arith,
        reserved,
        encode_is_legal s h.1,
        hex_digit-alnum (c / 16) (omega arith),
        hex_digit-alnum (c % 16) (omega arith),
      )
]

-- Encoding keeps a text that needs no escape.
pub encode_of_unreserved : (s : Bytes) → all is_unreserved s ≡ true → encode s ≡ s
unfolding encode
encode_of_unreserved [] h = refl
encode_of_unreserved (c ∷ s) h = ground (arith, encode_of_unreserved s)

pub encode-ne-nil : (s : Bytes) → s ≢ [] → encode s ≢ []
unfolding encode
encode-ne-nil [] h = absurd (h refl)
encode-ne-nil (c ∷ s) h = ground arith
