-- ===== src/Serialiser/YaS/Fields/Meta.antt =====
-- The parts of a field header: what each adds to the buffer.
use opencmw_cpp.Base.{
  ℕ, ◌+◌, ◌^◌, ◌≤◌, ◌<◌, ◌≡◌, refl, sym, ap, ap₂, ◌∙◌, subst, Bool, true, false, [], ◌∷◌, ◌++◌,
  length, length-append, append-nil, append_assoc, Bytes, Result, ok, arith, drop, le→leb,
  take_append-length, drop_append-length, ◌>>=◌,
}
use opencmw_cpp.Serialiser.IoBuffer.{IoBuffer, put_text, little_endian}
use opencmw_cpp.Serialiser.IoBuffer.Puts.{
  IsAllocated, grown, IsGrown, text_bytes, put_number-IsGrown, put_text-IsGrown,
}
use opencmw_cpp.Serialiser.YaS.Fields.{
  ExternalModifier, rw_access, ro_access, rw_deprecated, ro_deprecated, rw_private, ro_private,
  unknown, modifier_byte, get_ext_modifier, FieldDescription, set_number, put_meta_info,
}

pub get_ext_modifier-modifier_byte : (m : ExternalModifier) → get_ext_modifier (modifier_byte m) ≡ m
unfolding get_ext_modifier modifier_byte
get_ext_modifier-modifier_byte rw_access = refl
get_ext_modifier-modifier_byte ro_access = refl
get_ext_modifier-modifier_byte rw_deprecated = refl
get_ext_modifier-modifier_byte ro_deprecated = refl
get_ext_modifier-modifier_byte rw_private = refl
get_ext_modifier-modifier_byte ro_private = refl
get_ext_modifier-modifier_byte unknown = refl

pub modifier_byte-lt : (m : ExternalModifier) → modifier_byte m < 256
unfolding modifier_byte
modifier_byte-lt rw_access = omega arith
modifier_byte-lt ro_access = omega arith
modifier_byte-lt rw_deprecated = omega arith
modifier_byte-lt ro_deprecated = omega arith
modifier_byte-lt rw_private = omega arith
modifier_byte-lt ro_private = omega arith
modifier_byte-lt unknown = omega arith

drop-add : (xs ys zs : Bytes) → drop (length xs + length ys) (xs ++ (ys ++ zs)) ≡ zs
drop-add xs ys zs =
    ap (drop (length xs + length ys)) (sym (append_assoc xs ys zs))
    ∙ subst (λ (k : ℕ). drop k (xs ++ ys ++ zs) ≡ zs) (length-append xs ys)
        (drop_append-length (xs ++ ys) zs)

-- A number is replaced in its place.
pub set_number-middle :
    (before old behind : Bytes) (n : ℕ) (b : IoBuffer)
    → length old ≡ 4
    → b.content ≡ before ++ (old ++ behind)
    → set_number (length before) n b
      ≡ ok (record b { content = before ++ (little_endian 4 n ++ behind) })
unfolding set_number
set_number-middle before old behind n b four content =
    let fits : length before + 4 ≤ length b.content = omega (
      arith,
      four,
      ap length content,
      length-append before (old ++ behind),
      length-append old behind,
    ) in
    let rest : drop (length before + 4) (before ++ (old ++ behind)) ≡ behind =
      subst (λ (k : ℕ). drop (length before + k) (before ++ (old ++ behind)) ≡ behind) four
        (drop-add before old behind) in
    rw (
      le→leb (length before + 4) (length b.content) fits,
      content,
      take_append-length before (old ++ behind),
      rest,
    )

abbrev pub meta_bytes : Bool → FieldDescription → Bytes
meta_bytes false field = []
meta_bytes true field =
    text_bytes field.unit
    ++ (text_bytes field.quantity
        ++ (text_bytes field.description ++ little_endian 1 (modifier_byte field.modifier)))

-- the bytes of a header and its data, by the length of the data
abbrev pub header_bytes : Bool → FieldDescription → (data_length : ℕ) → Bytes
header_bytes annotated field data_length =
    little_endian 1 field.int_data_type
    ++ (little_endian 4
          (9 + length (text_bytes field.field_name) + length (meta_bytes annotated field))
        ++ (little_endian 4 data_length
            ++ (text_bytes field.field_name ++ meta_bytes annotated field)))

pub length-text : (s : Bytes) → length (text_bytes s) ≡ length s + 5
length-text s = omega (
  arith,
  length-append (little_endian 4 (length s + 1) ++ s) (0 ∷ []),
  length-append (little_endian 4 (length s + 1)) s,
)

pub grown-IsAllocated :
    (b : IoBuffer) (bytes : Bytes) (c : ℕ)
    → length b.content + length bytes ≤ c
    → IsAllocated (grown b bytes c)
grown-IsAllocated b bytes c room = record {
  fits = omega (arith, length-append b.content bytes);
  has_block = λ h. refl;
}

IsGrown-then :
    (b : IoBuffer) (xs ys : Bytes) (c : ℕ) (result : Result IoBuffer)
    → IsGrown (grown b xs c) ys result
    → IsGrown b (xs ++ ys) result
IsGrown-then b xs ys c result (d, e, room, bound) = (
  d,
  e
      ∙ ap (λ (t : Bytes). ok (record b { content = t; capacity = d; allocated = true }))
          (append_assoc b.content xs ys),
  omega (arith, length-append b.content xs, length-append xs ys),
  bound,
)

-- One addition behind another.
IsGrown-bind :
    (b : IoBuffer) (xs ys : Bytes) (first : Result IoBuffer) (next : IoBuffer → Result IoBuffer)
    → IsGrown b xs first
    → ((c : ℕ)
        → length b.content + length xs ≤ c
        → c < 2 ^ 64
        → IsGrown (grown b xs c) ys (next (grown b xs c)))
    → IsGrown b (xs ++ ys) (first >>= next)
IsGrown-bind b xs ys first next (c, e, room, bound) rest = IsGrown-then b xs ys c (first >>= next) (
    subst (λ (r : Result IoBuffer). IsGrown (grown b xs c) ys (r >>= next)) (sym e)
      (rest c room bound))

-- how much the meta information asks for
abbrev pub meta_spare : FieldDescription → ℕ
meta_spare field = length field.unit + length field.quantity + length field.description + 16

pub put_meta_info-IsGrown :
    (annotated : Bool) (field : FieldDescription) (b : IoBuffer)
    → IsAllocated b
    → b.allocated ≡ true
    → b.capacity < 2 ^ 64
    → length b.content + meta_spare field < 2 ^ 62
    → IsGrown b (meta_bytes annotated field) (put_meta_info annotated field b)
unfolding put_meta_info
put_meta_info-IsGrown false field b well block small fits = (
  b.capacity,
  ap₂ (λ (t : Bytes) (a : Bool). ok (record b { content = t; allocated = a }))
      (sym (append-nil b.content)) block,
  omega (arith, well.fits),
  small,
)
put_meta_info-IsGrown true field b well block small fits =
    let u = text_bytes field.unit in
    let q = text_bytes field.quantity in
    let d = text_bytes field.description in
    let m = little_endian 1 (modifier_byte field.modifier) in
    IsGrown-bind b u (q ++ (d ++ m)) (put_text field.unit b) _
      (put_text-IsGrown field.unit b well small (omega arith))
      (λ c1 r1 k1.
        let b1 = grown b u c1 in
        let len1 : length b1.content ≡ length b.content + length field.unit + 5 =
          omega (arith, length-append b.content u, length-text field.unit) in
        IsGrown-bind b1 q (d ++ m) (put_text field.quantity b1) _
          (put_text-IsGrown field.quantity b1 (grown-IsAllocated b u c1 r1) k1
            (omega (arith, len1)))
          (λ c2 r2 k2.
            let b2 = grown b1 q c2 in
            let len2 : length b2.content ≡ length b1.content + length field.quantity + 5 =
              omega (arith, length-append b1.content q, length-text field.quantity) in
            IsGrown-bind b2 d m (put_text field.description b2) _
              (put_text-IsGrown field.description b2 (grown-IsAllocated b1 q c2 r2) k2
                (omega (arith, len1, len2)))
              (λ c3 r3 k3.
                let b3 = grown b2 d c3 in
                let len3 : length b3.content ≡ length b2.content + length field.description + 5 =
                  omega (arith, length-append b2.content d, length-text field.description) in
                put_number-IsGrown 1 (modifier_byte field.modifier) b3
                  (grown-IsAllocated b2 d c3 r3) k3 (omega arith)
                  (omega (arith, len1, len2, len3)))))
