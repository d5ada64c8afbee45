-- ===== src/Serialiser/YaS/Fields/Written.antt =====
-- What a field header and its data add to the buffer.
use opencmw_cpp.Base.{
  ℕ, ◌+◌, ◌-◌, ◌%◌, ◌^◌, ◌≤◌, ◌<◌, ◌≡◌, refl, sym, ap, ◌∙◌, subst, Bool, true, false, ◌++◌, length,
  length-append, append_assoc, Bytes, Result, ok, arith,
}
use opencmw_cpp.Serialiser.IoBuffer.{IoBuffer, reserve_spare, put_number, put_text, little_endian}
use opencmw_cpp.Serialiser.IoBuffer.Puts.{IsAllocated, grown, IsGrown, text_bytes}
use opencmw_cpp.Serialiser.YaS.Fields.{
  FieldDescription, set_number, put_meta_info, put_field, modifier_byte,
}
use opencmw_cpp.Serialiser.YaS.Fields.Meta.{set_number-middle, length-text, meta_bytes, meta_spare}

-- the place holder of an offset
abbrev pub blank : Bytes
blank = little_endian 4 (2 ^ 32 - 1)

pub regroup_header : (p x y t m : Bytes) → p ++ x ++ y ++ t ++ m ≡ p ++ (x ++ (y ++ (t ++ m)))
regroup_header p x y t m =
    append_assoc (p ++ x ++ y) t m
    ∙ append_assoc (p ++ x) y (t ++ m)
    ∙ append_assoc p x (y ++ (t ++ m))

regroup_data : (p x y r d : Bytes) → p ++ (x ++ (y ++ r)) ++ d ≡ p ++ x ++ (y ++ (r ++ d))
regroup_data p x y r d =
    append_assoc p (x ++ (y ++ r)) d
    ∙ ap (λ (t : Bytes). p ++ t)
        (append_assoc x (y ++ r) d ∙ ap (λ (t : Bytes). x ++ t) (append_assoc y r d))
    ∙ sym (append_assoc p x (y ++ (r ++ d)))

pub regroup_all :
    (b l x y r d : Bytes) → b ++ l ++ x ++ (y ++ (r ++ d)) ≡ b ++ (l ++ (x ++ (y ++ r)) ++ d)
regroup_all b l x y r d =
    append_assoc (b ++ l) x (y ++ (r ++ d))
    ∙ append_assoc b l (x ++ (y ++ (r ++ d)))
    ∙ ap (λ (t : Bytes). b ++ t)
        (sym (
          append_assoc l (x ++ (y ++ r)) d
          ∙ ap (λ (t : Bytes). l ++ t)
              (append_assoc x (y ++ r) d ∙ ap (λ (t : Bytes). x ++ t) (append_assoc y r d))))

-- A serialiser of a type adds its bytes to any buffer that has less than 2 ^ 61 bytes.
abbrev pub IsSerialiser : Bytes → (IoBuffer → Result IoBuffer) → Type 0
IsSerialiser payload serialise =
    (b : IoBuffer)
    → IsAllocated b
    → b.capacity < 2 ^ 64
    → length b.content < 2 ^ 61
    → IsGrown b payload (serialise b)

-- what the header of a field asks for
abbrev pub field_spare : FieldDescription → (type_size : ℕ) → ℕ
field_spare field type_size = length field.field_name + meta_spare field + type_size + 32

pub meta_bytes-bound :
    (annotated : Bool) (field : FieldDescription)
    → length (meta_bytes annotated field) ≤ meta_spare field
meta_bytes-bound false field = omega arith
meta_bytes-bound true field =
    let u = text_bytes field.unit in
    let q = text_bytes field.quantity in
    let d = text_bytes field.description in
    let m = little_endian 1 (modifier_byte field.modifier) in
    omega (
      arith,
      length-append u (q ++ (d ++ m)),
      length-append q (d ++ m),
      length-append d m,
      length-text field.unit,
      length-text field.quantity,
      length-text field.description,
    )

-- The buffers of `put_field` up to the meta information.
pub record IsDescribed (annotated : Bool) (type_size : ℕ) (field : FieldDescription)
    (b b0 b1 b2 b3 b4 b5 : IoBuffer) : Type 0 where
  pub reserved : reserve_spare (length field.field_name + 18 + type_size) b ≡ ok b0
  pub typed : put_number 1 field.int_data_type b0 ≡ ok b1
  pub started : put_number 4 (2 ^ 32 - 1) b1 ≡ ok b2
  pub sized : put_number 4 (2 ^ 32 - 1) b2 ≡ ok b3
  pub named : put_text field.field_name b3 ≡ ok b4
  pub described : put_meta_info annotated field b4 ≡ ok b5
  pub same_start : length b0.content ≡ length b.content
  pub type_content : b1.content ≡ b.content ++ little_endian 1 field.int_data_type
  pub start_length : length b2.content ≡ length b1.content + 4
  pub content :
      b5.content
      ≡ b1.content
        ++ (blank ++ (blank ++ (text_bytes field.field_name ++ meta_bytes annotated field)))
  pub well : IsAllocated b5
  pub bound : b5.capacity < 2 ^ 64

-- The buffers from there on.
pub record IsFilled (serialise : IoBuffer → Result IoBuffer) (payload before rest : Bytes)
    (offset : ℕ) (b5 b6 b7 b8 : IoBuffer) : Type 0 where
  pub placed : set_number (length before) offset b5 ≡ ok b6
  pub serialised : serialise b6 ≡ ok b7
  pub done : set_number (length before + 4) (length payload) b7 ≡ ok b8
  pub content :
      b8.content
      ≡ before ++ little_endian 4 offset ++ (little_endian 4 (length payload) ++ (rest ++ payload))
  pub grows : length b7.content ≡ length b5.content + length payload

pub put_field-IsFilled :
    {annotated : Bool} {type_size : ℕ} {serialise : IoBuffer → Result IoBuffer}
    {payload rest : Bytes} {field : FieldDescription} {b b0 b1 b2 b3 b4 b5 b6 b7 b8 : IoBuffer}
    {offset : ℕ}
    → IsDescribed annotated type_size field b b0 b1 b2 b3 b4 b5
    → IsFilled serialise payload b1.content rest offset b5 b6 b7 b8
    → (length b5.content - length b0.content) % 2 ^ 32 ≡ offset
    → length payload < 2 ^ 31
    → put_field annotated type_size serialise field b ≡ ok (length b2.content, b8)
unfolding put_field
put_field-IsFilled {payload} {b1} {b2} {b5} {b7} d f is_offset short =
    let is_size : (length b7.content - length b5.content) % 2 ^ 32 ≡ length payload =
      omega (arith, f.grows) in
    rw (
      d.reserved, d.typed, d.started, d.sized, d.named, d.described, is_offset, f.placed,
      f.serialised, is_size, d.start_length, f.done,
    )

pub fill_in :
    (serialise : IoBuffer → Result IoBuffer) (payload before rest : Bytes) (offset : ℕ)
    (b5 : IoBuffer)
    → IsSerialiser payload serialise
    → b5.content ≡ before ++ (blank ++ (blank ++ rest))
    → IsAllocated b5
    → b5.capacity < 2 ^ 64
    → length b5.content < 2 ^ 61
    → (b6 : IoBuffer) × (b7 : IoBuffer) × (b8 : IoBuffer) × IsFilled serialise payload before rest
        offset b5 b6 b7 b8
fill_in serialise payload before rest offset b5 serialises content well bound fits =
    let o = little_endian 4 offset in
    let z = little_endian 4 (length payload) in
    let b6 : IoBuffer = record b5 { content = before ++ (o ++ (blank ++ rest)) } in
    let len6 : length b6.content ≡ length b5.content = omega (
      arith,
      length-append before (o ++ (blank ++ rest)),
      length-append before (blank ++ (blank ++ rest)),
      ap length content,
    ) in
    let well6 : IsAllocated b6 = record {
      fits = omega (arith, len6, well.fits);
      has_block = well.has_block;
    } in
    let (c, serialised, room, bound7) = serialises b6 well6 bound (omega (arith, len6)) in
    let b7 : IoBuffer = grown b6 payload c in
    let len7 : length b7.content ≡ length b6.content + length payload =
      length-append b6.content payload in
    let b8 : IoBuffer = record b7 { content = before ++ o ++ (z ++ (rest ++ payload)) } in
    let done =
      set_number-middle (before ++ o) blank (rest ++ payload) (length payload) b7 refl
        (regroup_data before o blank rest payload) in
    (
      b6,
      b7,
      b8,
      record {
        placed = set_number-middle before blank (blank ++ rest) offset b5 refl content;
        serialised = serialised;
        done =
            subst (λ (k : ℕ). set_number k (length payload) b7 ≡ ok b8) (length-append before o)
              done;
        content = refl;
        grows = omega (arith, len6, len7);
      },
    )
