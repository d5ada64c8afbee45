-- ===== src/Serialiser/YaS/Fields/Read.antt =====
-- How a field header is read.
use opencmw_cpp.Base.{
  ℕ, ◌+◌, ◌%◌, ◌^◌, ◌≤◌, ◌<◌, ◌≡◌, sym, ap, ◌∙◌, subst, Bool, true, false, [], ◌++◌, length,
  length-append, Bytes, ok, arith, ◌==◌,
}
use opencmw_cpp.Serialiser.IoBuffer.{IoBuffer, little_endian, get_number, extract_string_view}
use opencmw_cpp.Serialiser.IoBuffer.Puts.{text_bytes}
use opencmw_cpp.Serialiser.IoBuffer.Laws.{
  IsAhead, IsAhead-left, IsAhead-right, moved, get_number-ahead, extract_string_view-ahead,
}
use opencmw_cpp.Serialiser.YaS.Fields.{
  FieldDescription, ExternalModifier, modifier_byte, sign_extended, get_meta_text,
  get_meta_modifier, get_field, rw_access,
}
use opencmw_cpp.Serialiser.YaS.Fields.Meta.{
  length-text, meta_bytes, meta_spare, header_bytes, modifier_byte-lt,
  get_ext_modifier-modifier_byte,
}

-- The field that a reader finds at a position, with its data from `begin` up to `end`: without the
-- meta information if it was not annotated.
abbrev pub as_read : Bool → FieldDescription → (start begin end : ℕ) → FieldDescription
as_read true field start begin end = record field {
  header_start = start;
  data_start_position = begin;
  data_end_position = end;
}
as_read false field start begin end = record field {
  header_start = start;
  data_start_position = begin;
  data_end_position = end;
  unit = [];
  quantity = [];
  description = [];
  modifier = rw_access;
}

get_field-chain :
    (b b1 b2 b3 b4 b5 b6 b7 b8 : IoBuffer) (type offset size begin end : ℕ) (name u q d : Bytes)
    (access : ExternalModifier)
    → get_number 1 b ≡ ok (type, b1)
    → get_number 4 b1 ≡ ok (offset, b2)
    → get_number 4 b2 ≡ ok (size, b3)
    → extract_string_view b3 ≡ ok (name, b4)
    → (b.position + sign_extended offset) % 2 ^ 64 ≡ begin
    → (b.position + sign_extended offset + sign_extended size) % 2 ^ 64 ≡ end
    → get_meta_text begin b4 ≡ ok (u, b5)
    → get_meta_text begin b5 ≡ ok (q, b6)
    → get_meta_text begin b6 ≡ ok (d, b7)
    → get_meta_modifier begin b7 ≡ ok (access, b8)
    → get_field b
      ≡ ok (
        record {
          header_start = b.position;
          data_start_position = begin;
          data_end_position = end;
          field_name = name;
          unit = u;
          quantity = q;
          description = d;
          modifier = access;
          int_data_type = type;
        },
        b8,
      )
unfolding get_field
get_field-chain b b1 b2 b3 b4 b5 b6 b7 b8 type offset size begin end name u q d access h1 h2 h3 h4
      h5 h6 h7 h8 h9 h10 =
    rw (h1, h2, h3, h4, h5, h6, h7, h8, h9, h10)

-- A text in front of the data is read, and nothing where the data starts.
get_meta_text-ahead :
    (s : Bytes) (begin : ℕ) (b : IoBuffer)
    → length s + 1 < 2 ^ 31
    → b.position < begin
    → IsAhead (text_bytes s) b
    → get_meta_text begin b ≡ ok (s, moved b (length (text_bytes s)))
unfolding get_meta_text
get_meta_text-ahead s begin b short before a =
    let earlier : (b.position == begin) ≡ false = ground arith in
    rw (earlier, extract_string_view-ahead s b short a)

get_meta_text-none :
    (begin : ℕ) (b : IoBuffer) → b.position ≡ begin → get_meta_text begin b ≡ ok ([], b)
unfolding get_meta_text
get_meta_text-none begin b here = ground arith

get_meta_modifier-none :
    (begin : ℕ) (b : IoBuffer) → b.position ≡ begin → get_meta_modifier begin b ≡ ok (rw_access, b)
unfolding get_meta_modifier
get_meta_modifier-none begin b here =
    let same : (b.position == begin) ≡ true = ground arith in rw same

get_meta_modifier-ahead :
    (access : ExternalModifier) (begin : ℕ) (b : IoBuffer)
    → b.position < begin
    → IsAhead (little_endian 1 (modifier_byte access)) b
    → get_meta_modifier begin b ≡ ok (access, moved b 1)
unfolding get_meta_modifier
get_meta_modifier-ahead access begin b before a =
    let earlier : (b.position == begin) ≡ false = ground arith in
    let got =
      get_number-ahead 1 (modifier_byte access) b (omega (arith, modifier_byte-lt access)) a in
    rw (earlier, got, get_ext_modifier-modifier_byte access)

module _ (field : FieldDescription) (size : ℕ) (b : IoBuffer)
    (type_fits : field.int_data_type < 256) (short : size < 2 ^ 31)
    (names : length field.field_name + meta_spare field + 32 < 2 ^ 31)
    (low : b.position < 2 ^ 62) where
  offset_of : Bool → ℕ
  offset_of annotated =
      9 + length (text_bytes field.field_name) + length (meta_bytes annotated field)

  -- the buffer behind the name
  behind_name : IoBuffer
  behind_name = moved (moved (moved (moved b 1) 4) 4) (length (text_bytes field.field_name))

  read_front :
      (annotated : Bool)
      → length (meta_bytes annotated field) ≤ meta_spare field
      → IsAhead (header_bytes annotated field size) b
      → (get_number 1 b ≡ ok (field.int_data_type, moved b 1))
        × (get_number 4 (moved b 1) ≡ ok (offset_of annotated, moved (moved b 1) 4))
        × (get_number 4 (moved (moved b 1) 4) ≡ ok (size, moved (moved (moved b 1) 4) 4))
        × (extract_string_view (moved (moved (moved b 1) 4) 4) ≡ ok (field.field_name, behind_name))
        × IsAhead (meta_bytes annotated field) behind_name
        × (length (header_bytes annotated field size) ≡ offset_of annotated)
        × (offset_of annotated < 2 ^ 31)
  unfolding offset_of behind_name
  read_front annotated limit a =
      let t = text_bytes field.field_name in
      let m = meta_bytes annotated field in
      let l = little_endian 1 field.int_data_type in
      let o = little_endian 4 (offset_of annotated) in
      let z = little_endian 4 size in
      let small : offset_of annotated < 2 ^ 31 = omega (arith, length-text field.field_name) in
      let a1 = IsAhead-right l (o ++ (z ++ (t ++ m))) b a in
      let a2 = IsAhead-right o (z ++ (t ++ m)) (moved b 1) a1 in
      let a3 = IsAhead-right z (t ++ m) (moved (moved b 1) 4) a2 in
      (
        get_number-ahead 1 field.int_data_type b (omega arith)
            (IsAhead-left l (o ++ (z ++ (t ++ m))) b a),
        get_number-ahead 4 (offset_of annotated) (moved b 1) (omega arith)
            (IsAhead-left o (z ++ (t ++ m)) (moved b 1) a1),
        get_number-ahead 4 size (moved (moved b 1) 4) (omega arith)
            (IsAhead-left z (t ++ m) (moved (moved b 1) 4) a2),
        extract_string_view-ahead field.field_name (moved (moved (moved b 1) 4) 4) (omega arith)
            (IsAhead-left t m (moved (moved (moved b 1) 4) 4) a3),
        IsAhead-right t m (moved (moved (moved b 1) 4) 4) a3,
        omega (arith, length-append t m),
        small,
      )

  sign_kept : (n : ℕ) → n < 2 ^ 31 → sign_extended n ≡ n
  sign_kept n h = ground arith

  data_begins :
      (annotated : Bool) (n : ℕ)
      → n < 2 ^ 31
      → (b.position + sign_extended n) % 2 ^ 64 ≡ b.position + n
  data_begins annotated n h = omega (arith, sign_kept n h)

  data_ends :
      (n : ℕ)
      → n < 2 ^ 31
      → (b.position + sign_extended n + sign_extended size) % 2 ^ 64 ≡ b.position + n + size
  data_ends n h = omega (arith, sign_kept n h, sign_kept size short)

  at_data : behind_name.position ≡ b.position + offset_of false
  unfolding offset_of behind_name
  at_data = omega arith

  read_plain :
      IsAhead (header_bytes false field size) b
      → get_field b
        ≡ ok (
          as_read false field b.position
              (b.position + offset_of false)
              (b.position + offset_of false + size),
          behind_name,
        )
  read_plain a =
      let (h1, h2, h3, h4, rest, len, small) = read_front false (omega arith) a in
      let here : behind_name.position ≡ b.position + offset_of false = at_data in
      get_field-chain b (moved b 1) (moved (moved b 1) 4) (moved (moved (moved b 1) 4) 4)
        behind_name behind_name behind_name behind_name behind_name field.int_data_type
        (offset_of false) size (b.position + offset_of false) (b.position + offset_of false + size)
        field.field_name [] [] [] rw_access h1 h2 h3 h4 (data_begins false (offset_of false) small)
        (data_ends (offset_of false) small)
        (get_meta_text-none (b.position + offset_of false) behind_name here)
        (get_meta_text-none (b.position + offset_of false) behind_name here)
        (get_meta_text-none (b.position + offset_of false) behind_name here)
        (get_meta_modifier-none (b.position + offset_of false) behind_name here)

  -- the position behind the name, and the length of the meta information
  annotated_lengths :
      (behind_name.position + length (meta_bytes true field) ≡ b.position + offset_of true)
      × (length (meta_bytes true field)
          ≡ length (text_bytes field.unit)
            + length (text_bytes field.quantity)
            + length (text_bytes field.description)
            + 1)
  unfolding offset_of behind_name
  annotated_lengths =
      let u = text_bytes field.unit in
      let q = text_bytes field.quantity in
      let d = text_bytes field.description in
      let m = little_endian 1 (modifier_byte field.modifier) in
      (
        omega arith,
        omega (arith, length-append u (q ++ (d ++ m)), length-append q (d ++ m), length-append d m),
      )

  annotated_bound : length (meta_bytes true field) ≤ meta_spare field
  annotated_bound = omega (
    arith,
    annotated_lengths.1,
    length-text field.unit,
    length-text field.quantity,
    length-text field.description,
  )

  read_annotated :
      IsAhead (header_bytes true field size) b
      → get_field b
        ≡ ok (
          as_read true field b.position
              (b.position + offset_of true)
              (b.position + offset_of true + size),
          moved
              (moved
                (moved
                  (moved behind_name (length (text_bytes field.unit)))
                  (length (text_bytes field.quantity)))
                (length (text_bytes field.description)))
              1,
        )
  read_annotated a =
      let (h1, h2, h3, h4, rest, len, small) = read_front true annotated_bound a in
      let (whole, parts) = annotated_lengths in
      let begin : ℕ = b.position + offset_of true in
      let u = text_bytes field.unit in
      let q = text_bytes field.quantity in
      let d = text_bytes field.description in
      let m = little_endian 1 (modifier_byte field.modifier) in
      let b4 = behind_name in
      let b5 = moved b4 (length u) in
      let b6 = moved b5 (length q) in
      let b7 = moved b6 (length d) in
      let r1 = IsAhead-right u (q ++ (d ++ m)) b4 rest in
      let r2 = IsAhead-right q (d ++ m) b5 r1 in
      let r3 = IsAhead-right d m b6 r2 in
      get_field-chain b (moved b 1) (moved (moved b 1) 4) (moved (moved (moved b 1) 4) 4) b4 b5 b6
        b7 (moved b7 1) field.int_data_type (offset_of true) size begin (begin + size)
        field.field_name field.unit field.quantity field.description field.modifier h1 h2 h3 h4
        (data_begins true (offset_of true) small) (data_ends (offset_of true) small)
        (get_meta_text-ahead field.unit begin b4 (omega arith) (omega (arith, whole, parts))
          (IsAhead-left u (q ++ (d ++ m)) b4 rest))
        (get_meta_text-ahead field.quantity begin b5 (omega arith) (omega (arith, whole, parts))
          (IsAhead-left q (d ++ m) b5 r1))
        (get_meta_text-ahead field.description begin b6 (omega arith) (omega (arith, whole, parts))
          (IsAhead-left d m b6 r2))
        (get_meta_modifier-ahead field.modifier begin b7 (omega (arith, whole, parts)) r3)

  -- A header at the position of a buffer is read, up to the data.
  pub get_field-ahead :
      (annotated : Bool)
      → IsAhead (header_bytes annotated field size) b
      → get_field b
        ≡ ok (
          as_read annotated field b.position
              (b.position + length (header_bytes annotated field size))
              (b.position + length (header_bytes annotated field size) + size),
          moved b (length (header_bytes annotated field size)),
        )
  unfolding behind_name
  get_field-ahead false a =
      let len = (read_front false (omega arith) a).5 in
      subst
        (λ (n : ℕ).
          get_field b
          ≡ ok (as_read false field b.position (b.position + n) (b.position + n + size), moved b n))
        (sym len)
        (read_plain a
          ∙ ap
              (λ (p : ℕ). ok (
                as_read false field b.position (b.position + offset_of false)
                    (b.position + offset_of false + size),
                record b { position = p },
              ))
              at_data)
  get_field-ahead true a =
      let len = (read_front true annotated_bound a).5 in
      let (whole, parts) = annotated_lengths in
      let end : behind_name.position
            + length (text_bytes field.unit)
            + length (text_bytes field.quantity)
            + length (text_bytes field.description)
            + 1
          ≡ b.position + offset_of true =
        omega (arith, whole, parts) in
      subst
        (λ (n : ℕ).
          get_field b
          ≡ ok (as_read true field b.position (b.position + n) (b.position + n + size), moved b n))
        (sym len)
        (read_annotated a
          ∙ ap
              (λ (p : ℕ). ok (
                as_read true field b.position (b.position + offset_of true)
                    (b.position + offset_of true + size),
                record b { position = p },
              ))
              end)
