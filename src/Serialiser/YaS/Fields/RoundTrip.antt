-- ===== src/Serialiser/YaS/Fields/RoundTrip.antt =====
-- A field that is written is read back.
use opencmw_cpp.Base.{
  ℕ, ◌+◌, ◌-◌, ◌%◌, ◌^◌, ◌<◌, ◌≡◌, refl, ap, ◌∙◌, Bool, true, ◌++◌, length, length-append, Bytes,
  Result, ok, arith,
}
use opencmw_cpp.Serialiser.IoBuffer.{IoBuffer, little_endian, set_position}
use opencmw_cpp.Serialiser.IoBuffer.Puts.{
  IsAllocated, grown, reserve_spare-room, text_bytes, put_number-IsGrown, put_text-IsGrown,
}
use opencmw_cpp.Serialiser.IoBuffer.Laws.{IsAhead}
use opencmw_cpp.Serialiser.YaS.Fields.{FieldDescription, put_field, get_field}
use opencmw_cpp.Serialiser.YaS.Fields.Meta.{
  grown-IsAllocated, put_meta_info-IsGrown, length-text, meta_bytes, header_bytes,
}
use opencmw_cpp.Serialiser.YaS.Fields.Read.{as_read, get_field-ahead}
use opencmw_cpp.Serialiser.YaS.Fields.Written.{
  blank, regroup_header, regroup_all, meta_bytes-bound, IsSerialiser, field_spare, IsDescribed,
  put_field-IsFilled, fill_in,
}

describe :
    (annotated : Bool) (type_size : ℕ) (field : FieldDescription) (b : IoBuffer)
    → IsAllocated b
    → b.capacity < 2 ^ 64
    → length b.content + field_spare field type_size < 2 ^ 61
    → (b0 : IoBuffer) × (b1 : IoBuffer) × (b2 : IoBuffer) × (b3 : IoBuffer) × (b4 : IoBuffer)
      × (b5 : IoBuffer) × IsDescribed annotated type_size field b b0 b1 b2 b3 b4 b5
describe annotated type_size field b well small fits =
    let l = little_endian 1 field.int_data_type in
    let t = text_bytes field.field_name in
    let m = meta_bytes annotated field in
    let (c0, e0, r0, k0) =
      reserve_spare-room (length field.field_name + 18 + type_size) b well small (omega arith)
        (omega arith) in
    let b0 : IoBuffer = record b { capacity = c0; allocated = true } in
    let w0 : IsAllocated b0 = record { fits = omega arith; has_block = λ h. refl } in
    let (c1, e1, r1, k1) =
      put_number-IsGrown 1 field.int_data_type b0 w0 k0 (omega arith) (omega arith) in
    let b1 : IoBuffer = grown b0 l c1 in
    let n1 : length b1.content ≡ length b.content + 1 = length-append b.content l in
    let (c2, e2, r2, k2) =
      put_number-IsGrown 4 (2 ^ 32 - 1) b1 (grown-IsAllocated b0 l c1 r1) k1 (omega arith)
        (omega (arith, n1)) in
    let b2 : IoBuffer = grown b1 blank c2 in
    let n2 : length b2.content ≡ length b1.content + 4 = length-append b1.content blank in
    let (c3, e3, r3, k3) =
      put_number-IsGrown 4 (2 ^ 32 - 1) b2 (grown-IsAllocated b1 blank c2 r2) k2 (omega arith)
        (omega (arith, n1, n2)) in
    let b3 : IoBuffer = grown b2 blank c3 in
    let n3 : length b3.content ≡ length b2.content + 4 = length-append b2.content blank in
    let (c4, e4, r4, k4) =
      put_text-IsGrown field.field_name b3 (grown-IsAllocated b2 blank c3 r3) k3
        (omega (arith, n1, n2, n3)) in
    let b4 : IoBuffer = grown b3 t c4 in
    let n4 : length b4.content ≡ length b3.content + length field.field_name + 5 =
      omega (arith, length-append b3.content t, length-text field.field_name) in
    let (c5, e5, r5, k5) =
      put_meta_info-IsGrown annotated field b4 (grown-IsAllocated b3 t c4 r4) refl k4
        (omega (arith, n1, n2, n3, n4)) in
    (
      b0,
      b1,
      b2,
      b3,
      b4,
      grown b4 m c5,
      record {
        reserved = e0;
        typed = e1;
        started = e2;
        sized = e3;
        named = e4;
        described = e5;
        same_start = refl;
        type_content = refl;
        start_length = n2;
        content = regroup_header b1.content blank blank t m;
        well = grown-IsAllocated b4 m c5 r5;
        bound = k5;
      },
    )

-- The bytes of a field are its header, with the offset of the data and its size, and the data.
put_field-bytes :
    (annotated : Bool) (type_size : ℕ) (payload : Bytes) (serialise : IoBuffer → Result IoBuffer)
    (field : FieldDescription) (b : IoBuffer)
    → IsSerialiser payload serialise
    → IsAllocated b
    → b.capacity < 2 ^ 64
    → length b.content + field_spare field type_size < 2 ^ 61
    → length payload < 2 ^ 31
    → field_spare field type_size < 2 ^ 31
    → (done : IoBuffer) × (put_field annotated type_size serialise field b
        ≡ ok (length b.content + 5, done))
      × (done.content ≡ b.content ++ (header_bytes annotated field (length payload) ++ payload))
put_field-bytes annotated type_size payload serialise field b serialises well small fits short
      header =
    let (b0, b1, b2, b3, b4, b5, d) = describe annotated type_size field b well small fits in
    let l = little_endian 1 field.int_data_type in
    let t = text_bytes field.field_name in
    let m = meta_bytes annotated field in
    let offset : ℕ = 9 + length t + length m in
    let start : length b1.content ≡ length b.content + 1 =
      ap length d.type_content ∙ length-append b.content l in
    let whole : length b5.content ≡ length b1.content + 8 + length t + length m = omega (
      arith,
      ap length d.content,
      length-append b1.content (blank ++ (blank ++ (t ++ m))),
      length-append t m,
    ) in
    let limits = meta_bytes-bound annotated field in
    let name = length-text field.field_name in
    let (b6, b7, b8, f) =
      fill_in serialise payload b1.content (t ++ m) offset b5 serialises d.content d.well d.bound
        (omega (arith, start, whole, limits, name)) in
    let is_offset : (length b5.content - length b0.content) % 2 ^ 32 ≡ offset =
      omega (arith, start, whole, limits, name, d.same_start) in
    let position : length b2.content ≡ length b.content + 5 =
      omega (arith, start, d.start_length) in
    (
      b8,
      put_field-IsFilled d f is_offset short ∙ ap (λ (k : ℕ). ok (k, b8)) position,
      f.content
          ∙ ap
              (λ (x : Bytes).
                x
                ++ little_endian 4 offset
                ++ (little_endian 4 (length payload) ++ (t ++ m ++ payload)))
              d.type_content
          ∙ regroup_all b.content l (little_endian 4 offset) (little_endian 4 (length payload))
              (t ++ m) payload,
    )

-- A field whose header and data are put into a buffer with less than 2 ^ 61 bytes, its data by a
-- serialiser that adds them behind the content, finds room there. Read from where the content
-- ended, it has the name, the data type and, if it was annotated, the unit, quantity, description
-- and modifier that were written, and without annotation none and read-write access; its data start
-- where reading the header ends, and end where the content ends.
pub get_field-put_field :
    (annotated : Bool) (type_size : ℕ) (payload : Bytes) (serialise : IoBuffer → Result IoBuffer)
    (field : FieldDescription) (b : IoBuffer)
    → IsSerialiser payload serialise
    → IsAllocated b
    → b.capacity < 2 ^ 64
    → length b.content + field_spare field type_size < 2 ^ 61
    → length payload < 2 ^ 31
    → field_spare field type_size < 2 ^ 31
    → field.int_data_type < 256
    → (begin : ℕ) × (done : IoBuffer) × (put_field annotated type_size serialise field b
        ≡ ok (length b.content + 5, done))
      × (get_field (set_position (length b.content) done)
          ≡ ok (
            as_read annotated field (length b.content) begin (length done.content),
            set_position begin done,
          ))
      × (begin + length payload ≡ length done.content)
unfolding set_position
get_field-put_field annotated type_size payload serialise field b serialises well small fits short
      header type_fits =
    let (done, put, content) =
      put_field-bytes annotated type_size payload serialise field b serialises well small fits short
        header in
    let bytes = header_bytes annotated field (length payload) in
    let ahead : IsAhead bytes (set_position (length b.content) done) = record {
      before = b.content;
      behind = payload;
      here = content;
      at_position = refl;
    } in
    let begin : ℕ = length b.content + length bytes in
    let end : begin + length payload ≡ length done.content = omega (
      arith,
      ap length content,
      length-append b.content (bytes ++ payload),
      length-append bytes payload,
    ) in
    (
      begin,
      done,
      put,
      get_field-ahead field (length payload) (set_position (length b.content) done) type_fits short
            (omega arith) (omega arith) annotated ahead
          ∙ ap
              (λ (e : ℕ). ok (
                as_read annotated field (length b.content) begin e,
                record done { position = begin },
              ))
              end,
      end,
    )
