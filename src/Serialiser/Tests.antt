-- ===== src/Serialiser/Tests.antt =====
-- Runs of the buffer and the YaS header, and the theorems at concrete inputs.
use opencmw_cpp.Base.{
  ℕ, ◌+◌, ◌-◌, ◌^◌, ◌≡◌, refl, List, [], ◌∷◌, codes, map, length, ok, err, undefined, true, arith,
}
use opencmw_cpp.Serialiser.IoBuffer.{
  IoBuffer, empty_buffer, read, get_number, extract_string_view, get_each, get_numbers, at,
  set_position,
}
use opencmw_cpp.Serialiser.IoBuffer.Puts.{IsAllocated}
use opencmw_cpp.Serialiser.IoBuffer.Items.{
  Item, shape_of, put_items, get_items, get_items-put_items,
}
use opencmw_cpp.Serialiser.YaS.{
  put_header_info, lenient, always, wrong_magic_number, complain, check_header_info,
}
use opencmw_cpp.Serialiser.IoBuffer.{put_numbers}
use opencmw_cpp.Serialiser.IoBuffer.Puts.{put_numbers-IsGrown, numbers_bytes}
use opencmw_cpp.Serialiser.YaS.Fields.{FieldDescription, ro_access, put_field, get_field}
use opencmw_cpp.Serialiser.YaS.Fields.Read.{as_read}
use opencmw_cpp.Serialiser.YaS.Fields.Written.{IsSerialiser}
use opencmw_cpp.Serialiser.YaS.Fields.RoundTrip.{get_field-put_field}
use opencmw_cpp.Serialiser.YaS.Laws.{check_header_info-put_header_info}

empty_buffer-IsAllocated : IsAllocated empty_buffer
empty_buffer-IsAllocated = record { fits = omega arith; has_block = λ h. absurd (omega arith) }

abbrev three_items : List Item
three_items = Item.number 2 513 ∷ Item.text (codes "ab") ∷ Item.numbers 4 (7 ∷ 70000 ∷ []) ∷ []

get_items-put_items_example :
    (next : IoBuffer) × (put_items three_items empty_buffer ≡ ok next)
    × (get_items (map shape_of three_items) (set_position (length empty_buffer.content) next)
        ≡ ok (three_items, set_position (length next.content) next))
get_items-put_items_example =
    get_items-put_items three_items empty_buffer empty_buffer-IsAllocated (omega arith)
      (
        (omega arith, omega arith),
        (omega arith, ((omega arith, omega arith, (omega arith, (omega arith, tt))), tt)),
      )
      (omega arith)

-- five bytes behind which nothing is known
abbrev five_bytes : IoBuffer
five_bytes = record {
  content = 2 ∷ 0 ∷ 0 ∷ 0 ∷ 9 ∷ [];
  position = 2;
  capacity = 5;
  allocated = true;
}

-- The index is inside, the last bytes of the number are not.
at_end : at 4 4 five_bytes ≡ err undefined
unfolding at
at_end = refl

-- A count of two numbers of four bytes in front of five bytes is not cut to what is there.
abbrev short_array : IoBuffer
short_array = record {
  content = 2 ∷ 0 ∷ 0 ∷ 0 ∷ 1 ∷ 0 ∷ 0 ∷ 0 ∷ 2 ∷ [];
  position = 0;
  capacity = 9;
  allocated = true;
}

array_behind_end : get_numbers 4 (2 ^ 64 - 1) short_array ≡ err undefined
unfolding get_numbers get_number get_each read
array_behind_end = refl

-- The length of a text is not compared with the bytes that are left.
text_behind_end :
    extract_string_view (record short_array { content = 100 ∷ 0 ∷ 0 ∷ 0 ∷ 65 ∷ [] }) ≡ err undefined
unfolding extract_string_view get_number read
text_behind_end = refl

check_header_info-put_header_info_example :
    (next : IoBuffer) × (put_header_info empty_buffer ≡ ok next)
    × (check_header_info [] always (set_position (length empty_buffer.content) next)
        ≡ ok ([], set_position (length next.content) next))
check_header_info-put_header_info_example =
    check_header_info-put_header_info [] always empty_buffer empty_buffer-IsAllocated (omega arith)
      (omega arith)

header_refused : check_header_info [] always five_bytes ≡ err undefined
unfolding check_header_info get_number read
header_refused = refl

wrong_magic :
    check_header_info [] lenient (record five_bytes { position = 0 })
    ≡ ok (wrong_magic_number 2 ∷ [], record five_bytes { position = 4 })
unfolding check_header_info complain get_number read
wrong_magic = refl

-- an annotated field whose data is one number of four bytes in an array
abbrev voltage : FieldDescription
voltage = record {
  header_start = 0;
  data_start_position = 0;
  data_end_position = 0;
  field_name = codes "u";
  unit = codes "V";
  quantity = [];
  description = codes "mains";
  modifier = ro_access;
  int_data_type = 104;
}

numbers-IsSerialiser : IsSerialiser (numbers_bytes 4 (7 ∷ [])) (put_numbers 4 (7 ∷ []))
numbers-IsSerialiser b well small fits = put_numbers-IsGrown 4 (7 ∷ []) b well small (omega arith)

get_field-put_field_example :
    (begin : ℕ) × (done : IoBuffer) × (put_field true 4
        (put_numbers 4 (7 ∷ []))
        voltage
        empty_buffer
      ≡ ok (length empty_buffer.content + 5, done))
    × (get_field (set_position (length empty_buffer.content) done)
        ≡ ok (
          as_read true voltage (length empty_buffer.content) begin (length done.content),
          set_position begin done,
        ))
    × (begin + length (numbers_bytes 4 (7 ∷ [])) ≡ length done.content)
get_field-put_field_example =
    get_field-put_field true 4 (numbers_bytes 4 (7 ∷ [])) (put_numbers 4 (7 ∷ [])) voltage
      empty_buffer numbers-IsSerialiser empty_buffer-IsAllocated (omega arith) (omega arith)
      (omega arith) (omega arith) (omega arith)
