-- ===== src/Serialiser/YaS/Laws.antt =====
-- The header of the YaS protocol is accepted by its check, and the modes of the check agree.
use opencmw_cpp.Base.{
  ℕ, ◌+◌, ◌^◌, ◌<◌, ◌≡◌, refl, sym, ap, ◌∙◌, true, List, [], ◌∷◌, ◌++◌, length, length-append,
  append-nil, Bytes, bytes_eq, ok, arith,
}
use opencmw_cpp.Serialiser.IoBuffer.{IoBuffer, set_position, little_endian}
use opencmw_cpp.Serialiser.IoBuffer.Puts.{IsAllocated, reserve_spare-room, text_bytes}
use opencmw_cpp.Serialiser.IoBuffer.Laws.{
  IsAhead, IsAhead-left, IsAhead-right, moved, get_number-ahead, extract_string_view-ahead,
}
use opencmw_cpp.Serialiser.IoBuffer.Items.{Item, put_item, put_items, put_items-IsGrown, all_bytes}
use opencmw_cpp.Serialiser.YaS.{
  version_magic_number, protocol_name, put_header_info, ProtocolCheck, HeaderException, check_name,
  check_header_info,
}

-- the values of the header
abbrev header_items : List Item
header_items =
    Item.number 4 version_magic_number
    ∷ Item.text protocol_name
    ∷ Item.number 1 1
    ∷ Item.number 1 0
    ∷ Item.number 1 0
    ∷ []

-- The header at the position of a buffer is accepted in every mode, and the position then stands
-- behind its 15 bytes.
check_header_info-ahead :
    (info : List HeaderException) (check : ProtocolCheck) (b : IoBuffer)
    → IsAhead (all_bytes header_items) b
    → check_header_info info check b ≡ ok (info, record b { position = b.position + 15 })
unfolding check_header_info check_name bytes_eq
check_header_info-ahead info check b a0 =
    let b1 = moved b 4 in
    let b2 = moved b1 8 in
    let b3 = moved b2 1 in
    let b4 = moved b3 1 in
    let rest1 : Bytes = text_bytes protocol_name ++ (1 ∷ [] ++ (0 ∷ [] ++ (0 ∷ [] ++ []))) in
    let rest2 : Bytes = 1 ∷ [] ++ (0 ∷ [] ++ (0 ∷ [] ++ [])) in
    let rest3 : Bytes = 0 ∷ [] ++ (0 ∷ [] ++ []) in
    let rest4 : Bytes = 0 ∷ [] ++ [] in
    let a1 = IsAhead-right (little_endian 4 version_magic_number) rest1 b a0 in
    let a2 = IsAhead-right (text_bytes protocol_name) rest2 b1 a1 in
    let a3 = IsAhead-right (1 ∷ []) rest3 b2 a2 in
    let a4 = IsAhead-right (0 ∷ []) rest4 b3 a3 in
    let magic =
      get_number-ahead 4 version_magic_number b (omega arith)
        (IsAhead-left (little_endian 4 version_magic_number) rest1 b a0) in
    let name =
      extract_string_view-ahead protocol_name b1 (omega arith)
        (IsAhead-left (text_bytes protocol_name) rest2 b1 a1) in
    let major = get_number-ahead 1 1 b2 (omega arith) (IsAhead-left (1 ∷ []) rest3 b2 a2) in
    let minor = get_number-ahead 1 0 b3 (omega arith) (IsAhead-left (0 ∷ []) rest4 b3 a3) in
    let micro = get_number-ahead 1 0 b4 (omega arith) (IsAhead-left (0 ∷ []) [] b4 a4) in
    let end : b.position + 4 + 8 + 1 + 1 + 1 ≡ b.position + 15 = omega arith in
    rw (magic, name, major, minor, micro, end)

-- In a buffer whose content fits its block, with less than 2 ^ 61 bytes, the header that
-- `putHeaderInfo` adds finds room, and `checkHeaderInfo` from where it starts accepts it in every
-- mode, without an exception, and ends where the content ends.
pub check_header_info-put_header_info :
    (info : List HeaderException) (check : ProtocolCheck) (b : IoBuffer)
    → IsAllocated b
    → b.capacity < 2 ^ 64
    → length b.content < 2 ^ 61
    → (next : IoBuffer) × (put_header_info b ≡ ok next)
      × (check_header_info info check (set_position (length b.content) next)
          ≡ ok (info, set_position (length next.content) next))
unfolding put_header_info put_items put_item set_position
check_header_info-put_header_info info check b well small fits =
    let (c, reserved, room, bound) =
      reserve_spare-room 15 b well small (omega arith) (omega arith) in
    let b1 : IoBuffer = record b { capacity = c; allocated = true } in
    let well1 : IsAllocated b1 = record { fits = omega arith; has_block = λ h. refl } in
    let (next, put, content, next_well) =
      put_items-IsGrown header_items b1 well1 bound
        (
          (omega arith, omega arith),
          (
            omega arith,
            (
              (omega arith, omega arith),
              ((omega arith, omega arith), ((omega arith, omega arith), tt)),
            ),
          ),
        )
        (omega arith) in
    let len : length next.content ≡ length b.content + 15 =
      ap length content ∙ length-append b.content (all_bytes header_items) in
    let ahead : IsAhead (all_bytes header_items) (set_position (length b.content) next) = record {
      before = b.content;
      behind = [];
      here =
          content ∙ ap (λ (t : Bytes). b.content ++ t) (sym (append-nil (all_bytes header_items)));
      at_position = refl;
    } in
    (
      next,
      rw reserved put,
      check_header_info-ahead info check (set_position (length b.content) next) ahead
          ∙ ap (λ (p : ℕ). ok (info, record next { position = p })) (sym len),
    )
