-- ===== src/Serialiser/YaS/Fields.antt =====
-- The field headers of IoSerialiserYaS.hpp, and the modifiers of src/core/include/opencmw.hpp that
-- they carry. `serialise` is the part of a field that its type writes.
pub mod Meta
pub mod Written
pub mod Read
pub mod RoundTrip
use opencmw_cpp.Base.{
  ℕ, zero, suc, ◌+◌, ◌-◌, ◌%◌, ◌^◌, Bool, true, false, List, [], ◌∷◌, ◌++◌, length, take, drop,
  Bytes, ◌==◌, if◌then◌else◌, Result, ok, err, undefined, leb, ◌>>=◌, ltb,
}
use opencmw_cpp.Serialiser.IoBuffer.{
  IoBuffer, reserve_spare, put_number, put_text, get_number, extract_string_view, little_endian,
}

-- `ExternalModifier`
pub data ExternalModifier : Type 0 where
  rw_access : ExternalModifier
  ro_access : ExternalModifier
  rw_deprecated : ExternalModifier
  ro_deprecated : ExternalModifier
  rw_private : ExternalModifier
  ro_private : ExternalModifier
  unknown : ExternalModifier

-- the values of the enumeration
unfoldable pub modifier_byte : ExternalModifier → ℕ
modifier_byte rw_access = 0
modifier_byte ro_access = 1
modifier_byte rw_deprecated = 2
modifier_byte ro_deprecated = 3
modifier_byte rw_private = 4
modifier_byte ro_private = 5
modifier_byte unknown = 255

-- `get_ext_modifier`
unfoldable pub get_ext_modifier : ℕ → ExternalModifier
get_ext_modifier zero = rw_access
get_ext_modifier (suc zero) = ro_access
get_ext_modifier (suc (suc zero)) = rw_deprecated
get_ext_modifier (suc (suc (suc zero))) = ro_deprecated
get_ext_modifier (suc (suc (suc (suc zero)))) = rw_private
get_ext_modifier (suc (suc (suc (suc (suc zero))))) = ro_private
get_ext_modifier (suc (suc (suc (suc (suc (suc n)))))) = unknown

-- `FieldDescriptionLong`, less the numbers that the header does not carry
pub record FieldDescription : Type 0 where
  pub header_start : ℕ
  pub data_start_position : ℕ
  pub data_end_position : ℕ
  pub field_name : Bytes
  pub unit : Bytes
  pub quantity : Bytes
  pub description : Bytes
  pub modifier : ExternalModifier
  pub int_data_type : ℕ

-- `buffer.at<int32_t, false>(index) = n`
unfoldable pub set_number : (index : ℕ) → ℕ → IoBuffer → Result IoBuffer
set_number index n b =
    if leb (index + 4) (length b.content)
    then ok (record b {
      content = take index b.content ++ (little_endian 4 n ++ drop (index + 4) b.content);
    })
    else err undefined

-- the meta information of an annotated field
unfoldable pub put_meta_info : Bool → FieldDescription → IoBuffer → Result IoBuffer
put_meta_info false field b = ok b
put_meta_info true field b = do
  with_unit ← put_text field.unit b
  with_quantity ← put_text field.quantity with_unit
  with_description ← put_text field.description with_quantity
  put_number 1 (modifier_byte field.modifier) with_description

-- `FieldHeaderWriter<YaS>::put` for a field whose type takes `type_size` bytes: the position of the
-- data size, and the buffer
unfoldable pub put_field :
    (annotated : Bool)
    → (type_size : ℕ) → (IoBuffer → Result IoBuffer)
    → FieldDescription
    → IoBuffer
    → Result (ℕ × IoBuffer)
put_field annotated type_size serialise field b = do
  reserved ← reserve_spare (length field.field_name + 18 + type_size) b
  typed ← put_number 1 field.int_data_type reserved
  started ← put_number 4 (2 ^ 32 - 1) typed
  sized ← put_number 4 (2 ^ 32 - 1) started
  named ← put_text field.field_name sized
  described ← put_meta_info annotated field named
  placed ←
      set_number (length typed.content)
        ((length described.content - length reserved.content) % 2 ^ 32) described
  filled ← serialise placed
  done ←
      set_number (length started.content)
        ((length filled.content - length described.content) % 2 ^ 32) filled
  ok (length started.content, done)

-- the cast of an int32_t to uint64_t
abbrev pub sign_extended : ℕ → ℕ
sign_extended n = if ltb n (2 ^ 31) then n else n + (2 ^ 64 - 2 ^ 32)

-- a text of the meta information, if the data has not started
unfoldable pub get_meta_text : (data_start : ℕ) → IoBuffer → Result (Bytes × IoBuffer)
get_meta_text data_start b = if b.position == data_start then ok ([], b) else extract_string_view b

unfoldable pub get_meta_modifier :
    (data_start : ℕ) → IoBuffer → Result (ExternalModifier × IoBuffer)
get_meta_modifier data_start b =
    if b.position == data_start
    then ok (rw_access, b)
    else (do got ← get_number 1 b; ok (get_ext_modifier got.0, got.1))

-- `FieldHeaderReader<YaS>::get` with a check that reads the meta information
unfoldable pub get_field : IoBuffer → Result (FieldDescription × IoBuffer)
get_field b = do
  typed ← get_number 1 b
  offset ← get_number 4 typed.1
  size ← get_number 4 offset.1
  name ← extract_string_view size.1
  with_unit ← get_meta_text ((b.position + sign_extended offset.0) % 2 ^ 64) name.1
  with_quantity ← get_meta_text ((b.position + sign_extended offset.0) % 2 ^ 64) with_unit.1
  with_description ← get_meta_text ((b.position + sign_extended offset.0) % 2 ^ 64) with_quantity.1
  with_modifier ←
      get_meta_modifier ((b.position + sign_extended offset.0) % 2 ^ 64) with_description.1
  ok (
    record {
      header_start = b.position;
      data_start_position = (b.position + sign_extended offset.0) % 2 ^ 64;
      data_end_position = (b.position + sign_extended offset.0 + sign_extended size.0) % 2 ^ 64;
      field_name = name.0;
      unit = with_unit.0;
      quantity = with_quantity.0;
      description = with_description.0;
      modifier = with_modifier.0;
      int_data_type = typed.0;
    },
    with_modifier.1,
  )
