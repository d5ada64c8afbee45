-- ===== src/Serialiser/YaS.antt =====
-- src/serialiser/include/IoSerialiserYaS.hpp: the header of the YaS protocol and its check.
pub mod Laws
pub mod Fields
use opencmw_cpp.Base.{
  ℕ, ◌+◌, ◌-◌, ◌*◌, ◌^◌, List, [], ◌∷◌, ◌++◌, codes, Bytes, bytes_eq, ◌==◌, if◌then◌else◌, Result,
  ok, err, protocol_exception, ◌>>=◌,
}
use opencmw_cpp.Serialiser.IoBuffer.{
  IoBuffer, reserve_spare, put_number, put_text, get_number, extract_string_view,
}

-- `yas::VERSION_MAGIC_NUMBER`, the -1 of an int
abbrev pub version_magic_number : ℕ
version_magic_number = 2 ^ 32 - 1

abbrev pub protocol_name : Bytes
protocol_name = codes "YaS"

abbrev pub version_major : ℕ
version_major = 1

abbrev pub version_minor : ℕ
version_minor = 0

abbrev pub version_micro : ℕ
version_micro = 0

-- `putHeaderInfo<YaS>`
unfoldable pub put_header_info : IoBuffer → Result IoBuffer
put_header_info b = do
  reserved ← reserve_spare (2 * 4 + 7) b
  magic ← put_number 4 version_magic_number reserved
  named ← put_text protocol_name magic
  major ← put_number 1 version_major named
  minor ← put_number 1 version_minor major
  micro ← put_number 1 version_micro minor
  ok micro

-- `ProtocolCheck`
pub data ProtocolCheck : Type 0 where
  ignore : ProtocolCheck
  lenient : ProtocolCheck
  always : ProtocolCheck

-- the exceptions of `DeserialiserInfo`, without their texts
pub data HeaderException : Type 0 where
  wrong_magic_number : ℕ → HeaderException
  wrong_identification : Bytes → HeaderException
  wrong_version : (major minor micro : ℕ) → HeaderException

-- what follows a part of the header that is wrong
unfoldable pub complain :
    ProtocolCheck
    → HeaderException
    → List HeaderException
    → IoBuffer
    → Result (List HeaderException × IoBuffer)
complain ignore wrong info b = ok (info, b)
complain lenient wrong info b = ok (info ++ wrong ∷ [], b)
complain always wrong info b = err protocol_exception

-- `checkHeaderInfo<YaS>` behind the magic number
unfoldable pub check_name :
    List HeaderException → ProtocolCheck → IoBuffer → Result (List HeaderException × IoBuffer)
unfolding complain
check_name info check b = do
  name ← extract_string_view b
  (if bytes_eq protocol_name name.0
      then (do
        major ← get_number 1 name.1
        minor ← get_number 1 major.1
        micro ← get_number 1 minor.1
        (if version_major == major.0
            then ok (info, micro.1)
            else complain check (wrong_version major.0 minor.0 micro.0) info micro.1))
      else complain check (wrong_identification name.0) info name.1)

-- `checkHeaderInfo<YaS>`
unfoldable pub check_header_info :
    List HeaderException → ProtocolCheck → IoBuffer → Result (List HeaderException × IoBuffer)
unfolding check_name
check_header_info info check b = do
  magic ← get_number 4 b
  (if version_magic_number == magic.0
      then check_name info check magic.1
      else complain check (wrong_magic_number magic.0) info magic.1)
