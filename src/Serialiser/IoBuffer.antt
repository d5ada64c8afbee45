-- ===== src/Serialiser/IoBuffer.antt =====
-- src/serialiser/include/IoBuffer.hpp with the allocator that grows a block in place. `content` is
-- the first `_size` bytes of the block, which has `capacity` bytes if there is one. An allocation
-- succeeds. A read behind `content` or a write behind `capacity` is undefined, and so is a smaller
-- block than the content needs. Numbers stand for their bytes in two's complement.
pub mod Puts
pub mod Laws
pub mod Items
use opencmw_cpp.Base.{
  ℕ, zero, suc, ◌+◌, ◌-◌, ◌*◌, ◌/◌, ◌%◌, ◌^◌, min, Bool, true, false, ◌||◌, ◌&&◌, List, [], ◌∷◌,
  ◌++◌, length, take, drop, Bytes, ltb, leb, ◌==◌, if◌then◌else◌, Result, ok, err, undefined,
  out_of_range, ◌>>=◌,
}

pub record IoBuffer : Type 0 where
  pub content : Bytes
  pub position : ℕ
  pub capacity : ℕ
  pub allocated : Bool  -- _buffer != nullptr

-- `IoBuffer()`
abbrev pub empty_buffer : IoBuffer
empty_buffer = record { content = []; position = 0; capacity = 0; allocated = false }

-- what a computation in std::size_t leaves
abbrev pub size_t : ℕ → ℕ
size_t n = n % 2 ^ 64

-- `reallocate`
unfoldable pub reallocate : ℕ → IoBuffer → Result IoBuffer
reallocate wanted b =
    if wanted == 0
    then ok (record b { capacity = 0; allocated = false })
    else if ltb wanted (length b.content)
    then err undefined
    else ok (record b { capacity = wanted; allocated = true })

-- `reserve`
unfoldable pub reserve : ℕ → IoBuffer → Result IoBuffer
unfolding reallocate
reserve least b = if ltb least b.capacity then ok b else reallocate least b

-- `reserve_spare`
unfoldable pub reserve_spare : ℕ → IoBuffer → Result IoBuffer
unfolding reserve
reserve_spare additional b =
    let spare = size_t (b.capacity + 2 ^ 64 - length b.content) in
    if leb spare additional
    then reserve (size_t (size_t (length b.content + additional) * 4)) b
    else ok b

-- a copy of bytes to the end of the content
unfoldable pub write : Bytes → IoBuffer → Result IoBuffer
write bytes b =
    if b.allocated && leb (length b.content + length bytes) b.capacity
    then ok (record b { content = b.content ++ bytes })
    else err undefined

-- the bytes of a number of a width, the lowest first, and the number of some bytes
abbrev pub little_endian : (width : ℕ) → ℕ → Bytes
little_endian zero n = []
little_endian (suc width) n = n % 256 ∷ little_endian width (n / 256)

abbrev pub number_of : Bytes → ℕ
number_of [] = 0
number_of (x ∷ bytes) = x + 256 * number_of bytes

-- `put` of a number
unfoldable pub put_number : (width : ℕ) → ℕ → IoBuffer → Result IoBuffer
unfolding reserve_spare write
put_number width n b = do reserved ← reserve_spare width b; write (little_endian width n) reserved

-- `put` of a string, with its length and its zero byte
unfoldable pub put_text : Bytes → IoBuffer → Result IoBuffer
unfolding put_number
put_text s b = do
  reserved ← reserve_spare (length s + 5) b
  headed ← put_number 4 (length s + 1) reserved
  filled ← write s headed
  put_number 1 0 filled

abbrev pub all_little_endian : (width : ℕ) → List ℕ → Bytes
all_little_endian width [] = []
all_little_endian width (n ∷ ns) = little_endian width n ++ all_little_endian width ns

-- `put` of a span of numbers other than bool
unfoldable pub put_numbers : (width : ℕ) → List ℕ → IoBuffer → Result IoBuffer
unfolding put_number
put_numbers width ns b = do
  reserved ← reserve_spare (length ns * width + 4 + width) b
  headed ← put_number 4 (length ns) reserved
  write (all_little_endian width ns) headed

-- a copy of bytes from the position on
unfoldable pub read : ℕ → IoBuffer → Result (Bytes × IoBuffer)
read n b =
    if leb (b.position + n) (length b.content)
    then ok (take n (drop b.position b.content), record b { position = b.position + n })
    else err undefined

-- `get` of a number
unfoldable pub get_number : (width : ℕ) → IoBuffer → Result (ℕ × IoBuffer)
unfolding read
get_number width b = do got ← read width b; ok (number_of (got.0), got.1)

-- `extractStringView`: a length that is not above zero, read as an int32_t, gives a view behind
-- the buffer.
unfoldable pub extract_string_view : IoBuffer → Result (Bytes × IoBuffer)
unfolding get_number
extract_string_view b = do
  got ← get_number 4 b
  text ← (if got.0 == 0 || leb (2 ^ 31) got.0 then err undefined else read (got.0 - 1) got.1)
  ok (text.0, record text.1 { position = text.1.position + 1 })

-- numbers of a width one after another
unfoldable pub get_each : (width count : ℕ) → IoBuffer → Result (List ℕ × IoBuffer)
unfolding get_number
get_each width zero b = ok ([], b)
get_each width (suc count) b = do
  got ← get_number width b
  rest ← get_each width count got.1
  ok (got.0 ∷ rest.0, rest.1)

-- `getArray` into a vector of numbers: the count, which is cast from int32_t, is cut to the number
-- of the bytes that are left and to the size that is asked for.
unfoldable pub get_numbers : (width requested : ℕ) → IoBuffer → Result (List ℕ × IoBuffer)
unfolding get_each
get_numbers width requested b = do
  got ← get_number 4 b
  let count = if ltb got.0 (2 ^ 31) then got.0 else got.0 + (2 ^ 64 - 2 ^ 32) in
      get_each width
        (min (min count (size_t (length b.content + 2 ^ 64 - got.1.position))) requested) got.1

-- `skip`, of the bytes that the int stands for
unfoldable pub skip : ℕ → IoBuffer → Result IoBuffer
skip bytes b =
    let extended = if ltb bytes (2 ^ 31) then bytes else bytes + (2 ^ 64 - 2 ^ 32) in
    let target = size_t (b.position + extended) in
    if ltb (length b.content) target then err out_of_range else ok (record b { position = target })

-- `at` of a number: the index is tested, and not the bytes behind it
unfoldable pub at : (width index : ℕ) → IoBuffer → Result ℕ
at width index b =
    if leb (length b.content) index
    then err out_of_range
    else if leb (index + width) (length b.content)
    then ok (number_of (take width (drop index b.content)))
    else err undefined

-- `reset`, `set_position` and `clear`
unfoldable pub reset : IoBuffer → IoBuffer
reset b = record b { position = 0 }

unfoldable pub set_position : ℕ → IoBuffer → IoBuffer
set_position p b = record b { position = p }

unfoldable pub clear : IoBuffer → IoBuffer
clear b = record b { position = 0; content = [] }
