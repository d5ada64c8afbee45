-- ===== src/Serialiser/IoBuffer/Puts.antt =====
-- Every value that is put has room.
use native.Mathlib.Nat.{suc-mul}
use opencmw_cpp.Base.{
  ℕ, zero, suc, ◌+◌, ◌-◌, ◌*◌, ◌/◌, ◌%◌, ◌^◌, ◌≤◌, ◌<◌, ◌≡◌, refl, sym, ap, ◌∙◌, Bool, true, List,
  [], ◌∷◌, ◌++◌, length, length-append, append_assoc, Bytes, Result, ok, arith, le→leb, dec_le,
}
use opencmw_cpp.Serialiser.IoBuffer.{
  IoBuffer, reallocate, reserve, reserve_spare, write, little_endian, put_number, put_text,
  all_little_endian, put_numbers,
}

-- The content fits the block, and there is a block if it has any bytes.
pub record IsAllocated (b : IoBuffer) : Type 0 where
  pub fits : length b.content ≤ b.capacity
  pub has_block : 0 < b.capacity → b.allocated ≡ true

-- The buffer behind an operation that has added bytes to its content.
abbrev pub grown : IoBuffer → Bytes → ℕ → IoBuffer
grown b bytes c = record b { content = b.content ++ bytes; capacity = c; allocated = true }

-- The operation adds the bytes and leaves a block with room for more than them.
abbrev pub IsGrown : IoBuffer → Bytes → Result IoBuffer → Type 0
IsGrown b bytes result =
    (c : ℕ) × (result ≡ ok (grown b bytes c)) × (length b.content + length bytes ≤ c) × (c < 2 ^ 64)

-- what the wrap-around of std::size_t leaves of the spare room and of the new capacity
spare_room : (c n : ℕ) → n ≤ c → c < 2 ^ 64 → (c + 2 ^ 64 - n) % 2 ^ 64 ≡ c - n
spare_room c n h k = omega arith

fourfold : (n : ℕ) → n < 2 ^ 62 → n % 2 ^ 64 * 4 % 2 ^ 64 ≡ n * 4
fourfold n h = omega arith

reserve_spare-enough :
    (additional : ℕ) (b : IoBuffer)
    → length b.content + additional < b.capacity
    → b.capacity < 2 ^ 64
    → reserve_spare additional b ≡ ok b
unfolding reserve_spare
reserve_spare-enough additional b room small = ground arith

reserve_spare-full :
    (additional : ℕ) (b : IoBuffer)
    → IsAllocated b
    → b.capacity < 2 ^ 64
    → 0 < additional
    → length b.content + additional < 2 ^ 62
    → b.capacity - length b.content ≤ additional
    → reserve_spare additional b
      ≡ ok (record b { capacity = (length b.content + additional) * 4; allocated = true })
unfolding reserve_spare reserve reallocate
reserve_spare-full additional b well small some_bytes fits full =
    rw
      (
        spare_room b.capacity (length b.content) well.fits small,
        fourfold (length b.content + additional) fits,
      )
      (ground (arith, well.fits))

pub reserve_spare-room :
    (additional : ℕ) (b : IoBuffer)
    → IsAllocated b
    → b.capacity < 2 ^ 64
    → 0 < additional
    → length b.content + additional < 2 ^ 62
    → (c : ℕ) × (reserve_spare additional b ≡ ok (record b { capacity = c; allocated = true }))
      × (length b.content + additional < c)
      × (c < 2 ^ 64)
reserve_spare-room additional b well small some_bytes fits =
    elim (dec_le (b.capacity - length b.content) additional) [
      | yes full ↦ (
        (length b.content + additional) * 4,
        reserve_spare-full additional b well small some_bytes fits full,
        omega arith,
        omega arith,
      )
      | no room ↦
          let block : b.allocated ≡ true = well.has_block (omega arith) in
          let same : record b { capacity = b.capacity; allocated = true } ≡ b =
            ap (λ (x : Bool). record b { allocated = x }) (sym block) in
          (
            b.capacity,
            reserve_spare-enough additional b (omega (arith, well.fits)) small ∙ ap ok (sym same),
            omega (arith, well.fits),
            small,
          )
    ]

write-room :
    (bytes : Bytes) (b : IoBuffer)
    → b.allocated ≡ true
    → length b.content + length bytes ≤ b.capacity
    → write bytes b ≡ ok (record b { content = b.content ++ bytes })
unfolding write
write-room bytes b block room = rw (block, le→leb (length b.content + length bytes) b.capacity room)

pub length-little_endian : (width n : ℕ) → length (little_endian width n) ≡ width
length-little_endian zero n = refl
length-little_endian (suc width) n = omega (arith, length-little_endian width (n / 256))

pub length-all_little_endian :
    (width : ℕ) (ns : List ℕ) → length (all_little_endian width ns) ≡ length ns * width
length-all_little_endian width [] = ground arith
length-all_little_endian width (n ∷ ns) = omega (
  arith,
  length-append (little_endian width n) (all_little_endian width ns),
  length-little_endian width n,
  length-all_little_endian width ns,
  suc-mul (length ns) width,
)

put_number-enough :
    (width n : ℕ) (b : IoBuffer)
    → b.allocated ≡ true
    → length b.content + width < b.capacity
    → b.capacity < 2 ^ 64
    → put_number width n b ≡ ok (record b { content = b.content ++ little_endian width n })
unfolding put_number
put_number-enough width n b block room small = rw (
  reserve_spare-enough width b room small,
  write-room (little_endian width n) b block (omega (arith, length-little_endian width n)),
)

-- A number is put behind the content, in a block that has room for it.
pub put_number-IsGrown :
    (width n : ℕ) (b : IoBuffer)
    → IsAllocated b
    → b.capacity < 2 ^ 64
    → 0 < width
    → length b.content + width < 2 ^ 62
    → IsGrown b (little_endian width n) (put_number width n b)
unfolding put_number
put_number-IsGrown width n b well small some_bytes fits =
    let (c, reserved, room, bound) = reserve_spare-room width b well small some_bytes fits in
    (
      c,
      rw (
        reserved,
        write-room (little_endian width n) (record b { capacity = c; allocated = true }) refl
            (omega (arith, length-little_endian width n)),
      ),
      omega (arith, length-little_endian width n),
      bound,
    )

abbrev pub text_bytes : Bytes → Bytes
text_bytes s = little_endian 4 (length s + 1) ++ s ++ 0 ∷ []

glued : (xs ys zs ws : Bytes) → xs ++ ys ++ zs ++ ws ≡ xs ++ (ys ++ zs ++ ws)
glued xs ys zs ws =
    ap (λ (x : Bytes). x ++ ws) (append_assoc xs ys zs) ∙ append_assoc xs (ys ++ zs) ws

-- A text is put with its length and its zero byte.
pub put_text-IsGrown :
    (s : Bytes) (b : IoBuffer)
    → IsAllocated b
    → b.capacity < 2 ^ 64
    → length b.content + length s + 5 < 2 ^ 62
    → IsGrown b (text_bytes s) (put_text s b)
unfolding put_text
put_text-IsGrown s b well small fits =
    let (c, reserved, room, bound) =
      reserve_spare-room (length s + 5) b well small (omega arith) (omega arith) in
    let b1 : IoBuffer = record b { capacity = c; allocated = true } in
    let headed = put_number-enough 4 (length s + 1) b1 refl (omega arith) bound in
    let b2 : IoBuffer = record b1 { content = b.content ++ little_endian 4 (length s + 1) } in
    let len2 : length b2.content ≡ length b.content + 4 =
      length-append b.content (little_endian 4 (length s + 1)) in
    let filled = write-room s b2 refl (omega (arith, len2)) in
    let b3 : IoBuffer = record b2 { content = b2.content ++ s } in
    let len3 : length b3.content ≡ length b2.content + length s = length-append b2.content s in
    let ended = put_number-enough 1 0 b3 refl (omega (arith, len2, len3)) bound in
    (
      c,
      rw (
        reserved,
        headed,
        filled,
        ended,
        glued b.content (little_endian 4 (length s + 1)) s (0 ∷ []),
      ),
      omega (arith, length-append s (0 ∷ [])),
      bound,
    )

-- Numbers are put one after another behind their count.
abbrev pub numbers_bytes : (width : ℕ) → List ℕ → Bytes
numbers_bytes width ns = little_endian 4 (length ns) ++ all_little_endian width ns

pub put_numbers-IsGrown :
    (width : ℕ) (ns : List ℕ) (b : IoBuffer)
    → IsAllocated b
    → b.capacity < 2 ^ 64
    → length b.content + length ns * width + 4 + width < 2 ^ 62
    → IsGrown b (numbers_bytes width ns) (put_numbers width ns b)
unfolding put_numbers
put_numbers-IsGrown width ns b well small fits =
    let (c, reserved, room, bound) =
      reserve_spare-room (length ns * width + 4 + width) b well small (omega arith) (omega arith) in
    let b1 : IoBuffer = record b { capacity = c; allocated = true } in
    let headed = put_number-enough 4 (length ns) b1 refl (omega arith) bound in
    let b2 : IoBuffer = record b1 { content = b.content ++ little_endian 4 (length ns) } in
    let len2 : length b2.content ≡ length b.content + 4 =
      length-append b.content (little_endian 4 (length ns)) in
    let all_bytes = length-all_little_endian width ns in
    let filled = write-room (all_little_endian width ns) b2 refl (omega (arith, len2, all_bytes)) in
    (
      c,
      rw (
        reserved,
        headed,
        filled,
        append_assoc b.content (little_endian 4 (length ns)) (all_little_endian width ns),
      ),
      omega (arith, all_bytes),
      bound,
    )
