-- ===== src/Serialiser/IoBuffer/Laws.antt =====
-- What is put is read back, and the bounds of `skip`.
use native.Mathlib.Nat.{mul-suc, pow-suc}
use opencmw_cpp.Base.{
  ℕ, zero, suc, ◌+◌, ◌-◌, ◌*◌, ◌/◌, ◌%◌, ◌^◌, ◌≤◌, ◌<◌, ◌≡◌, min, sym, ap, ◌∙◌, subst, true, false,
  List, [], ◌∷◌, ◌++◌, length, length-append, append_assoc, Bytes, ltb, leb, ok, err, out_of_range,
  arith, le→leb, dec_le, take, drop, ◌==◌, take_append-length, drop_append-length, All,
  if◌then◌else◌,
}
use opencmw_cpp.Serialiser.IoBuffer.{
  IoBuffer, read, get_number, extract_string_view, get_each, get_numbers, little_endian, number_of,
  all_little_endian, skip,
}
use opencmw_cpp.Serialiser.IoBuffer.Puts.{
  text_bytes, numbers_bytes, length-little_endian, length-all_little_endian,
}

number_of-little_endian : (width n : ℕ) → n < 256 ^ width → number_of (little_endian width n) ≡ n
number_of-little_endian zero n h = omega arith
number_of-little_endian (suc width) n h =
    let rest : n / 256 < 256 ^ width = omega (arith, pow-suc 256 width) in
    omega (arith, number_of-little_endian width (n / 256) rest)

-- The buffer has the bytes at its position, whatever stands before and behind them.
pub record IsAhead (bytes : Bytes) (b : IoBuffer) : Type 0 where
  pub before : Bytes
  pub behind : Bytes
  pub here : b.content ≡ before ++ (bytes ++ behind)
  pub at_position : b.position ≡ length before

abbrev pub moved : IoBuffer → ℕ → IoBuffer
moved b n = record b { position = b.position + n }

pub IsAhead-left : (xs ys : Bytes) (b : IoBuffer) → IsAhead (xs ++ ys) b → IsAhead xs b
IsAhead-left xs ys b a = record {
  before = a.before;
  behind = ys ++ a.behind;
  here = a.here ∙ ap (λ (t : Bytes). a.before ++ t) (append_assoc xs ys a.behind);
  at_position = a.at_position;
}

pub IsAhead-right :
    (xs ys : Bytes) (b : IoBuffer) → IsAhead (xs ++ ys) b → IsAhead ys (moved b (length xs))
IsAhead-right xs ys b a = record {
  before = a.before ++ xs;
  behind = a.behind;
  here =
      a.here
      ∙ ap (λ (t : Bytes). a.before ++ t) (append_assoc xs ys a.behind)
      ∙ sym (append_assoc a.before xs (ys ++ a.behind));
  at_position = omega (arith, a.at_position, length-append a.before xs);
}

ahead-fits :
    (bytes : Bytes) (b : IoBuffer) → IsAhead bytes b → b.position + length bytes ≤ length b.content
ahead-fits bytes b a = omega (
  arith,
  ap length a.here,
  a.at_position,
  length-append a.before (bytes ++ a.behind),
  length-append bytes a.behind,
)

ahead-taken :
    (bytes : Bytes) (b : IoBuffer)
    → IsAhead bytes b
    → take (length bytes) (drop b.position b.content) ≡ bytes
ahead-taken bytes b a = rw (
  a.at_position,
  a.here,
  drop_append-length a.before (bytes ++ a.behind),
  take_append-length bytes a.behind,
)

read-ahead :
    (bytes : Bytes) (b : IoBuffer)
    → IsAhead bytes b
    → read (length bytes) b ≡ ok (bytes, moved b (length bytes))
unfolding read
read-ahead bytes b a = rw (
  le→leb (b.position + length bytes) (length b.content) (ahead-fits bytes b a),
  ahead-taken bytes b a,
)

pub get_number-ahead :
    (width n : ℕ) (b : IoBuffer)
    → n < 256 ^ width
    → IsAhead (little_endian width n) b
    → get_number width b ≡ ok (n, moved b width)
unfolding get_number
get_number-ahead width n b small a =
    let got : read width b ≡ ok (little_endian width n, moved b width) =
      subst (λ (k : ℕ). read k b ≡ ok (little_endian width n, moved b k))
        (length-little_endian width n) (read-ahead (little_endian width n) b a) in
    rw (got, number_of-little_endian width n small)

pub extract_string_view-ahead :
    (s : Bytes) (b : IoBuffer)
    → length s + 1 < 2 ^ 31
    → IsAhead (text_bytes s) b
    → extract_string_view b ≡ ok (s, moved b (length (text_bytes s)))
unfolding extract_string_view
extract_string_view-ahead s b short a =
    let front = IsAhead-left (little_endian 4 (length s + 1) ++ s) (0 ∷ []) b a in
    let headed =
      get_number-ahead 4 (length s + 1) b (omega arith)
        (IsAhead-left (little_endian 4 (length s + 1)) s b front) in
    let text =
      read-ahead s (moved b 4) (IsAhead-right (little_endian 4 (length s + 1)) s b front) in
    let positive : (length s + 1 == 0) ≡ false = ground arith in
    let signed : leb (2 ^ 31) (length s + 1) ≡ false = ground arith in
    let whole : length s + 1 - 1 ≡ length s = omega arith in
    let end : b.position + 4 + length s + 1 ≡ b.position + length (text_bytes s) = omega (
      arith,
      length-append (little_endian 4 (length s + 1) ++ s) (0 ∷ []),
      length-append (little_endian 4 (length s + 1)) s,
    ) in
    rw (headed, positive, signed, whole, text, end)

get_each-ahead :
    (width : ℕ) (ns : List ℕ) (b : IoBuffer)
    → All (λ n. n < 256 ^ width) ns
    → IsAhead (all_little_endian width ns) b
    → get_each width (length ns) b ≡ ok (ns, moved b (length (all_little_endian width ns)))
unfolding get_each
get_each-ahead width [] b small a =
    let stays : b.position + 0 ≡ b.position = omega arith in rw stays
get_each-ahead width (n ∷ ns) b small a =
    let first =
      get_number-ahead width n b small.0
        (IsAhead-left (little_endian width n) (all_little_endian width ns) b a) in
    let behind =
      subst (λ (k : ℕ). IsAhead (all_little_endian width ns) (moved b k))
        (length-little_endian width n)
        (IsAhead-right (little_endian width n) (all_little_endian width ns) b a) in
    let rest = get_each-ahead width ns (moved b width) small.1 behind in
    let end : b.position + width + length (all_little_endian width ns)
        ≡ b.position + length (all_little_endian width (n ∷ ns)) =
      omega (
        arith,
        length-append (little_endian width n) (all_little_endian width ns),
        length-little_endian width n,
      ) in
    rw (first, rest, end)

count-le-bytes : (width n : ℕ) → 0 < width → n ≤ n * width
count-le-bytes zero n pos = elim pos [ ]
count-le-bytes (suc width) n pos = omega (arith, mul-suc n width)

pub get_numbers-ahead :
    (width : ℕ) (ns : List ℕ) (requested : ℕ) (b : IoBuffer)
    → 0 < width
    → length ns < 2 ^ 31
    → length ns ≤ requested
    → length b.content < 2 ^ 64
    → All (λ n. n < 256 ^ width) ns
    → IsAhead (numbers_bytes width ns) b
    → get_numbers width requested b ≡ ok (ns, moved b (length (numbers_bytes width ns)))
unfolding get_numbers
get_numbers-ahead width ns requested b pos short asked bounded small a =
    let headed =
      get_number-ahead 4 (length ns) b (omega arith)
        (IsAhead-left (little_endian 4 (length ns)) (all_little_endian width ns) b a) in
    let behind = IsAhead-right (little_endian 4 (length ns)) (all_little_endian width ns) b a in
    let each = get_each-ahead width ns (moved b 4) small behind in
    let fits = ahead-fits (all_little_endian width ns) (moved b 4) behind in
    let cast : (if ltb (length ns) (2 ^ 31) then length ns else length ns + (2 ^ 64 - 2 ^ 32))
        ≡ length ns =
      ground arith in
    let cut : min (min (length ns) ((length b.content + 2 ^ 64 - (b.position + 4)) % 2 ^ 64))
          requested
        ≡ length ns =
      omega
        (arith, fits, length-all_little_endian width ns, count-le-bytes width (length ns) pos) in
    let end : b.position + 4 + length (all_little_endian width ns)
        ≡ b.position + length (numbers_bytes width ns) =
      omega (arith, length-append (little_endian 4 (length ns)) (all_little_endian width ns)) in
    rw (headed, cast, cut, each, end)

module _ (n : ℕ) (b : IoBuffer) (inside : b.position ≤ length b.content)
    (small : length b.content < 2 ^ 63) (short : n < 2 ^ 31) where
  skip-forward : skip n b ≡ (
      if leb (b.position + n) (length b.content)
      then ok (record b { position = b.position + n })
      else err out_of_range)
  unfolding skip
  skip-forward =
      let positive : ltb n (2 ^ 31) ≡ true = ground arith in
      let target : (b.position + n) % 2 ^ 64 ≡ b.position + n = omega arith in
      rw (positive, target) (ground arith)

  skip-backward :
      0 < n
      → skip (2 ^ 32 - n) b ≡ (
          if leb n b.position
          then ok (record b { position = b.position - n })
          else err out_of_range)
  unfolding skip
  skip-backward some_way =
      let negative : ltb (2 ^ 32 - n) (2 ^ 31) ≡ false = ground arith in
      elim (dec_le n b.position) [
        | yes back ↦
            let target : (b.position + (2 ^ 32 - n + (2 ^ 64 - 2 ^ 32))) % 2 ^ 64 ≡ b.position - n =
              omega arith in
            rw (negative, target) (ground arith)
        | no under ↦
            let target : (b.position + (2 ^ 32 - n + (2 ^ 64 - 2 ^ 32))) % 2 ^ 64
                ≡ b.position + 2 ^ 64 - n =
              omega arith in
            rw (negative, target) (ground arith)
      ]

  -- In a buffer of less than 2 ^ 63 bytes with its position in the content, a step forward by less
  -- than 2 ^ 31 bytes succeeds exactly if it stays in the content, a step back by as many bytes
  -- exactly if it does not leave the start of the buffer; each moves the position by those bytes or
  -- is refused as out of range.
  pub skip-moves :
      0 < n
      → (skip n b ≡ (
          if leb (b.position + n) (length b.content)
          then ok (record b { position = b.position + n })
          else err out_of_range))
        × (skip (2 ^ 32 - n) b ≡ (
            if leb n b.position
            then ok (record b { position = b.position - n })
            else err out_of_range))
  skip-moves some_way = (skip-forward, skip-backward some_way)
