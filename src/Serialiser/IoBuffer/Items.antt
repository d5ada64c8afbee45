-- ===== src/Serialiser/IoBuffer/Items.antt =====
-- Values of different kinds, put one behind the other into a buffer and read back.
use opencmw_cpp.Base.{
  ℕ, ◌+◌, ◌-◌, ◌*◌, ◌^◌, ◌≤◌, ◌<◌, ◌≡◌, refl, sym, ap, ◌∙◌, List, [], ◌∷◌, ◌++◌, map, length,
  length-append, append_assoc, append-nil, Bytes, Result, ok, ◌>>=◌, arith, All,
}
use opencmw_cpp.Serialiser.IoBuffer.{
  IoBuffer, get_number, extract_string_view, get_numbers, little_endian, all_little_endian,
  put_number, put_text, put_numbers, set_position,
}
use opencmw_cpp.Serialiser.IoBuffer.Puts.{
  IsAllocated, grown, IsGrown, put_number-IsGrown, put_text-IsGrown, put_numbers-IsGrown,
  text_bytes, numbers_bytes, length-little_endian, length-all_little_endian,
}
use opencmw_cpp.Serialiser.IoBuffer.Laws.{
  IsAhead, IsAhead-left, IsAhead-right, moved, get_number-ahead, extract_string_view-ahead,
  get_numbers-ahead,
}

-- A value that a serialiser puts, by the overload of `put` that takes it.
pub data Item : Type 0 where
  number : (width value : ℕ) → Item
  text : Bytes → Item
  numbers : (width : ℕ) → List ℕ → Item

-- the type that a value is read back as
pub data Shape : Type 0 where
  number : (width : ℕ) → Shape
  text : Shape
  numbers : (width : ℕ) → Shape

abbrev pub shape_of : Item → Shape
shape_of (Item.number w v) = Shape.number w
shape_of (Item.text s) = Shape.text
shape_of (Item.numbers w ns) = Shape.numbers w

unfoldable pub put_item : Item → IoBuffer → Result IoBuffer
put_item (Item.number w v) b = put_number w v b
put_item (Item.text s) b = put_text s b
put_item (Item.numbers w ns) b = put_numbers w ns b

-- without a size that is asked for, which is SIZE_MAX
unfoldable pub get_item : Shape → IoBuffer → Result (Item × IoBuffer)
get_item (Shape.number w) b = do got ← get_number w b; ok (Item.number w got.0, got.1)
get_item Shape.text b = do got ← extract_string_view b; ok (Item.text got.0, got.1)
get_item (Shape.numbers w) b = do
  got ← get_numbers w (2 ^ 64 - 1) b
  ok (Item.numbers w got.0, got.1)

unfoldable pub put_items : List Item → IoBuffer → Result IoBuffer
unfolding put_item
put_items [] b = ok b
put_items (item ∷ items) b = do next ← put_item item b; put_items items next

unfoldable pub get_items : List Shape → IoBuffer → Result (List Item × IoBuffer)
unfolding get_item
get_items [] b = ok ([], b)
get_items (shape ∷ shapes) b = do
  got ← get_item shape b
  rest ← get_items shapes got.1
  ok (got.0 ∷ rest.0, rest.1)

-- A number fits its width, which is one of a byte at least, and a count its int32_t.
abbrev pub IsStorable : Item → Type 0
IsStorable (Item.number w v) = (0 < w) × (v < 256 ^ w)
IsStorable (Item.text s) = length s + 1 < 2 ^ 31
IsStorable (Item.numbers w ns) = (0 < w) × (length ns < 2 ^ 31) × All (λ n. n < 256 ^ w) ns

abbrev pub item_bytes : Item → Bytes
item_bytes (Item.number w v) = little_endian w v
item_bytes (Item.text s) = text_bytes s
item_bytes (Item.numbers w ns) = numbers_bytes w ns

-- what an item may take of the buffer, with the room that its `put` asks for
abbrev pub spare_of : Item → ℕ
spare_of (Item.number w v) = w
spare_of (Item.text s) = length s + 5
spare_of (Item.numbers w ns) = length ns * w + 4 + w

abbrev pub spare_of_all : List Item → ℕ
spare_of_all [] = 0
spare_of_all (item ∷ items) = spare_of item + spare_of_all items

abbrev pub all_bytes : List Item → Bytes
all_bytes [] = []
all_bytes (item ∷ items) = item_bytes item ++ all_bytes items

length-item_bytes : (item : Item) → length (item_bytes item) ≤ spare_of item
length-item_bytes (Item.number w v) = omega (arith, length-little_endian w v)
length-item_bytes (Item.text s) = omega (
  arith,
  length-append (little_endian 4 (length s + 1) ++ s) (0 ∷ []),
  length-append (little_endian 4 (length s + 1)) s,
)
length-item_bytes (Item.numbers w ns) = omega (
  arith,
  length-append (little_endian 4 (length ns)) (all_little_endian w ns),
  length-all_little_endian w ns,
)

put_item-IsGrown :
    (item : Item) (b : IoBuffer)
    → IsAllocated b
    → b.capacity < 2 ^ 64
    → IsStorable item
    → length b.content + spare_of item < 2 ^ 62
    → IsGrown b (item_bytes item) (put_item item b)
unfolding put_item
put_item-IsGrown (Item.number w v) b well small storable fits =
    put_number-IsGrown w v b well small storable.0 fits
put_item-IsGrown (Item.text s) b well small storable fits =
    put_text-IsGrown s b well small (omega arith)
put_item-IsGrown (Item.numbers w ns) b well small storable fits =
    put_numbers-IsGrown w ns b well small (omega arith)

-- Values that are put into a buffer find room there.
pub put_items-IsGrown :
    (items : List Item) (b : IoBuffer)
    → IsAllocated b
    → b.capacity < 2 ^ 64
    → All IsStorable items
    → length b.content + spare_of_all items < 2 ^ 62
    → (next : IoBuffer) × (put_items items b ≡ ok next)
      × (next.content ≡ b.content ++ all_bytes items)
      × IsAllocated next
unfolding put_items
put_items-IsGrown [] b well small storable fits = (b, refl, sym (append-nil b.content), well)
put_items-IsGrown (item ∷ items) b well small storable fits =
    let (c, put, room, bound) = put_item-IsGrown item b well small storable.0 (omega arith) in
    let len = length-append b.content (item_bytes item) in
    let grown_well : IsAllocated (grown b (item_bytes item) c) = record {
      fits = omega (arith, len, room);
      has_block = λ h. refl;
    } in
    let (next, rest, content, next_well) =
      put_items-IsGrown items (grown b (item_bytes item) c) grown_well bound storable.1
        (omega (arith, len, length-item_bytes item)) in
    (
      next,
      rw (put, rest),
      content ∙ append_assoc b.content (item_bytes item) (all_bytes items),
      next_well,
    )

get_item-ahead :
    (item : Item) (b : IoBuffer)
    → IsStorable item
    → length b.content < 2 ^ 64
    → IsAhead (item_bytes item) b
    → get_item (shape_of item) b ≡ ok (item, moved b (length (item_bytes item)))
unfolding get_item
get_item-ahead (Item.number w v) b storable small a =
    rw (get_number-ahead w v b storable.1 a, length-little_endian w v)
get_item-ahead (Item.text s) b storable small a = rw (extract_string_view-ahead s b storable a)
get_item-ahead (Item.numbers w ns) b storable small a = rw (
    get_numbers-ahead w ns (2 ^ 64 - 1) b storable.0 storable.1 (omega (arith, storable.1)) small
      storable.2 a)

get_items-ahead :
    (items : List Item) (b : IoBuffer)
    → All IsStorable items
    → length b.content < 2 ^ 64
    → IsAhead (all_bytes items) b
    → get_items (map shape_of items) b ≡ ok (items, moved b (length (all_bytes items)))
unfolding get_items
get_items-ahead [] b storable small a =
    let stays : b.position + 0 ≡ b.position = omega arith in rw stays
get_items-ahead (item ∷ items) b storable small a =
    let first =
      get_item-ahead item b storable.0 small
        (IsAhead-left (item_bytes item) (all_bytes items) b a) in
    let rest =
      get_items-ahead items (moved b (length (item_bytes item))) storable.1 small
        (IsAhead-right (item_bytes item) (all_bytes items) b a) in
    let end : b.position + length (item_bytes item) + length (all_bytes items)
        ≡ b.position + length (all_bytes (item ∷ items)) =
      omega (arith, length-append (item_bytes item) (all_bytes items)) in
    rw (first, rest, end)

length-all_bytes : (items : List Item) → length (all_bytes items) ≤ spare_of_all items
length-all_bytes [] = omega arith
length-all_bytes (item ∷ items) = omega (
  arith,
  length-append (item_bytes item) (all_bytes items),
  length-item_bytes item,
  length-all_bytes items,
)

-- Numbers that fit their width, texts and spans of numbers that are shorter than 2 ^ 31, put one
-- behind the other into a buffer whose content fits its block, with less than 2 ^ 62 bytes asked for
-- in all, find room there: no write leaves the block. They are read back from where the content
-- ended, and reading ends where the content ends.
pub get_items-put_items :
    (items : List Item) (b : IoBuffer)
    → IsAllocated b
    → b.capacity < 2 ^ 64
    → All IsStorable items
    → length b.content + spare_of_all items < 2 ^ 62
    → (next : IoBuffer) × (put_items items b ≡ ok next)
      × (get_items (map shape_of items) (set_position (length b.content) next)
          ≡ ok (items, set_position (length next.content) next))
unfolding set_position
get_items-put_items items b well small storable fits =
    let (next, put, content, next_well) = put_items-IsGrown items b well small storable fits in
    let len : length next.content ≡ length b.content + length (all_bytes items) =
      ap length content ∙ length-append b.content (all_bytes items) in
    let ahead : IsAhead (all_bytes items) (set_position (length b.content) next) = record {
      before = b.content;
      behind = [];
      here = content ∙ ap (λ (t : Bytes). b.content ++ t) (sym (append-nil (all_bytes items)));
      at_position = refl;
    } in
    (
      next,
      put,
      get_items-ahead items (set_position (length b.content) next) storable
            (omega (arith, len, length-all_bytes items)) ahead
          ∙ ap (λ (p : ℕ). ok (items, record next { position = p })) (sym len),
    )
