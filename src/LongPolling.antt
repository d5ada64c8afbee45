-- ===== src/LongPolling.antt =====
-- The multipart body of a long-polling reply: core/include/LongPollingBatch.hpp.
-- A position in the body is kept as the text that stands from there on, and std::expected as the
-- type `Expected` with the text of the error.
mod Lines
mod Header
mod RoundTrip
mod Sound
mod Tests
use opencmw_cpp.Base.{
  ℕ, zero, suc, ◌+◌, ◌-◌, ◌^◌, min, ◌==◌, ltb, leb, if◌then◌else◌, Bool, true, false, not, ◌&&◌,
  ◌||◌, Option, none, some, List, [], ◌∷◌, ◌++◌, Bytes, codes, length, take, drop, all, is_empty,
  is_digit, decimal, read_digits, starts_with,
}

pub data Expected {κ} (X : Type κ) : Type κ where
  unexpected : Bytes → Expected X
  expected : X → Expected X

infixl 5 ◌>>=◌
abbrev pub ◌>>=◌ {κ ι} : {X : Type κ} {Y : Type ι} → Expected X → (X → Expected Y) → Expected Y
unexpected message >>= next = unexpected message
expected x >>= next = next x

-- `if (!test) return std::unexpected(message);`
abbrev require : (test : Bool) → Bytes → Expected (Unit {0})
require false message = unexpected message
require true message = expected tt

infixl 5 ◌>>◌
abbrev ◌>>◌ {κ} : {Y : Type κ} → Expected (Unit {0}) → Expected Y → Expected Y
first >> next = first >>= λ _. next

pub record BatchPart : Type 0 where
  pub index : ℕ
  pub topic : Bytes
  pub service_name : Bytes
  pub payload : Bytes

-- `kBoundary`
abbrev pub boundary_name : Bytes
boundary_name = codes "opencmw-long-polling-multipart-boundary"

abbrev pub crlf : Bytes
crlf = 13 ∷ 10 ∷ []

abbrev pub dashes : Bytes
dashes = b'-' ∷ b'-' ∷ []

abbrev pub index_key : Bytes
index_key = codes "x-opencmw-long-polling-idx: "

abbrev pub topic_key : Bytes
topic_key = codes "x-opencmw-topic: "

abbrev pub service_key : Bytes
service_key = codes "x-opencmw-service-name: "

abbrev pub length_key : Bytes
length_key = codes "content-length: "

-- `std::from_chars` into a std::uint64_t: the number and the text behind it, nothing if there is no
-- digit or the number does not fit
pub from_chars : Bytes → Option (ℕ × Bytes)
from_chars [] = none
from_chars (c ∷ s) =
    let read = read_digits 0 (c ∷ s) in
    if is_digit c && ltb read.0 (2 ^ 64) then some read else none

-- `parseUnsigned`
pub parse_unsigned : Bytes → Bytes → Expected ℕ
parse_unsigned value name =
    if is_empty value
    then unexpected (codes "Malformed " ++ name ++ codes " ''")
    else elim (from_chars value) [
      | none ↦ unexpected (codes "Malformed " ++ name ++ codes " '" ++ value ++ codes "'")
      | some (number, behind) ↦
          (if is_empty behind
            then expected number
            else unexpected (codes "Malformed " ++ name ++ codes " '" ++ value ++ codes "'"))
    ]

-- `s.find_first_of("\r\n") == npos`
abbrev pub is_line_char : ℕ → Bool
is_line_char c = not (c == 13) && not (c == 10)

-- the first loop of `encodeBatch`
pub is_encodable : List BatchPart → Bool
is_encodable [] = true
is_encodable (part ∷ parts) =
    all is_line_char part.topic && all is_line_char part.service_name && is_encodable parts

-- what one round of the second loop of `encodeBatch` appends
pub part_text : BatchPart → Bytes
part_text part =
    dashes
    ++ boundary_name
    ++ (crlf ++ index_key)
    ++ decimal part.index
    ++ (crlf ++ topic_key)
    ++ part.topic
    ++ (crlf ++ service_key)
    ++ part.service_name
    ++ (crlf ++ length_key)
    ++ decimal (length part.payload)
    ++ (crlf ++ crlf)
    ++ part.payload
    ++ crlf

pub encode_loop : List BatchPart → Bytes → Bytes
encode_loop [] body = body
encode_loop (part ∷ parts) body = encode_loop parts (body ++ part_text part)

-- `encodeBatch`
pub encode_batch : List BatchPart → Expected Bytes
encode_batch parts =
    if is_encodable parts
    then expected (encode_loop parts [] ++ dashes ++ boundary_name ++ (dashes ++ crlf))
    else unexpected (codes "Multipart topic and service name must not contain CR or LF")

-- `s.find(needle)`
pub find_text : Bytes → Bytes → Option ℕ
find_text needle [] = if starts_with [] needle then some 0 else none
find_text needle (c ∷ s) =
    let rest = find_text needle s in
    if starts_with (c ∷ s) needle then some 0 else elim rest [ none ↦ none | some i ↦ some (suc i) ]

-- the header fields of a part that were read so far
pub record Fields : Type 0 where
  pub index : Option ℕ
  pub content_length : Option ℕ
  pub topic : Option Bytes
  pub service_name : Option Bytes

abbrev pub no_fields : Fields
no_fields = record { index = none; content_length = none; topic = none; service_name = none }

-- one line of the header
pub read_line : Bytes → Fields → Expected Fields
read_line line fields =
    if starts_with line index_key
    then parse_unsigned (drop (length index_key) line) (codes "multipart index")
      >>= (λ parsed. expected (record fields { index = some parsed }))
    else if starts_with line topic_key
    then expected (record fields { topic = some (drop (length topic_key) line) })
    else if starts_with line service_key
    then expected (record fields { service_name = some (drop (length service_key) line) })
    else if starts_with line length_key
    then parse_unsigned (drop (length length_key) line) (codes "multipart content length")
      >>= (λ parsed. expected (record fields { content_length = some parsed }))
    else expected fields

-- `std::min(line_end == npos ? header_end : line_end, header_end)`
abbrev pub end_of_line : Option ℕ → ℕ → ℕ
end_of_line none header_end = header_end
end_of_line (some line_end) header_end = min line_end header_end

-- The loop over the header lines: `text` starts at `headerPosition`, and `left` is the distance to
-- `headerEnd`. Each round takes two bytes at least, so any fuel above `left` is enough.
pub read_lines : ℕ → (text : Bytes) (left : ℕ) → Fields → Expected Fields
read_lines zero text left fields = expected fields
read_lines (suc fuel) text left fields =
    let end = end_of_line (find_text crlf text) left in
    let rest = read_lines fuel (drop (end + 2) text) (left - (end + 2)) in
    if ltb 0 left then read_line (take end text) fields >>= rest else expected fields

-- `parts.back().index`, if there are parts
pub last_index : List BatchPart → Option ℕ
last_index [] = none
last_index (part ∷ []) = some part.index
last_index (part ∷ next ∷ parts) = last_index (next ∷ parts)

-- whether an index may stand behind the parts
pub is_next : List BatchPart → ℕ → Bool
is_next parts index = elim (last_index parts) [
  | none ↦ true
  | some last ↦ not (last == 2 ^ 64 - 1) && index == last + 1
]

-- the four fields of a header that has them all
pub all_fields : Fields → Expected (ℕ × Bytes × Bytes × ℕ)
all_fields fields = elim fields.index [
  | none ↦ missing
  | some index ↦ elim fields.topic [
    | none ↦ missing
    | some topic ↦ elim fields.service_name [
      | none ↦ missing
      | some service_name ↦ elim fields.content_length [
        | none ↦ missing
        | some content_length ↦ expected (index, topic, service_name, content_length)
      ]
    ]
  ]
]
  where
    missing : Expected (ℕ × Bytes × Bytes × ℕ)
    missing =
        unexpected
          (codes "Multipart part is missing its index, topic, service name, or content length")

-- One round of the loop of `decodeBatch` behind the boundary line: the part, and the text behind it.
pub decode_part : List BatchPart → Bytes → Expected (BatchPart × Bytes)
decode_part parts text = elim (find_text (crlf ++ crlf) text) [
  | none ↦ unexpected (codes "Incomplete multipart headers")
  | some header_end ↦ do
    fields ← read_lines (suc header_end) text header_end no_fields
    (index, topic, service_name, content_length) ← all_fields fields
    let rest = drop (header_end + 4) text
    require (leb content_length (length rest))
        (codes "Multipart payload is shorter than its content length")
    require (is_next parts index) (codes "Long-polling batch contains non-consecutive indices")
    let payload = take content_length rest
    let behind = drop content_length rest
    require (starts_with behind crlf) (codes "Multipart payload is not followed by a boundary")
    expected (
      record { index = index; topic = topic; service_name = service_name; payload = payload },
      drop 2 behind,
    )
]

-- The loop of `decodeBatch`. Each round takes the boundary line at least, so any fuel above the
-- length of the text is enough.
pub decode_loop : ℕ → (boundary text : Bytes) → List BatchPart → Expected (List BatchPart)
decode_loop zero boundary text parts = unexpected []
decode_loop (suc fuel) boundary text parts =
    if is_empty text
    then unexpected (codes "Missing final multipart boundary")
    else if starts_with text (boundary ++ (dashes ++ crlf))
    then (if is_empty (drop (length (boundary ++ (dashes ++ crlf))) text)
        then expected parts
        else unexpected (codes "Unexpected data after final multipart boundary"))
    else if starts_with text (boundary ++ crlf)
    then decode_part parts (drop (length (boundary ++ crlf)) text)
      >>= (λ round. decode_loop fuel boundary round.1 (parts ++ round.0 ∷ []))
    else unexpected (codes "Missing multipart boundary")

-- `decodeBatch`
pub decode_batch : Bytes → Expected (List BatchPart)
decode_batch body = elim (find_text crlf body) [
  | none ↦ unexpected (codes "Missing multipart boundary")
  | some boundary_end ↦
      (if not (starts_with body dashes)
        then unexpected (codes "Missing multipart boundary")
        else if leb boundary_end 2 || ltb 72 boundary_end
        then unexpected (codes "Invalid multipart boundary length")
        else decode_loop (suc (length body)) (take boundary_end body) body [])
]
