-- ===== src/LongPolling/Header.antt =====
-- What the decoder reads from the header lines that the encoder writes.
use opencmw_cpp.Base.{
  ℕ, suc, ◌+◌, ◌^◌, ◌<◌, ◌≡◌, ◌≢◌, refl, sym, ◌∙◌, ap, lt→ltb, true, some, List, [], ◌∷◌, ◌++◌,
  append-nil, append_assoc, Bytes, length, drop, all, is_digit, is_empty_of_ne, decimal,
  decimal_digits, decimal-ne-nil, read_digits, read_digits-decimal, starts_with, drop_append-length,
  take_append-length, le→leb, arith, length-append, all-append, all_mono,
}
use opencmw_cpp.LongPolling.{
  expected, crlf, is_line_char, find_text, Fields, read_line, read_lines, no_fields, index_key,
  topic_key, service_key, length_key, dashes, boundary_name, part_text, BatchPart, decode_part,
  is_next, all_fields, from_chars, parse_unsigned,
}
use opencmw_cpp.LongPolling.Lines.{
  IsLine, header_text, header_size, find_text-header, read_lines-header, drop-header,
}

from_chars-digits :
    (s : Bytes) (n : ℕ)
    → s ≢ []
    → all is_digit s ≡ true
    → read_digits 0 s ≡ (n, [])
    → n < 2 ^ 64
    → from_chars s ≡ some (n, [])
unfolding from_chars
from_chars-digits [] n h k e bound = absurd (h refl)
from_chars-digits (c ∷ s) n h k e bound = rw (e, lt→ltb n (2 ^ 64) bound) (ground arith)

-- A number that is written is parsed, if it fits.
pub parse_unsigned-decimal :
    (n : ℕ) (name : Bytes) → n < 2 ^ 64 → parse_unsigned (decimal n) name ≡ expected n
unfolding parse_unsigned
parse_unsigned-decimal n name bound = rw (
  is_empty_of_ne (decimal n) (decimal-ne-nil n),
  from_chars-digits (decimal n) n (decimal-ne-nil n) (decimal_digits n)
      (ap (read_digits 0) (sym (append-nil (decimal n))) ∙ read_digits-decimal n [] tt) bound,
)

read_line-index :
    (n : ℕ) (fields : Fields)
    → n < 2 ^ 64
    → read_line (index_key ++ decimal n) fields ≡ expected (record fields { index = some n })
unfolding read_line starts_with
read_line-index n fields bound = rw (parse_unsigned-decimal n _ bound)

read_line-topic :
    (topic : Bytes) (fields : Fields)
    → read_line (topic_key ++ topic) fields ≡ expected (record fields { topic = some topic })
unfolding read_line starts_with
read_line-topic topic fields = refl

read_line-service :
    (name : Bytes) (fields : Fields)
    → read_line (service_key ++ name) fields ≡ expected (record fields { service_name = some name })
unfolding read_line starts_with
read_line-service name fields = refl

read_line-length :
    (n : ℕ) (fields : Fields)
    → n < 2 ^ 64
    → read_line (length_key ++ decimal n) fields
      ≡ expected (record fields { content_length = some n })
unfolding read_line starts_with
read_line-length n fields bound = rw (parse_unsigned-decimal n _ bound)

is_digit-IsLine : (c : ℕ) → is_digit c ≡ true → is_line_char c ≡ true
is_digit-IsLine c h = ground arith

decimal_line : (n : ℕ) → all is_line_char (decimal n) ≡ true
decimal_line n = all_mono is_digit is_line_char (decimal n) is_digit-IsLine (decimal_digits n)

module _ (part : BatchPart) where
  abbrev index_line : Bytes
  index_line = index_key ++ decimal part.index

  abbrev topic_line : Bytes
  topic_line = topic_key ++ part.topic

  abbrev service_line : Bytes
  service_line = service_key ++ part.service_name

  abbrev length_line : Bytes
  length_line = length_key ++ decimal (length part.payload)

  -- the text of a part behind its boundary, line by line
  abbrev pub part_lines : Bytes → Bytes
  part_lines behind =
      header_text index_line topic_line service_line length_line (part.payload ++ (crlf ++ behind))

  pub part_text-lines :
      (behind : Bytes)
      → part_text part ++ behind ≡ dashes ++ boundary_name ++ crlf ++ part_lines behind
  unfolding part_text
  part_text-lines behind = simp append_assoc

-- A part that can be encoded: its texts have no line ends, and its numbers fit.
pub record IsEncodable (part : BatchPart) : Type 0 where
  pub topic_line : all is_line_char part.topic ≡ true
  pub service_line : all is_line_char part.service_name ≡ true
  pub index_fits : part.index < 2 ^ 64
  pub payload_fits : length part.payload < 2 ^ 64

-- a header line: a key and a text
key_line :
    (key line : Bytes)
    → all is_line_char key ≡ true
    → all is_line_char line ≡ true
    → all is_line_char (key ++ line) ≡ true
key_line key line h k = all-append is_line_char key line h k

decode_part-reads :
    (parts : List BatchPart) (text : Bytes) (header_end : ℕ) (fields : Fields) (part : BatchPart)
    (behind : Bytes)
    → find_text (crlf ++ crlf) text ≡ some header_end
    → read_lines (suc header_end) text header_end no_fields ≡ expected fields
    → all_fields fields ≡ expected (part.index, part.topic, part.service_name, length part.payload)
    → drop (header_end + 4) text ≡ part.payload ++ (crlf ++ behind)
    → is_next parts part.index ≡ true
    → decode_part parts text ≡ expected (part, behind)
unfolding decode_part starts_with
decode_part-reads parts text header_end fields part behind found read fields_all at_payload next =
    rw (
      decode_part,
      found,
      read,
      fields_all,
      at_payload,
      next,
      take_append-length part.payload (crlf ++ behind),
      drop_append-length part.payload (crlf ++ behind),
      length-append part.payload (crlf ++ behind),
      le→leb (length part.payload) (length part.payload + length (crlf ++ behind)) (omega arith),
    )

module _ (part : BatchPart) (behind : Bytes) (encodable : IsEncodable part) where
  abbrev fields_read : Fields
  fields_read = record {
    index = some part.index;
    content_length = some (length part.payload);
    topic = some part.topic;
    service_name = some part.service_name;
  }

  is_index_line : IsLine (index_line part)
  is_index_line = key_line index_key (decimal part.index) refl (decimal_line part.index)

  is_topic_line : IsLine (topic_line part)
  is_topic_line = key_line topic_key part.topic refl encodable.topic_line

  is_service_line : IsLine (service_line part)
  is_service_line = key_line service_key part.service_name refl encodable.service_line

  is_length_line : IsLine (length_line part)
  is_length_line = key_line length_key (decimal (length part.payload)) refl (decimal_line _)

  abbrev size : ℕ
  size = header_size (index_line part) (topic_line part) (service_line part) (length_line part)

  abbrev lines : Bytes
  lines = part_lines part behind

  find_text-lines : find_text (crlf ++ crlf) lines ≡ some size
  find_text-lines =
      find_text-header (index_line part) (topic_line part) (service_line part) (length_line part)
        (part.payload ++ (crlf ++ behind)) is_index_line is_topic_line is_service_line
        is_length_line

  read_lines-lines : read_lines (suc size) lines size no_fields ≡ expected fields_read
  read_lines-lines =
      read_lines-header (index_line part) (topic_line part) (service_line part) (length_line part)
        (part.payload ++ (crlf ++ behind)) is_index_line is_topic_line is_service_line
        is_length_line no_fields _ _ _ fields_read
        (read_line-index part.index no_fields encodable.index_fits) (read_line-topic part.topic _)
        (read_line-service part.service_name _)
        (read_line-length (length part.payload) _ encodable.payload_fits)

  drop-lines : drop (size + 4) lines ≡ part.payload ++ (crlf ++ behind)
  drop-lines =
      drop-header (index_line part) (topic_line part) (service_line part) (length_line part)
        (part.payload ++ (crlf ++ behind)) is_index_line is_topic_line is_service_line
        is_length_line

  fields_read-all :
      all_fields fields_read
      ≡ expected (part.index, part.topic, part.service_name, length part.payload)
  unfolding all_fields
  fields_read-all = refl

  pub decode_part-lines :
      (parts : List BatchPart)
      → is_next parts part.index ≡ true
      → decode_part parts lines ≡ expected (part, behind)
  decode_part-lines parts next =
      decode_part-reads parts lines size fields_read part behind find_text-lines read_lines-lines
        fields_read-all drop-lines next
