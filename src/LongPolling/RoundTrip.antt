-- ===== src/LongPolling/RoundTrip.antt =====
-- The parts that the encoder writes and the decoder reads back.
use opencmw_cpp.Base.{
  ℕ, zero, suc, ◌+◌, ◌^◌, ◌<◌, ◌≡◌, refl, sym, ap, ◌⊎◌, inl, inr, ◌∙◌, true, none, some, List, [],
  ◌∷◌, ◌++◌, append-nil, append_assoc, Bytes, length, All, arith, length-append, starts_with,
}
use opencmw_cpp.LongPolling.{
  ◌>>=◌, expected, crlf, dashes, boundary_name, BatchPart, part_text, encode_loop, encode_batch,
  is_encodable, decode_part, decode_loop, decode_batch, is_next, last_index,
}
use opencmw_cpp.LongPolling.Lines.{find_text-crlf}
use opencmw_cpp.LongPolling.Header.{IsEncodable, part_text-lines, decode_part-lines}

-- The indices go up by one from the given one on.
abbrev pub IsConsecutive : ℕ → List BatchPart → Type 0
IsConsecutive index [] = Unit
IsConsecutive index (part ∷ parts) = (part.index ≡ index) × IsConsecutive (index + 1) parts

-- what the encoder writes: the parts, and the closing boundary
abbrev texts : List BatchPart → Bytes
texts [] = dashes ++ boundary_name ++ (dashes ++ crlf)
texts (part ∷ parts) = part_text part ++ texts parts

encode_loop-texts :
    (parts : List BatchPart) (body : Bytes)
    → encode_loop parts body ++ dashes ++ boundary_name ++ (dashes ++ crlf) ≡ body ++ texts parts
unfolding encode_loop
encode_loop-texts [] body = simp append_assoc
encode_loop-texts (part ∷ parts) body =
    encode_loop-texts parts (body ++ part_text part)
    ∙ append_assoc body (part_text part) (texts parts)

last_index-append :
    (parts : List BatchPart) (part : BatchPart) → last_index (parts ++ part ∷ []) ≡ some part.index
unfolding last_index
last_index-append [] part = refl
last_index-append (p ∷ []) part = refl
last_index-append (p ∷ q ∷ parts) part = last_index-append (q ∷ parts) part

-- the index that the parts ask for, if there are parts
abbrev Asks : List BatchPart → ℕ → Type 0
Asks parts index =
    (last_index parts ≡ none) ⊎ ((last : ℕ) × (last_index parts ≡ some last) × (index ≡ last + 1))

is_next_of_Asks :
    (parts : List BatchPart) (index : ℕ)
    → Asks parts index
    → index < 2 ^ 64
    → is_next parts index ≡ true
unfolding is_next
is_next_of_Asks parts index (inl none_yet) h = rw (is_next, none_yet) refl
is_next_of_Asks parts index (inr (last, e, follows)) h = rw (is_next, e) (ground arith)

length-part_text-pos : (part : BatchPart) → 0 < length (part_text part)
unfolding part_text
length-part_text-pos part = omega arith

decode_loop-part :
    (fuel : ℕ) (parts : List BatchPart) (lines : Bytes) (part : BatchPart) (behind : Bytes)
    → decode_part parts lines ≡ expected (part, behind)
    → decode_loop
        (suc fuel)
        (dashes ++ boundary_name)
        (dashes ++ boundary_name ++ crlf ++ lines)
        parts
      ≡ decode_loop fuel (dashes ++ boundary_name) behind (parts ++ part ∷ [])
unfolding decode_loop starts_with
decode_loop-part fuel parts lines part behind e = rw e refl

length_behind :
    (part : BatchPart) (parts : List BatchPart) (fuel : ℕ)
    → length (texts (part ∷ parts)) < suc fuel
    → length (texts parts) < fuel
length_behind part parts fuel room =
    omega (arith, length-part_text-pos part, length-append (part_text part) (texts parts))

is_encodable_of_All : (parts : List BatchPart) → All IsEncodable parts → is_encodable parts ≡ true
unfolding is_encodable
is_encodable_of_All [] h = refl
is_encodable_of_All (part ∷ parts) h =
    rw (h.0.topic_line, h.0.service_line) (is_encodable_of_All parts h.1)

encode_batch-texts :
    (parts : List BatchPart) → All IsEncodable parts → encode_batch parts ≡ expected (texts parts)
unfolding encode_batch
encode_batch-texts parts h =
    rw (is_encodable_of_All parts h) (ap expected (encode_loop-texts parts []))

decode_batch-loop :
    (body lines : Bytes)
    → body ≡ dashes ++ boundary_name ++ crlf ++ lines
    → decode_batch body ≡ decode_loop (suc (length body)) (dashes ++ boundary_name) body []
unfolding decode_batch starts_with
decode_batch-loop body lines e =
    rw e (rw (decode_batch, find_text-crlf (dashes ++ boundary_name) lines refl) refl)

decode_loop-texts :
    (fuel index : ℕ) (before parts : List BatchPart)
    → All IsEncodable parts
    → IsConsecutive index parts
    → Asks before index
    → length (texts parts) < fuel
    → decode_loop fuel (dashes ++ boundary_name) (texts parts) before ≡ expected (before ++ parts)
unfolding decode_loop starts_with
decode_loop-texts zero index before parts enc follow asks room = absurd (omega arith)
decode_loop-texts (suc fuel) index before [] enc follow asks room =
    ap expected (sym (append-nil before))
decode_loop-texts (suc fuel) index before (part ∷ parts) enc follow asks room =
    ap (λ text. decode_loop (suc fuel) (dashes ++ boundary_name) text before)
      (part_text-lines part (texts parts))
    ∙ decode_loop-part fuel before _ part (texts parts) (
        decode_part-lines part (texts parts) enc.0 before
          (is_next_of_Asks before part.index (rw follow.0 asks) enc.0.index_fits))
    ∙ decode_loop-texts fuel (index + 1) (before ++ part ∷ []) parts enc.1 follow.1
        (inr (part.index, last_index-append before part, rw follow.0 refl))
        (length_behind part parts fuel room)
    ∙ ap expected (append_assoc before (part ∷ []) parts)

-- A batch that is not empty, whose indices go up by one, whose topics and service names hold
-- neither CR nor LF and whose numbers fit into 64 bits is encoded, and read back from its encoding.
pub decode_batch-encode_batch :
    (part : BatchPart) (parts : List BatchPart)
    → All IsEncodable (part ∷ parts)
    → IsConsecutive part.index (part ∷ parts)
    → (encode_batch (part ∷ parts) >>= decode_batch) ≡ expected (part ∷ parts)
unfolding last_index
decode_batch-encode_batch part parts enc follow = rw (encode_batch-texts (part ∷ parts) enc) (
    decode_batch-loop (texts (part ∷ parts)) _ (part_text-lines part (texts parts))
    ∙ decode_loop-texts (suc (length (texts (part ∷ parts)))) part.index [] (part ∷ parts) enc
        follow (inl refl) (omega arith))
