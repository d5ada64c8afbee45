-- ===== src/LongPolling/Tests.antt =====
-- Runs of the encoder and the decoder, and the theorems at concrete batches.
use opencmw_cpp.Base.{
  ◌≡◌, refl, [], ◌∷◌, ◌++◌, Bytes, codes, arith, decimal, read_digits, starts_with,
}
use opencmw_cpp.LongPolling.{
  ◌>>=◌, unexpected, expected, BatchPart, encode_batch, decode_batch, encode_loop, is_encodable,
  part_text, decode_loop, decode_part, find_text, read_lines, read_line, all_fields, is_next,
  last_index, parse_unsigned, from_chars,
}
use opencmw_cpp.LongPolling.Header.{IsEncodable}
use opencmw_cpp.LongPolling.RoundTrip.{decode_batch-encode_batch}
use opencmw_cpp.LongPolling.Sound.{IsRun, decode_batch-IsRun}

-- two messages of one topic; the second payload is a line end
abbrev one : BatchPart
one = record { index = 7; topic = codes "/a?b=c"; service_name = codes "/a"; payload = codes "x" }

abbrev two : BatchPart
two = record { index = 8; topic = codes "/a"; service_name = []; payload = 13 ∷ 10 ∷ [] }

abbrev two_texts : Bytes
two_texts =
    codes "--b"
    ++ 13 ∷ 10 ∷ codes "x-opencmw-long-polling-idx: 7"
    ++ 13 ∷ 10 ∷ codes "ignored: 1"
    ++ 13 ∷ 10 ∷ codes "content-length: 1"
    ++ 13 ∷ 10 ∷ codes "x-opencmw-topic: /a?b=c"
    ++ 13 ∷ 10 ∷ codes "x-opencmw-service-name: /a"
    ++ 13 ∷ 10 ∷ 13 ∷ 10 ∷ codes "x"
    ++ 13 ∷ 10 ∷ codes "--b--"
    ++ 13 ∷ 10 ∷ []

-- header lines in another order, with a line that is not known, and another boundary
other_order : decode_batch two_texts ≡ expected (one ∷ [])
unfolding decode_batch decode_loop decode_part find_text read_lines read_line all_fields is_next
    last_index parse_unsigned from_chars read_digits starts_with
other_order = refl

-- An empty batch is encoded as a closing boundary only, which the decoder takes for the boundary.
empty_batch : (encode_batch [] >>= decode_batch) ≡ unexpected (codes "Incomplete multipart headers")
unfolding encode_batch is_encodable encode_loop decode_batch decode_loop decode_part find_text
    starts_with
empty_batch = refl

-- The batch is refused if an index is left out.
gap :
    (encode_batch (one ∷ one ∷ []) >>= decode_batch)
    ≡ unexpected (codes "Long-polling batch contains non-consecutive indices")
unfolding encode_batch is_encodable encode_loop part_text decimal decode_batch decode_loop
    decode_part find_text read_lines read_line all_fields is_next last_index parse_unsigned
    from_chars read_digits starts_with
gap = refl

one-IsEncodable : IsEncodable one
one-IsEncodable = record {
  topic_line = refl;
  service_line = refl;
  index_fits = omega arith;
  payload_fits = omega arith;
}

two-IsEncodable : IsEncodable two
two-IsEncodable = record {
  topic_line = refl;
  service_line = refl;
  index_fits = omega arith;
  payload_fits = omega arith;
}

decode_batch-encode_batch_example :
    (encode_batch (one ∷ two ∷ []) >>= decode_batch) ≡ expected (one ∷ two ∷ [])
decode_batch-encode_batch_example =
    decode_batch-encode_batch one (two ∷ []) (one-IsEncodable, (two-IsEncodable, tt))
      (refl, (refl, tt))

decode_batch-IsRun_example : IsRun (one ∷ [])
decode_batch-IsRun_example = decode_batch-IsRun two_texts (one ∷ []) other_order
