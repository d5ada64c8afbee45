-- ===== src/LongPolling/Sound.antt =====
-- What the decoder accepts, and that its loop ends.
use opencmw_cpp.Base.{
  ℕ, zero, suc, ◌+◌, ◌≤◌, ◌<◌, ◌≡◌, refl, subst, true, List, [], ◌∷◌, ◌++◌, Bytes, length, take,
  drop, arith, length-append, length-drop, starts_with, Bool-cases, inl, inr, ◌⊎◌, Option-cases,
}
use opencmw_cpp.LongPolling.{
  Expected, unexpected, expected, crlf, dashes, find_text, BatchPart, decode_part, decode_loop,
  read_lines, no_fields, all_fields, decode_batch, is_next, last_index,
}
use opencmw_cpp.LongPolling.RoundTrip.{IsConsecutive}

-- What a part that was read says of the text that it was read from.
record IsRead (parts : List BatchPart) (text : Bytes) (part : BatchPart) (behind : Bytes)
    : Type 0 where
  pub next : is_next parts part.index ≡ true
  pub shorter : length behind ≤ length text

length-drop_le : (text : Bytes) (a b c : ℕ) → length (drop a (drop b (drop c text))) ≤ length text
length-drop_le text a b c =
    omega
      (arith, length-drop c text, length-drop b (drop c text), length-drop a (drop b (drop c text)))

Expected-cases {κ} :
    {X : Type κ} (result : Expected X)
    → ((message : Bytes) × (result ≡ unexpected message)) ⊎ ((x : X) × (result ≡ expected x))
Expected-cases (unexpected message) = inl (message, refl)
Expected-cases (expected x) = inr (x, refl)

decode_part-IsRead :
    (parts : List BatchPart) (text : Bytes) (part : BatchPart) (behind : Bytes)
    → decode_part parts text ≡ expected (part, behind)
    → IsRead parts text part behind
unfolding decode_part
decode_part-IsRead parts text part behind e = elim (Option-cases (find_text (crlf ++ crlf) text)) [
  | inl absent ↦ ground (arith, absent)
  | inr (header_end, found) ↦
      elim (Expected-cases (read_lines (suc header_end) text header_end no_fields)) [
        | inl (message, refused) ↦ ground (arith, found, refused)
        | inr (fields, read) ↦ elim (Expected-cases (all_fields fields)) [
          | inl (message, refused) ↦ ground (arith, found, read, refused)
          | inr ((index, topic, service_name, size), complete) ↦ record {
            next = ground (arith, found, read, complete);
            shorter =
                ground (arith, found, read, complete, length-drop_le text 2 size (header_end + 4));
          }
        ]
      ]
]

-- The indices of the parts go up by one.
abbrev pub IsRun : List BatchPart → Type 0
IsRun [] = Unit
IsRun (part ∷ parts) = IsConsecutive part.index (part ∷ parts)

IsConsecutive-append :
    (index : ℕ) (first : BatchPart) (parts : List BatchPart) (part : BatchPart)
    → IsConsecutive index (first ∷ parts)
    → is_next (first ∷ parts) part.index ≡ true
    → IsConsecutive index (first ∷ parts ++ part ∷ [])
unfolding is_next last_index
IsConsecutive-append index first [] part h next = (h.0, (ground (arith, h.0), tt))
IsConsecutive-append index first (second ∷ parts) part h next =
    (h.0, IsConsecutive-append (index + 1) second parts part h.1 next)

IsRun-append :
    (parts : List BatchPart) (part : BatchPart)
    → IsRun parts
    → is_next parts part.index ≡ true
    → IsRun (parts ++ part ∷ [])
IsRun-append [] part h next = (refl, tt)
IsRun-append (first ∷ parts) part h next = IsConsecutive-append first.index first parts part h next

decode_loop-IsRun :
    (fuel : ℕ) (boundary text : Bytes) (before parts : List BatchPart)
    → IsRun before
    → decode_loop fuel boundary text before ≡ expected parts
    → IsRun parts
unfolding decode_loop
decode_loop-IsRun zero boundary text before parts h e = cc
decode_loop-IsRun (suc fuel) boundary text before parts h e =
    elim (Expected-cases (decode_part before (drop (length (boundary ++ crlf)) text))) [
      | inl (message, refused) ↦ subst IsRun (ground (arith, refused)) h
      | inr ((part, behind), read) ↦
          elim (Bool-cases (starts_with text (boundary ++ (dashes ++ crlf)))) [
            | inl closed ↦ subst IsRun (ground (arith, closed)) h
            | inr more ↦
                decode_loop-IsRun fuel boundary behind (before ++ part ∷ []) parts
                  (IsRun-append before part h (decode_part-IsRead before _ part behind read).next)
                  (ground (arith, more, read))
          ]
    ]

-- The decoder accepts batches only whose indices go up by one.
pub decode_batch-IsRun :
    (body : Bytes) (parts : List BatchPart) → decode_batch body ≡ expected parts → IsRun parts
unfolding decode_batch
decode_batch-IsRun body parts e = elim (Option-cases (find_text crlf body)) [
  | inl absent ↦ absurd (ground (arith, absent))
  | inr (size, found) ↦
      decode_loop-IsRun (suc (length body)) (take size body) body [] parts tt
        (ground (arith, found))
]

-- Any fuel above the length of the text lets the loop end.
decode_loop-fuel :
    (fuel more : ℕ) (boundary text : Bytes) (before : List BatchPart)
    → length text < fuel
    → length text < more
    → decode_loop fuel boundary text before ≡ decode_loop more boundary text before
unfolding decode_loop
decode_loop-fuel zero more boundary text before h k = absurd (omega arith)
decode_loop-fuel (suc fuel) zero boundary text before h k = absurd (omega arith)
decode_loop-fuel (suc fuel) (suc more) boundary text before h k =
    elim (Expected-cases (decode_part before (drop (length (boundary ++ crlf)) text))) [
      | inl (message, refused) ↦ rw refused refl
      | inr ((part, behind), read) ↦ ground (
        arith,
        read,
        (decode_part-IsRead before _ part behind read).shorter,
        length-drop (length (boundary ++ crlf)) text,
        length-append boundary crlf,
        decode_loop-fuel fuel more boundary behind (before ++ part ∷ []),
      )
    ]
