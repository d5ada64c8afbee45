-- ===== src/LongPolling/Lines.antt =====
-- The searches for line ends and blank lines, and the loop over the header lines of a part.
use opencmw_cpp.Base.{
  ℕ, zero, suc, ◌+◌, ◌-◌, ◌<◌, ◌==◌, min, ◌≡◌, refl, ◌∙◌, ap, true, false, some, [], ◌∷◌, ◌++◌,
  Bytes, length, take, drop, all, starts_with, arith, suc-add, lt→ltb,
}
use opencmw_cpp.LongPolling.{
  ◌>>=◌, expected, crlf, is_line_char, find_text, Fields, read_line, read_lines,
}

-- A text without CR and LF ends where the next CR LF stands.
pub find_text-crlf :
    (line behind : Bytes)
    → all is_line_char line ≡ true
    → find_text crlf (line ++ crlf ++ behind) ≡ some (length line)
unfolding find_text starts_with
find_text-crlf [] behind h = refl
find_text-crlf (c ∷ line) behind h = ground (arith, find_text-crlf line behind)

-- The first byte is not CR.
abbrev pub IsLineStart : Bytes → Type 0
IsLineStart [] = Unit
IsLineStart (c ∷ s) = (c == 13) ≡ false

find_text-blank_behind :
    (behind : Bytes) (i : ℕ)
    → IsLineStart behind
    → find_text (crlf ++ crlf) behind ≡ some i
    → find_text (crlf ++ crlf) (crlf ++ behind) ≡ some (2 + i)
unfolding find_text starts_with
find_text-blank_behind [] i h k = cc
find_text-blank_behind (c ∷ behind) i h k = rw k (ground (arith))

-- The search for a blank line passes a line that another line follows.
pub find_text-blank :
    (line behind : Bytes) (i : ℕ)
    → all is_line_char line ≡ true
    → IsLineStart behind
    → find_text (crlf ++ crlf) behind ≡ some i
    → find_text (crlf ++ crlf) (line ++ crlf ++ behind) ≡ some (length line + (2 + i))
unfolding find_text starts_with
find_text-blank [] behind i h start k =
    find_text-blank_behind behind i start k ∙ ap some (omega arith)
find_text-blank (c ∷ line) behind i h start k = ground (arith, find_text-blank line behind i)

-- The search for a blank line ends behind the last line.
pub find_text-blank_last :
    (line behind : Bytes)
    → all is_line_char line ≡ true
    → find_text (crlf ++ crlf) (line ++ crlf ++ (crlf ++ behind)) ≡ some (length line)
unfolding find_text starts_with
find_text-blank_last [] behind h = refl
find_text-blank_last (c ∷ line) behind h = ground (arith, find_text-blank_last line behind)

drop_line : (line behind : Bytes) → drop (length line + 2) (line ++ crlf ++ behind) ≡ behind
drop_line [] behind = refl
drop_line (c ∷ line) behind = rw (suc-add (length line) 2) (drop_line line behind)

take_line : (line behind : Bytes) → take (length line) (line ++ crlf ++ behind) ≡ line
take_line [] behind = refl
take_line (c ∷ line) behind = ap (◌∷◌ c) (take_line line behind)

suc-sub_one : (n : ℕ) → suc n - 1 ≡ n
suc-sub_one n = omega arith

min-left : (a b rest : ℕ) → b ≡ a + rest → min a b ≡ a
min-left a b rest e = omega arith

rest_left : (left a rest : ℕ) → left ≡ a + rest → left - (a + 2) ≡ rest - 2
rest_left left a rest e = omega arith

read_lines-suc :
    (fuel left rest : ℕ) (line behind : Bytes) (fields : Fields)
    → all is_line_char line ≡ true
    → left ≡ length line + rest
    → 0 < left
    → read_lines (suc fuel) (line ++ crlf ++ behind) left fields
      ≡ (read_line line fields >>= read_lines fuel behind (rest - 2))
unfolding read_lines
read_lines-suc fuel left rest line behind fields h e pos = rw (
  find_text-crlf line behind h,
  lt→ltb 0 left pos,
  min-left (length line) left rest e,
  take_line line behind,
  drop_line line behind,
  rest_left left (length line) rest e,
)

-- A round of the header loop reads the line and goes on behind it.
pub read_lines-line :
    (fuel left rest : ℕ) (line behind : Bytes) (fields : Fields)
    → all is_line_char line ≡ true
    → left ≡ length line + rest
    → 0 < left
    → left < fuel
    → read_lines fuel (line ++ crlf ++ behind) left fields
      ≡ (read_line line fields >>= read_lines (fuel - 1) behind (rest - 2))
read_lines-line zero left rest line behind fields h e pos room = absurd (omega arith)
read_lines-line (suc fuel) left rest line behind fields h e pos room =
    rw (suc-sub_one fuel) (read_lines-suc fuel left rest line behind fields h e pos)

pub read_lines-end :
    (fuel : ℕ) (text : Bytes) (fields : Fields) → read_lines fuel text 0 fields ≡ expected fields
unfolding read_lines
read_lines-end zero text fields = refl
read_lines-end (suc fuel) text fields = refl

-- A header line: it is not empty, and holds neither CR nor LF.
abbrev pub IsLine : Bytes → Type 0
IsLine [] = ⊥
IsLine (c ∷ s) = all is_line_char (c ∷ s) ≡ true

IsLine-all : (line : Bytes) → IsLine line → all is_line_char line ≡ true
IsLine-all [] h = absurd h
IsLine-all (c ∷ s) h = h

IsLine-pos : (line : Bytes) → IsLine line → 0 < length line
IsLine-pos [] h = absurd h
IsLine-pos (c ∷ s) h = omega arith

two_less : (n : ℕ) → 2 + n - 2 ≡ n
two_less n = omega arith

IsLine-start : (line behind : Bytes) → IsLine line → IsLineStart (line ++ crlf ++ behind)
IsLine-start [] behind h = absurd h
IsLine-start (c ∷ s) behind h = ground arith

-- A line that can be read, in front of others.
read_lines-next :
    (fuel next : ℕ) (line behind : Bytes) (fields fields' : Fields)
    → IsLine line
    → read_line line fields ≡ expected fields'
    → length line + (2 + next) < fuel
    → read_lines fuel (line ++ crlf ++ behind) (length line + (2 + next)) fields
      ≡ read_lines (fuel - 1) behind next fields'
read_lines-next fuel next line behind fields fields' h e room =
    read_lines-line fuel _ (2 + next) line behind fields (IsLine-all line h) refl (omega arith) room
    ∙ rw (e, two_less next) refl

-- A line that can be read, and is the last.
read_lines-last :
    (fuel : ℕ) (line behind : Bytes) (fields fields' : Fields)
    → IsLine line
    → read_line line fields ≡ expected fields'
    → length line < fuel
    → read_lines fuel (line ++ crlf ++ behind) (length line) fields ≡ expected fields'
read_lines-last fuel line behind fields fields' h e room =
    read_lines-line fuel _ 0 line behind fields (IsLine-all line h) (omega arith)
      (IsLine-pos line h) room
    ∙ rw e (read_lines-end (fuel - 1) behind fields')

drop_two : (k : ℕ) → 0 + (2 + k) ≡ suc (suc k)
drop_two k = omega arith

header_size-add :
    (a b c d : ℕ)
    → a + (2 + (b + (2 + (c + (2 + d))))) + 4 ≡ a + (2 + (b + (2 + (c + (2 + (d + (2 + 2)))))))
header_size-add a b c d = omega arith

drop_past_line :
    (k : ℕ) (line behind : Bytes)
    → drop (length line + (2 + k)) (line ++ crlf ++ behind) ≡ drop k behind
drop_past_line k [] behind = rw (drop_two k) refl
drop_past_line k (c ∷ line) behind =
    rw (suc-add (length line) (2 + k)) (drop_past_line k line behind)

-- The text of a header of four lines, with a blank line behind them, and its size up to there.
abbrev pub header_text : (first second third fourth behind : Bytes) → Bytes
header_text first second third fourth behind =
    first ++ crlf ++ (second ++ crlf ++ (third ++ crlf ++ (fourth ++ crlf ++ (crlf ++ behind))))

abbrev pub header_size : (first second third fourth : Bytes) → ℕ
header_size first second third fourth =
    length first + (2 + (length second + (2 + (length third + (2 + length fourth)))))

module _ (first second third fourth behind : Bytes) (is_first : IsLine first)
    (is_second : IsLine second) (is_third : IsLine third) (is_fourth : IsLine fourth) where
  abbrev header : Bytes
  header = header_text first second third fourth behind

  abbrev size : ℕ
  size = header_size first second third fourth

  pub find_text-header : find_text (crlf ++ crlf) header ≡ some size
  find_text-header =
      find_text-blank first _ _ (IsLine-all first is_first) (IsLine-start second _ is_second) (
        find_text-blank second _ _ (IsLine-all second is_second) (IsLine-start third _ is_third) (
          find_text-blank third _ _ (IsLine-all third is_third) (IsLine-start fourth _ is_fourth)
            (find_text-blank_last fourth behind (IsLine-all fourth is_fourth))))

  pub read_lines-header :
      (f0 f1 f2 f3 f4 : Fields)
      → read_line first f0 ≡ expected f1
      → read_line second f1 ≡ expected f2
      → read_line third f2 ≡ expected f3
      → read_line fourth f3 ≡ expected f4
      → read_lines (suc size) header size f0 ≡ expected f4
  read_lines-header f0 f1 f2 f3 f4 e1 e2 e3 e4 =
      read_lines-next _ _ first _ f0 f1 is_first e1 (omega arith)
      ∙ read_lines-next _ _ second _ f1 f2 is_second e2 (omega arith)
      ∙ read_lines-next _ _ third _ f2 f3 is_third e3 (omega arith)
      ∙ read_lines-last _ fourth _ f3 f4 is_fourth e4 (omega arith)

  pub drop-header : drop (size + 4) header ≡ behind
  drop-header =
      ap (λ n. drop n header)
        (header_size-add (length first) (length second) (length third) (length fourth))
      ∙ drop_past_line _ first _
      ∙ drop_past_line _ second _
      ∙ drop_past_line _ third _
      ∙ drop_past_line 2 fourth (crlf ++ behind)
