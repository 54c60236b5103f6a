-- ===== src/History.antt =====
-- history-markdown.ts and history-scroll.ts: how the captured text of a terminal is shown.
pub mod Spans
pub mod Signs
pub mod Lines
use herdr_connect.Common.{
  ℕ, zero, suc, ◌-◌, ◌+◌, ◌*◌, leb, ltb, ◌==◌, Text, text, ◌is◌, is_empty, Bool, true, false, not,
  ◌&&◌, ◌||◌, Option, none, some, List, [], ◌∷◌, ◌++◌, map, any, select, if◌then◌else◌, ◌>>=◌,
  is_some,
}
use herdr_connect.Discovery.{split_on}
use herdr_connect.Alias.{is_space, trim}

pub data InlineSpan : Type 0 where
  plain bold inline_code : Text → InlineSpan

pub data MarkdownLine : Type 0 where
  header code : Text → MarkdownLine
  spans : List InlineSpan → MarkdownLine

-- What follows the first text, and what precedes it at the end.
abbrev pub strip_start : Text → Text → Option Text
strip_start [] s = some s
strip_start (m ∷ ms) [] = none
strip_start (m ∷ ms) (c ∷ s) = if m == c then strip_start ms s else none

abbrev pub before : Bool → ℕ → Option Text → Option Text
before true c rest = some []
before false c none = none
before false c (some r) = some (c ∷ r)

abbrev pub strip_end : Text → Text → Option Text
strip_end marks [] = if [] is marks then some [] else none
strip_end marks (c ∷ s) = before ((c ∷ s) is marks) c (strip_end marks s)

-- How many units in front pass the test, and what is left after some units.
abbrev pub run_length : (ℕ → Bool) → Text → ℕ
run_length p [] = 0
run_length p (c ∷ s) = let n = run_length p s in if p c then n + 1 else 0

abbrev pub after : ℕ → Text → Text
after zero s = s
after (suc n) [] = []
after (suc n) (c ∷ s) = after n s

-- `INLINE_RE`: the length of a match that starts here, and 0 if there is none. The inside is the
-- longest, since its mark cannot stand in it.
abbrev pub inside : ℕ → Text → ℕ
inside mark s = run_length (λ c. not (c == mark) && not (c == 10)) s

abbrev pub enclosed : Text → ℕ → ℕ → Option Text → ℕ
enclosed marks mark width none = 0
enclosed marks mark width (some s) =
    let n = inside mark s in
    if ltb 0 n && is_some (strip_start marks (after n s)) then n + 2 * width else 0

abbrev pub match_length : Text → ℕ
match_length s =
    let n = enclosed (text "**") b'*' 2 (strip_start (text "**") s) in
    if n == 0 then enclosed (text "`") b'`' 1 (strip_start (text "`") s) else n

abbrev pub emit : Bool → Text → List Text → List Text
emit true part parts = parts
emit false part parts = part ∷ parts

-- `split(INLINE_RE)`: the first number is what is left of a match, the text is the part so far.
unfoldable pub parts_from : ℕ → Text → Text → List Text
parts_from n part [] = part ∷ []
parts_from zero part (c ∷ s) =
    let n = match_length (c ∷ s) in
    emit (n == 0) part (parts_from (n - 1) (if n == 0 then part ++ (c ∷ []) else c ∷ []) s)
parts_from (suc zero) part (c ∷ s) = (part ++ (c ∷ [])) ∷ parts_from zero [] s
parts_from (suc (suc n)) part (c ∷ s) = parts_from (suc n) (part ++ (c ∷ [])) s

-- A part between two marks that do not overlap.
abbrev pub between : Text → Text → Option Text
between marks part = strip_start marks part >>= strip_end marks

abbrev pub code_or_plain : Text → Option Text → InlineSpan
code_or_plain part none = plain part
code_or_plain part (some s) = inline_code s

abbrev pub bold_or : InlineSpan → Option Text → InlineSpan
bold_or otherwise none = otherwise
bold_or otherwise (some s) = bold s

abbrev pub span_of : Text → InlineSpan
span_of part = bold_or (code_or_plain part (between (text "`") part)) (between (text "**") part)

unfoldable pub parse_inline : Text → List InlineSpan
unfolding parts_from
parse_inline [] = plain [] ∷ []
parse_inline (c ∷ line) =
    map span_of (select (λ part. not (is_empty part)) (parts_from 0 [] (c ∷ line)))

-- `FENCE_RE` on a trimmed line: whether the fence names a language.
abbrev pub is_tagged : Text → Bool
is_tagged [] = false
is_tagged (c ∷ s) = not (is_space c)

abbrev pub tag_of_rest : Option Text → Option Bool
tag_of_rest none = none
tag_of_rest (some rest) = some (is_tagged rest)

unfoldable pub fence_tag : Text → Option Bool
unfolding trim
fence_tag line = tag_of_rest (strip_start (text "```") (trim line))

-- What `.` does not match.
abbrev pub is_terminator : ℕ → Bool
is_terminator c = c == 10 || c == 13 || c == 8_232 || c == 8_233

abbrev pub one_line : Text → Option Text
one_line s = if any is_terminator s then none else some s

-- What follows the number signs: spaces and then a text. Where there is no text, the last of two or
-- more spaces is the text.
abbrev pub after_signs : Text → Option Text
after_signs s =
    let n = run_length is_space s in
    if n == 0
    then none
    else if is_empty (after n s)
    then if n == 1 then none else one_line (after (n - 1) s)
    else one_line (after n s)

-- `HEADER_RE`
unfoldable pub header_text : Text → Option Text
header_text line =
    let n = run_length (λ c. c == b'#') line in
    if ltb 0 n && leb n 6 then after_signs (after n line) else none

abbrev pub header_or_spans : Text → Option Text → MarkdownLine
header_or_spans line none = spans (parse_inline line)
header_or_spans line (some s) = header s

abbrev pub line_of : Bool → Text → MarkdownLine
line_of true line = code line
line_of false line = header_or_spans line (header_text line)

abbrev pub shown_lines : Bool → Text → Option Bool → List MarkdownLine
shown_lines in_code line none = line_of in_code line ∷ []
shown_lines in_code line (some tagged) = []

-- Whether the next line is in a code block.
abbrev pub next_in_code : Bool → Option Bool → Bool
next_in_code in_code none = in_code
next_in_code in_code (some tagged) = if tagged then true else not in_code

unfoldable pub parse_lines : Bool → List Text → List MarkdownLine
unfolding fence_tag header_text parse_inline
parse_lines in_code [] = []
parse_lines in_code (line ∷ lines) =
    shown_lines in_code line (fence_tag line)
    ++ parse_lines (next_in_code in_code (fence_tag line)) lines

unfoldable pub parse_history_markdown : Text → List MarkdownLine
unfolding parse_lines split_on
parse_history_markdown s = parse_lines false (split_on 10 s)

pub record HistoryContent : Type 0 where
  pub text : Text
  pub truncated : Bool

abbrev pub same_flag : Bool → Bool → Bool
same_flag true b = b
same_flag false b = not b

unfoldable pub is_same_history_content : Option HistoryContent → HistoryContent → Bool
is_same_history_content none next = false
is_same_history_content (some current) next =
    (current.text is next.text) && same_flag current.truncated next.truncated
