-- ===== src/History/Lines.antt =====
-- history-markdown.ts, `parseHistoryMarkdown`: what becomes of each line of a capture.
use herdr_connect.Common.{
  ◌&&◌, subst, ◌==◌, ◌≡◌, refl, arith, Text, text, Bool, true, false, not, ◌||◌, Option, none, some,
  List, [], ◌∷◌, ◌++◌,
}
use herdr_connect.Discovery.{split_on}
use herdr_connect.Alias.{is_space, trim}
use herdr_connect.History.{
  MarkdownLine, header, code, spans, strip_start, tag_of_rest, fence_tag, header_text,
  header_or_spans, line_of, shown_lines, next_in_code, parse_lines, parse_history_markdown,
}
use herdr_connect.History.Spans.{spelled, parse_inline-spelled}
use herdr_connect.History.Signs.{IsHeader, header_text_iff}

-- A fence begins, apart from spaces, with three back quotes, and names a language if no space and not
-- the end of the line follows them.
abbrev pub begins_fence : Text → Bool
begins_fence (a ∷ b ∷ c ∷ rest) = a == b'`' && b == b'`' && c == b'`'
begins_fence _ = false

abbrev pub names_language : Text → Bool
names_language (a ∷ b ∷ c ∷ d ∷ rest) = not (is_space d)
names_language _ = false

-- What is made of a line in a code block and outside: in a block the line itself; outside the text of
-- the header that the line is, or, if it is none, spans that with their marks are the line.
abbrev pub Shows : Bool → Text → MarkdownLine → Type 0
Shows true line (code s) = s ≡ line
Shows true line _ = ⊥
Shows false line (code s) = ⊥
Shows false line (header h) = IsHeader line h
Shows false line (spans ss) = (spelled ss ≡ line) × ((h : Text) → ¬ IsHeader line h)

-- A fence makes no line: one that names a language begins a block, another one ends or begins one.
abbrev pub ShowsLine :
    Bool → Bool → Text → (Bool → List MarkdownLine → Type 0) → List MarkdownLine → Type 0
ShowsLine true in_code line Rest xs = Rest (names_language (trim line) || not in_code) xs
ShowsLine false in_code line Rest [] = ⊥
ShowsLine false in_code line Rest (x ∷ xs) = Shows in_code line x × Rest in_code xs

abbrev pub ShowsAll : Bool → List Text → List MarkdownLine → Type 0
ShowsAll in_code [] xs = xs ≡ []
ShowsAll in_code (line ∷ lines) xs =
    ShowsLine (begins_fence (trim line)) in_code line (λ b ys. ShowsAll b lines ys) xs

abbrev tag : Bool → Bool → Option Bool
tag true named = some named
tag false named = none

tag_of_rest-tag :
    (s : Text) → tag_of_rest (strip_start (text "```") s) ≡ tag (begins_fence s) (names_language s)
tag_of_rest-tag [] = refl
tag_of_rest-tag (a ∷ []) = ground arith
tag_of_rest-tag (a ∷ b ∷ []) = ground arith
tag_of_rest-tag (a ∷ b ∷ c ∷ []) = ground arith
tag_of_rest-tag (a ∷ b ∷ c ∷ d ∷ s) = ground arith

fence_tag-tag :
    (line : Text) → fence_tag line ≡ tag (begins_fence (trim line)) (names_language (trim line))
unfolding fence_tag
fence_tag-tag line = tag_of_rest-tag (trim line)

header_or_spans-Shows :
    (line : Text) (o : Option Text)
    → header_text line ≡ o
    → Shows false line (header_or_spans line o)
header_or_spans-Shows line none e =
    (parse_inline-spelled line, λ h w. ground (arith, (header_text_iff line h).1 w))
header_or_spans-Shows line (some h) e = (header_text_iff line h).0 e

line_of-Shows : (in_code : Bool) (line : Text) → Shows in_code line (line_of in_code line)
line_of-Shows true line = refl
line_of-Shows false line = header_or_spans-Shows line (header_text line) refl

shown_lines-ShowsLine :
    (fence named in_code : Bool) (line : Text) (Rest : Bool → List MarkdownLine → Type 0)
    (rest : Bool → List MarkdownLine)
    → ((b : Bool) → Rest b (rest b))
    → ((named || not in_code) ≡ (names_language (trim line) || not in_code))
    → ShowsLine fence in_code line Rest (
        shown_lines in_code line (tag fence named) ++ rest (next_in_code in_code (tag fence named)))
shown_lines-ShowsLine true true in_code line Rest rest h e =
    subst (λ b. Rest b (rest true)) e (h true)
shown_lines-ShowsLine true false in_code line Rest rest h e =
    subst (λ b. Rest b (rest (not in_code))) e (h (not in_code))
shown_lines-ShowsLine false named in_code line Rest rest h e =
    (line_of-Shows in_code line, h in_code)

parse_lines-ShowsAll :
    (in_code : Bool) (lines : List Text) → ShowsAll in_code lines (parse_lines in_code lines)
unfolding parse_lines
parse_lines-ShowsAll in_code [] = refl
parse_lines-ShowsAll in_code (line ∷ lines) = rw (fence_tag-tag line) (
    shown_lines-ShowsLine (begins_fence (trim line)) (names_language (trim line)) in_code line
      (λ b ys. ShowsAll b lines ys) (λ b. parse_lines b lines) (λ b. parse_lines-ShowsAll b lines)
      refl)

-- Each line of a capture becomes one line of the result, in order, but for the fences, which become
-- none: in a code block the line itself; outside the text of the header that it is (one to six number
-- signs, spaces, and the text), or, only where it is no header, spans that together with their marks
-- are the line. A fence that names a language begins a block wherever it stands, and any other one
-- ends the block or begins one. (A span between two marks may be empty.)
pub parse_history_markdown-ShowsAll :
    (s : Text) → ShowsAll false (split_on 10 s) (parse_history_markdown s)
unfolding parse_history_markdown
parse_history_markdown-ShowsAll s = parse_lines-ShowsAll false (split_on 10 s)
