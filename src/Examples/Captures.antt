-- ===== src/Examples/Captures.antt =====
-- Examples on the captured text of a terminal.
use herdr_connect.Common.{false, ◌≡◌, refl, Text, text, Option, none, some, List, [], ◌∷◌, ◌++◌}
use herdr_connect.Discovery.{split_on}
use herdr_connect.History.{
  header, code, spans, plain, bold, inline_code, header_text, parse_inline, parse_history_markdown,
}
use herdr_connect.History.Lines.{ShowsAll, parse_history_markdown-ShowsAll}

abbrev two_fences : Text
two_fences =
    text "## Run it"
    ++ (10 ∷ text "```sh")
    ++ (10 ∷ text "ls **")
    ++ (10 ∷ text "```")
    ++ (10 ∷ text "a **b** `c`**")

parsed : parse_history_markdown two_fences ≡ (
    header (text "Run it")
    ∷ code (text "ls **")
    ∷ spans (
        plain (text "a ")
        ∷ bold (text "b")
        ∷ plain (text " ")
        ∷ inline_code (text "c")
        ∷ plain (text "**")
        ∷ [])
    ∷ [])
unfolding parse_history_markdown herdr_connect.Common.Text-discrete herdr_connect.Common.ℕ_discrete
parsed = refl

-- Seven signs are no header, and neither is a sign without a space.
seven :
    (header_text (text "####### a") ≡ none)
    × (header_text (text "#a") ≡ none)
    × (header_text (text "#  ") ≡ some (text " "))
unfolding header_text
seven = (refl, refl, refl)

-- Four stars are two marks with nothing between them.
four_stars : parse_inline (text "****") ≡ (bold [] ∷ [])
unfolding parse_inline herdr_connect.Common.Text-discrete herdr_connect.Common.ℕ_discrete
four_stars = refl

parse_history_markdown-ShowsAll_example :
    ShowsAll false (split_on 10 two_fences) (parse_history_markdown two_fences)
parse_history_markdown-ShowsAll_example = parse_history_markdown-ShowsAll two_fences
