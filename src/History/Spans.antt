-- ===== src/History/Spans.antt =====
-- history-markdown.ts: the inline spans of a line, as they stand in the capture.
use mathlib.Core.List.{append_assoc}
use herdr_connect.Common.{
  ℕ, zero, suc, ◌-◌, ◌==◌, ◌≡◌, refl, sym, ap, ◌∙◌, arith, Text, text, ◌is◌, is_iff, is_empty, Bool,
  true, false, not, Option, none, some, List, [], ◌∷◌, ◌++◌, map, select, if◌then◌else◌, ◌>>=◌,
}
use herdr_connect.History.{
  InlineSpan, plain, bold, inline_code, strip_start, before, strip_end, match_length, emit,
  parts_from, between, code_or_plain, bold_or, span_of, parse_inline,
}

join : List Text → Text
join [] = []
join (s ∷ ss) = s ++ join ss

-- A span as it stands in the capture.
abbrev pub spelling : InlineSpan → Text
spelling (plain s) = s
spelling (bold s) = text "**" ++ (s ++ text "**")
spelling (inline_code s) = text "`" ++ (s ++ text "`")

abbrev pub spelled : List InlineSpan → Text
spelled [] = []
spelled (s ∷ ss) = spelling s ++ spelled ss

strip_start-eq : (m s r : Text) → strip_start m s ≡ some r → s ≡ (m ++ r)
strip_start-eq [] s r e = ground arith
strip_start-eq (x ∷ m) [] r e = ground arith
strip_start-eq (x ∷ m) (c ∷ s) r e = ground (arith, strip_start-eq m s r)

before-eq :
    (b : Bool) (c : ℕ) (o : Option Text) (m s r : Text)
    → (b ≡ true → (c ∷ s) ≡ m)
    → ((t : Text) → o ≡ some t → s ≡ (t ++ m))
    → before b c o ≡ some r
    → (c ∷ s) ≡ (r ++ m)
before-eq true c o m s r h k e = ground (arith, h refl)
before-eq false c none m s r h k e = ground arith
before-eq false c (some t) m s r h k e = ap (λ u. c ∷ u) (k t refl) ∙ ground arith

strip_end-eq : (m s r : Text) → strip_end m s ≡ some r → s ≡ (r ++ m)
strip_end-eq m [] r e = ground (arith, is_iff [] m)
strip_end-eq m (c ∷ s) r e =
    before-eq ((c ∷ s) is m) c (strip_end m s) m s r (is_iff (c ∷ s) m).0 (strip_end-eq m s) e

between-eq : (m s r : Text) → between m s ≡ some r → (m ++ (r ++ m)) ≡ s
between-eq m s r e = go (strip_start m s) refl e
  where
    go :
        (o : Option Text) → strip_start m s ≡ o → (o >>= strip_end m) ≡ some r → (m ++ (r ++ m)) ≡ s
    go none q e = ground arith
    go (some t) q e = ap (λ u. m ++ u) (sym (strip_end-eq m t r e)) ∙ sym (strip_start-eq m s t q)

code_or_plain-spelling :
    (s : Text) (o : Option Text) → between (text "`") s ≡ o → spelling (code_or_plain s o) ≡ s
code_or_plain-spelling s none e = refl
code_or_plain-spelling s (some t) e = between-eq (text "`") s t e

bold_or-spelling :
    (x : InlineSpan) (s : Text) (o : Option Text)
    → spelling x ≡ s
    → between (text "**") s ≡ o
    → spelling (bold_or x o) ≡ s
bold_or-spelling x s none h e = h
bold_or-spelling x s (some t) h e = between-eq (text "**") s t e

spelling-span_of : (s : Text) → spelling (span_of s) ≡ s
spelling-span_of s =
    bold_or-spelling (code_or_plain s (between (text "`") s)) s (between (text "**") s)
      (code_or_plain-spelling s (between (text "`") s) refl) refl

spelled-spans :
    (ss : List Text) → spelled (map span_of (select (λ part. not (is_empty part)) ss)) ≡ join ss
unfolding join
spelled-spans [] = refl
spelled-spans ([] ∷ ss) = spelled-spans ss
spelled-spans ((c ∷ s) ∷ ss) =
    ap (λ t. t ++ spelled (map span_of (select (λ part. not (is_empty part)) ss)))
      (spelling-span_of (c ∷ s))
    ∙ ap (λ t. (c ∷ s) ++ t) (spelled-spans ss)

join-emit :
    (b : Bool) (part s : Text) (c : ℕ) (ps : List Text)
    → join ps ≡ ((if b then part ++ (c ∷ []) else c ∷ []) ++ s)
    → join (emit b part ps) ≡ (part ++ (c ∷ s))
unfolding join
join-emit true part s c ps e = e ∙ append_assoc part (c ∷ []) s
join-emit false part s c ps e = ap (λ t. part ++ t) e

join-parts_from : (n : ℕ) (part s : Text) → join (parts_from n part s) ≡ (part ++ s)
unfolding join parts_from
join-parts_from zero part [] = refl
join-parts_from (suc n) part [] = refl
join-parts_from zero part (c ∷ s) =
    let n = match_length (c ∷ s) in
    join-emit (n == 0) part s c (parts_from (n - 1) (if n == 0 then part ++ (c ∷ []) else c ∷ []) s)
      (join-parts_from (n - 1) (if n == 0 then part ++ (c ∷ []) else c ∷ []) s)
join-parts_from (suc zero) part (c ∷ s) =
    ap (λ t. (part ++ (c ∷ [])) ++ t) (join-parts_from zero [] s) ∙ append_assoc part (c ∷ []) s
join-parts_from (suc (suc n)) part (c ∷ s) =
    join-parts_from (suc n) (part ++ (c ∷ [])) s ∙ append_assoc part (c ∷ []) s

pub parse_inline-spelled : (line : Text) → spelled (parse_inline line) ≡ line
unfolding parse_inline
parse_inline-spelled [] = refl
parse_inline-spelled (c ∷ line) =
    spelled-spans (parts_from 0 [] (c ∷ line)) ∙ join-parts_from 0 [] (c ∷ line)
