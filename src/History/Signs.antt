-- ===== src/History/Signs.antt =====
-- history-markdown.ts, `HEADER_RE`: the lines that are headers, described without a scan.
use mathlib.Core.List.{append-nil}
use herdr_connect.Common.{
  ℕ, zero, suc, ◌+◌, ◌-◌, ◌==◌, ◌≤◌, ◌<◌, leb, ltb, ◌≡◌, refl, sym, ap, ◌∙◌, ◌⊎◌, inl, inr, ◌↔◌,
  arith, Text, is_empty, Bool, true, false, ◌&&◌, Bool-cases, none, some, [], ◌∷◌, ◌++◌, all, any,
  length, length-append, if◌then◌else◌,
}
use herdr_connect.Alias.{is_space}
use herdr_connect.History.{run_length, after, is_terminator, one_line, after_signs, header_text}

abbrev pub is_sign : ℕ → Bool
is_sign c = c == b'#'

-- A text that begins with no space, or a single unit.
abbrev pub IsText : Text → Type 0
IsText [] = ⊥
IsText (c ∷ s) = (is_space c ≡ false) ⊎ (s ≡ [])

-- One to six number signs, at least one space, and the text up to the end of the line.
pub record IsHeader (line h : Text) : Type 0 where
  pub signs : Text
  pub spaces : Text
  pub made : line ≡ (signs ++ (spaces ++ h))
  pub are_signs : all is_sign signs ≡ true
  pub some_sign : 0 < length signs
  pub at_most_six : length signs ≤ 6
  pub are_spaces : all is_space spaces ≡ true
  pub some_space : 0 < length spaces
  pub is_text : IsText h
  pub one_line : any is_terminator h ≡ false

-- The first units that a run passes.
run-prefix :
    (p : ℕ → Bool) (m : ℕ) (s : Text)
    → m ≤ run_length p s
    → (t : Text) × (s ≡ (t ++ after m s)) × (all p t ≡ true) × (length t ≡ m)
run-prefix p zero s l = ([], refl, refl, refl)
run-prefix p (suc m) [] l = absurd (omega (arith, l))
run-prefix p (suc m) (c ∷ s) l =
    let (t, e, a, n) = run-prefix p m s (ground arith) in
    (c ∷ t, ap (λ u. c ∷ u) e, ground arith, ap suc n)

after-suc : (n d : ℕ) (s : Text) → after n s ≡ after (n + 1) (d ∷ s)
after-suc n d s = ap (λ m. after m (d ∷ s)) (suc-eq n)
  where
    suc-eq : (n : ℕ) → suc n ≡ n + 1
    suc-eq n = omega arith

run-step :
    {A : Type 0} (p : ℕ → Bool) (d : ℕ) (s : Text) (b : Bool)
    → p d ≡ b
    → (f : ℕ → A) → f (run_length p (d ∷ s)) ≡ f (if b then run_length p s + 1 else 0)
run-step p d s b q f = ap (λ x. f (if x then run_length p s + 1 else 0)) q

run-end : (p : ℕ → Bool) (s r : Text) (c : ℕ) → after (run_length p s) s ≡ (c ∷ r) → p c ≡ false
run-end p [] r c e = ground arith
run-end p (d ∷ s) r c e = elim (Bool-cases (p d)) [
  | inl q ↦
      run-end p s r c
        (after-suc (run_length p s) d s ∙ sym (run-step p d s true q (λ n. after n (d ∷ s))) ∙ e)
  | inr q ↦ ground (arith, run-step p d s false q (λ n. after n (d ∷ s)))
]

one_line-eq : (s h : Text) → one_line s ≡ some h → (s ≡ h) × (any is_terminator h ≡ false)
one_line-eq s h e = ground arith

-- What stands behind the signs.
abbrev Behind : Text → Text → Type 0
Behind s h =
    (t : Text) × (s ≡ (t ++ h))
    × (all is_space t ≡ true)
    × (0 < length t)
    × IsText h
    × (any is_terminator h ≡ false)

single : (h : Text) → length h ≡ 1 → IsText h
single [] e = ground arith
single (c ∷ []) e = inr refl
single (c ∷ d ∷ h) e = absurd (omega (arith, e))

after_signs-Behind-go :
    (s h r : Text)
    → after (run_length is_space s) s ≡ r
    → (if run_length is_space s == 0
        then none
        else if is_empty r
        then if run_length is_space s == 1
          then none
          else one_line (after (run_length is_space s - 1) s)
        else one_line r)
      ≡ some h
    → Behind s h
after_signs-Behind-go s h (c ∷ r) q e =
    let (t, k, a, n) = run-prefix is_space (run_length is_space s) s (omega arith) in
    let (x, y) = one_line-eq (c ∷ r) h (ground arith) in
    (
      t,
      k ∙ ap (λ u. t ++ u) (q ∙ x),
      a,
      ground arith,
      ground (arith, run-end is_space s r c q, x),
      y,
    )
after_signs-Behind-go s h [] q e =
    let n = run_length is_space s in
    let (t, k, a, l) = run-prefix is_space (n - 1) s (omega arith) in
    let (x, y) = one_line-eq (after (n - 1) s) h (ground arith) in
    let (t₂, k₂, a₂, l₂) = run-prefix is_space n s (omega arith) in
    let positive : 0 < n = ground arith in
    (
      t,
      k ∙ ap (λ u. t ++ u) x,
      a,
      ground arith,
      single h (
          omega (
            arith,
            ap length k,
            length-append t (after (n - 1) s),
            ap length x,
            ap length k₂,
            length-append t₂ (after n s),
            ap length q,
            l,
            l₂,
            positive,
          )),
      y,
    )

header_text-IsHeader : (line h : Text) → header_text line ≡ some h → IsHeader line h
unfolding header_text
header_text-IsHeader line h e =
    let n = run_length is_sign line in
    let (signs, k, a, l) = run-prefix is_sign n line (omega arith) in
    let (spaces, j, b, m, t, o) = after_signs-Behind-go (after n line) h _ refl (ground arith) in
    record {
      signs = signs;
      spaces = spaces;
      made = k ∙ ap (λ u. signs ++ u) j;
      are_signs = a;
      some_sign = ground arith;
      at_most_six = ground arith;
      are_spaces = b;
      some_space = m;
      is_text = t;
      one_line = o;
    }

-- A run that something ends.
abbrev Ends : (ℕ → Bool) → Text → Type 0
Ends p [] = Unit {0}
Ends p (c ∷ s) = p c ≡ false

run_length-append :
    (p : ℕ → Bool) (t r : Text) → all p t ≡ true → Ends p r → run_length p (t ++ r) ≡ length t
run_length-append p [] [] a h = refl
run_length-append p [] (c ∷ r) a h = rw (h) refl
run_length-append p (c ∷ t) r a h = ground (arith, run_length-append p t r (ground arith) h)

after-append : (t r : Text) → after (length t) (t ++ r) ≡ r
after-append [] r = refl
after-append (c ∷ t) r = after-append t r

all-append : (p : ℕ → Bool) (s t : Text) → all p s ≡ true → all p t ≡ true → all p (s ++ t) ≡ true
all-append p [] t a b = b
all-append p (c ∷ s) t a b = ground (arith, all-append p s t (ground arith) b)

zero-test : (n : ℕ) → 0 < n → (n == 0) ≡ false
zero-test n l = ground arith

after_signs-apart :
    (spaces h : Text) (c : ℕ)
    → all is_space spaces ≡ true
    → 0 < length spaces
    → is_space c ≡ false
    → any is_terminator (c ∷ h) ≡ false
    → after_signs (spaces ++ (c ∷ h)) ≡ some (c ∷ h)
after_signs-apart spaces h c a l q o = rw (
  run_length-append is_space spaces (c ∷ h) a q,
  after-append spaces (c ∷ h),
  zero-test (length spaces) l,
  o,
)

run_length-all : (p : ℕ → Bool) (t : Text) → all p t ≡ true → run_length p t ≡ length t
run_length-all p t a = ap (run_length p) (sym (append-nil t)) ∙ run_length-append p t [] a tt

after-all : (t : Text) → after (length t) t ≡ []
after-all t = ap (after (length t)) (sym (append-nil t)) ∙ after-append t []

after_signs-last :
    (spaces : Text) (c : ℕ)
    → all is_space spaces ≡ true
    → 0 < length spaces
    → is_space c ≡ true
    → any is_terminator (c ∷ []) ≡ false
    → after_signs (spaces ++ (c ∷ [])) ≡ some (c ∷ [])
after_signs-last spaces c a l q o = rw (
  run_length-all is_space (spaces ++ (c ∷ []))
      (all-append is_space spaces (c ∷ []) a (ground arith)),
  after-all (spaces ++ (c ∷ [])),
  length-append spaces (c ∷ []),
  zero-test (length spaces + 1) (omega arith),
  one-test (length spaces) l,
  back (length spaces),
  after-append spaces (c ∷ []),
  o,
)
  where
    one-test : (n : ℕ) → 0 < n → (n + 1 == 1) ≡ false
    one-test n l = ground arith

    back : (n : ℕ) → n + 1 - 1 ≡ n
    back n = omega arith

after_signs-some :
    (spaces h : Text)
    → all is_space spaces ≡ true
    → 0 < length spaces
    → IsText h
    → any is_terminator h ≡ false
    → after_signs (spaces ++ h) ≡ some h
after_signs-some spaces [] a l t o = absurd t
after_signs-some spaces (c ∷ []) a l t o = elim (Bool-cases (is_space c)) [
  | inl q ↦ after_signs-last spaces c a l q o
  | inr q ↦ after_signs-apart spaces [] c a l q o
]
after_signs-some spaces (c ∷ d ∷ h) a l t o =
    after_signs-apart spaces (d ∷ h) c a l (ground arith) o

spaces-Ends :
    (spaces h : Text) → all is_space spaces ≡ true → 0 < length spaces → Ends is_sign (spaces ++ h)
spaces-Ends [] h a l = absurd (omega (arith, l))
spaces-Ends (c ∷ s) h a l = ground arith

IsHeader-header_text : (line h : Text) → IsHeader line h → header_text line ≡ some h
unfolding header_text
IsHeader-header_text line h w =
    ap header_text w.made
    ∙ rw
        (
          run_length-append is_sign w.signs (w.spaces ++ h) w.are_signs
              (spaces-Ends w.spaces h w.are_spaces w.some_space),
          after-append w.signs (w.spaces ++ h),
          in_range (length w.signs) w.some_sign w.at_most_six,
        )
        (after_signs-some w.spaces h w.are_spaces w.some_space w.is_text w.one_line)
  where
    in_range : (n : ℕ) → 0 < n → n ≤ 6 → (ltb 0 n && leb n 6) ≡ true
    in_range n a b = ground arith

-- A line is taken for a header with a text exactly if it is one, so that no line has two texts.
pub header_text_iff : (line h : Text) → (header_text line ≡ some h) ↔ IsHeader line h
header_text_iff line h = (header_text-IsHeader line h, IsHeader-header_text line h)
