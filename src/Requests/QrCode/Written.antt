-- ===== src/Requests/QrCode/Written.antt =====
-- pairing.ts, `parsePairingQRPayload`: the texts that it accepts.
use herdr_connect.Common.{
  subst, ℕ, ◌<◌, ◌≡◌, refl, ap, ◌∙◌, ◌↔◌, ◌⊎◌, inl, inr, arith, Text, text, Bool, true, Option,
  none, some, List, [], ◌∷◌, map, pos,
}
use herdr_connect.Json.{
  Json, Number, Items, Fields, num, str, arr, obj, bool, integer, get, as_text, as_number, as_items,
  as_record, as_positive, to_list, JsonText,
}
use herdr_connect.Errors.{Result, ok, pairing_qr_invalid}
use herdr_connect.Requests.{◌>>=◌, or_code, throw_code}
use herdr_connect.Requests.QrCode.{
  PairingQrPayload, non_empty, all_texts, hosts_of, port_of, is_true, parse_pairing_qr_payload,
}

-- The text is JSON of an object whose fields are those of the payload. A host may be the empty text.
pub record IsWritten (json : JsonText) (raw : Text) (p : PairingQrPayload) : Type 0 where
  pub fields : Fields
  pub items : Items
  pub parsed : json.parse raw ≡ some (obj fields)
  pub v : get (text "v") fields ≡ some (num p.v)
  pub fp : get (text "fp") fields ≡ some (str p.fp)
  pub fp_there : ¬ (p.fp ≡ [])
  pub secret : get (text "secret") fields ≡ some (str p.secret)
  pub secret_there : ¬ (p.secret ≡ [])
  pub hosts : get (text "hosts") fields ≡ some (arr items)
  pub host_texts : to_list items ≡ map str p.hosts
  pub hosts_there : ¬ (p.hosts ≡ [])
  pub port : get (text "port") fields ≡ some (num (integer (pos p.port)))
  pub port_there : 0 < p.port
  pub host_override :
      (p.host_override ≡ true) ↔ (get (text "host_override") fields ≡ some (bool true))

-- The steps of the parser.
or_code-ok :
    {A : Type 0} (o : Option A) (k : A → Result PairingQrPayload) (p : PairingQrPayload)
    → (or_code pairing_qr_invalid o >>= k) ≡ ok p
    → (a : A) × (o ≡ some a) × (k a ≡ ok p)
or_code-ok none k p e = ground arith
or_code-ok (some a) k p e = (a, refl, e)

as_record-some : (j : Json) (fs : Fields) → as_record j ≡ some fs → j ≡ obj fs
as_record-some j fs e = ground arith

as_number-some : (o : Option Json) (n : Number) → as_number o ≡ some n → o ≡ some (num n)
as_number-some o n e = ground arith

non_empty-some :
    (o : Option Json) (s : Text)
    → non_empty (as_text o) ≡ some s
    → (o ≡ some (str s)) × (¬ (s ≡ []))
non_empty-some o s e = ground arith

some-non_empty : (s : Text) → ¬ (s ≡ []) → non_empty (some s) ≡ some s
some-non_empty [] h = absurd (h refl)
some-non_empty (c ∷ s) h = refl

cons-texts :
    (s : Text) (js : List Json) (r : Option (List Text)) (ss : List Text)
    → ((ts : List Text) → r ≡ some ts → js ≡ map str ts)
    → (elim r [ none ↦ none | some ts ↦ some (s ∷ ts) ]) ≡ some ss
    → (str s ∷ js) ≡ map str ss
cons-texts s js none ss h e = ground arith
cons-texts s js (some ts) ss h e = ap (λ l. str s ∷ l) (h ts refl) ∙ ap (map str) (some-eq e)
  where
    some-eq : some (s ∷ ts) ≡ some ss → (s ∷ ts) ≡ ss
    some-eq q = ground arith

all_texts-some : (js : List Json) (ss : List Text) → all_texts js ≡ some ss → js ≡ map str ss
all_texts-some [] [] e = refl
all_texts-some [] (s ∷ ss) e = ground arith
all_texts-some (str s ∷ js) ss e = cons-texts s js (all_texts js) ss (all_texts-some js) e
all_texts-some (_ ∷ js) ss e = ground arith

some-all_texts : (ss : List Text) → all_texts (map str ss) ≡ some ss
some-all_texts [] = refl
some-all_texts (s ∷ ss) = rw (some-all_texts ss) refl

texts-there :
    (js : List Json) (hosts : List Text)
    → hosts_of (some js) ≡ some hosts
    → (js ≡ map str hosts) × (¬ (hosts ≡ []))
texts-there [] hosts e = ground arith
texts-there (j ∷ js) [] e = absurd (cons-nil (all_texts-some (j ∷ js) [] e))
  where
    cons-nil : (j ∷ js) ≡ [] → ⊥
    cons-nil q = ground arith
texts-there (j ∷ js) (s ∷ hosts) e = (all_texts-some (j ∷ js) (s ∷ hosts) e, λ h. ground arith)

hosts_of-some :
    (o : Option Json) (hosts : List Text)
    → hosts_of (as_items o) ≡ some hosts
    → (items : Items) × (o ≡ some (arr items)) × (to_list items ≡ map str hosts) × (¬ (hosts ≡ []))
hosts_of-some (some (arr items)) hosts e =
    let (q, h) = texts-there (to_list items) hosts e in (items, refl, q, h)
hosts_of-some none hosts e = ground arith
hosts_of-some (some _) hosts e = ground arith

some-hosts_of : (hosts : List Text) → ¬ (hosts ≡ []) → hosts_of (some (map str hosts)) ≡ some hosts
some-hosts_of [] h = absurd (h refl)
some-hosts_of (s ∷ hosts) h = some-all_texts (s ∷ hosts)

port_of-some :
    (o : Option Json) (n : ℕ)
    → port_of (as_number o) ≡ some n
    → (o ≡ some (num (integer (pos n)))) × (0 < n)
port_of-some o n e = ground arith

some-port_of : (n : ℕ) → 0 < n → as_positive (integer (pos n)) ≡ some n
some-port_of n h = ground arith

is_true_iff : (o : Option Json) → (is_true o ≡ true) ↔ (o ≡ some (bool true))
is_true_iff o = ground arith

ok-payload : (p q : PairingQrPayload) → ok p ≡ ok q → p ≡ q
ok-payload p q e = ground arith

same_truth : (a b : Bool) → ((a ≡ true) ↔ (b ≡ true)) → a ≡ b
same_truth a b h = ground arith

parse-IsWritten :
    (json : JsonText) (raw : Text) (p : PairingQrPayload)
    → parse_pairing_qr_payload json raw ≡ ok p
    → IsWritten json raw p
unfolding parse_pairing_qr_payload
parse-IsWritten json raw p e =
    let (parsed, ep, e₁) = or_code-ok (json.parse raw) _ p e in
    let (fs, ef, e₂) = or_code-ok (as_record parsed) _ p e₁ in
    let (v, ev, e₃) = or_code-ok (as_number (get (text "v") fs)) _ p e₂ in
    let (fp, efp, e₄) = or_code-ok (non_empty (as_text (get (text "fp") fs))) _ p e₃ in
    let (secret, es, e₅) = or_code-ok (non_empty (as_text (get (text "secret") fs))) _ p e₄ in
    let (hosts, eh, e₆) = or_code-ok (hosts_of (as_items (get (text "hosts") fs))) _ p e₅ in
    let (port, eo, e₇) = or_code-ok (port_of (as_number (get (text "port") fs))) _ p e₆ in
    let (items, ei, host_texts, there) = hosts_of-some (get (text "hosts") fs) hosts eh in
    subst (IsWritten json raw) (ok-payload _ p e₇) (record {
      fields = fs;
      items = items;
      parsed = ep ∙ ap some (as_record-some parsed fs ef);
      v = as_number-some (get (text "v") fs) v ev;
      fp = (non_empty-some (get (text "fp") fs) fp efp).0;
      fp_there = (non_empty-some (get (text "fp") fs) fp efp).1;
      secret = (non_empty-some (get (text "secret") fs) secret es).0;
      secret_there = (non_empty-some (get (text "secret") fs) secret es).1;
      hosts = ei;
      host_texts = host_texts;
      hosts_there = there;
      port = (port_of-some (get (text "port") fs) port eo).0;
      port_there = (port_of-some (get (text "port") fs) port eo).1;
      host_override = is_true_iff (get (text "host_override") fs);
    })

IsWritten-parse :
    (json : JsonText) (raw : Text) (p : PairingQrPayload)
    → IsWritten json raw p
    → parse_pairing_qr_payload json raw ≡ ok p
unfolding parse_pairing_qr_payload
IsWritten-parse json raw p w = rw (
  w.parsed,
  w.v,
  w.fp,
  some-non_empty p.fp w.fp_there,
  w.secret,
  some-non_empty p.secret w.secret_there,
  w.hosts,
  w.host_texts,
  some-hosts_of p.hosts w.hosts_there,
  w.port,
  some-port_of p.port w.port_there,
  override,
)
  where
    override : is_true (get (text "host_override") w.fields) ≡ p.host_override
    override = same_truth _ _ (
      (λ e. w.host_override.1 ((is_true_iff (get (text "host_override") w.fields)).0 e)),
      (λ e. (is_true_iff (get (text "host_override") w.fields)).1 (w.host_override.0 e)),
    )

-- An outcome is a payload or the one error code.
record IsJudged (r : Result PairingQrPayload) : Type 0 where
  verdict : ((p : PairingQrPayload) × (r ≡ ok p)) ⊎ (r ≡ throw_code pairing_qr_invalid)

or_code-IsJudged :
    {A : Type 0} (o : Option A) (k : A → Result PairingQrPayload)
    → ((a : A) → IsJudged (k a))
    → IsJudged (or_code pairing_qr_invalid o >>= k)
or_code-IsJudged none k h = record { verdict = inr refl }
or_code-IsJudged (some a) k h = h a

parse-IsJudged : (json : JsonText) (raw : Text) → IsJudged (parse_pairing_qr_payload json raw)
unfolding parse_pairing_qr_payload
parse-IsJudged json raw = or_code-IsJudged (json.parse raw) _ λ parsed.
    or_code-IsJudged (as_record parsed) _ λ fs.
      or_code-IsJudged (as_number (get (text "v") fs)) _ λ v.
        or_code-IsJudged (non_empty (as_text (get (text "fp") fs))) _ λ fp.
          or_code-IsJudged (non_empty (as_text (get (text "secret") fs))) _ λ secret.
            or_code-IsJudged (hosts_of (as_items (get (text "hosts") fs))) _ λ hosts.
              or_code-IsJudged (port_of (as_number (get (text "port") fs))) _
                λ port. record { verdict = inl (_, refl) }

-- The parser returns a payload exactly if the text is JSON of an object with the payload's fields:
-- numbers, texts that are not empty, at least one host, each a text that may be empty, and a positive
-- whole port, the override being set by the value true only; and for every other text it throws the
-- one error code.
pub parse_pairing_qr_payload-IsWritten :
    (json : JsonText) (raw : Text)
    → ((p : PairingQrPayload) → (parse_pairing_qr_payload json raw ≡ ok p) ↔ IsWritten json raw p)
      × (((p : PairingQrPayload) × (parse_pairing_qr_payload json raw ≡ ok p))
          ⊎ (parse_pairing_qr_payload json raw ≡ throw_code pairing_qr_invalid))
parse_pairing_qr_payload-IsWritten json raw = (
  λ p. (parse-IsWritten json raw p, IsWritten-parse json raw p),
  (parse-IsJudged json raw).verdict,
)
