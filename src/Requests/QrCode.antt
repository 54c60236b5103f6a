-- ===== src/Requests/QrCode.antt =====
-- pairing.ts: what the QR code of a daemon says, and the addresses to pair at.
pub mod Written
use herdr_connect.Common.{
  ℕ, ◌==◌, Text, text, Bool, false, any, Option, none, some, List, [], ◌∷◌, ◌++◌, map,
  if◌then◌else◌,
}
use herdr_connect.Json.{
  Json, Number, bool, get, as_text, as_number, as_items, as_record, as_positive, JsonText,
}
use herdr_connect.Errors.{Result, ok, pairing_qr_invalid}
use herdr_connect.Requests.{Engine, ◌>>=◌, or_code}

pub record PairingQrPayload : Type 0 where
  pub v : Number
  pub fp : Text
  pub hosts : List Text
  pub port : ℕ
  pub secret : Text
  pub host_override : Bool

abbrev pub non_empty : Option Text → Option Text
non_empty none = none
non_empty (some []) = none
non_empty (some (c ∷ s)) = some (c ∷ s)

-- Strings only.
abbrev pub all_texts : List Json → Option (List Text)
all_texts [] = some []
all_texts (j ∷ js) = elim (as_text (some j)) [
  | none ↦ none
  | some s ↦ elim (all_texts js) [ none ↦ none | some ss ↦ some (s ∷ ss) ]
]

abbrev pub hosts_of : Option (List Json) → Option (List Text)
hosts_of none = none
hosts_of (some []) = none
hosts_of (some (j ∷ js)) = all_texts (j ∷ js)

abbrev pub port_of : Option Number → Option ℕ
port_of none = none
port_of (some n) = as_positive n

-- `value === true`
abbrev pub is_true : Option Json → Bool
is_true (some (bool b)) = b
is_true _ = false

unfoldable pub parse_pairing_qr_payload : JsonText → Text → Result PairingQrPayload
unfolding get
parse_pairing_qr_payload json raw = do
  parsed ← or_code pairing_qr_invalid (json.parse raw)
  fs ← or_code pairing_qr_invalid (as_record parsed)
  v ← or_code pairing_qr_invalid (as_number (get (text "v") fs))
  fp ← or_code pairing_qr_invalid (non_empty (as_text (get (text "fp") fs)))
  secret ← or_code pairing_qr_invalid (non_empty (as_text (get (text "secret") fs)))
  hosts ← or_code pairing_qr_invalid (hosts_of (as_items (get (text "hosts") fs)))
  port ← or_code pairing_qr_invalid (port_of (as_number (get (text "port") fs)))
  ok (record {
    v = v;
    fp = fp;
    hosts = hosts;
    port = port;
    secret = secret;
    host_override = is_true (get (text "host_override") fs);
  })

-- `host.includes(":")`
abbrev pub has_colon : Text → Bool
has_colon host = any (λ c. c == b':') host

abbrev pub pairing_url : Engine → ℕ → Text → Text
pairing_url engine port host =
    text "https://"
    ++ ((if has_colon host then text "[" ++ (host ++ text "]") else host)
        ++ (text ":" ++ (engine.show port ++ text "/v1/pair")))

abbrev pub pairing_urls : Engine → PairingQrPayload → List Text
pairing_urls engine p = map (pairing_url engine p.port) p.hosts
