-- ===== src/Protocol/Pairing.antt =====
-- packages/protocol/src/index.ts: the pairing request of a device and the daemon's signed challenge.
pub mod Candidates
pub mod Transcripts
use herdr_connect.Common.{
  ℕ, suc, ◌+◌, leb, ltb, ◌==◌, Text, text, ◌is◌, Bool, true, false, not, ◌&&◌, ◌||◌, Option, none,
  some, List, [], ◌∷◌, ◌++◌, all, length, if◌then◌else◌,
}
use herdr_connect.Json.{Json, Fields, get, as_text, as_record}
use herdr_connect.Protocol.{
  Bytes, Outside, Outcome, ok, fail, ◌>>=◌, ◌>>◌, require, or_fail, protocol, PairingCandidate,
  invalid_envelope, invalid_key, invalid_header, authentication_failed,
}
use herdr_connect.Protocol.Bytes.{constant_time_equal, concatenate, uint32}
use herdr_connect.Protocol.Headers.{is_identifier}
use herdr_connect.Protocol.Wire.{count_fields, text_at}

unfoldable pub decode_pairing_field : Outside → Text → Outcome Bytes
decode_pairing_field outside value = do
  decoded ← or_fail invalid_envelope (outside.decode_base64 value)
  require (length decoded == 32) invalid_envelope
  ok decoded

abbrev pub is_high : ℕ → Bool
is_high c = leb 55_296 c && leb c 56_319

abbrev pub is_low : ℕ → Bool
is_low c = leb 56_320 c && leb c 57_343

-- `[...s].length`: a high surrogate and the low one after it are one code point. The first argument
-- says whether the code unit before is a high surrogate that still wants its low one.
abbrev pub count_points_after : Bool → Text → ℕ
count_points_after wanting [] = 0
count_points_after true (c ∷ s) =
    if is_low c then count_points_after false s else suc (count_points_after (is_high c) s)
count_points_after false (c ∷ s) = suc (count_points_after (is_high c) s)

abbrev pub count_points : Text → ℕ
count_points s = count_points_after false s

-- The six strings of a pairing request.
pub record PairingFields : Type 0 where
  pub pairing_id : Text
  pub pairing_secret : Text
  pub device_name : Text
  pub device_signing_public_key : Text
  pub device_encryption_public_key : Text
  pub challenge : Text

unfoldable pub pairing_fields : Fields → Outcome PairingFields
unfolding get
pairing_fields fs = do
  require (count_fields fs == 6) invalid_envelope
  pairing_id ← or_fail invalid_envelope (text_at (text "pairing_id") fs)
  pairing_secret ← or_fail invalid_envelope (text_at (text "pairing_secret") fs)
  device_name ← or_fail invalid_envelope (text_at (text "device_name") fs)
  signing ← or_fail invalid_envelope (text_at (text "device_signing_public_key") fs)
  encryption ← or_fail invalid_envelope (text_at (text "device_encryption_public_key") fs)
  challenge ← or_fail invalid_envelope (text_at (text "challenge") fs)
  ok (record {
    pairing_id = pairing_id;
    pairing_secret = pairing_secret;
    device_name = device_name;
    device_signing_public_key = signing;
    device_encryption_public_key = encryption;
    challenge = challenge;
  })

-- The value that `JSON.parse(decoder.decode(plaintext))` gives, as an object.
unfoldable pub parse_pairing_request : Outside → Bytes → Outcome Fields
parse_pairing_request outside plaintext = do
  s ← or_fail invalid_envelope (outside.decode_text plaintext)
  value ← or_fail invalid_envelope (outside.json.parse s)
  or_fail invalid_envelope (as_record value)

unfoldable pub validate_pairing_candidate :
    Outside → Bytes → Bytes → Text → Bytes → Outcome PairingCandidate
unfolding parse_pairing_request pairing_fields decode_pairing_field constant_time_equal
    is_identifier
validate_pairing_candidate outside plaintext embedded_signing_key expected_pairing_id
      expected_secret =
    do
      require (length expected_secret == 32) invalid_key
      fs ← parse_pairing_request outside plaintext
      r ← pairing_fields fs
      secret ← decode_pairing_field outside r.pairing_secret
      challenge ← decode_pairing_field outside r.challenge
      signing ← decode_pairing_field outside r.device_signing_public_key
      encryption ← decode_pairing_field outside r.device_encryption_public_key
      require
          (is_identifier r.pairing_id
            && r.pairing_id is expected_pairing_id
            && constant_time_equal secret expected_secret
            && constant_time_equal signing embedded_signing_key)
          authentication_failed
      require (leb 1 (count_points r.device_name) && leb (count_points r.device_name) 128)
          invalid_envelope
      ok (record {
        pairing_id = r.pairing_id;
        device_name = r.device_name;
        device_signing_public_key = signing;
        device_encryption_public_key = encryption;
        challenge = challenge;
      })

-- The decision is what the caller wrote.
pub record PairingChallengeBinding : Type 0 where
  pub pairing_id : Text
  pub pairing_secret : Bytes
  pub challenge : Bytes
  pub device_signing_public_key : Bytes
  pub device_encryption_public_key : Bytes
  pub installation_signing_public_key : Bytes
  pub installation_encryption_public_key : Bytes
  pub decision : Text

abbrev pub key_material : PairingChallengeBinding → List Bytes
key_material b =
    b.pairing_secret ∷ b.challenge ∷ b.device_signing_public_key ∷ b.device_encryption_public_key
    ∷ b.installation_signing_public_key ∷ b.installation_encryption_public_key ∷ []

-- Each field with its length before it.
abbrev pub framed : List Bytes → List Bytes
framed [] = []
framed (part ∷ parts) = uint32 (length part) ∷ part ∷ framed parts

abbrev pub challenge_domain : Bytes
challenge_domain = text "Herdr Connect Protocol v1 pairing challenge" ++ (0 ∷ [])

abbrev pub challenge_fields : Outside → PairingChallengeBinding → List Bytes
challenge_fields outside b =
    outside.encode_text b.pairing_id ∷ (key_material b ++ (outside.encode_text b.decision ∷ []))

unfoldable pub pairing_challenge_transcript : Outside → PairingChallengeBinding → Outcome Bytes
unfolding is_identifier concatenate
pairing_challenge_transcript outside b = do
  require
      (is_identifier b.pairing_id
        && (b.decision is text "accepted" || b.decision is text "rejected"))
      invalid_header
  require (all (λ field. length field == 32) (key_material b)) invalid_key
  ok (concatenate (challenge_domain ∷ framed (challenge_fields outside b)))

unfoldable pub sign_pairing_challenge : Outside → PairingChallengeBinding → Bytes → Outcome Bytes
unfolding pairing_challenge_transcript
sign_pairing_challenge outside b installation_signing_seed = do
  require (length installation_signing_seed == 32) invalid_key
  transcript ← pairing_challenge_transcript outside b
  ok (outside.sign transcript installation_signing_seed)

-- The `try` of a signature check: what throws is no valid signature.
abbrev pub is_verified : Outside → Bytes → Bytes → Outcome Bytes → Bool
is_verified outside key signature (fail e) = false
is_verified outside key signature (ok message) = elim (outside.verify signature message key) [
  | some b ↦ b
  | none ↦ false
]

unfoldable pub verify_pairing_challenge :
    Outside → PairingChallengeBinding → Bytes → Bytes → Outcome (Unit {0})
unfolding pairing_challenge_transcript
verify_pairing_challenge outside b installation_signing_public_key signature =
    require
      (length installation_signing_public_key == 32
        && length signature == 64
        && is_verified outside installation_signing_public_key signature
            (pairing_challenge_transcript outside b))
      authentication_failed
