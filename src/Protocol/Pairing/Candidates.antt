-- ===== src/Protocol/Pairing/Candidates.antt =====
-- packages/protocol/src/index.ts, `validatePairingCandidate`.
use herdr_connect.Common.{
  ℕ, ◌≤◌, leb, ◌==◌, ==_iff, ◌≡◌, subst, arith, Text, ◌is◌, ◌&&◌, true, some, length,
}
use herdr_connect.Json.{Fields}
use herdr_connect.Protocol.{
  Bytes, Outside, ok, PairingCandidate, invalid_envelope, invalid_key, authentication_failed,
}
use herdr_connect.Protocol.Bytes.{constant_time_equal}
use herdr_connect.Protocol.Bytes.Equality.{constant_time_equal-eq}
use herdr_connect.Protocol.Headers.{is_identifier}
use herdr_connect.Protocol.Steps.{bind-ok, or_fail-ok, require-ok, ok-eq}
use herdr_connect.Protocol.Pairing.{
  PairingFields, decode_pairing_field, parse_pairing_request, pairing_fields,
  validate_pairing_candidate, count_points,
}

-- A field that was decoded has 32 bytes.
pub record IsKeyField (outside : Outside) (s : Text) (b : Bytes) : Type 0 where
  pub decoded : outside.decode_base64 s ≡ some b
  pub full : length b ≡ 32

decode_pairing_field-IsKeyField :
    (outside : Outside) (s : Text) (b : Bytes)
    → decode_pairing_field outside s ≡ ok b
    → IsKeyField outside s b
unfolding decode_pairing_field
decode_pairing_field-IsKeyField outside s b e =
    let (d, ed, e₁) = or_fail-ok invalid_envelope (outside.decode_base64 s) _ b e in
    let (full, e₂) = require-ok (length d == 32) invalid_envelope _ b e₁ in
    subst (IsKeyField outside s) (ok-eq d b e₂)
      (record { decoded = ed; full = (==_iff (length d) 32).0 full })

-- The device knows the secret of the pairing, and vouches for the key that its message is signed with.
pub record Matches (outside : Outside) (plaintext embedded : Bytes) (id : Text) (secret : Bytes)
    (c : PairingCandidate) : Type 0 where
  pub fields : Fields
  pub sent : PairingFields
  pub parsed : parse_pairing_request outside plaintext ≡ ok fields
  pub read : pairing_fields fields ≡ ok sent
  pub pairing_id : c.pairing_id ≡ id
  pub secret_length : length secret ≡ 32
  pub same_secret : outside.decode_base64 sent.pairing_secret ≡ some secret
  pub same_key : c.device_signing_public_key ≡ embedded
  pub signing : IsKeyField outside sent.device_signing_public_key c.device_signing_public_key
  pub encryption :
      IsKeyField outside sent.device_encryption_public_key c.device_encryption_public_key
  pub challenge : IsKeyField outside sent.challenge c.challenge
  pub named : 1 ≤ count_points c.device_name
  pub short : count_points c.device_name ≤ 128

credentials-match :
    (id expected : Text) (secret expected_secret key embedded : Bytes)
    → (is_identifier id
        && id is expected
        && constant_time_equal secret expected_secret
        && constant_time_equal key embedded)
      ≡ true
    → (id ≡ expected) × (secret ≡ expected_secret) × (key ≡ embedded)
credentials-match id expected secret expected_secret key embedded e = (
  ground arith,
  (constant_time_equal-eq secret expected_secret).0 (ground arith),
  (constant_time_equal-eq key embedded).0 (ground arith),
)

name-bounds : (n : ℕ) → (leb 1 n && leb n 128) ≡ true → (1 ≤ n) × (n ≤ 128)
name-bounds n e = (ground arith, ground arith)

-- A pairing request becomes a candidate only for the pairing that is expected, with its secret, for
-- the key that the message is signed with, with keys and a challenge of 32 bytes and a name of 1 to
-- 128 code points.
pub validate_pairing_candidate-Matches :
    (outside : Outside) (plaintext embedded : Bytes) (id : Text) (secret : Bytes)
    (c : PairingCandidate)
    → validate_pairing_candidate outside plaintext embedded id secret ≡ ok c
    → Matches outside plaintext embedded id secret c
unfolding validate_pairing_candidate
validate_pairing_candidate-Matches outside plaintext embedded id secret c e =
    let (len, e₁) = require-ok (length secret == 32) invalid_key _ c e in
    let (fs, ef, e₂) = bind-ok (parse_pairing_request outside plaintext) _ c e₁ in
    let (r, er, e₃) = bind-ok (pairing_fields fs) _ c e₂ in
    let (s, es, e₄) = bind-ok (decode_pairing_field outside r.pairing_secret) _ c e₃ in
    let (h, eh, e₅) = bind-ok (decode_pairing_field outside r.challenge) _ c e₄ in
    let (k, ek, e₆) = bind-ok (decode_pairing_field outside r.device_signing_public_key) _ c e₅ in
    let (n, en, e₇) =
      bind-ok (decode_pairing_field outside r.device_encryption_public_key) _ c e₆ in
    let (credentials, e₈) =
      require-ok
        (is_identifier r.pairing_id
          && r.pairing_id is id
          && constant_time_equal s secret
          && constant_time_equal k embedded)
        authentication_failed _ c e₇ in
    let (name, e₉) =
      require-ok (leb 1 (count_points r.device_name) && leb (count_points r.device_name) 128)
        invalid_envelope _ c e₈ in
    let (same_id, same_secret, same_key) =
      credentials-match r.pairing_id id s secret k embedded credentials in
    let (named, short) = name-bounds (count_points r.device_name) name in
    let secret_field = decode_pairing_field-IsKeyField outside r.pairing_secret s es in
    subst (Matches outside plaintext embedded id secret) (ok-eq _ c e₉) (record {
      fields = fs;
      sent = r;
      parsed = ef;
      read = er;
      pairing_id = same_id;
      secret_length = (==_iff (length secret) 32).0 len;
      same_secret =
          subst (λ b. outside.decode_base64 r.pairing_secret ≡ some b) same_secret
            secret_field.decoded;
      same_key = same_key;
      signing = decode_pairing_field-IsKeyField outside r.device_signing_public_key k ek;
      encryption = decode_pairing_field-IsKeyField outside r.device_encryption_public_key n en;
      challenge = decode_pairing_field-IsKeyField outside r.challenge h eh;
      named = named;
      short = short;
    })
