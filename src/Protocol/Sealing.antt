-- ===== src/Protocol/Sealing.antt =====
-- packages/protocol/src/index.ts, `seal`.
pub mod Sealed
use herdr_connect.Common.{
  ℕ, leb, ◌==◌, Text, text, ◌is◌, Bool, true, false, not, ◌&&◌, ◌||◌, Option, none, some, List, [],
  ◌∷◌, ◌++◌, all, length, if◌then◌else◌, pos,
}
use herdr_connect.Json.{integer, obj}
use herdr_connect.Protocol.{
  Bytes, Header, Envelope, SenderContext, Outside, Outcome, ok, fail, foreign, ◌>>=◌, ◌>>◌, require,
  or_fail, or_foreign, protocol, cipher_suite, max_plaintext_size, max_protected_header_size,
  message_too_large, invalid_key, invalid_header,
}
use herdr_connect.Protocol.Bytes.{signature_input}
use herdr_connect.Protocol.Headers.{validate_header}
use herdr_connect.Protocol.Wire.{or_else, header_to_protected, protected_fields}

-- `randomSource` answers the number of bytes that is asked for with bytes.
pub record SealRequest : Type 0 where
  pub header : Header
  pub plaintext : Bytes
  pub recipient_encryption_public_key : Bytes
  pub sender_signing_private_key : Bytes
  pub random_source : Option (ℕ → Bytes)

abbrev pub hpke_info : Bytes
hpke_info = text "Herdr Connect Protocol v1 HPKE" ++ (0 ∷ [])

abbrev pub with_defaults : Header → Header
with_defaults h = record h {
  version = some (or_else h.version (integer (pos 1)));
  suite = some (or_else h.suite cipher_suite);
}

abbrev pub is_pairing_request : Header → Bool
is_pairing_request h = h.message_type is text "pairing_request"

-- The header with the signing key that goes into it, which only a pairing request has.
unfoldable pub with_signing_key : Outside → Bytes → Header → Outcome Header
with_signing_key outside seed h =
    if is_pairing_request h
    then ok (record h { sender_signing_public_key = some (outside.signing_public_key seed) })
    else require (length (or_else h.sender_signing_public_key []) == 0) invalid_header >> ok h

abbrev pub ephemeral_key_material : Outside → Option (ℕ → Bytes) → Outcome (Option Bytes)
ephemeral_key_material outside none = ok none
ephemeral_key_material outside (some random_bytes) =
    if length (random_bytes outside.private_key_size) == outside.private_key_size
    then ok (some (random_bytes outside.private_key_size))
    else fail foreign

abbrev pub stringify_header : Outside → Header → Bytes → Text
stringify_header outside h enc =
    outside.json.stringify
      (obj (protected_fields (header_to_protected outside h (outside.encode_base64 enc))))

abbrev pub envelope_of : Outside → Bytes → Bytes → Bytes → Envelope
envelope_of outside seed protected_bytes ciphertext = record {
  protected = outside.encode_base64 protected_bytes;
  ciphertext = outside.encode_base64 ciphertext;
  signature =
      outside.encode_base64 (outside.sign (signature_input protected_bytes ciphertext) seed);
}

unfoldable pub seal : Outside → SealRequest → Outcome Envelope
unfolding validate_header with_signing_key signature_input header_to_protected
seal outside r = do
  validate_header (with_defaults r.header)
  require (leb (length r.plaintext) max_plaintext_size) message_too_large
  require (length r.sender_signing_private_key == 32) invalid_key
  h ← with_signing_key outside r.sender_signing_private_key (with_defaults r.header)
  require (outside.accepts_public_key r.recipient_encryption_public_key) invalid_key
  ekm ← ephemeral_key_material outside r.random_source
  sender ← or_foreign (outside.create_sender r.recipient_encryption_public_key hpke_info ekm)
  let protected_bytes = outside.encode_text (stringify_header outside h sender.enc)
  require (leb (length protected_bytes) max_protected_header_size) message_too_large
  ciphertext ← or_foreign (sender.encrypt r.plaintext protected_bytes)
  ok (envelope_of outside r.sender_signing_private_key protected_bytes ciphertext)
