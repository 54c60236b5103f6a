-- ===== src/Protocol/Opening.antt =====
-- packages/protocol/src/index.ts, `open`.
pub mod Authentic
pub mod Safety
pub mod Failures
pub mod Replays
pub mod RoundTrip
use herdr_connect.Common.{
  ℕ, ◌+◌, leb, ◌==◌, Text, text, ◌is◌, Bool, true, false, not, ◌&&◌, ◌||◌, Option, none, some, List,
  [], ◌∷◌, all, length, if◌then◌else◌, ℤ, pos, negsuc, ltb, ltb_ℤ,
}
use herdr_connect.Json.{Number, integer, dyadic, infinite, nan, Json}
use herdr_connect.Protocol.{
  Bytes, Header, Envelope, Outside, OpenedMessage, PairingCandidate, Failure, Outcome, ok, fail,
  foreign, ◌>>=◌, ◌>>◌, require, or_fail, or_foreign, protocol, cipher_suite, max_plaintext_size,
  max_protected_header_size, message_too_large, invalid_key, invalid_header, invalid_envelope,
  wrong_route, authentication_failed, created_in_future, expired, replay, replay_store_failed,
}
use herdr_connect.Protocol.Bytes.{signature_input, equal_bytes}
use herdr_connect.Protocol.Headers.{validate_header}
use herdr_connect.Protocol.Wire.{
  ProtectedHeader, or_else, protected_to_header, parse_protected_header, decode_envelope_field,
}
use herdr_connect.Protocol.Pairing.{validate_pairing_candidate, is_verified}
use herdr_connect.Protocol.Sealing.{hpke_info, is_pairing_request}

-- How a guard's promise settles.
pub data Mark : Type 0 where
  answered : Bool → Mark
  rejected : Failure → Mark

-- The guards' store is a state `G`.
pub record OpenRequest (G : Type 0) : Type 0 where
  pub envelope : Envelope
  pub recipient_encryption_private_key : Bytes
  pub sender_signing_public_key : Option Bytes
  pub expected_installation_id : Text
  pub expected_sender_id : Text
  pub expected_recipient_id : Text
  pub now : Number
  pub replay_guard : Option (Text → Number → G → Mark × G)
  pub expected_pairing_id : Option Text
  pub expected_pairing_secret : Option Bytes
  pub pairing_guard : Option (Text → Number → PairingCandidate → G → Mark × G)

-- What the decoded header is made of.
pub record Received : Type 0 where
  pub bytes : Bytes
  pub protected : ProtectedHeader
  pub header : Header

unfoldable pub receive : Outside → Text → Outcome Received
unfolding parse_protected_header protected_to_header
receive outside encoded = do
  bytes ← decode_envelope_field outside encoded
  require (leb (length bytes) max_protected_header_size) message_too_large
  s ← or_fail invalid_envelope (outside.decode_text bytes)
  value ← or_fail invalid_envelope (outside.json.parse s)
  p ← or_fail invalid_envelope (parse_protected_header value)
  require (outside.json.stringify value is s) invalid_envelope
  h ← protected_to_header outside p
  ok (record { bytes = bytes; protected = p; header = h })

-- The key that the signature is checked with. A key that is embedded in a header has been decoded,
-- so `none` there is the empty key.
unfoldable pub signing_key : Option Bytes → Header → Outcome (Option Bytes)
unfolding equal_bytes
signing_key given h =
    if is_pairing_request h
    then (require (length (or_else h.sender_signing_public_key []) == 32) invalid_header
        >> require
            (elim given [
              | none ↦ true
              | some key ↦ equal_bytes key (or_else h.sender_signing_public_key [])
            ])
            authentication_failed
        >> ok h.sender_signing_public_key)
    else (require (length (or_else h.sender_signing_public_key []) == 0) invalid_header >> ok given)

abbrev pub is_signed : Outside → Option Bytes → Bytes → Bytes → Bool
is_signed outside none signature message = false
is_signed outside (some key) signature message =
    length key == 32 && length signature == 64 && is_verified outside key signature (ok message)

-- `now < createdAt - 120_000`, which is false for a date that is invalid.
abbrev pub is_too_early : Number → Number → Bool
is_too_early (integer (pos n)) (integer (pos c)) = ltb (n + 120_000) c
is_too_early (integer (negsuc n)) (integer (pos c)) = ltb 120_000 (c + n + 1)
is_too_early (integer (pos n)) (integer (negsuc c)) = false
is_too_early (integer (negsuc n)) (integer (negsuc c)) = ltb (c + 120_000) n
is_too_early _ _ = false

abbrev pub is_past : Number → Number → Bool
is_past (integer a) (integer b) = not (ltb_ℤ a b)
is_past _ _ = false

abbrev pub is_on_route : {G : Type 0} → OpenRequest G → Header → Bool
is_on_route r h =
    h.installation_id is r.expected_installation_id
    && h.sender_id is r.expected_sender_id
    && h.recipient_id is r.expected_recipient_id

-- The ciphertext, with its signature verified.
unfoldable pub authenticate : {G : Type 0} → Outside → OpenRequest G → Received → Outcome Bytes
unfolding signing_key signature_input
authenticate outside r received = do
  ciphertext ← decode_envelope_field outside r.envelope.ciphertext
  require (leb (length ciphertext) (max_plaintext_size + 16)) message_too_large
  signature ← decode_envelope_field outside r.envelope.signature
  key ← signing_key r.sender_signing_public_key received.header
  require (is_signed outside key signature (signature_input received.bytes ciphertext))
      authentication_failed
  ok ciphertext

unfoldable pub check_time : Number → Header → Outcome (Unit {0})
check_time now h = do
  require (not (is_too_early now h.created_at)) created_in_future
  require (not (is_past now h.expires_at)) expired

unfoldable pub decrypt : Outside → Bytes → Received → Bytes → Outcome Bytes
decrypt outside private_key received ciphertext = do
  require (outside.accepts_private_key private_key) invalid_key
  enc ← or_fail authentication_failed (outside.decode_base64 received.protected.enc)
  or_fail authentication_failed
      (outside.open_sealed private_key enc hpke_info ciphertext received.bytes)

-- The steps of `open` before the guards, which keep no state: the header and the plaintext.
unfoldable pub decipher : {G : Type 0} → Outside → OpenRequest G → Outcome (Header × Bytes)
unfolding receive validate_header authenticate check_time decrypt
decipher outside r = do
  received ← receive outside r.envelope.protected
  validate_header received.header
  require (is_on_route r received.header) wrong_route
  ciphertext ← authenticate outside r received
  check_time r.now received.header
  plaintext ← decrypt outside r.recipient_encryption_private_key received ciphertext
  ok (received.header, plaintext)

-- The `catch` around the guards.
abbrev pub guard_failure : Failure → Failure
guard_failure (protocol code) = protocol code
guard_failure foreign = protocol replay_store_failed

abbrev pub settle_mark : Mark → OpenedMessage → Outcome OpenedMessage
settle_mark (answered true) m = ok m
settle_mark (answered false) m = fail (protocol replay)
settle_mark (rejected e) m = fail (guard_failure e)

abbrev pub settled : {G : Type 0} → OpenedMessage → Mark × G → Outcome OpenedMessage × G
settled m (mark, g) = (settle_mark mark m, g)

abbrev pub mark_message :
    {G : Type 0}
    → Option (Text → Number → G → Mark × G)
    → Header
    → Bytes
    → G
    → Outcome OpenedMessage × G
mark_message none h plaintext g = (fail (protocol replay_store_failed), g)
mark_message (some mark_if_new) h plaintext g =
    settled (record { header = h; plaintext = plaintext; pairing_candidate = none })
      (mark_if_new h.message_id h.expires_at g)

-- The candidate is what the validation gives, which comes after the test of the guard.
abbrev pub accept_candidate :
    {G : Type 0}
    → Option (Text → Number → PairingCandidate → G → Mark × G)
    → Header
    → Bytes
    → Outcome PairingCandidate
    → G
    → Outcome OpenedMessage × G
accept_candidate none h plaintext candidate g = (fail (protocol replay_store_failed), g)
accept_candidate (some accept_if_new) h plaintext (fail e) g = (fail (guard_failure e), g)
accept_candidate (some accept_if_new) h plaintext (ok candidate) g =
    settled (record { header = h; plaintext = plaintext; pairing_candidate = some candidate })
      (accept_if_new h.message_id h.expires_at candidate g)

unfoldable pub accept_pairing :
    {G : Type 0} → Outside → OpenRequest G → Header → Bytes → G → Outcome OpenedMessage × G
unfolding validate_pairing_candidate
accept_pairing outside r h plaintext g =
    accept_candidate r.pairing_guard h plaintext
      (validate_pairing_candidate outside plaintext (or_else h.sender_signing_public_key [])
        (or_else r.expected_pairing_id []) (or_else r.expected_pairing_secret []))
      g

-- A message that was read and verified is given to its guard.
unfoldable pub admit :
    {G : Type 0} → Outside → OpenRequest G → Header → Bytes → G → Outcome OpenedMessage × G
unfolding accept_pairing
admit outside r h plaintext g =
    if is_pairing_request h
    then accept_pairing outside r h plaintext g
    else mark_message r.replay_guard h plaintext g

abbrev pub admit_deciphered :
    {G : Type 0}
    → Outside
    → OpenRequest G
    → Outcome (Header × Bytes)
    → G
    → Outcome OpenedMessage × G
unfolding admit
admit_deciphered outside r (fail e) g = (fail e, g)
admit_deciphered outside r (ok (h, plaintext)) g = admit outside r h plaintext g

-- The result, and the guards' store after it.
unfoldable pub open_message : {G : Type 0} → Outside → OpenRequest G → G → Outcome OpenedMessage × G
unfolding decipher admit
open_message outside r g = admit_deciphered outside r (decipher outside r) g
