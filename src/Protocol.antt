-- ===== src/Protocol.antt =====
-- packages/protocol/src/index.ts: the end-to-end messages. What a message, an envelope and an error
-- are, and what the package takes from the engine and the cryptographic libraries (`Outside`). A
-- byte string is a list of numbers below 256. The texts of the errors are left out.
pub mod Bytes
pub mod Headers
pub mod Steps
pub mod Wire
pub mod Pairing
pub mod Sealing
pub mod Opening
use herdr_connect.Common.{
  ℕ, Text, text, ◌is◌, Bool, true, false, Option, none, some, List, [], ◌∷◌, if◌then◌else◌,
}
use herdr_connect.Json.{Number, JsonText}

abbrev pub Bytes : Type 0
Bytes = List ℕ

abbrev pub cipher_suite : Text
cipher_suite = text "HPKE-X25519-HKDF-SHA256-CHACHA20POLY1305+Ed25519"

abbrev pub max_plaintext_size : ℕ
max_plaintext_size = 262_144

abbrev pub max_protected_header_size : ℕ
max_protected_header_size = 4_096

pub data MessageType : Type 0 where
  session_hello pairing_request pairing_decision lifecycle_event state_snapshot output_request
        output_snapshot remote_command command_result ack error :
      MessageType

pub data ProtocolErrorCode : Type 0 where
  replay ttl_exceeded authentication_failed unsupported_version unsupported_suite expired
        unsupported_message_type invalid_envelope invalid_header invalid_key wrong_route
        created_in_future replay_store_failed message_too_large :
      ProtocolErrorCode

-- What is thrown: a `ProtocolError`, or another error.
pub data Failure : Type 0 where
  protocol : ProtocolErrorCode → Failure
  foreign : Failure

-- `errorCodeOf`
abbrev pub error_code_of : Failure → Option ProtocolErrorCode
error_code_of (protocol code) = some code
error_code_of foreign = none

pub data Outcome (A : Type 0) : Type 0 where
  ok : A → Outcome A
  fail : Failure → Outcome A

infixl 5 ◌>>=◌ ◌>>◌
abbrev pub ◌>>=◌ : {A B : Type 0} → Outcome A → (A → Outcome B) → Outcome B
ok a >>= k = k a
fail e >>= k = fail e

abbrev pub ◌>>◌ : {B : Type 0} → Outcome (Unit {0}) → Outcome B → Outcome B
m >> k = m >>= λ _. k

-- `if (!test) throw new ProtocolError(code)`
abbrev pub require : Bool → ProtocolErrorCode → Outcome (Unit {0})
require true code = ok tt
require false code = fail (protocol code)

abbrev pub or_fail : {A : Type 0} → ProtocolErrorCode → Option A → Outcome A
or_fail code none = fail (protocol code)
or_fail code (some a) = ok a

abbrev pub or_foreign : {A : Type 0} → Option A → Outcome A
or_foreign none = fail foreign
or_foreign (some a) = ok a

-- A date is its time, which is NaN for an invalid date. The message type is what the sender wrote.
pub record Header : Type 0 where
  pub version : Option Number
  pub suite : Option Text
  pub message_type : Text
  pub installation_id : Text
  pub sender_id : Text
  pub sender_signing_key_id : Text
  pub sender_signing_public_key : Option Bytes
  pub recipient_id : Text
  pub recipient_encryption_key_id : Text
  pub message_id : Text
  pub event_id : Text
  pub event_seq : Number
  pub through_event_seq : Number
  pub command_id : Text
  pub request_id : Text
  pub ack_seq : Number
  pub created_at : Number
  pub expires_at : Number

pub record Envelope : Type 0 where
  pub protected : Text
  pub ciphertext : Text
  pub signature : Text

pub record PairingCandidate : Type 0 where
  pub pairing_id : Text
  pub device_name : Text
  pub device_signing_public_key : Bytes
  pub device_encryption_public_key : Bytes
  pub challenge : Bytes

pub record OpenedMessage : Type 0 where
  pub header : Header
  pub plaintext : Bytes
  pub pairing_candidate : Option PairingCandidate

-- A sender's HPKE context: the encapsulated key, and encryption with associated data.
pub record SenderContext : Type 0 where
  pub enc : Bytes
  pub encrypt : Bytes → Bytes → Option Bytes

-- `JSON`, `TextEncoder`, the fatal `TextDecoder`, base64url without padding, Ed25519 and HPKE; `none`
-- where a call throws.
pub record Outside : Type 0 where
  pub json : JsonText
  pub encode_text : Text → Bytes
  pub decode_text : Bytes → Option Text
  pub encode_base64 : Bytes → Text
  pub decode_base64 : Text → Option Bytes
  pub sign : Bytes → Bytes → Bytes
  pub verify : Bytes → Bytes → Bytes → Option Bool
  pub signing_public_key : Bytes → Bytes
  pub private_key_size : ℕ
  pub accepts_public_key : Bytes → Bool
  pub accepts_private_key : Bytes → Bool
  pub create_sender : Bytes → Bytes → Option Bytes → Option SenderContext
  pub open_sealed : Bytes → Bytes → Bytes → Bytes → Bytes → Option Bytes
