-- ===== src/Protocol/Opening/Failures.antt =====
-- packages/protocol/src/index.ts, `open`: the errors that it throws.
use herdr_connect.Common.{
  if◌then◌else◌, ℕ, ◌≡◌, ap, arith, Text, Bool, true, false, Option, none, some,
}
use herdr_connect.Json.{Fields, Number}
use herdr_connect.Protocol.{
  MessageType, session_hello, pairing_request, pairing_decision, lifecycle_event, state_snapshot,
  output_request, output_snapshot, remote_command, command_result, ack, error, invalid_envelope,
  replay, replay_store_failed, foreign, Bytes, Header, Outside, OpenedMessage, PairingCandidate,
  Failure, protocol, ProtocolErrorCode, error_code_of, Outcome, ok, fail, ◌>>=◌, require, or_fail,
}
use herdr_connect.Protocol.Headers.{
  Specifics, check_specifics, specifics_of, check_lifetime, validate_header,
}
use herdr_connect.Protocol.Wire.{ProtectedHeader, protected_to_header, with_key, header_with_key}
use herdr_connect.Protocol.Pairing.{
  validate_pairing_candidate, decode_pairing_field, pairing_fields, parse_pairing_request,
}
use herdr_connect.Protocol.Sealing.{is_pairing_request}
use herdr_connect.Protocol.Opening.{
  OpenRequest, Received, receive, signing_key, authenticate, check_time, decrypt, decipher,
  guard_failure, settle_mark, Mark, answered, rejected, mark_message, accept_candidate,
  accept_pairing, admit, admit_deciphered, open_message,
}

-- A failure, if it is one, is a `ProtocolError`.
record IsCoded {A : Type 0} (o : Outcome A) : Type 0 where
  coded : (f : Failure) → o ≡ fail f → (code : ProtocolErrorCode) × (f ≡ protocol code)

ok-IsCoded : {A : Type 0} (a : A) → IsCoded (ok a)
ok-IsCoded a = record { coded = λ f e. ground arith }

fail-IsCoded : {A : Type 0} (code : ProtocolErrorCode) → IsCoded {A = A} (fail (protocol code))
fail-IsCoded code = record { coded = λ f e. (code, ground arith) }

module _ {A B : Type 0} where
  >>=-IsCoded :
      (o : Outcome A) (k : A → Outcome B)
      → IsCoded o
      → ((a : A) → IsCoded (k a))
      → IsCoded (o >>= k)
  >>=-IsCoded (ok a) k c d = d a
  >>=-IsCoded (fail e) k c d = record { coded = λ f q. c.coded f (ground arith) }

or_fail-IsCoded : {A : Type 0} (code : ProtocolErrorCode) (o : Option A) → IsCoded (or_fail code o)
or_fail-IsCoded code none = fail-IsCoded code
or_fail-IsCoded code (some a) = ok-IsCoded a

require-IsCoded : (t : Bool) (code : ProtocolErrorCode) → IsCoded (require t code)
require-IsCoded true code = ok-IsCoded tt
require-IsCoded false code = fail-IsCoded code

if-IsCoded :
    {A : Type 0} (b : Bool) (x y : Outcome A) → IsCoded x → IsCoded y → IsCoded (if b then x else y)
if-IsCoded true x y c d = c
if-IsCoded false x y c d = d

ruleset coded = (if-IsCoded, >>=-IsCoded, or_fail-IsCoded, require-IsCoded, ok-IsCoded)

check_lifetime-IsCoded : (x y : Number) (ttl : ℕ) → IsCoded (check_lifetime x y ttl)
unfolding check_lifetime
check_lifetime-IsCoded x y ttl = search coded depth 40

check_specifics-IsCoded : (t : MessageType) (s : Specifics) → IsCoded (check_specifics t s)
unfolding check_specifics
check_specifics-IsCoded session_hello s = search coded depth 40
check_specifics-IsCoded pairing_request s = search coded depth 40
check_specifics-IsCoded pairing_decision s = search coded depth 40
check_specifics-IsCoded lifecycle_event s = search coded depth 40
check_specifics-IsCoded state_snapshot s = search coded depth 40
check_specifics-IsCoded output_request s = search coded depth 40
check_specifics-IsCoded output_snapshot s = search coded depth 40
check_specifics-IsCoded remote_command s = search coded depth 40
check_specifics-IsCoded command_result s = search coded depth 40
check_specifics-IsCoded ack s = search coded depth 40
check_specifics-IsCoded error s = search coded depth 40

specifics_of-IsCoded : (h : Header) → IsCoded (specifics_of h)
unfolding specifics_of
specifics_of-IsCoded h = search coded depth 40

validate_header-IsCoded : (h : Header) → IsCoded (validate_header h)
unfolding validate_header
validate_header-IsCoded h =
    search (coded, specifics_of-IsCoded, check_specifics-IsCoded, check_lifetime-IsCoded) depth 40

protected_to_header-IsCoded :
    (outside : Outside) (p : ProtectedHeader) → IsCoded (protected_to_header outside p)
unfolding protected_to_header
protected_to_header-IsCoded outside p = go (outside.decode_base64 p.sender_signing_public_key)
  where
    go : (o : Option Bytes) → IsCoded (with_key p (or_fail invalid_envelope o))
    go none = fail-IsCoded invalid_envelope
    go (some key) = ok-IsCoded (header_with_key p key)

receive-IsCoded : (outside : Outside) (encoded : Text) → IsCoded (receive outside encoded)
unfolding receive
receive-IsCoded outside encoded = search (coded, protected_to_header-IsCoded) depth 40

signing_key-IsCoded : (given : Option Bytes) (h : Header) → IsCoded (signing_key given h)
unfolding signing_key
signing_key-IsCoded given h = search coded depth 40

authenticate-IsCoded :
    {G : Type 0} (outside : Outside) (r : OpenRequest G) (x : Received)
    → IsCoded (authenticate outside r x)
unfolding authenticate
authenticate-IsCoded outside r x = search (coded, signing_key-IsCoded) depth 40

check_time-IsCoded : (now : Number) (h : Header) → IsCoded (check_time now h)
unfolding check_time
check_time-IsCoded now h = search coded depth 40

decrypt-IsCoded :
    (outside : Outside) (private_key : Bytes) (x : Received) (c : Bytes)
    → IsCoded (decrypt outside private_key x c)
unfolding decrypt
decrypt-IsCoded outside private_key x c = search coded depth 40

decipher-IsCoded :
    {G : Type 0} (outside : Outside) (r : OpenRequest G) → IsCoded (decipher outside r)
unfolding decipher
decipher-IsCoded outside r =
    search
      (
        coded, receive-IsCoded, validate_header-IsCoded, authenticate-IsCoded, check_time-IsCoded,
        decrypt-IsCoded,
      )
      depth 40

parse_pairing_request-IsCoded :
    (outside : Outside) (b : Bytes) → IsCoded (parse_pairing_request outside b)
unfolding parse_pairing_request
parse_pairing_request-IsCoded outside b = search coded depth 40

pairing_fields-IsCoded : (fs : Fields) → IsCoded (pairing_fields fs)
unfolding pairing_fields
pairing_fields-IsCoded fs = search coded depth 40

decode_pairing_field-IsCoded :
    (outside : Outside) (s : Text) → IsCoded (decode_pairing_field outside s)
unfolding decode_pairing_field
decode_pairing_field-IsCoded outside s = search coded depth 40

validate_pairing_candidate-IsCoded :
    (outside : Outside) (p key : Bytes) (id : Text) (secret : Bytes)
    → IsCoded (validate_pairing_candidate outside p key id secret)
unfolding validate_pairing_candidate
validate_pairing_candidate-IsCoded outside p key id secret =
    search
      (coded, parse_pairing_request-IsCoded, pairing_fields-IsCoded, decode_pairing_field-IsCoded)
      depth 40

settle_mark-IsCoded : (k : Mark) (m : OpenedMessage) → IsCoded (settle_mark k m)
settle_mark-IsCoded (answered true) m = ok-IsCoded m
settle_mark-IsCoded (answered false) m = fail-IsCoded replay
settle_mark-IsCoded (rejected (protocol code)) m = fail-IsCoded code
settle_mark-IsCoded (rejected foreign) m = fail-IsCoded replay_store_failed

guard_failure-IsCoded : {A : Type 0} (e : Failure) → IsCoded {A = A} (fail (guard_failure e))
guard_failure-IsCoded (protocol code) = fail-IsCoded code
guard_failure-IsCoded foreign = fail-IsCoded replay_store_failed

module _ {G : Type 0} (outside : Outside) (r : OpenRequest G) where
  mark_message-IsCoded :
      (o : Option (Text → Number → G → Mark × G)) (h : Header) (p : Bytes) (g : G)
      → IsCoded ((mark_message o h p g).0)
  mark_message-IsCoded none h p g = fail-IsCoded replay_store_failed
  mark_message-IsCoded (some f) h p g = settle_mark-IsCoded ((f h.message_id h.expires_at g).0) _

  accept_candidate-IsCoded :
      (o : Option (Text → Number → PairingCandidate → G → Mark × G)) (h : Header) (p : Bytes)
      (d : Outcome PairingCandidate) (g : G)
      → IsCoded ((accept_candidate o h p d g).0)
  accept_candidate-IsCoded none h p d g = fail-IsCoded replay_store_failed
  accept_candidate-IsCoded (some f) h p (fail e) g = guard_failure-IsCoded e
  accept_candidate-IsCoded (some f) h p (ok c) g =
      settle_mark-IsCoded ((f h.message_id h.expires_at c g).0) _

  admit_deciphered-IsCoded :
      (d : Outcome (Header × Bytes)) (g : G)
      → IsCoded d
      → IsCoded ((admit_deciphered outside r d g).0)
  unfolding admit accept_pairing
  admit_deciphered-IsCoded (fail e) g c = record { coded = λ f q. c.coded f (ground arith) }
  admit_deciphered-IsCoded (ok (h, p)) g c =
      elim (is_pairing_request h)
        as (λ b.
          IsCoded
            ((if b then accept_pairing outside r h p g else mark_message r.replay_guard h p g).0)) [
              | true ↦ accept_candidate-IsCoded r.pairing_guard h p _ g
              | false ↦ mark_message-IsCoded r.replay_guard h p g
            ]

  -- Whatever envelope, request and guards `open` is called with, what it throws is a `ProtocolError`
  -- with a code: errors of the decoders, of the cryptographic libraries and of a guard are mapped.
  pub open_message-error_code_of :
      (g g' : G) (e : Failure)
      → open_message outside r g ≡ (fail e, g')
      → (code : ProtocolErrorCode) × (error_code_of e ≡ some code)
  unfolding open_message
  open_message-error_code_of g g' e q =
      let (code, same) =
        (admit_deciphered-IsCoded (decipher outside r) g (decipher-IsCoded outside r)).coded e
          (ap (λ p. p.0) q) in
      (code, ap error_code_of same)
