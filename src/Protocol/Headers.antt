-- ===== src/Protocol/Headers.antt =====
-- packages/protocol/src/index.ts, `validateHeader`.
pub mod Fields
pub mod WellFormed
use herdr_connect.Common.{
  ℕ, ◌-◌, ◌*◌, leb, ltb, ◌==◌, Text, text, ◌is◌, is_empty, Bool, true, false, not, ◌&&◌, ◌||◌,
  Option, none, some, List, [], ◌∷◌, all, length, if◌then◌else◌, pos,
}
use herdr_connect.Json.{Number, integer}
use herdr_connect.Protocol.{
  MessageType, session_hello, pairing_request, pairing_decision, lifecycle_event, state_snapshot,
  output_request, output_snapshot, remote_command, command_result, ack, error, Header, Outcome, ok,
  ◌>>=◌, ◌>>◌, require, or_fail, cipher_suite, unsupported_version, unsupported_suite,
  unsupported_message_type, invalid_header, ttl_exceeded,
}

abbrev pub is_alphanumeric : ℕ → Bool
is_alphanumeric c = (leb 48 c && leb c 57) || (leb 65 c && leb c 90) || (leb 97 c && leb c 122)

abbrev pub is_identifier_part : ℕ → Bool
is_identifier_part c = is_alphanumeric c || c == 46 || c == 95 || c == 58 || c == 45

-- `identifierPattern`
unfoldable pub is_identifier : Text → Bool
is_identifier [] = false
is_identifier (c ∷ s) = is_alphanumeric c && (leb (length s) 127 && all is_identifier_part s)

-- The key of `maxTtlByMessageType`.
unfoldable pub message_type_of : Text → Option MessageType
message_type_of s =
    if s is text "session_hello"
    then some session_hello
    else if s is text "pairing_request"
    then some pairing_request
    else if s is text "pairing_decision"
    then some pairing_decision
    else if s is text "lifecycle_event"
    then some lifecycle_event
    else if s is text "state_snapshot"
    then some state_snapshot
    else if s is text "output_request"
    then some output_request
    else if s is text "output_snapshot"
    then some output_snapshot
    else if s is text "remote_command"
    then some remote_command
    else if s is text "command_result"
    then some command_result
    else if s is text "ack"
    then some ack
    else if s is text "error"
    then some error
    else none

abbrev pub max_ttl : MessageType → ℕ
max_ttl session_hello = 30_000
max_ttl pairing_request = 5 * 60_000
max_ttl pairing_decision = 5 * 60_000
max_ttl lifecycle_event = 24 * 60 * 60_000
max_ttl state_snapshot = 5 * 60_000
max_ttl output_request = 30_000
max_ttl output_snapshot = 30_000
max_ttl remote_command = 30_000
max_ttl command_result = 5 * 60_000
max_ttl ack = 5 * 60_000
max_ttl error = 5 * 60_000

-- The number, if it is a safe integer and not negative. (-0, which JSON can spell, is 0 here.)
abbrev pub safe_integer : Number → Option ℕ
safe_integer (integer (pos n)) = if leb n 9_007_199_254_740_991 then some n else none
safe_integer _ = none

abbrev pub is_version : Number → Bool
is_version (integer (pos n)) = n == 1
is_version _ = false

-- The fields that belong to some message types only, the sequence numbers being safe integers.
pub record Specifics : Type 0 where
  pub event_id : Text
  pub event_seq : ℕ
  pub through_event_seq : ℕ
  pub command_id : Text
  pub request_id : Text
  pub ack_seq : ℕ

-- The `switch` over the message type.
unfoldable pub check_specifics : MessageType → Specifics → Outcome (Unit {0})
unfolding is_identifier
check_specifics lifecycle_event s = do
  require (is_identifier s.event_id && ltb 0 s.event_seq) invalid_header
  require
      (s.through_event_seq == 0 && is_empty s.command_id && is_empty s.request_id && s.ack_seq == 0)
      invalid_header
check_specifics state_snapshot s =
    require
      (is_empty s.event_id
        && s.event_seq == 0
        && is_empty s.command_id
        && is_empty s.request_id
        && s.ack_seq == 0)
      invalid_header
check_specifics remote_command s = do
  require (is_identifier s.command_id) invalid_header
  require
      (is_empty s.event_id
        && s.event_seq == 0
        && s.through_event_seq == 0
        && is_empty s.request_id
        && s.ack_seq == 0)
      invalid_header
check_specifics command_result s = do
  require (is_identifier s.command_id) invalid_header
  require
      (is_empty s.event_id
        && s.event_seq == 0
        && s.through_event_seq == 0
        && is_empty s.request_id
        && s.ack_seq == 0)
      invalid_header
check_specifics output_request s = do
  require (is_identifier s.request_id) invalid_header
  require
      (is_empty s.event_id
        && s.event_seq == 0
        && s.through_event_seq == 0
        && is_empty s.command_id
        && s.ack_seq == 0)
      invalid_header
check_specifics output_snapshot s = do
  require (is_identifier s.request_id) invalid_header
  require
      (is_empty s.event_id
        && s.event_seq == 0
        && s.through_event_seq == 0
        && is_empty s.command_id
        && s.ack_seq == 0)
      invalid_header
check_specifics ack s = do
  require (ltb 0 s.ack_seq) invalid_header
  require
      (is_empty s.event_id
        && s.event_seq == 0
        && s.through_event_seq == 0
        && is_empty s.command_id
        && is_empty s.request_id)
      invalid_header
check_specifics _ s =
    require
      (is_empty s.event_id
        && s.event_seq == 0
        && s.through_event_seq == 0
        && is_empty s.command_id
        && is_empty s.request_id
        && s.ack_seq == 0)
      invalid_header

abbrev pub required_identities : Header → List Text
required_identities h =
    h.installation_id ∷ h.sender_id ∷ h.sender_signing_key_id ∷ h.recipient_id
    ∷ h.recipient_encryption_key_id ∷ h.message_id ∷ []

abbrev pub is_empty_or_identifier : Text → Bool
is_empty_or_identifier s = is_empty s || is_identifier s

-- The check of the identities, and the fields of some message types as safe integers.
unfoldable pub specifics_of : Header → Outcome Specifics
unfolding is_identifier
specifics_of h = do
  require (all (λ s. not (is_empty s)) (required_identities h)) invalid_header
  require (all is_identifier (required_identities h)) invalid_header
  event_seq ← or_fail invalid_header (safe_integer h.event_seq)
  through_event_seq ← or_fail invalid_header (safe_integer h.through_event_seq)
  ack_seq ← or_fail invalid_header (safe_integer h.ack_seq)
  require (all is_empty_or_identifier (h.event_id ∷ h.command_id ∷ h.request_id ∷ []))
      invalid_header
  ok (record {
    event_id = h.event_id;
    event_seq = event_seq;
    through_event_seq = through_event_seq;
    command_id = h.command_id;
    request_id = h.request_id;
    ack_seq = ack_seq;
  })

unfoldable pub check_lifetime : Number → Number → ℕ → Outcome (Unit {0})
check_lifetime created expires ttl = do
  created_at ← or_fail invalid_header (safe_integer created)
  expires_at ← or_fail invalid_header (safe_integer expires)
  require (ltb created_at expires_at) invalid_header
  require (leb (expires_at - created_at) ttl) ttl_exceeded

-- The run-time type tests fail for a version or a suite that is missing, and hold for all else.
unfoldable pub validate_header : Header → Outcome (Unit {0})
unfolding message_type_of specifics_of check_specifics check_lifetime
validate_header h = do
  version ← or_fail invalid_header h.version
  suite ← or_fail invalid_header h.suite
  require (is_version version) unsupported_version
  require (suite is cipher_suite) unsupported_suite
  type ← or_fail unsupported_message_type (message_type_of h.message_type)
  specifics ← specifics_of h
  check_specifics type specifics
  check_lifetime h.created_at h.expires_at (max_ttl type)
