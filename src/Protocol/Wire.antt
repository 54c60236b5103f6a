-- ===== src/Protocol/Wire.antt =====
-- packages/protocol/src/index.ts: the protected header of an envelope, as JSON.
use herdr_connect.Common.{
  ℕ, zero, suc, ◌+◌, ◌/◌, ◌^◌, leb, ◌==◌, Text, text, Option, none, some, [], if◌then◌else◌, ◌>>=◌,
  guard, ◌>>◌, ℤ, pos, negsuc,
}
use herdr_connect.Json.{
  Number, integer, dyadic, infinite, nan, Json, num, str, Fields, end, field, get, as_text,
  as_record,
}
use herdr_connect.Protocol.{
  Bytes, Header, Outside, Outcome, ok, fail, or_fail, invalid_envelope, cipher_suite,
}
use herdr_connect.Protocol.Headers.{safe_integer}

pub record ProtectedHeader : Type 0 where
  pub v : Number
  pub suite : Text
  pub message_type : Text
  pub installation_id : Text
  pub sender_id : Text
  pub sender_signing_key_id : Text
  pub sender_signing_public_key : Text
  pub recipient_id : Text
  pub recipient_encryption_key_id : Text
  pub message_id : Text
  pub event_id : Text
  pub event_seq : Number
  pub through_event_seq : Number
  pub command_id : Text
  pub request_id : Text
  pub ack_seq : Number
  pub created_at_ms : Number
  pub expires_at_ms : Number
  pub enc : Text

-- The object of `headerToProtected`, its keys in the order of their assignment.
abbrev pub protected_fields : ProtectedHeader → Fields
protected_fields p = field (text "v") (num p.v) (
    field (text "suite") (str p.suite) (
      field (text "message_type") (str p.message_type) (
        field (text "installation_id") (str p.installation_id) (
          field (text "sender_id") (str p.sender_id) (
            field (text "sender_signing_key_id") (str p.sender_signing_key_id) (
              field (text "sender_signing_public_key") (str p.sender_signing_public_key) (
                field (text "recipient_id") (str p.recipient_id) (
                  field (text "recipient_encryption_key_id") (str p.recipient_encryption_key_id) (
                    field (text "message_id") (str p.message_id) (
                      field (text "event_id") (str p.event_id) (
                        field (text "event_seq") (num p.event_seq) (
                          field (text "through_event_seq") (num p.through_event_seq) (
                            field (text "command_id") (str p.command_id) (
                              field (text "request_id") (str p.request_id) (
                                field (text "ack_seq") (num p.ack_seq) (
                                  field (text "created_at_ms") (num p.created_at_ms) (
                                    field (text "expires_at_ms") (num p.expires_at_ms)
                                      (field (text "enc") (str p.enc) end))))))))))))))))))

abbrev pub or_else : {A : Type 0} → Option A → A → A
or_else none d = d
or_else (some a) d = a

unfoldable pub header_to_protected : Outside → Header → Text → ProtectedHeader
header_to_protected outside h enc = record {
  v = or_else h.version (integer (pos 1));
  suite = or_else h.suite cipher_suite;
  message_type = h.message_type;
  installation_id = h.installation_id;
  sender_id = h.sender_id;
  sender_signing_key_id = h.sender_signing_key_id;
  sender_signing_public_key = outside.encode_base64 (or_else h.sender_signing_public_key []);
  recipient_id = h.recipient_id;
  recipient_encryption_key_id = h.recipient_encryption_key_id;
  message_id = h.message_id;
  event_id = h.event_id;
  event_seq = h.event_seq;
  through_event_seq = h.through_event_seq;
  command_id = h.command_id;
  request_id = h.request_id;
  ack_seq = h.ack_seq;
  created_at_ms = h.created_at;
  expires_at_ms = h.expires_at;
  enc = enc;
}

-- The time of `new Date(n)`: whole milliseconds, or NaN past the range of dates.
abbrev pub clip : ℤ → Number
clip (pos n) = if leb n 8_640_000_000_000_000 then integer (pos n) else nan
clip (negsuc n) = if leb (suc n) 8_640_000_000_000_000 then integer (negsuc n) else nan

abbrev pub negated : ℕ → ℤ
negated zero = pos 0
negated (suc n) = negsuc n

unfoldable pub new_date : Number → Number
new_date (integer z) = clip z
new_date (dyadic (pos m) k) = clip (pos (m / 2 ^ (k + 1)))
new_date (dyadic (negsuc m) k) = clip (negated (suc m / 2 ^ (k + 1)))
new_date (infinite b) = nan
new_date nan = nan

abbrev pub decode_envelope_field : Outside → Text → Outcome Bytes
decode_envelope_field outside value = or_fail invalid_envelope (outside.decode_base64 value)

-- `decodeEnvelopeField` of the signing key is the one call that throws.
abbrev pub header_with_key : ProtectedHeader → Bytes → Header
header_with_key p key = record {
  version = some p.v;
  suite = some p.suite;
  message_type = p.message_type;
  installation_id = p.installation_id;
  sender_id = p.sender_id;
  sender_signing_key_id = p.sender_signing_key_id;
  sender_signing_public_key = some key;
  recipient_id = p.recipient_id;
  recipient_encryption_key_id = p.recipient_encryption_key_id;
  message_id = p.message_id;
  event_id = p.event_id;
  event_seq = p.event_seq;
  through_event_seq = p.through_event_seq;
  command_id = p.command_id;
  request_id = p.request_id;
  ack_seq = p.ack_seq;
  created_at = new_date p.created_at_ms;
  expires_at = new_date p.expires_at_ms;
}

abbrev pub with_key : ProtectedHeader → Outcome Bytes → Outcome Header
with_key p (ok key) = ok (header_with_key p key)
with_key p (fail e) = fail e

unfoldable pub protected_to_header : Outside → ProtectedHeader → Outcome Header
protected_to_header outside p =
    with_key p (decode_envelope_field outside p.sender_signing_public_key)

-- `Object.keys(value).length`
abbrev pub count_fields : Fields → ℕ
count_fields end = 0
count_fields (field k v fs) = suc (count_fields fs)

-- `isNonnegativeSafeInteger(record[key])`
abbrev pub as_safe_integer : Option Json → Option Number
as_safe_integer (some (num n)) = safe_integer n >>= λ _. some n
as_safe_integer _ = none

-- A field of the wanted type is there: that every key is one's own is checked with it.
abbrev pub text_at : Text → Fields → Option Text
text_at key fields = as_text (get key fields)

abbrev pub number_at : Text → Fields → Option Number
number_at key fields = as_safe_integer (get key fields)

unfoldable pub parse_protected_fields : Fields → Option ProtectedHeader
unfolding get
parse_protected_fields fs = do
  v ← number_at (text "v") fs
  suite ← text_at (text "suite") fs
  message_type ← text_at (text "message_type") fs
  installation_id ← text_at (text "installation_id") fs
  sender_id ← text_at (text "sender_id") fs
  sender_signing_key_id ← text_at (text "sender_signing_key_id") fs
  sender_signing_public_key ← text_at (text "sender_signing_public_key") fs
  recipient_id ← text_at (text "recipient_id") fs
  recipient_encryption_key_id ← text_at (text "recipient_encryption_key_id") fs
  message_id ← text_at (text "message_id") fs
  event_id ← text_at (text "event_id") fs
  event_seq ← number_at (text "event_seq") fs
  through_event_seq ← number_at (text "through_event_seq") fs
  command_id ← text_at (text "command_id") fs
  request_id ← text_at (text "request_id") fs
  ack_seq ← number_at (text "ack_seq") fs
  created_at_ms ← number_at (text "created_at_ms") fs
  expires_at_ms ← number_at (text "expires_at_ms") fs
  enc ← text_at (text "enc") fs
  some (record {
    v = v;
    suite = suite;
    message_type = message_type;
    installation_id = installation_id;
    sender_id = sender_id;
    sender_signing_key_id = sender_signing_key_id;
    sender_signing_public_key = sender_signing_public_key;
    recipient_id = recipient_id;
    recipient_encryption_key_id = recipient_encryption_key_id;
    message_id = message_id;
    event_id = event_id;
    event_seq = event_seq;
    through_event_seq = through_event_seq;
    command_id = command_id;
    request_id = request_id;
    ack_seq = ack_seq;
    created_at_ms = created_at_ms;
    expires_at_ms = expires_at_ms;
    enc = enc;
  })

-- It returns the very object that was parsed; what its fields hold is a `ProtectedHeader`.
unfoldable pub parse_protected_header : Json → Option ProtectedHeader
unfolding parse_protected_fields
parse_protected_header value = do
  fs ← as_record value
  guard (count_fields fs == 19)
  parse_protected_fields fs
