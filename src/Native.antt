-- ===== src/Native.antt =====
-- modules/pinned-fetch/index.ts and modules/pinned-stream: what the native modules' answers and
-- errors are made of on their way to the app.
pub mod Errors
use herdr_connect.Common.{
  ℕ, ◌==◌, Text, text, ◌is◌, Bool, true, false, ◌&&◌, ◌||◌, Option, none, some, List, [], ◌∷◌,
  if◌then◌else◌, ◌>>=◌,
}
use herdr_connect.Json.{Json, str, obj, Fields, get, as_text, as_bool, as_record, JsonText}
use herdr_connect.Errors.{
  PinnedFetchError, PinnedFetchErrorCode, fingerprint_mismatch, tls_handshake_failed, timeout,
  network_error, invalid_url, unsupported_platform, pinned, Result, ok, throw,
}
use herdr_connect.Requests.{FetchRequest, Response}

-- `isKnownErrorCode`, with the code.
unfoldable pub known_error_code : Text → Option PinnedFetchErrorCode
known_error_code s =
    if s is text "fingerprint_mismatch"
    then some fingerprint_mismatch
    else if s is text "tls_handshake_failed"
    then some tls_handshake_failed
    else if s is text "timeout"
    then some timeout
    else if s is text "network_error"
    then some network_error
    else if s is text "invalid_url"
    then some invalid_url
    else if s is text "unsupported_platform"
    then some unsupported_platform
    else none

-- What the native side rejects with: the value, and the text that is made of it, which is the
-- message of an `Error` and `String(error)` of anything else.
pub record Rejection : Type 0 where
  pub value : Json
  pub spelling : Text

abbrev pub text_field : Text → Json → Option Text
text_field key (obj fs) = as_text (get key fs)
text_field key _ = none

abbrev pub error_with : PinnedFetchErrorCode → Text → PinnedFetchError
error_with code message = record { code = code; message = message }

-- `isNativePinnedFetchError(error) && isKnownErrorCode(error.code)`
unfoldable pub native_error : Json → Option PinnedFetchError
unfolding known_error_code get
native_error value = do
  code ← text_field (text "code") value
  message ← text_field (text "message") value
  known ← known_error_code code
  some (error_with known message)

abbrev pub or_network_error : Text → Option PinnedFetchError → PinnedFetchError
or_network_error spelling none = error_with network_error spelling
or_network_error spelling (some e) = e

unfoldable pub normalize_rejection : Rejection → PinnedFetchError
unfolding native_error
normalize_rejection r = or_network_error r.spelling (native_error r.value)

-- How the call of the native module settles.
pub data Settled : Type 0 where
  resolved : Response → Settled
  rejected : Rejection → Settled

abbrev pub settle_fetch : Settled → Result Response
unfolding normalize_rejection
settle_fetch (resolved r) = ok r
settle_fetch (rejected r) = throw (pinned (normalize_rejection r))

-- Off iOS, or where the module is not linked, the network is not touched. Both texts are given.
unfoldable pub pinned_fetch :
    Text → Text → Bool → Option (FetchRequest → Settled) → FetchRequest → Result Response
unfolding normalize_rejection
pinned_fetch off_ios not_linked false native r =
    throw (pinned (error_with unsupported_platform off_ios))
pinned_fetch off_ios not_linked true none r =
    throw (pinned (error_with unsupported_platform not_linked))
pinned_fetch off_ios not_linked true (some native) r = settle_fetch (native r)

pub record StreamEvent : Type 0 where
  pub cursor : Text
  pub online : Bool

-- parseStreamEvent.ts
abbrev pub stream_event_of_fields : Fields → Option StreamEvent
unfolding get
stream_event_of_fields fs = do
  cursor ← as_text (get (text "cursor") fs)
  online ← as_bool (get (text "online") fs)
  some (record { cursor = cursor; online = online })

unfoldable pub parse_stream_event : JsonText → Text → Option StreamEvent
unfolding get
parse_stream_event json payload = do
  value ← json.parse payload
  fs ← as_record value
  stream_event_of_fields fs

abbrev pub or_given : Option Text → Text → Text
or_given none s = s
or_given (some t) s = t

unfoldable pub extract_data_payload : Json → Text
unfolding get
extract_data_payload (str s) = s
extract_data_payload (obj fs) = or_given (as_text (get (text "data") fs)) []
extract_data_payload _ = []

abbrev pub code_or_network_error : Option PinnedFetchErrorCode → PinnedFetchErrorCode
code_or_network_error none = network_error
code_or_network_error (some code) = code

unfoldable pub extract_error_payload : Json → PinnedFetchErrorCode × Text
unfolding get known_error_code
extract_error_payload (obj fs) = (
  code_or_network_error (as_text (get (text "code") fs) >>= known_error_code),
  or_given (as_text (get (text "message") fs)) (text "stream error"),
)
extract_error_payload _ = (network_error, text "unknown stream error")

-- What `onEvent` gives its listener, if it calls it.
unfoldable pub received_event : JsonText → Json → Option StreamEvent
unfolding parse_stream_event extract_data_payload
received_event json payload = parse_stream_event json (extract_data_payload payload)
