-- ===== src/Examples/Asked.antt =====
-- Examples on the requests to a daemon and on the QR code.
use herdr_connect.Common.{
  ℕ, ◌≤◌, ◌<◌, ◌≡◌, refl, ◌↔◌, ◌⊎◌, text, ◌is◌, Text-discrete, ℕ_discrete, false, none, some, [],
  ◌∷◌, pos, if◌then◌else◌,
}
use herdr_connect.Json.{JsonText, num, str, arr, obj, nil, cons, end, field, integer}
use herdr_connect.Errors.{
  NetworkError, PinnedFetchError, PinnedFetchErrorCode, Thrown, network, pinned, Result, ok, throw,
  daemon_timeout, unauthorized, pairing_qr_invalid,
}
use herdr_connect.Discovery.{preferred_address, classify_probe_failure}
use herdr_connect.Revocation.{classify_revocation_failure}
use herdr_connect.Requests.{
  address_of, Engine, Response, FetchRequest, RequestCredentials, AuthRequest, throw_code,
  daemon_codes, revoke_codes, plain_request, fetch_request, auth_pinned_fetch, fetch_agents,
  revoke_device, device_url,
}
use herdr_connect.Requests.Answers.{
  kind_of, agents_request, revocation_of, fetch_agents-kind, auth_pinned_fetch-ok,
  revoke_device-classified,
}
use herdr_connect.Requests.QrCode.{PairingQrPayload, parse_pairing_qr_payload}
use herdr_connect.Requests.QrCode.Written.{IsWritten, parse_pairing_qr_payload-IsWritten}
use herdr_connect.Requests.Pair.{pair_result, pair_daemon}
use herdr_connect.Requests.Pair.Hosts.{pair_daemon-reaches}
use herdr_connect.Common.{In, true}
use herdr_connect.Discovery.{wrong_daemon}
use herdr_connect.Preferences.{resolve_voice_lang}
use herdr_connect.Preferences.Supported.{resolve_voice_lang-In}
use herdr_connect.Native.{Rejection, rejected, pinned_fetch, text_field}
use herdr_connect.Native.Errors.{pinned_fetch-wrong_daemon}
use herdr_connect.Examples.{service}

abbrev no_json : JsonText
no_json = record { parse = λ s. none; stringify = λ j. [] }

abbrev engine : (FetchRequest → Result Response) → Engine
engine fetch = record {
  json = no_json;
  show = λ n. text "1";
  encode_component = λ s. some s;
  pinned_fetch = fetch;
}

abbrev credentials : RequestCredentials
credentials = record { fingerprint = text "a1"; token = text "t" }

abbrev too_late : PinnedFetchError
too_late = record { code = PinnedFetchErrorCode.timeout; message = [] }

abbrev timed_out : Engine
timed_out = engine (λ r. throw (pinned too_late))

abbrev answers : ℕ → Engine
answers n = engine (λ r. ok (record { status = n; body = [] }))

abbrev error_of : Result Response → Thrown
error_of (throw t) = t
error_of (ok r) = pinned too_late

address_found : address_of (service 1 (text "x")) ≡ ok (text "10.0.0.2")
unfolding preferred_address
address_found = refl

abbrev timeout_error : NetworkError
timeout_error = record { code = daemon_timeout; status = none; detail = none }

fetch_timed_out :
    fetch_agents timed_out (ok none) (service 1 (text "x")) (some credentials)
    ≡ throw (network timeout_error)
unfolding fetch_agents
fetch_timed_out = refl

fetch_agents-kind_example :
    classify_probe_failure (network timeout_error)
    ≡ kind_of (timed_out.pinned_fetch (agents_request timed_out (text "10.0.0.2") 7878 credentials))
fetch_agents-kind_example =
    fetch_agents-kind timed_out (ok none) (service 1 (text "x")) (some credentials)
      (text "10.0.0.2") credentials (network timeout_error) address_found refl fetch_timed_out

abbrev a_request : AuthRequest
a_request =
    plain_request (text "GET") (text "https://10.0.0.2:1/v1/agents") credentials daemon_codes

abbrev no_content : Response
no_content = record { status = 204; body = [] }

auth_pinned_fetch-ok_example : (auth_pinned_fetch (answers 204) a_request ≡ ok no_content) ↔ (
    ((answers 204).pinned_fetch (fetch_request a_request) ≡ ok no_content)
    × (200 ≤ no_content.status)
    × (no_content.status < 300))
auth_pinned_fetch-ok_example = auth_pinned_fetch-ok (answers 204) a_request no_content

abbrev rejected_token : NetworkError
rejected_token = record { code = unauthorized; status = none; detail = none }

revoke_rejected :
    revoke_device (answers 401) (service 1 (text "x")) credentials ≡ throw (network rejected_token)
unfolding revoke_device
revoke_rejected = refl

revoke_device-classified_example :
    classify_revocation_failure rejected_token.code
    ≡ revocation_of (
        (answers 401).pinned_fetch (
          fetch_request (
            plain_request
              (text "DELETE")
              (device_url (answers 401) (text "10.0.0.2") 7878)
              credentials
              revoke_codes)))
revoke_device-classified_example =
    revoke_device-classified (answers 401) (service 1 (text "x")) credentials (text "10.0.0.2")
      rejected_token address_found revoke_rejected

-- The JSON of a QR code, whatever the text is.
abbrev code_json : JsonText
code_json = record no_json {
  parse = λ s. some (
      obj (
        field (text "v") (num (integer (pos 1))) (
          field (text "fp") (str (text "a1")) (
            field (text "secret") (str (text "s")) (
              field (text "hosts") (arr (cons (str (text "a")) nil))
                (field (text "port") (num (integer (pos 9808))) end))))));
}

parse_pairing_qr_payload-IsWritten_example :
    ((p : PairingQrPayload)
      → (parse_pairing_qr_payload code_json (text "code") ≡ ok p)
        ↔ IsWritten code_json (text "code") p)
    × (((p : PairingQrPayload) × (parse_pairing_qr_payload code_json (text "code") ≡ ok p))
        ⊎ (parse_pairing_qr_payload code_json (text "code") ≡ throw_code pairing_qr_invalid))
parse_pairing_qr_payload-IsWritten_example =
    parse_pairing_qr_payload-IsWritten code_json (text "code")

abbrev payload : PairingQrPayload
payload = record {
  v = integer (pos 1);
  fp = text "a1";
  hosts = text "a" ∷ text "b" ∷ text "c" ∷ [];
  port = 9808;
  secret = text "s";
  host_override = false;
}

-- The first host does not answer.
abbrev first_silent : Engine
first_silent =
    engine
      (λ r. if r.url is text "https://a:1/v1/pair" then throw (pinned too_late) else ok no_content)

pair_daemon-reaches_example :
    pair_daemon first_silent payload (text "Phone") ≡ pair_result first_silent no_content
unfolding Text-discrete ℕ_discrete
pair_daemon-reaches_example =
    pair_daemon-reaches first_silent payload (text "Phone") (text "a" ∷ []) (text "c" ∷ [])
      (text "b") no_content refl ((too_late, refl), tt) refl

resolve_voice_lang-In_example :
    In
      (resolve_voice_lang (text "zh-Hans") none (text "ja-JP" ∷ text "zh-TW" ∷ []))
      (text "ja-JP" ∷ text "zh-TW" ∷ [])
resolve_voice_lang-In_example =
    resolve_voice_lang-In (text "zh-Hans") none (text "ja-JP") (text "zh-TW" ∷ [])

abbrev mismatch : Rejection
mismatch = record {
  value = obj (
      field (text "code") (str (text "fingerprint_mismatch"))
        (field (text "message") (str (text "m")) end));
  spelling = text "m";
}

mismatch_read :
    kind_of (pinned_fetch [] [] true (some (λ r. rejected mismatch)) (fetch_request a_request))
    ≡ wrong_daemon
unfolding pinned_fetch Text-discrete ℕ_discrete
mismatch_read = refl

pinned_fetch-wrong_daemon_example :
    (rejection : Rejection) × (rejected mismatch ≡ rejected rejection)
    × (text_field (text "code") rejection.value ≡ some (text "fingerprint_mismatch"))
pinned_fetch-wrong_daemon_example =
    pinned_fetch-wrong_daemon [] [] (λ r. rejected mismatch) (fetch_request a_request) mismatch_read
