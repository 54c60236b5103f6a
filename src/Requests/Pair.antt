-- ===== src/Requests/Pair.antt =====
-- network.ts: pairing with a daemon, and revoking a replaced token, over the hosts of the QR code.
pub mod Hosts
use herdr_connect.Common.{
  ℕ, ltb, leb, ◌==◌, Text, text, Bool, true, false, ◌||◌, Option, none, some, List, [], ◌∷◌, map,
  if◌then◌else◌,
}
use herdr_connect.Json.{Json, Number, str, obj, field, end, get, as_text, as_number, as_record}
use herdr_connect.Errors.{
  NetworkErrorCode, NetworkError, new_error, status, PinnedFetchError, network, Result, ok, throw,
  pairing_failed, app_outdated, fingerprint_mismatch, revoke_tls, revoke_timeout,
}
use herdr_connect.Agents.{assert_daemon_supported}
use herdr_connect.Discovery.{with_host_fallback}
use herdr_connect.Requests.{
  Engine, Response, FetchRequest, RequestCredentials, ◌>>=◌, ◌>>◌, or_code, or_other, throw_code,
  client_version_header, daemon_codes, revoke_codes, plain_request, map_pinned_fetch_error,
  auth_pinned_fetch, device_url,
}
use herdr_connect.Requests.QrCode.{PairingQrPayload, pairing_urls}

pub record PairResult : Type 0 where
  pub api_version : Number
  pub device_id : Text
  pub token : Text
  pub device_name : Text
  pub fingerprint : Text

abbrev pub pair_request : Engine → PairingQrPayload → Text → Text → FetchRequest
pair_request engine payload device_name url = record {
  url = url;
  fingerprint = payload.fp;
  method = text "POST";
  headers =
      (text "Accept", text "application/json")
      ∷ (text "Content-Type", text "application/json")
      ∷ client_version_header
      ∷ [];
  body = some (
      engine.json.stringify (
        obj (
          field (text "device_name") (str device_name)
            (field (text "secret") (str payload.secret) end))));
}

unfoldable pub check_pair_status : Response → Result Response
unfolding new_error
check_pair_status r =
    if r.status == 400
    then throw_code pairing_failed
    else if r.status == 426
    then throw_code app_outdated
    else if ltb r.status 200 || leb 300 r.status
    then throw (network (new_error pairing_failed (status r.status)))
    else ok r

unfoldable pub parse_pair_result : Json → Result PairResult
unfolding get assert_daemon_supported
parse_pair_result value = do
  fs ← or_code pairing_failed (as_record value)
  api_version ← or_code pairing_failed (as_number (get (text "api_version") fs))
  device_id ← or_code pairing_failed (as_text (get (text "device_id") fs))
  token ← or_code pairing_failed (as_text (get (text "token") fs))
  device_name ← or_code pairing_failed (as_text (get (text "device_name") fs))
  fingerprint ← or_code pairing_failed (as_text (get (text "fingerprint") fs))
  assert_daemon_supported api_version
  ok (record {
    api_version = api_version;
    device_id = device_id;
    token = token;
    device_name = device_name;
    fingerprint = fingerprint;
  })

abbrev pub no_code : NetworkErrorCode → Bool
no_code code = false

-- What is made of the answer of the host that was reached.
unfoldable pub pair_result : Engine → Response → Result PairResult
unfolding check_pair_status parse_pair_result
pair_result engine response = do
  answered ← check_pair_status response
  value ← or_other (engine.json.parse answered.body)
  parse_pair_result value

unfoldable pub pair_daemon : Engine → PairingQrPayload → Text → Result PairResult
unfolding with_host_fallback map_pinned_fetch_error pair_result
pair_daemon engine payload device_name =
    with_host_fallback (λ url. engine.pinned_fetch (pair_request engine payload device_name url))
      (λ e. map_pinned_fetch_error e daemon_codes) no_code (pairing_urls engine payload)
    >>= pair_result engine

-- The codes after which the next host is tried.
abbrev pub is_revoke_connection_code : NetworkErrorCode → Bool
is_revoke_connection_code revoke_tls = true
is_revoke_connection_code revoke_timeout = true
is_revoke_connection_code fingerprint_mismatch = true
is_revoke_connection_code _ = false

unfoldable pub revoke_device_by_pairing_hosts : Engine → PairingQrPayload → Text → Result (Unit {0})
unfolding with_host_fallback map_pinned_fetch_error auth_pinned_fetch
revoke_device_by_pairing_hosts engine payload token =
    with_host_fallback
      (λ url. auth_pinned_fetch engine (
        plain_request (text "DELETE") url (record { fingerprint = payload.fp; token = token })
          revoke_codes))
      (λ e. map_pinned_fetch_error e revoke_codes) is_revoke_connection_code
      (map (λ host. device_url engine host payload.port) payload.hosts)
    >>= λ _. ok tt
