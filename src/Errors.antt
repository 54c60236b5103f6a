-- ===== src/Errors.antt =====
-- i18n/errors.ts, with the errors of the pinned-fetch module: what the network layer throws.
use herdr_connect.Common.{ℕ, Text, Option, none, some}

pub data NetworkErrorCode : Type 0 where
  no_address daemon_http daemon_timeout daemon_tls response_invalid response_missing agent_invalid
        agent_missing focus_http focus_timeout focus_tls history_http history_timeout history_tls
        history_invalid history_read send_http send_timeout send_tls send_failed interrupt_http
        interrupt_timeout interrupt_tls interrupt_failed revoke_http revoke_timeout revoke_tls
        discovery_search_failed discovery_resolve_failed connect_failed nearby_permission_denied
        fingerprint_mismatch unauthorized revoked pairing_failed pairing_qr_invalid not_credentials
        daemon_outdated app_outdated :
      NetworkErrorCode

-- The constructor's second argument is a status if it is a number and a detail if it is a string.
pub record NetworkError : Type 0 where
  pub code : NetworkErrorCode
  pub status : Option ℕ
  pub detail : Option Text

pub data StatusOrDetail : Type 0 where
  absent : StatusOrDetail
  status : ℕ → StatusOrDetail
  detail : Text → StatusOrDetail

unfoldable pub new_error : NetworkErrorCode → StatusOrDetail → NetworkError
new_error code absent = record { code = code; status = none; detail = none }
new_error code (status n) = record { code = code; status = some n; detail = none }
new_error code (detail t) = record { code = code; status = none; detail = some t }

-- modules/pinned-fetch
pub data PinnedFetchErrorCode : Type 0 where
  fingerprint_mismatch tls_handshake_failed timeout network_error invalid_url unsupported_platform :
      PinnedFetchErrorCode

pub record PinnedFetchError : Type 0 where
  pub code : PinnedFetchErrorCode
  pub message : Text

-- A thrown value: one of the two error classes, or anything else.
pub data Thrown : Type 0 where
  network : NetworkError → Thrown
  pinned : PinnedFetchError → Thrown
  other : Thrown

-- What a call that may throw gives.
pub data Result {ℓ} (A : Type ℓ) : Type ℓ where
  ok : A → Result A
  throw : Thrown → Result A

unfoldable pub to_error_code : Thrown → NetworkErrorCode → NetworkErrorCode
to_error_code (network e) fallback = e.code
to_error_code _ fallback = fallback

unfoldable pub to_error_status : Thrown → Option ℕ
to_error_status (network e) = e.status
to_error_status _ = none
