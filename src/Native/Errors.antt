-- ===== src/Native/Errors.antt =====
-- modules/pinned-fetch/index.ts and network.ts together: what a probe reads from a native error.
use herdr_connect.Common.{◌≡◌, refl, ap, ◌∙◌, arith, true, Text, text, Option, none, some, ◌>>=◌}
use herdr_connect.Errors.{PinnedFetchErrorCode}
use herdr_connect.Discovery.{wrong_daemon}
use herdr_connect.Requests.{FetchRequest}
use herdr_connect.Requests.Answers.{kind_of, transport_kind}
use herdr_connect.Native.{
  Settled, resolved, rejected, Rejection, settle_fetch, pinned_fetch, known_error_code,
  normalize_rejection, text_field, error_with, or_network_error,
}

known_error_code-mismatch :
    (s : Text)
    → known_error_code s ≡ some PinnedFetchErrorCode.fingerprint_mismatch
    → s ≡ text "fingerprint_mismatch"
unfolding known_error_code
known_error_code-mismatch s e = ground arith

transport_kind-mismatch :
    (c : PinnedFetchErrorCode)
    → transport_kind c ≡ wrong_daemon
    → c ≡ PinnedFetchErrorCode.fingerprint_mismatch
transport_kind-mismatch c e = ground arith

-- The steps of the normalization, for any fields.
steps-code :
    (code message : Option Text) (spelling : Text)
    → transport_kind (
        (or_network_error spelling
          (code >>= λ s. message >>= λ m. known_error_code s >>= λ k. some (error_with k m))).code)
      ≡ wrong_daemon
    → code ≡ some (text "fingerprint_mismatch")
steps-code none message spelling e = ground arith
steps-code (some s) none spelling e = ground arith
steps-code (some s) (some m) spelling e = go (known_error_code s) refl e
  where
    go :
        (k : Option PinnedFetchErrorCode)
        → known_error_code s ≡ k
        → transport_kind ((or_network_error spelling (k >>= λ k. some (error_with k m))).code)
          ≡ wrong_daemon
        → some s ≡ some (text "fingerprint_mismatch")
    go none q e = ground arith
    go (some c) q e =
        ap some (known_error_code-mismatch s (q ∙ ap some (transport_kind-mismatch c e)))

mismatch-code :
    (r : Rejection)
    → transport_kind (normalize_rejection r).code ≡ wrong_daemon
    → text_field (text "code") r.value ≡ some (text "fingerprint_mismatch")
unfolding normalize_rejection
mismatch-code r e =
    steps-code (text_field (text "code") r.value) (text_field (text "message") r.value) r.spelling e

-- On iOS, a candidate counts as the wrong daemon only if the native module rejected the request with
-- the code of a wrong certificate: no other error, and no answer, reads so.
pub pinned_fetch-wrong_daemon :
    (off_ios not_linked : Text) (native : FetchRequest → Settled) (r : FetchRequest)
    → kind_of (pinned_fetch off_ios not_linked true (some native) r) ≡ wrong_daemon
    → (rejection : Rejection) × (native r ≡ rejected rejection)
      × (text_field (text "code") rejection.value ≡ some (text "fingerprint_mismatch"))
unfolding pinned_fetch
pinned_fetch-wrong_daemon off_ios not_linked native r e = go (native r) refl e
  where
    go :
        (s : Settled)
        → native r ≡ s
        → kind_of (settle_fetch s) ≡ wrong_daemon
        → (rejection : Rejection) × (native r ≡ rejected rejection)
          × (text_field (text "code") rejection.value ≡ some (text "fingerprint_mismatch"))
    go (resolved x) q e = ground arith
    go (rejected x) q e = (x, q, mismatch-code x e)
