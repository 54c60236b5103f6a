-- ===== src/Requests/Pair/Hosts.antt =====
-- network.ts: pairing, and revoking a replaced token, over the hosts of a QR code.
use herdr_connect.Common.{
  ◌≡◌, refl, ap, ◌∙◌, Text, Bool, true, false, none, some, List, [], ◌∷◌, ◌++◌, map, first, All,
}
use herdr_connect.Errors.{
  NetworkErrorCode, NetworkError, PinnedFetchError, pinned, Result, ok, throw,
}
use herdr_connect.Discovery.{with_host_fallback}
use herdr_connect.Discovery.Fallback.{
  is_decisive, answer, ask, verdict, last_pinned, last_connection, with_host_fallback_lem,
}
use herdr_connect.Requests.{Engine, Response, ◌>>=◌, map_pinned_fetch_error, daemon_codes}
use herdr_connect.Requests.QrCode.{PairingQrPayload, pairing_url}
use herdr_connect.Requests.Pair.{pair_request, no_code, pair_result, pair_daemon}

module _ {A : Type 0} (p : A → Bool) where
  first-append :
      (before after : List A) (x : A)
      → All (λ b. p b ≡ false) before
      → p x ≡ true
      → first p (before ++ (x ∷ after)) ≡ some x
  first-append [] after x h k = rw (k)
  first-append (b ∷ before) after x (h, hs) k = rw (h) (first-append before after x hs k)

module _ {A : Type 0} (request : Text → Result A) (classify : PinnedFetchError → NetworkError)
    (connection_code : NetworkErrorCode → Bool) where
  abbrev decides : Text → Bool
  decides url = is_decisive request classify connection_code (request url)

  answer-reached :
      (before after : List Text) (url : Text) (a : A)
      → All (λ u. decides u ≡ false) before
      → request url ≡ ok a
      → answer request classify connection_code (before ++ (url ∷ after)) none none ≡ ok a
  answer-reached before after url a silent e =
      ap
        (λ o. ask request classify connection_code o (
          verdict request classify connection_code
            (last_pinned request classify connection_code (before ++ (url ∷ after)) none)
            (last_connection request classify connection_code (before ++ (url ∷ after)) none)))
        (first-append decides before after url silent (rw (e) refl))
      ∙ e

  fallback-reached :
      (before after : List Text) (url : Text) (a : A)
      → All (λ u. decides u ≡ false) before
      → request url ≡ ok a
      → with_host_fallback request classify connection_code (before ++ (url ∷ after)) ≡ ok a
  fallback-reached [] after url a silent e =
      with_host_fallback_lem request classify connection_code url after
      ∙ answer-reached [] after url a silent e
  fallback-reached (b ∷ before) after url a silent e =
      with_host_fallback_lem request classify connection_code b (before ++ (url ∷ after))
      ∙ answer-reached (b ∷ before) after url a silent e

map-append :
    {A B : Type 0} (f : A → B) (before after : List A) (x : A)
    → map f (before ++ (x ∷ after)) ≡ map f before ++ (f x ∷ map f after)
map-append f [] after x = refl
map-append f (b ∷ before) after x = ap (λ t. f b ∷ t) (map-append f before after x)

-- A host that gives no answer at all.
abbrev pub IsSilent : Result Response → Type 0
IsSilent r = (e : PinnedFetchError) × (r ≡ throw (pinned e))

module _ (engine : Engine) (payload : PairingQrPayload) (device_name : Text) where
  abbrev pub ask_host : Text → Result Response
  ask_host host =
      engine.pinned_fetch
        (pair_request engine payload device_name (pairing_url engine payload.port host))

  abbrev classify_pair : PinnedFetchError → NetworkError
  classify_pair e = map_pinned_fetch_error e daemon_codes

  abbrev request_at : Text → Result Response
  request_at url = engine.pinned_fetch (pair_request engine payload device_name url)

  silent-urls :
      (before : List Text)
      → All (λ host. IsSilent (ask_host host)) before
      → All
          (λ url. is_decisive request_at classify_pair no_code (request_at url) ≡ false)
          (map (pairing_url engine payload.port) before)
  silent-urls [] _ = tt
  silent-urls (host ∷ before) ((e, q), rest) = (rw (q), silent-urls before rest)

  -- If one host of the QR code answers, and the hosts before it give no answer at all, the pairing
  -- ends with what that host answered; the hosts after it do not matter.
  pub pair_daemon-reaches :
      (before after : List Text) (host : Text) (response : Response)
      → payload.hosts ≡ before ++ (host ∷ after)
      → All (λ h. IsSilent (ask_host h)) before
      → ask_host host ≡ ok response
      → pair_daemon engine payload device_name ≡ pair_result engine response
  unfolding pair_daemon
  pair_daemon-reaches before after host response listed silent e =
      ap (λ urls. with_host_fallback request_at classify_pair no_code urls >>= pair_result engine)
        (ap (map (pairing_url engine payload.port)) listed
          ∙ map-append (pairing_url engine payload.port) before after host)
      ∙ ap (λ r. r >>= pair_result engine)
          (fallback-reached request_at classify_pair no_code
            (map (pairing_url engine payload.port) before)
            (map (pairing_url engine payload.port) after) (pairing_url engine payload.port host)
            response (silent-urls before silent) e)
