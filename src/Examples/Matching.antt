-- ===== src/Examples/Matching.antt =====
-- Examples on the services that are probed and the addresses that are tried.
use herdr_connect.Common.{
  Bool, ℕ, ◌≡◌, Text, text, ◌is◌, false, none, some, List, [], ◌∷◌, ◌++◌, select, if◌then◌else◌,
}
use herdr_connect.Paired.{PinnedHost}
use herdr_connect.Errors.{
  NetworkErrorCode, NetworkError, PinnedFetchError, PinnedFetchErrorCode, pinned, Result, ok, throw,
}
use herdr_connect.Discovery.{DiscoveredService, order_candidates, with_host_fallback}
use herdr_connect.Discovery.Candidates.{
  pinned_part, is_associated, is_unverified, order_candidates_lem,
}
use herdr_connect.Discovery.Fallback.{answer, with_host_fallback_lem}
use herdr_connect.Examples.{service}

abbrev two_services : List DiscoveredService
two_services = service 1 (text "x") ∷ service 2 (text "y") ∷ []

abbrev far : PinnedHost
far = record { host = text "far"; port = 7 }

order_candidates_lem_example :
    order_candidates 9 two_services (text "a1") ((text "y|z", text "b2") ∷ []) (some far)
    ≡ pinned_part 9 (some far)
      ++ (select (is_associated (text "a1") ((text "y|z", text "b2") ∷ [])) two_services
          ++ select (is_unverified ((text "y|z", text "b2") ∷ [])) two_services)
order_candidates_lem_example =
    order_candidates_lem 9 two_services (text "a1") ((text "y|z", text "b2") ∷ []) (some far)

abbrev two_addresses : List Text
two_addresses = text "fe80::1" ∷ text "10.0.0.2" ∷ []

-- The second address answers; the first one times out.
abbrev second_answers : Text → Result ℕ
second_answers url =
    if url is text "two"
    then ok 5
    else throw (pinned (record { code = PinnedFetchErrorCode.timeout; message = [] }))

abbrev as_timeout : PinnedFetchError → NetworkError
as_timeout e = record { code = NetworkErrorCode.daemon_timeout; status = none; detail = none }

abbrev never : NetworkErrorCode → Bool
never code = false

with_host_fallback_lem_example :
    with_host_fallback second_answers as_timeout never (text "one" ∷ text "two" ∷ [])
    ≡ answer second_answers as_timeout never (text "one" ∷ text "two" ∷ []) none none
with_host_fallback_lem_example =
    with_host_fallback_lem second_answers as_timeout never (text "one") (text "two" ∷ [])
