-- ===== src/Discovery.antt =====
-- discovery-match.ts, address.ts, host-fallback.ts and the conversion of discovery.ts: which
-- discovered services are probed, in which order, how a failed probe is read, and which address
-- is used. `object` is the identity of the JavaScript object, which `===` compares.
pub mod Candidates
pub mod Fallback
use herdr_connect.Common.{
  ℕ, leb, ◌==◌, ◌+◌, ◌*◌, ◌-◌, Text, text, ◌is◌, is_empty, Assoc, lookup, Bool, true, false, not,
  ◌&&◌, ◌||◌, Option, none, some, List, [], ◌∷◌, ◌++◌, map, any, all, first, length, if◌then◌else◌,
}
use herdr_connect.Errors.{
  NetworkErrorCode, NetworkError, new_error, absent, PinnedFetchError, Thrown, network, pinned,
  other, Result, ok, throw, fingerprint_mismatch, no_address, daemon_timeout, daemon_tls,
}
use herdr_connect.Paired.{PinnedHost}

pub record DiscoveredService : Type 0 where
  pub object : ℕ
  pub name : Text
  pub type : Text
  pub domain : Text
  pub host_name : Text
  pub addresses : List Text
  pub port : ℕ
  pub txt : Assoc Text

unfoldable pub service_key : DiscoveredService → Text
service_key s = s.name ++ (text "|" ++ (s.type ++ (text "|" ++ s.domain)))

-- The two lists of `selectCandidates`: verified for the fingerprint, and not verified.
unfoldable pub sort_out :
    List DiscoveredService → Text → Assoc Text → List DiscoveredService × List DiscoveredService
unfolding service_key lookup
sort_out [] fp associations = ([], [])
sort_out (s ∷ services) fp associations =
    let (associated, unknown) = sort_out services fp associations in
    elim (lookup (service_key s) associations) [
      | none ↦ (associated, s ∷ unknown)
      | some owner ↦ if owner is fp then (s ∷ associated, unknown) else (associated, unknown)
    ]

unfoldable pub select_candidates :
    List DiscoveredService → Text → Assoc Text → List DiscoveredService
unfolding sort_out
select_candidates services fp associations =
    let (associated, unknown) = sort_out services fp associations in associated ++ unknown

unfoldable pub pinned_service : ℕ → PinnedHost → DiscoveredService
pinned_service object p = record {
  object = object;
  name = text "pinned-host:" ++ p.host;
  type = text "_herdr-connect._tcp.";
  domain = text "local.";
  host_name = p.host;
  addresses = p.host ∷ [];
  port = p.port;
  txt = [];
}

-- The new object of the pinned service, where there is one, is `object`.
unfoldable pub order_candidates :
    ℕ → List DiscoveredService → Text → Assoc Text → Option PinnedHost → List DiscoveredService
unfolding select_candidates pinned_service
order_candidates object services fp associations none = select_candidates services fp associations
order_candidates object services fp associations (some p) =
    pinned_service object p ∷ select_candidates services fp associations

unfoldable pub is_pinned_service_key : Text → Option PinnedHost → Bool
unfolding service_key pinned_service
is_pinned_service_key key none = false
is_pinned_service_key key (some p) = key is service_key (pinned_service 0 p)

abbrev pub knows : Option (List Text) → Text → Bool
knows none key = false
knows (some keys) key = any (λ k. k is key) keys

unfoldable pub has_unknown_candidate : List DiscoveredService → Option (List Text) → Bool
unfolding service_key
has_unknown_candidate candidates known_keys =
    any (λ s. not (knows known_keys (service_key s))) candidates

pub data ProbeFailureKind : Type 0 where
  wrong_daemon unreachable terminal : ProbeFailureKind

unfoldable pub classify_code : NetworkErrorCode → ProbeFailureKind
classify_code NetworkErrorCode.fingerprint_mismatch = wrong_daemon
classify_code no_address = unreachable
classify_code daemon_timeout = unreachable
classify_code daemon_tls = unreachable
classify_code _ = terminal

unfoldable pub classify_probe_failure : Thrown → ProbeFailureKind
unfolding classify_code
classify_probe_failure (network e) = classify_code e.code
classify_probe_failure _ = terminal

-- address.ts. The parts of a text between the occurrences of a code unit.
abbrev pub cut : Bool → ℕ → List Text → List Text
cut b c [] = []
cut true c (part ∷ parts) = [] ∷ part ∷ parts
cut false c (part ∷ parts) = (c ∷ part) ∷ parts

unfoldable pub split_on : ℕ → Text → List Text
split_on sep [] = [] ∷ []
split_on sep (c ∷ s) = cut (c == sep) c (split_on sep s)

abbrev pub is_digit : ℕ → Bool
is_digit c = leb b'0' c && leb c b'9'

abbrev pub decimal : ℕ → Text → ℕ
decimal acc [] = acc
decimal acc (c ∷ s) = decimal (acc * 10 + (c - b'0')) s

-- `/^\d{1,3}$/.test(part) && Number(part) <= 255`
abbrev pub is_octet : Text → Bool
is_octet part =
    leb 1 (length part) && leb (length part) 3 && all is_digit part && leb (decimal 0 part) 255

unfoldable pub is_ipv4 : Text → Bool
unfolding split_on
is_ipv4 address = let parts = split_on b'.' address in (length parts == 4) && all is_octet parts

abbrev pub head? {ℓ} : {A : Type ℓ} → List A → Option A
head? [] = none
head? (x ∷ xs) = some x

unfoldable pub preferred_address : List Text → Option Text
unfolding is_ipv4
preferred_address addresses = elim (first is_ipv4 addresses) [
  | some address ↦ some address
  | none ↦ head? addresses
]

-- discovery.ts: what the scanner reports of a service.
pub record ScanResult : Type 0 where
  pub object : ℕ
  pub name : Text
  pub hostname : Option Text
  pub ipv4 : Option Text
  pub ipv6 : Option Text
  pub port : Option ℕ

-- `filter(Boolean)`: an address that is there and not empty.
abbrev pub given : Option Text → List Text
given none = []
given (some a) = if is_empty a then [] else a ∷ []

abbrev pub or_empty : Option Text → Text
or_empty none = []
or_empty (some s) = s

unfoldable pub to_discovered_service : ScanResult → Option DiscoveredService
to_discovered_service r =
    let addresses = given r.ipv4 ++ given r.ipv6 in
    elim r.port [
      | none ↦ none
      | some port ↦ elim addresses [
        | [] ↦ none
        | a ∷ more ↦ some (record {
          object = r.object;
          name = r.name;
          type = text "_herdr-connect._tcp.";
          domain = text "local.";
          host_name = or_empty r.hostname;
          addresses = a ∷ more;
          port = port;
          txt = [];
        })
      ]
    ]

-- host-fallback.ts: each address in turn, until one answers. `connection_code` is membership in
-- the set of codes that the caller counts as connection failures.
module _ {A : Type 0} (request : Text → Result A) (classify : PinnedFetchError → NetworkError)
    (connection_code : NetworkErrorCode → Bool) where
  abbrev pub exhausted : Option PinnedFetchError → Option NetworkError → Result A
  exhausted (some e) last = throw (network (classify e))
  exhausted none (some e) = throw (network e)
  exhausted none none = throw (network (new_error no_address absent))

  unfoldable pub try_hosts : List Text → Option PinnedFetchError → Option NetworkError → Result A
  unfolding new_error
  try_hosts [] last_pinned last_connection = exhausted last_pinned last_connection
  try_hosts (url ∷ urls) last_pinned last_connection = elim (request url) [
    | ok a ↦ ok a
    | throw (pinned e) ↦ try_hosts urls (some e) last_connection
    | throw (network e) ↦ elim (connection_code e.code) [
      | true ↦ try_hosts urls last_pinned (some e)
      | false ↦ throw (network e)
    ]
    | throw other ↦ throw other
  ]

  unfoldable pub with_host_fallback : List Text → Result A
  unfolding try_hosts new_error
  with_host_fallback [] = throw (network (new_error no_address absent))
  with_host_fallback (url ∷ urls) = try_hosts (url ∷ urls) none none
