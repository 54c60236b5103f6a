-- ===== src/Requests/Answers.antt =====
-- network.ts: how the outcome of a request reads to the probing of candidates and to the revocation
-- of a token.
use herdr_connect.Common.{
  ℕ, ◌≤◌, ◌<◌, ◌==◌, ◌≡◌, refl, sym, ap, ◌∙◌, ◌↔◌, arith, Text, text, Option, none, some, List, [],
  ◌∷◌, if◌then◌else◌,
}
use herdr_connect.Json.{Fields, Json, Number, as_record}
use herdr_connect.Errors.{
  NetworkError, PinnedFetchError, PinnedFetchErrorCode, Thrown, network, pinned, other, Result, ok,
  throw, daemon_http, revoke_http, response_missing, response_invalid,
}
use herdr_connect.Agents.{
  AgentsResponse, Agent, parse_agent, parse_agents, put_first, with_agents, ResponseFields,
  response_of_fields, parse_agents_response, assert_daemon_supported,
}
use herdr_connect.Discovery.{
  DiscoveredService, ProbeFailureKind, wrong_daemon, unreachable, terminal, classify_probe_failure,
}
use herdr_connect.Revocation.{
  RevocationClassification, already_invalid, failed, classify_revocation_failure,
}
use herdr_connect.Requests.{
  Engine, Response, FetchRequest, RequestCredentials, AuthRequest, ErrorCodes, ◌>>=◌, or_other,
  require_credentials, address_of, daemon_codes, revoke_codes, plain_request, fetch_request,
  map_pinned_fetch_error, map_thrown, check_status, auth_pinned_fetch, agents_url, device_url,
  agents_of_body, fetch_agents, revoke_device,
}

-- What throws, if it does, only what ends a probe.
record IsTerminal {A : Type 0} (r : Result A) : Type 0 where
  ends : (e : Thrown) → r ≡ throw e → classify_probe_failure e ≡ terminal

module _ {A : Type 0} where
  ok-IsTerminal : (a : A) → IsTerminal (ok a)
  ok-IsTerminal a = record { ends = λ e q. ground arith }

  throw-IsTerminal :
      (t : Thrown) → classify_probe_failure t ≡ terminal → IsTerminal {A = A} (throw t)
  throw-IsTerminal t h = record { ends = λ e q. ground (arith, h) }

  or_other-IsTerminal : (o : Option A) → IsTerminal (or_other o)
  unfolding classify_probe_failure
  or_other-IsTerminal none = throw-IsTerminal other refl
  or_other-IsTerminal (some a) = ok-IsTerminal a

  >>=-IsTerminal :
      {B : Type 0} (r : Result A) (k : A → Result B)
      → IsTerminal r
      → ((a : A) → IsTerminal (k a))
      → IsTerminal (r >>= k)
  >>=-IsTerminal (ok a) k c d = d a
  >>=-IsTerminal (throw t) k c d = record { ends = λ e q. c.ends e (ground arith) }

check_status-IsTerminal :
    (engine : Engine) (r : Response) → IsTerminal (check_status engine daemon_http r)
unfolding check_status classify_probe_failure
check_status-IsTerminal engine r = record { ends = λ e q. ground arith }

assert-IsTerminal : (v : Number) → IsTerminal (assert_daemon_supported v)
unfolding assert_daemon_supported classify_probe_failure
assert-IsTerminal v = record { ends = λ e q. ground arith }

parse_agent-IsTerminal : (j : Json) → IsTerminal (parse_agent j)
unfolding parse_agent classify_probe_failure
parse_agent-IsTerminal j = record { ends = λ e q. ground arith }

put_first-IsTerminal :
    (r : Result Agent) (rest : Result (List Agent))
    → IsTerminal r
    → IsTerminal rest
    → IsTerminal (put_first r rest)
put_first-IsTerminal (throw t) rest c d = record { ends = λ e q. c.ends e (ground arith) }
put_first-IsTerminal (ok a) (throw t) c d = record { ends = λ e q. d.ends e (ground arith) }
put_first-IsTerminal (ok a) (ok agents) c d = ok-IsTerminal (a ∷ agents)

with_agents-IsTerminal :
    (f : ResponseFields) (r : Result (List Agent)) → IsTerminal r → IsTerminal (with_agents f r)
with_agents-IsTerminal f (throw t) c = record { ends = λ e q. c.ends e (ground arith) }
with_agents-IsTerminal f (ok agents) c = record { ends = λ e q. ground arith }

parse_agents-IsTerminal : (js : List Json) → IsTerminal (parse_agents js)
unfolding parse_agents
parse_agents-IsTerminal [] = ok-IsTerminal []
parse_agents-IsTerminal (j ∷ js) =
    put_first-IsTerminal (parse_agent j) (parse_agents js) (parse_agent-IsTerminal j)
      (parse_agents-IsTerminal js)

parse_agents_response-IsTerminal : (j : Json) → IsTerminal (parse_agents_response j)
unfolding parse_agents_response classify_probe_failure
parse_agents_response-IsTerminal j = go (as_record j)
  where
    of_fields :
        (o : Option ResponseFields)
        → IsTerminal (elim o [
          | none ↦
              throw (network (record { code = response_missing; status = none; detail = none }))
          | some f ↦ with_agents f (parse_agents f.agents)
        ])
    of_fields none = throw-IsTerminal _ refl
    of_fields (some f) =
        with_agents-IsTerminal f (parse_agents f.agents) (parse_agents-IsTerminal f.agents)

    go :
        (o : Option Fields)
        → IsTerminal (elim o [
          | none ↦
              throw (network (record { code = response_invalid; status = none; detail = none }))
          | some fs ↦ elim (response_of_fields fs) [
            | none ↦
                throw (network (record { code = response_missing; status = none; detail = none }))
            | some f ↦ with_agents f (parse_agents f.agents)
          ]
        ])
    go none = throw-IsTerminal _ refl
    go (some fs) = of_fields (response_of_fields fs)

agents_of_body-IsTerminal :
    (engine : Engine) (body : Text) → IsTerminal (agents_of_body engine body)
unfolding agents_of_body
agents_of_body-IsTerminal engine body =
    search
      (
        >>=-IsTerminal, or_other-IsTerminal, ok-IsTerminal, parse_agents_response-IsTerminal,
        assert-IsTerminal,
      )
      depth 20

-- How the outcome of the transport reads.
abbrev pub transport_kind : PinnedFetchErrorCode → ProbeFailureKind
transport_kind PinnedFetchErrorCode.fingerprint_mismatch = wrong_daemon
transport_kind _ = unreachable

abbrev pub kind_of : Result Response → ProbeFailureKind
kind_of (ok response) = terminal
kind_of (throw (pinned e)) = transport_kind e.code
kind_of (throw t) = classify_probe_failure t

-- The request that `fetch_agents` makes.
abbrev pub agents_request : Engine → Text → ℕ → RequestCredentials → FetchRequest
agents_request engine address port credentials =
    fetch_request
      (plain_request (text "GET") (agents_url engine address port) credentials daemon_codes)

map_thrown-check_status :
    (engine : Engine) (codes : ErrorCodes) (x : Response)
    → map_thrown codes (check_status engine codes.http x) ≡ check_status engine codes.http x
unfolding check_status
map_thrown-check_status engine codes x = ground arith

transport_kind-classify :
    (p : PinnedFetchError)
    → classify_probe_failure (network (map_pinned_fetch_error p daemon_codes))
      ≡ transport_kind p.code
unfolding map_pinned_fetch_error classify_probe_failure
transport_kind-classify p = ground arith

throw-eq : (t e : Thrown) → ◌≡◌ {A = Result AgentsResponse} (throw t) (throw e) → e ≡ t
throw-eq t e q = ground arith

auth-kind :
    (engine : Engine) (r : Result Response) (body_of : Text → Result AgentsResponse) (e : Thrown)
    → ((b : Text) → IsTerminal (body_of b))
    → (map_thrown daemon_codes (r >>= check_status engine daemon_http) >>= λ a. body_of a.body)
      ≡ throw e
    → classify_probe_failure e ≡ kind_of r
auth-kind engine (ok x) body_of e t q =
    (>>=-IsTerminal (check_status engine daemon_http x) (λ a. body_of a.body)
        (check_status-IsTerminal engine x) (λ a. t a.body)).ends
      e
      (ap (λ o. o >>= λ a. body_of a.body) (sym (map_thrown-check_status engine daemon_codes x))
        ∙ q)
auth-kind engine (throw (pinned p)) body_of e t q =
    ap classify_probe_failure (throw-eq (network (map_pinned_fetch_error p daemon_codes)) e q)
    ∙ transport_kind-classify p
auth-kind engine (throw (network n)) body_of e t q =
    ap classify_probe_failure (throw-eq (network n) e q)
auth-kind engine (throw other) body_of e t q = ap classify_probe_failure (throw-eq other e q)

-- When `fetch_agents` throws, at an address and with credentials, the way the transport ended says
-- how the probe reads it: a certificate of another daemon is a wrong daemon, any other transport
-- error is an unreachable address, and once the daemon answered, whatever it answered, the probe ends.
pub fetch_agents-kind :
    (engine : Engine) (stored : Result (Option RequestCredentials)) (service : DiscoveredService)
    (given : Option RequestCredentials) (address : Text) (credentials : RequestCredentials)
    (e : Thrown)
    → address_of service ≡ ok address
    → require_credentials given stored ≡ ok credentials
    → fetch_agents engine stored service given ≡ throw e
    → classify_probe_failure e
      ≡ kind_of (engine.pinned_fetch (agents_request engine address service.port credentials))
unfolding fetch_agents auth_pinned_fetch
fetch_agents-kind engine stored service given address credentials e h k q =
    auth-kind engine (engine.pinned_fetch (agents_request engine address service.port credentials))
      (agents_of_body engine) e (agents_of_body-IsTerminal engine) (sym (rw (h, k) refl) ∙ q)

checked-ok :
    (engine : Engine) (codes : ErrorCodes) (o : Result Response) (response : Response)
    → (map_thrown codes (o >>= check_status engine codes.http) ≡ ok response)
      ↔ ((o ≡ ok response) × (200 ≤ response.status) × (response.status < 300))
unfolding check_status
checked-ok engine codes (ok x) response = ground arith
checked-ok engine codes (throw (pinned p)) response = ground arith
checked-ok engine codes (throw (network n)) response = ground arith
checked-ok engine codes (throw other) response = ground arith

-- An authorized request is answered exactly by an answer of the transport with a status in the 200s.
pub auth_pinned_fetch-ok :
    (engine : Engine) (r : AuthRequest) (response : Response)
    → (auth_pinned_fetch engine r ≡ ok response) ↔ (
        (engine.pinned_fetch (fetch_request r) ≡ ok response)
        × (200 ≤ response.status)
        × (response.status < 300))
unfolding auth_pinned_fetch
auth_pinned_fetch-ok engine r response =
    checked-ok engine r.codes (engine.pinned_fetch (fetch_request r)) response

-- How a revocation that failed is classified, by the way the transport ended.
abbrev pub revocation_of : Result Response → RevocationClassification
revocation_of (ok x) = if x.status == 401 then already_invalid else failed
revocation_of (throw (pinned p)) = elim p.code [
  | PinnedFetchErrorCode.fingerprint_mismatch ↦ failed
  | _ ↦ RevocationClassification.unreachable
]
revocation_of (throw (network n)) = classify_revocation_failure n.code
revocation_of (throw other) = failed

revoked-classified :
    (engine : Engine) (o : Result Response) (e : NetworkError)
    → (map_thrown revoke_codes (o >>= check_status engine revoke_http) >>= λ _. ok (tt {0}))
      ≡ throw (network e)
    → classify_revocation_failure e.code ≡ revocation_of o
unfolding check_status map_pinned_fetch_error classify_revocation_failure
revoked-classified engine (ok x) e q = ground arith
revoked-classified engine (throw (pinned p)) e q = ground arith
revoked-classified engine (throw (network n)) e q = ground arith
revoked-classified engine (throw other) e q = ground arith

-- A revocation that fails at an address counts as already invalid exactly if the daemon answered 401,
-- as unreachable if the transport failed other than by a wrong certificate, and as failed else, a wrong
-- certificate included.
pub revoke_device-classified :
    (engine : Engine) (service : DiscoveredService) (credentials : RequestCredentials)
    (address : Text) (e : NetworkError)
    → address_of service ≡ ok address
    → revoke_device engine service credentials ≡ throw (network e)
    → classify_revocation_failure e.code
      ≡ revocation_of (
          engine.pinned_fetch (
            fetch_request (
              plain_request
                (text "DELETE")
                (device_url engine address service.port)
                credentials
                revoke_codes)))
unfolding revoke_device auth_pinned_fetch
revoke_device-classified engine service credentials address e h q =
    revoked-classified engine
      (engine.pinned_fetch (
        fetch_request (
          plain_request (text "DELETE") (device_url engine address service.port) credentials
            revoke_codes)))
      e (sym (rw (h) refl) ∙ q)
