-- ===== src/Requests.antt =====
-- network.ts: the requests to a daemon, each pinned to a certificate and with a bearer token. What a
-- request throws is a value. pairing.ts is in Requests/QrCode.
pub mod QrCode
pub mod Pair
pub mod Answers
use herdr_connect.Common.{
  is_empty, ◌||◌, ℕ, ltb, leb, ◌==◌, Text, text, ◌is◌, is_empty, Assoc, Bool, true, false, not,
  ◌&&◌, ◌||◌, Option, none, some, List, [], ◌∷◌, ◌++◌, if◌then◌else◌,
}
use herdr_connect.Json.{
  Json, Number, null, bool, num, str, arr, obj, Fields, end, field, get, as_text, as_bool,
  as_number, as_record, JsonText,
}
use herdr_connect.Errors.{
  NetworkErrorCode, NetworkError, new_error, absent, status, detail, PinnedFetchError,
  PinnedFetchErrorCode, tls_handshake_failed, network_error, invalid_url, unsupported_platform,
  Thrown, network, pinned, other, Result, ok, throw, fingerprint_mismatch, no_address, unauthorized,
  revoked, app_outdated, not_credentials, daemon_tls, daemon_timeout, daemon_http, focus_tls,
  focus_timeout, focus_http, interrupt_tls, interrupt_timeout, interrupt_http, revoke_tls,
  revoke_timeout, revoke_http, history_tls, history_timeout, history_http, history_invalid,
  send_tls, send_timeout, send_http,
}
use herdr_connect.Agents.{AgentsResponse, parse_agents_response, assert_daemon_supported}
use herdr_connect.Discovery.{DiscoveredService, is_ipv4, preferred_address, with_host_fallback}

pub record FetchRequest : Type 0 where
  pub url : Text
  pub fingerprint : Text
  pub method : Text
  pub headers : Assoc Text
  pub body : Option Text

pub record Response : Type 0 where
  pub status : ℕ
  pub body : Text

-- The engine and the native module: JSON, the text of a number, `encodeURIComponent` with `none`
-- where it throws, and `pinnedFetch`.
pub record Engine : Type 0 where
  pub json : JsonText
  pub show : ℕ → Text
  pub encode_component : Text → Option Text
  pub pinned_fetch : FetchRequest → Result Response

infixl 5 ◌>>=◌ ◌>>◌
abbrev pub ◌>>=◌ {ℓ κ} : {A : Type ℓ} {B : Type κ} → Result A → (A → Result B) → Result B
ok a >>= k = k a
throw t >>= k = throw t

abbrev pub ◌>>◌ {ℓ} : {B : Type ℓ} → Result (Unit {0}) → Result B → Result B
m >> k = m >>= λ _. k

abbrev pub throw_code {ℓ} : {A : Type ℓ} → NetworkErrorCode → Result A
throw_code code = throw (network (record { code = code; status = none; detail = none }))

abbrev pub or_code {ℓ} : {A : Type ℓ} → NetworkErrorCode → Option A → Result A
or_code code none = throw_code code
or_code code (some a) = ok a

-- What throws an error that is none of the two classes.
abbrev pub or_other {ℓ} : {A : Type ℓ} → Option A → Result A
or_other none = throw other
or_other (some a) = ok a

-- `replace("%", "%25")`: the first one.
abbrev pub escape_zone : Text → Text
escape_zone [] = []
escape_zone (c ∷ s) = if c == b'%' then text "%25" ++ s else c ∷ escape_zone s

unfoldable pub format_host : Text → Text
unfolding is_ipv4
format_host address =
    if is_ipv4 address then address else text "[" ++ (escape_zone address ++ text "]")

abbrev pub base_url : Engine → Text → ℕ → Text
unfolding format_host
base_url engine address port =
    text "https://" ++ (format_host address ++ (text ":" ++ engine.show port))

abbrev pub agents_url : Engine → Text → ℕ → Text
agents_url engine address port = base_url engine address port ++ text "/v1/agents"

abbrev pub agents_events_url : Engine → Text → ℕ → Text
agents_events_url engine address port = agents_url engine address port ++ text "/events"

abbrev pub device_url : Engine → Text → ℕ → Text
device_url engine address port = base_url engine address port ++ text "/v1/device"

-- The codes of an endpoint's errors.
pub record ErrorCodes : Type 0 where
  pub tls : NetworkErrorCode
  pub timeout : NetworkErrorCode
  pub http : NetworkErrorCode

pub record RequestCredentials : Type 0 where
  pub fingerprint : Text
  pub token : Text

pub record AuthRequest : Type 0 where
  pub url : Text
  pub credentials : RequestCredentials
  pub method : Text
  pub body : Option Text
  pub extra_headers : Assoc Text
  pub codes : ErrorCodes

unfoldable pub map_pinned_fetch_error : PinnedFetchError → ErrorCodes → NetworkError
unfolding new_error
map_pinned_fetch_error e codes = elim e.code [
  | PinnedFetchErrorCode.fingerprint_mismatch ↦ new_error fingerprint_mismatch absent
  | PinnedFetchErrorCode.timeout ↦ new_error codes.timeout absent
  | tls_handshake_failed ↦ new_error codes.tls (detail e.message)
  | network_error ↦ new_error codes.tls (detail e.message)
  | invalid_url ↦ new_error codes.tls (detail e.message)
  | unsupported_platform ↦ new_error codes.tls (detail e.message)
]

-- `errorBody?.error?.code === "revoked"`
unfoldable pub says_revoked : Json → Bool
unfolding get
says_revoked (obj fs) = elim (get (text "error") fs) [
  | some (obj e) ↦ elim (get (text "code") e) [ some (str s) ↦ s is text "revoked" | _ ↦ false ]
  | _ ↦ false
]
says_revoked _ = false

-- The error of a 401, whose body may say that the token was revoked.
unfoldable pub unauthorized_code : Engine → Text → NetworkErrorCode
unfolding says_revoked
unauthorized_code engine body = elim (engine.json.parse body) [
  | none ↦ unauthorized
  | some value ↦ if says_revoked value then revoked else unauthorized
]

unfoldable pub check_status : Engine → NetworkErrorCode → Response → Result Response
unfolding unauthorized_code new_error
check_status engine http r =
    if r.status == 401
    then throw_code (unauthorized_code engine r.body)
    else if r.status == 426
    then throw_code app_outdated
    else if ltb r.status 200 || leb 300 r.status
    then throw (network (new_error http (status r.status)))
    else ok r

abbrev pub client_version_header : Text × Text
client_version_header = (text "X-Herdr-Connect-Client-Version", text "1")

-- No extra header has the name of another.
abbrev pub fetch_request : AuthRequest → FetchRequest
fetch_request r = record {
  url = r.url;
  fingerprint = r.credentials.fingerprint;
  method = r.method;
  headers =
      (text "Accept", text "application/json")
      ∷ (text "Authorization", text "Bearer " ++ r.credentials.token)
      ∷ client_version_header
      ∷ r.extra_headers;
  body = r.body;
}

-- The `catch` around the request.
abbrev pub map_thrown : {A : Type 0} → ErrorCodes → Result A → Result A
map_thrown codes (ok a) = ok a
map_thrown codes (throw (network e)) = throw (network e)
map_thrown codes (throw (pinned e)) = throw (network (map_pinned_fetch_error e codes))
map_thrown codes (throw other) = throw other

unfoldable pub auth_pinned_fetch : Engine → AuthRequest → Result Response
unfolding map_pinned_fetch_error check_status
auth_pinned_fetch engine r =
    map_thrown r.codes (engine.pinned_fetch (fetch_request r) >>= check_status engine r.codes.http)

-- The stored credentials are those of the active instance, as `loadCredentials` gives them.
abbrev pub require_credentials :
    Option RequestCredentials → Result (Option RequestCredentials) → Result RequestCredentials
require_credentials (some given) stored = ok given
require_credentials none stored = stored >>= or_code not_credentials

-- An empty address is none.
abbrev pub non_blank : Option Text → Option Text
non_blank none = none
non_blank (some []) = none
non_blank (some (c ∷ s)) = some (c ∷ s)

abbrev pub address_of : DiscoveredService → Result Text
address_of service = or_code no_address (non_blank (preferred_address service.addresses))

abbrev pub daemon_codes : ErrorCodes
daemon_codes = record { tls = daemon_tls; timeout = daemon_timeout; http = daemon_http }

abbrev pub revoke_codes : ErrorCodes
revoke_codes = record { tls = revoke_tls; timeout = revoke_timeout; http = revoke_http }

abbrev pub plain_request : Text → Text → RequestCredentials → ErrorCodes → AuthRequest
plain_request method url credentials codes = record {
  url = url;
  credentials = credentials;
  method = method;
  body = none;
  extra_headers = [];
  codes = codes;
}

-- What is made of the body of an answer.
unfoldable pub agents_of_body : Engine → Text → Result AgentsResponse
unfolding parse_agents_response assert_daemon_supported
agents_of_body engine body = do
  value ← or_other (engine.json.parse body)
  data' ← parse_agents_response value
  assert_daemon_supported data'.api_version
  ok data'

unfoldable pub fetch_agents :
    Engine
    → Result (Option RequestCredentials)
    → DiscoveredService
    → Option RequestCredentials
    → Result AgentsResponse
unfolding preferred_address auth_pinned_fetch agents_of_body
fetch_agents engine stored service given = do
  address ← address_of service
  credentials ← require_credentials given stored
  response ←
      auth_pinned_fetch engine (
        plain_request (text "GET") (agents_url engine address service.port) credentials
          daemon_codes)
  agents_of_body engine response.body

-- The requests on one agent of the active instance: what follows the agent's URL, the method, the
-- body and the codes.
pub record AgentCall : Type 0 where
  pub action : Text
  pub method : Text
  pub body : Option Text
  pub extra_headers : Assoc Text
  pub codes : ErrorCodes

unfoldable pub call_agent :
    Engine
    → Result (Option RequestCredentials)
    → DiscoveredService
    → Text
    → AgentCall
    → Result Response
unfolding preferred_address auth_pinned_fetch
call_agent engine stored service source_id call = do
  address ← address_of service
  credentials ← require_credentials none stored
  component ← or_other (engine.encode_component source_id)
  auth_pinned_fetch engine (record {
    url =
        agents_url engine address service.port
        ++ (text "/" ++ (component ++ (text "/" ++ call.action)));
    credentials = credentials;
    method = call.method;
    body = call.body;
    extra_headers = call.extra_headers;
    codes = call.codes;
  })

abbrev pub focus_call : AgentCall
focus_call = record {
  action = text "focus";
  method = text "POST";
  body = none;
  extra_headers = [];
  codes = record { tls = focus_tls; timeout = focus_timeout; http = focus_http };
}

abbrev pub interrupt_call : AgentCall
interrupt_call = record {
  action = text "interrupt";
  method = text "POST";
  body = none;
  extra_headers = [];
  codes = record { tls = interrupt_tls; timeout = interrupt_timeout; http = interrupt_http };
}

abbrev pub history_call : AgentCall
history_call = record {
  action = text "history";
  method = text "GET";
  body = none;
  extra_headers = [];
  codes = record { tls = history_tls; timeout = history_timeout; http = history_http };
}

abbrev pub message_call : Engine → Text → AgentCall
message_call engine message = record {
  action = text "messages";
  method = text "POST";
  body = some (engine.json.stringify (obj (field (text "text") (str message) end)));
  extra_headers = (text "Content-Type", text "application/json") ∷ [];
  codes = record { tls = send_tls; timeout = send_timeout; http = send_http };
}

module _ (engine : Engine) (stored : Result (Option RequestCredentials))
    (service : DiscoveredService) (source_id : Text) where
  unfoldable pub focus_agent : Result (Unit {0})
  unfolding call_agent
  focus_agent = call_agent engine stored service source_id focus_call >>= λ _. ok tt

  unfoldable pub interrupt_agent : Result (Unit {0})
  unfolding call_agent
  interrupt_agent = call_agent engine stored service source_id interrupt_call >>= λ _. ok tt

  unfoldable pub send_agent_message : Text → Result (Unit {0})
  unfolding call_agent
  send_agent_message message =
      call_agent engine stored service source_id (message_call engine message) >>= λ _. ok tt

pub record AgentHistory : Type 0 where
  pub api_version : Number
  pub source_id : Text
  pub text_of : Text
  pub revision : Number
  pub truncated : Bool
  pub refreshed_at : Text

-- An array has none of the fields.
unfoldable pub parse_history : Json → Result AgentHistory
unfolding get
parse_history value = do
  fs ← or_code history_invalid (as_record value)
  api_version ← or_code history_invalid (as_number (get (text "api_version") fs))
  source_id ← or_code history_invalid (as_text (get (text "source_id") fs))
  s ← or_code history_invalid (as_text (get (text "text") fs))
  revision ← or_code history_invalid (as_number (get (text "revision") fs))
  truncated ← or_code history_invalid (as_bool (get (text "truncated") fs))
  refreshed_at ← or_code history_invalid (as_text (get (text "refreshed_at") fs))
  ok (record {
    api_version = api_version;
    source_id = source_id;
    text_of = s;
    revision = revision;
    truncated = truncated;
    refreshed_at = refreshed_at;
  })

unfoldable pub fetch_agent_history :
    Engine → Result (Option RequestCredentials) → DiscoveredService → Text → Result AgentHistory
unfolding call_agent parse_history assert_daemon_supported
fetch_agent_history engine stored service source_id = do
  response ← call_agent engine stored service source_id history_call
  value ← or_other (engine.json.parse response.body)
  history ← parse_history value
  assert_daemon_supported history.api_version
  ok history

unfoldable pub revoke_device : Engine → DiscoveredService → RequestCredentials → Result (Unit {0})
unfolding preferred_address auth_pinned_fetch
revoke_device engine service credentials = do
  address ← address_of service
  auth_pinned_fetch engine (
        plain_request (text "DELETE") (device_url engine address service.port) credentials
          revoke_codes)
      >>= λ _. ok tt

-- The address of the Metro server's machine, where `new URL(...).hostname` is `hostname`, with
-- `none` where it throws. The new service is the object `object`.
unfoldable pub dev_server_fallback_service :
    (Text → Option Text) → ℕ → Option Text → Option DiscoveredService
dev_server_fallback_service hostname object none = none
dev_server_fallback_service hostname object (some script_url) =
    if is_empty script_url then none else elim (hostname script_url) [
      | none ↦ none
      | some host ↦
          if is_empty host
            || host is text "localhost"
            || host is text "127.0.0.1"
            || host is text "::1"
          then none
          else some (record {
            object = object;
            name = text "Metro dev direct";
            type = text "_herdr-connect._tcp.";
            domain = text "local.";
            host_name = host;
            addresses = host ∷ [];
            port = 9_808;
            txt = (text "path", text "/v1/agents") ∷ (text "api_version", text "1") ∷ [];
          })
    ]
