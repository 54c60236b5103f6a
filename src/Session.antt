-- ===== src/Session.antt =====
-- connection-session.ts: the connection of one paired installation, as a state machine. Each
-- asynchronous continuation is an event: a probe or a poll that answers, a timer that fires, a
-- callback of the stream. What a handler reads of its environment is in `Env`. `onChanged` only
-- notifies the provider of what the state says, and is left out.
pub mod Loop
pub mod Probe
pub mod Events
use herdr_connect.Common.{
  ℕ, ◌==◌, Text, Assoc, Bool, true, false, Option, none, some, List, [], ◌∷◌,
}
use herdr_connect.Paired.{DeviceCredentials}
use herdr_connect.Errors.{NetworkErrorCode, Thrown}
use herdr_connect.Agents.{AgentsResponse}
use herdr_connect.Discovery.{DiscoveredService}

pub data ConnectionState : Type 0 where
  discovering not_found not_paired revoked fingerprint_mismatch daemon_outdated app_outdated :
      ConnectionState
  failed : NetworkErrorCode → Option ℕ → ConnectionState
  connected : DiscoveredService → AgentsResponse → ConnectionState

pub data StreamStatus : Type 0 where
  live polling : StreamStatus

pub data AuthInvalidKind : Type 0 where
  unauthorized revoked : AuthInvalidKind

-- A call of `connect` that waits for the answer of its current candidate.
pub record Run : Type 0 where
  pub id : ℕ
  pub current : DiscoveredService
  pub rest : List DiscoveredService
  pub attempt_count : ℕ
  pub wrong_daemon_count : ℕ

-- A call of `tick` that waits: for the answer of the daemon, or for `onAuthInvalid` to be done.
pub data Tick : Type 0 where
  fetching : DiscoveredService → Tick
  reporting : Tick

-- `live_run` is the run whose controller is not aborted; a run is aborted by another one's start
-- and by each `requestController?.abort()`. `next_run` and `next_object` name new objects.
-- `reported` lists the calls of `onAuthInvalid`, the latest first.
pub record Session : Type 0 where
  pub credentials : DeviceCredentials
  pub associations : Assoc Text
  pub stream_supported : Bool
  pub foreground : Bool
  pub stopped : Bool
  pub services : List DiscoveredService
  pub state : ConnectionState
  pub stream_status : StreamStatus
  pub live_run : Option ℕ
  pub next_run : ℕ
  pub next_object : ℕ
  pub runs : List Run
  pub discovery_timer : Bool
  pub connect_in_flight_key : Option Text
  pub in_flight_candidate_keys : Option (List Text)
  pub selected_key : Option Text
  pub snapshot_service : Option DiscoveredService
  pub polling_timer : Bool
  pub polling_inflight : Option Tick
  pub stream_handle : Bool
  pub stream_reconnect_timer : Option DiscoveredService
  pub stream_reconnect_attempt : ℕ
  pub reported : List AuthInvalidKind

-- How `startStream` ends: with a handle, with `unsupported_platform` or `invalid_url`, or with
-- another error.
pub data StreamStart : Type 0 where
  opened refused broken : StreamStart

-- What a handler reads: how opening a stream ends, and the Metro development host, if there is one.
pub record Env : Type 0 where
  pub stream_start : StreamStart
  pub dev_fallback : Option DiscoveredService

-- `===` on services.
abbrev pub same_object : Option DiscoveredService → DiscoveredService → Bool
same_object none s = false
same_object (some t) s = t.object == s.object

abbrev pub is_connected : ConnectionState → Bool
is_connected (connected service response) = true
is_connected _ = false

-- The state that the constructor makes.
unfoldable pub new_session : DeviceCredentials → Assoc Text → Bool → Bool → Session
new_session credentials associations foreground stream_supported = record {
  credentials = credentials;
  associations = associations;
  stream_supported = stream_supported;
  foreground = foreground;
  stopped = false;
  services = [];
  state = discovering;
  stream_status = polling;
  live_run = none;
  next_run = 0;
  next_object = 0;
  runs = [];
  discovery_timer = false;
  connect_in_flight_key = none;
  in_flight_candidate_keys = none;
  selected_key = none;
  snapshot_service = none;
  polling_timer = false;
  polling_inflight = none;
  stream_handle = false;
  stream_reconnect_timer = none;
  stream_reconnect_attempt = 0;
  reported = [];
}
