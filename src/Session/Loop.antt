-- ===== src/Session/Loop.antt =====
-- The snapshot loop of a session: polling, and the stream with its reconnection.
use herdr_connect.Common.{
  suc, true, false, not, ◌&&◌, ◌||◌, Option, none, some, is_some, ◌∷◌, if◌then◌else◌,
}
use herdr_connect.Errors.{NetworkErrorCode, network, Result, ok, throw}
use herdr_connect.Agents.{AgentsResponse}
use herdr_connect.Discovery.{DiscoveredService, preferred_address}
use herdr_connect.Session.{
  Session, ConnectionState, polling, AuthInvalidKind, Tick, fetching, reporting, StreamStart,
  opened, refused, broken, Env, same_object, is_connected,
}

unfoldable pub stop_stream : Session → Session
stop_stream s = record s { stream_reconnect_timer = none; stream_handle = false }

unfoldable pub stop_snapshot_loop : Session → Session
unfolding stop_stream
stop_snapshot_loop s = record (stop_stream (record s { polling_timer = false })) {
  snapshot_service = none;
  stream_status = polling;
}

-- Leaving the phase `connected` stops the loop.
unfoldable pub set_state : ConnectionState → Session → Session
unfolding stop_snapshot_loop
set_state next s =
    record (if not (is_connected next) && is_some s.snapshot_service
      then stop_snapshot_loop s
      else s) { state = next }

unfoldable pub start_polling : Session → Session
start_polling s =
    if s.polling_timer || not s.foreground || s.stopped
    then s
    else record s { polling_timer = true }

-- The timer's delay is `discoveryRetryDelay` of the attempt.
unfoldable pub schedule_stream_reconnect : DiscoveredService → Session → Session
schedule_stream_reconnect service s = record s {
  stream_reconnect_attempt = suc s.stream_reconnect_attempt;
  stream_reconnect_timer = some service;
}

abbrev pub started : StreamStart → DiscoveredService → Session → Session
started opened service s = record s { stream_handle = true }
started refused service s = s
started broken service s = schedule_stream_reconnect service s

unfoldable pub open_stream : Env → DiscoveredService → Session → Session
unfolding schedule_stream_reconnect preferred_address
open_stream env service s =
    if s.stopped || not s.foreground || not (same_object s.snapshot_service service)
    then s
    else elim (preferred_address service.addresses) [
      | none ↦ record s { stream_handle = false }
      | some address ↦ started env.stream_start service (record s { stream_handle = false })
    ]

unfoldable pub start_snapshot_loop : Env → DiscoveredService → Session → Session
unfolding stop_snapshot_loop start_polling open_stream
start_snapshot_loop env service s =
    let t = start_polling (record (stop_snapshot_loop s) { snapshot_service = some service }) in
    if t.stream_supported && t.foreground then open_stream env service t else t

unfoldable pub handle_stream_end : DiscoveredService → Session → Session
unfolding start_polling schedule_stream_reconnect
handle_stream_end service s =
    let t = record s {
      stream_handle = false;
      stream_reconnect_timer = none;
      stream_status = polling;
    } in
    schedule_stream_reconnect service (if t.foreground then start_polling t else t)

abbrev pub begin_fetch : Option DiscoveredService → Option Tick → Session → Session
begin_fetch none inflight s = s
begin_fetch (some service) (some t) s = s
begin_fetch (some service) none s = record s { polling_inflight = some (fetching service) }

unfoldable pub tick : Session → Session
tick s = begin_fetch s.snapshot_service s.polling_inflight s

-- What the error of a poll makes of a session whose loop is still that of the poll.
unfoldable pub tick_error : NetworkErrorCode → Session → Session
unfolding set_state
tick_error NetworkErrorCode.unauthorized s = record s {
  polling_inflight = some reporting;
  reported = AuthInvalidKind.unauthorized ∷ s.reported;
}
tick_error NetworkErrorCode.revoked s = record s {
  polling_inflight = some reporting;
  reported = AuthInvalidKind.revoked ∷ s.reported;
}
tick_error NetworkErrorCode.fingerprint_mismatch s =
    set_state ConnectionState.fingerprint_mismatch s
tick_error NetworkErrorCode.daemon_outdated s = set_state ConnectionState.daemon_outdated s
tick_error NetworkErrorCode.app_outdated s = set_state ConnectionState.app_outdated s
tick_error _ s = s

abbrev pub tick_answer : DiscoveredService → Result AgentsResponse → Session → Session
tick_answer service (ok response) s = set_state (ConnectionState.connected service response) s
tick_answer service (throw (network e)) s = tick_error e.code s
tick_answer service (throw _) s = s

-- The poll's continuation; one that is out of date changes nothing but the guard.
abbrev pub finish_tick : Option Tick → Result AgentsResponse → Session → Session
finish_tick (some (fetching service)) answer s =
    let done = record s { polling_inflight = none } in
    if not s.stopped && same_object s.snapshot_service service
    then tick_answer service answer done
    else done
finish_tick (some reporting) answer s = s
finish_tick none answer s = s

unfoldable pub tick_done : Result AgentsResponse → Session → Session
unfolding tick_error
tick_done answer s = finish_tick s.polling_inflight answer s

-- `onAuthInvalid` is done, and the `finally` of the poll runs.
abbrev pub release_tick : Option Tick → Session → Session
release_tick (some reporting) s = record s { polling_inflight = none }
release_tick _ s = s
