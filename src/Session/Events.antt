-- ===== src/Session/Events.antt =====
-- The calls of the provider and the timers of a session, and the step of the machine.
pub mod Refresh
pub mod Silence
pub mod Late
pub mod Probing
use herdr_connect.Common.{
  ℕ, Text, ◌is◌, insert, Bool, true, false, not, ◌&&◌, ◌||◌, Option, none, some, is_some, List, [],
  ◌∷◌, any, if◌then◌else◌,
}
use herdr_connect.Errors.{
  NetworkErrorCode, Result, discovery_search_failed, discovery_resolve_failed,
}
use herdr_connect.Agents.{AgentsResponse}
use herdr_connect.Discovery.{
  DiscoveredService, service_key, select_candidates, is_pinned_service_key, has_unknown_candidate,
}
use herdr_connect.Session.{Session, ConnectionState, StreamStatus, Env, same_object, is_connected}
use herdr_connect.Session.Loop.{
  stop_snapshot_loop, set_state, start_polling, open_stream, handle_stream_end, tick, tick_done,
  release_tick,
}
use herdr_connect.Session.Probe.{candidates_for, abort, connect, probe_done}

-- `void this.connect(candidates)` unless there are none.
abbrev pub connect_any : List DiscoveredService → Session → Session
connect_any [] s = s
connect_any (c ∷ cs) s = connect (c ∷ cs) s

abbrev pub or_services :
    Option (List DiscoveredService) → List DiscoveredService → List DiscoveredService
or_services none services = services
or_services (some initial) services = initial

unfoldable pub begin : Option (List DiscoveredService) → Bool → Session → Session
unfolding stop_snapshot_loop set_state candidates_for connect
begin initial foreground s =
    let reset = stop_snapshot_loop (record s {
      services = or_services initial s.services;
      foreground = foreground;
      live_run = none;
      connect_in_flight_key = none;
      in_flight_candidate_keys = none;
      selected_key = none;
      discovery_timer = false;
    }) in
    let waiting = record (set_state ConnectionState.discovering reset) { discovery_timer = true } in
    if s.stopped then s else connect_any (candidates_for waiting.services waiting) waiting

unfoldable pub pause : Session → Session
unfolding stop_snapshot_loop
pause s = if s.stopped then s else stop_snapshot_loop (record s { foreground = false })

unfoldable pub refresh_snapshot : Session → Session
unfolding tick begin
refresh_snapshot s =
    if s.stopped then s else if is_connected s.state then tick s else begin none s.foreground s

unfoldable pub stop : Session → Session
unfolding stop_snapshot_loop
stop s = stop_snapshot_loop (record s { stopped = true; live_run = none; discovery_timer = false })

unfoldable pub fail_with : NetworkErrorCode → Option ℕ → Session → Session
unfolding set_state
fail_with code status s = if s.stopped then s else set_state (ConnectionState.failed code status) s

abbrev pub pinned_key : Option Text → Session → Bool
pinned_key none s = false
pinned_key (some key) s = is_pinned_service_key key s.credentials.pinned_host

abbrev pub is_among : Option Text → List DiscoveredService → Bool
is_among none services = false
is_among (some key) services = any (λ service. service_key service is key) services

-- The last part of `handleServices`: matching starts anew.
abbrev pub rematch : Bool → List DiscoveredService → Session → Session
rematch was_busy [] s = if was_busy then set_state ConnectionState.not_found s else s
rematch was_busy (c ∷ cs) s = connect (c ∷ cs) s

unfoldable pub handle_services : List DiscoveredService → Session → Session
unfolding candidates_for connect set_state has_unknown_candidate is_pinned_service_key service_key
handle_services services s =
    let told = record s { services = services } in
    let candidates = candidates_for services told in
    let freed = record told {
      live_run = none;
      selected_key = none;
      connect_in_flight_key = none;
    } in
    let restarted = connect candidates freed in
    let rematched =
      rematch (is_some s.selected_key || is_some s.connect_in_flight_key) candidates
        (record freed { in_flight_candidate_keys = none }) in
    if s.stopped
    then s
    else if is_connected s.state && pinned_key s.selected_key s
    then told
    else if is_among s.selected_key services
    then told
    else if pinned_key s.connect_in_flight_key s
    then (if has_unknown_candidate candidates s.in_flight_candidate_keys then restarted else told)
    else if is_among s.connect_in_flight_key services
    then told
    else rematched

pub data DiscoveryStage : Type 0 where
  search resolve : DiscoveryStage

abbrev pub stage_code : DiscoveryStage → NetworkErrorCode
stage_code search = discovery_search_failed
stage_code resolve = discovery_resolve_failed

unfoldable pub handle_discovery_failure : DiscoveryStage → ℕ → Session → Session
unfolding set_state is_pinned_service_key
handle_discovery_failure stage code s =
    if s.stopped
    then s
    else if is_connected s.state && pinned_key s.selected_key s
    then s
    else if pinned_key s.connect_in_flight_key s
    then s
    else set_state (ConnectionState.failed (stage_code stage) (some code))
        (record s { live_run = none; selected_key = none; discovery_timer = false })

abbrev pub give_up : Option DiscoveredService → Session → Session
give_up none s = set_state ConnectionState.not_found s
give_up (some fallback) s = connect (fallback ∷ []) s

abbrev pub is_empty_list : List DiscoveredService → Bool
is_empty_list [] = true
is_empty_list (c ∷ cs) = false

-- The callback of the countdown.
unfoldable pub discovery_timeout : Env → Session → Session
unfolding select_candidates connect set_state
discovery_timeout env s =
    let fired = record s { discovery_timer = false } in
    let known = select_candidates s.services s.credentials.fingerprint s.associations in
    if not s.discovery_timer
    then s
    else if s.stopped || is_some s.connect_in_flight_key
    then fired
    else if is_empty_list known
    then give_up env.dev_fallback fired
    else fired

abbrev pub is_ours : Session → DiscoveredService → Bool
is_ours s service = not s.stopped && same_object s.snapshot_service service

-- The callbacks of a stream that was opened for `service`.
unfoldable pub stream_event : DiscoveredService → Session → Session
unfolding tick
stream_event service s =
    if is_ours s service
    then tick (record s {
      stream_reconnect_timer = none;
      stream_reconnect_attempt = 0;
      polling_timer = false;
      stream_status = StreamStatus.live;
    })
    else s

unfoldable pub stream_ended : DiscoveredService → Session → Session
unfolding handle_stream_end
stream_ended service s = if is_ours s service then handle_stream_end service s else s

abbrev pub reopen : Env → Option DiscoveredService → Session → Session
reopen env none s = s
reopen env (some service) s =
    let fired = record s { stream_reconnect_timer = none } in
    if not s.stopped && s.foreground && same_object s.snapshot_service service
    then open_stream env service fired
    else fired

unfoldable pub reconnect_timeout : Env → Session → Session
unfolding open_stream
reconnect_timeout env s = reopen env s.stream_reconnect_timer s

unfoldable pub polling_timeout : Session → Session
unfolding tick
polling_timeout s = if s.polling_timer then tick s else s

pub data Event : Type 0 where
  begins : Option (List DiscoveredService) → Bool → Event
  pauses refreshes stops : Event
  fails : NetworkErrorCode → Option ℕ → Event
  finds : List DiscoveredService → Event
  discovery_fails : DiscoveryStage → ℕ → Event
  probe_answers : ℕ → Result AgentsResponse → Event
  poll_answers : Result AgentsResponse → Event
  report_ends discovery_timer_fires polling_timer_fires reconnect_timer_fires : Event
  stream_tells stream_ends : DiscoveredService → Event
  associates : Text → Text → Event

unfoldable pub step : Env → Session → Event → Session
unfolding begin pause refresh_snapshot stop fail_with handle_services handle_discovery_failure
    probe_done tick_done discovery_timeout polling_timeout reconnect_timeout stream_event
    stream_ended
step env s (begins initial foreground) = begin initial foreground s
step env s pauses = pause s
step env s refreshes = refresh_snapshot s
step env s stops = stop s
step env s (fails code status) = fail_with code status s
step env s (finds services) = handle_services services s
step env s (discovery_fails stage code) = handle_discovery_failure stage code s
step env s (probe_answers id answer) = probe_done env id answer s
step env s (poll_answers answer) = tick_done answer s
step env s report_ends = release_tick s.polling_inflight s
step env s discovery_timer_fires = discovery_timeout env s
step env s polling_timer_fires = polling_timeout s
step env s reconnect_timer_fires = reconnect_timeout env s
step env s (stream_tells service) = stream_event service s
step env s (stream_ends service) = stream_ended service s
-- Another session verified a service.
step env s (associates key fingerprint) = record s {
  associations = insert key fingerprint s.associations;
}

unfoldable pub run : Session → List (Env × Event) → Session
unfolding step
run s [] = s
run s ((env, event) ∷ events) = run (step env s event) events
