-- ===== src/Session/Events/Refresh.antt =====
-- connection-session.ts: the fields of a session that belong to its snapshot loop.
pub mod Matching
pub mod Answers
pub mod Reach
use herdr_connect.Common.{
  ℕ, Text, Assoc, insert, ◌==◌, ◌≡◌, refl, ◌∙◌, sym, Bool, true, false, ◌&&◌, ◌||◌, not, ltb,
  Option, none, some, is_some, List, [], ◌∷◌, ◌⊎◌, inl, inr, Bool-cases, first, select,
  if◌then◌else◌, arith,
}
use herdr_connect.Paired.{DeviceCredentials}
use herdr_connect.Errors.{connect_failed, Result, NetworkErrorCode, Thrown, network, ok, throw}
use herdr_connect.Agents.{AgentsResponse}
use herdr_connect.Discovery.{
  has_unknown_candidate, select_candidates, service_key, classify_probe_failure, DiscoveredService,
  ProbeFailureKind, wrong_daemon, unreachable, terminal,
}
use herdr_connect.Session.{
  Session, Run, StreamStatus, ConnectionState, Env, Tick, fetching, reporting, live, polling,
  is_connected, same_object, new_session,
}
use herdr_connect.Session.Loop.{
  stop_snapshot_loop, set_state, start_polling, open_stream, start_snapshot_loop, handle_stream_end,
  tick, tick_error, tick_answer, finish_tick, tick_done, release_tick,
}
use herdr_connect.Session.Probe.{
  next_candidate, connect, terminal_code, terminal_error, probe_failed, probe_succeeded, resume,
  resume_run, probe_done, candidates_for, is_over, is_run, has_id, failure_from, or_connect_failed,
}
use herdr_connect.Session.Events.{
  or_services, is_empty_list, stage_code, connect_any, rematch, pinned_key, is_among, give_up,
  DiscoveryStage, stop, pause, begin, refresh_snapshot, fail_with, handle_services,
  handle_discovery_failure, discovery_timeout, reconnect_timeout, stream_event, stream_ended,
  polling_timeout, Event, step, run, begins, pauses, refreshes, stops, fails, finds,
  discovery_fails, probe_answers, poll_answers, report_ends, discovery_timer_fires,
  polling_timer_fires, reconnect_timer_fires, stream_tells, stream_ends, associates,
}

-- The state belongs to the service that is refreshed.
abbrev pub IsStateOf : ConnectionState → DiscoveredService → Type 0
IsStateOf (ConnectionState.connected t response) service = t.object ≡ service.object
IsStateOf _ service = ⊥

-- What refreshes a service: in the foreground the polling timer, or a live stream whose handle is
-- held and which no reconnection is waiting to replace; in the background no timer and no stream.
abbrev pub Feeds : Bool → Bool → StreamStatus → Bool → Option DiscoveredService → Type 0
Feeds true timer status handle reconnect =
    ((timer ≡ true) × (status ≡ polling))
    ⊎ ((timer ≡ false) × (status ≡ live) × (handle ≡ true) × (reconnect ≡ none))
Feeds false timer status handle reconnect = (timer ≡ false) × (status ≡ polling) × (handle ≡ false)

-- With a service: not stopped, and fed; without: nothing is on.
abbrev pub Fresh :
    Option DiscoveredService
    → Bool
    → ConnectionState
    → Bool
    → Bool
    → StreamStatus
    → Bool
    → Option DiscoveredService
    → Type 0
Fresh none stopped state foreground timer status handle reconnect =
    (timer ≡ false) × (status ≡ polling) × (handle ≡ false) × (reconnect ≡ none)
Fresh (some service) stopped state foreground timer status handle reconnect =
    (stopped ≡ false) × IsStateOf state service × Feeds foreground timer status handle reconnect

pub record IsConsistent (s : Session) : Type 0 where
  pub fresh :
      Fresh s.snapshot_service s.stopped s.state s.foreground s.polling_timer s.stream_status
        s.stream_handle s.stream_reconnect_timer

pub stop_snapshot_loop-IsConsistent : (s : Session) → IsConsistent (stop_snapshot_loop s)
unfolding stop_snapshot_loop
stop_snapshot_loop-IsConsistent s = record { fresh = (refl, refl, refl, refl) }

pub set_state-IsConsistent :
    (next : ConnectionState) (s : Session)
    → is_connected next ≡ false
    → IsConsistent s
    → IsConsistent (set_state next s)
unfolding set_state
set_state-IsConsistent next s e h = record { fresh = ground (arith, h.fresh) }

pub tick-IsConsistent : (s : Session) → IsConsistent s → IsConsistent (tick s)
unfolding tick
tick-IsConsistent s h = record { fresh = ground (arith, h.fresh) }

pub if_lem :
    (b : Bool) (s t : Session) → IsConsistent s → IsConsistent t → IsConsistent (if b then s else t)
if_lem true s t h k = h
if_lem false s t h k = k

pub if_else_lem :
    (b : Bool) (s t : Session)
    → IsConsistent s
    → (b ≡ false → IsConsistent t)
    → IsConsistent (if b then s else t)
if_else_lem true s t h k = h
if_else_lem false s t h k = k refl
