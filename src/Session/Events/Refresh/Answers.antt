-- ===== src/Session/Events/Refresh/Answers.antt =====
-- connection-session.ts: the continuations of probes, polls and streams, and the snapshot loop.
use herdr_connect.Common.{
  ℕ, insert, ◌≡◌, refl, true, false, ◌&&◌, not, Option, none, some, ◌⊎◌, inl, inr, Bool-cases,
  first, arith,
}
use herdr_connect.Errors.{connect_failed, Result, NetworkErrorCode, Thrown, network, ok, throw}
use herdr_connect.Agents.{AgentsResponse}
use herdr_connect.Discovery.{
  service_key, classify_probe_failure, DiscoveredService, ProbeFailureKind, wrong_daemon,
  unreachable, terminal,
}
use herdr_connect.Session.{
  Session, Run, ConnectionState, Env, Tick, fetching, reporting, same_object,
}
use herdr_connect.Session.Loop.{
  set_state, open_stream, start_snapshot_loop, handle_stream_end, tick, tick_error, tick_answer,
  finish_tick, release_tick,
}
use herdr_connect.Session.Probe.{
  terminal_code, terminal_error, probe_failed, probe_succeeded, resume, resume_run, probe_done,
  is_over, has_id, failure_from,
}
use herdr_connect.Session.Events.{reconnect_timeout, stream_event, stream_ended}
use herdr_connect.Session.Events.Refresh.{
  IsConsistent, Feeds, set_state-IsConsistent, if_lem, if_else_lem,
}
use herdr_connect.Session.Events.Refresh.Matching.{next_candidate-IsConsistent}

start_snapshot_loop-Feeds :
    (env : Env) (service : DiscoveredService) (s : Session)
    → s.stopped ≡ false
    → ((start_snapshot_loop env service s).snapshot_service ≡ some service)
      × ((start_snapshot_loop env service s).stopped ≡ false)
      × ((start_snapshot_loop env service s).foreground ≡ s.foreground)
      × Feeds s.foreground
          (start_snapshot_loop env service s).polling_timer
          (start_snapshot_loop env service s).stream_status
          (start_snapshot_loop env service s).stream_handle
          (start_snapshot_loop env service s).stream_reconnect_timer
unfolding start_snapshot_loop
start_snapshot_loop-Feeds env service s h = ground arith

pub probe_succeeded-IsConsistent :
    (env : Env) (c : DiscoveredService) (response : AgentsResponse) (s : Session)
    → s.stopped ≡ false
    → IsConsistent (probe_succeeded env c response s)
unfolding probe_succeeded set_state
probe_succeeded-IsConsistent env c response s h = record {
  fresh = ground (
    arith,
    start_snapshot_loop-Feeds env c
        (record s {
          associations = insert (service_key c) s.credentials.fingerprint s.associations;
          connect_in_flight_key = none;
          selected_key = some (service_key c);
        })
        h,
  );
}

pub terminal_code-IsConsistent :
    (code : NetworkErrorCode) (error : Thrown) (s : Session)
    → IsConsistent s
    → IsConsistent (terminal_code code error s)
unfolding terminal_code
terminal_code-IsConsistent NetworkErrorCode.unauthorized error s h = record { fresh = h.fresh }
terminal_code-IsConsistent NetworkErrorCode.revoked error s h = record { fresh = h.fresh }
terminal_code-IsConsistent NetworkErrorCode.daemon_outdated error s h =
    set_state-IsConsistent ConnectionState.daemon_outdated s refl h
terminal_code-IsConsistent NetworkErrorCode.app_outdated error s h =
    set_state-IsConsistent ConnectionState.app_outdated s refl h
terminal_code-IsConsistent _ error s h =
    set_state-IsConsistent (failure_from error connect_failed) s refl h

pub terminal_error-IsConsistent :
    (error : Thrown) (s : Session) → IsConsistent s → IsConsistent (terminal_error error s)
terminal_error-IsConsistent (network e) s h = terminal_code-IsConsistent e.code (network e) s h
terminal_error-IsConsistent error s h =
    set_state-IsConsistent (failure_from error connect_failed) s refl h

pub probe_failed-IsConsistent :
    (r : Run) (error : Thrown) (kind : ProbeFailureKind) (s : Session)
    → IsConsistent s
    → IsConsistent (probe_failed r error kind s)
probe_failed-IsConsistent r error wrong_daemon s h =
    next_candidate-IsConsistent r.id r.rest r.attempt_count _ _ s h
probe_failed-IsConsistent r error unreachable s h =
    next_candidate-IsConsistent r.id r.rest r.attempt_count _ _ s h
probe_failed-IsConsistent r error terminal s h =
    terminal_error-IsConsistent error _ (record { fresh = h.fresh })

not_stopped : (s : Session) (id : ℕ) → is_over s id ≡ false → s.stopped ≡ false
not_stopped s id h = ground arith

pub resume-IsConsistent :
    (env : Env) (r : Run) (answer : Result AgentsResponse) (s : Session)
    → IsConsistent s
    → IsConsistent (resume env r answer s)
unfolding resume
resume-IsConsistent env r (ok response) s h =
    if_else_lem (is_over s r.id) _ _ (record { fresh = h.fresh })
      (λ e. probe_succeeded-IsConsistent env r.current response s (not_stopped s r.id e))
resume-IsConsistent env r (throw error) s h =
    if_lem (is_over s r.id) _ _ (record { fresh = h.fresh })
      (probe_failed-IsConsistent r error (classify_probe_failure error) s h)

pub probe_done-IsConsistent :
    (env : Env) (id : ℕ) (answer : Result AgentsResponse) (s : Session)
    → IsConsistent s
    → IsConsistent (probe_done env id answer s)
unfolding probe_done
probe_done-IsConsistent env id answer s h = resumed (first (has_id id) s.runs)
  where
    resumed : (o : Option Run) → IsConsistent (resume_run env o id answer s)
    resumed none = h
    resumed (some r) = resume-IsConsistent env r answer _ (record { fresh = h.fresh })

-- The state after an answer is connected to the service that was polled.
pub connected-IsConsistent :
    (service : DiscoveredService) (response : AgentsResponse) (s : Session)
    → same_object s.snapshot_service service ≡ true
    → IsConsistent s
    → IsConsistent (set_state (ConnectionState.connected service response) s)
unfolding set_state
connected-IsConsistent service response s e h = record { fresh = ground (arith, h.fresh) }

pub tick_error-IsConsistent :
    (code : NetworkErrorCode) (s : Session) → IsConsistent s → IsConsistent (tick_error code s)
unfolding tick_error
tick_error-IsConsistent NetworkErrorCode.unauthorized s h = record { fresh = h.fresh }
tick_error-IsConsistent NetworkErrorCode.revoked s h = record { fresh = h.fresh }
tick_error-IsConsistent NetworkErrorCode.fingerprint_mismatch s h =
    set_state-IsConsistent ConnectionState.fingerprint_mismatch s refl h
tick_error-IsConsistent NetworkErrorCode.daemon_outdated s h =
    set_state-IsConsistent ConnectionState.daemon_outdated s refl h
tick_error-IsConsistent NetworkErrorCode.app_outdated s h =
    set_state-IsConsistent ConnectionState.app_outdated s refl h
tick_error-IsConsistent _ s h = h

pub tick_answer-IsConsistent :
    (service : DiscoveredService) (answer : Result AgentsResponse) (s : Session)
    → same_object s.snapshot_service service ≡ true
    → IsConsistent s
    → IsConsistent (tick_answer service answer s)
tick_answer-IsConsistent service (ok response) s e h = connected-IsConsistent service response s e h
tick_answer-IsConsistent service (throw (network x)) s e h = tick_error-IsConsistent x.code s h
tick_answer-IsConsistent service (throw _) s e h = h

pub finish_tick-IsConsistent :
    (t : Option Tick) (answer : Result AgentsResponse) (s : Session)
    → IsConsistent s
    → IsConsistent (finish_tick t answer s)
finish_tick-IsConsistent (some (fetching service)) answer s h =
    answered (Bool-cases (not s.stopped && same_object s.snapshot_service service))
  where
    answered :
        ((not s.stopped && same_object s.snapshot_service service) ≡ true)
          ⊎ ((not s.stopped && same_object s.snapshot_service service) ≡ false)
        → IsConsistent (finish_tick (some (fetching service)) answer s)
    answered (inl e) =
        rw (e, finish_tick)
          (tick_answer-IsConsistent service answer _ (ground arith) (record { fresh = h.fresh }))
    answered (inr e) = rw (e, finish_tick) (record { fresh = h.fresh })
finish_tick-IsConsistent (some reporting) answer s h = h
finish_tick-IsConsistent none answer s h = h

pub release_tick-IsConsistent :
    (t : Option Tick) (s : Session) → IsConsistent s → IsConsistent (release_tick t s)
release_tick-IsConsistent t s h = record { fresh = ground (arith, h.fresh) }

pub stream_event-IsConsistent :
    (service : DiscoveredService) (s : Session)
    → s.stream_handle ≡ true
    → IsConsistent s
    → IsConsistent (stream_event service s)
unfolding stream_event tick
stream_event-IsConsistent service s held h = record { fresh = ground (arith, h.fresh) }

pub stream_ended-IsConsistent :
    (service : DiscoveredService) (s : Session)
    → IsConsistent s
    → IsConsistent (stream_ended service s)
unfolding stream_ended handle_stream_end
stream_ended-IsConsistent service s h = record { fresh = ground (arith, h.fresh) }

pub reconnect_timeout-IsConsistent :
    (env : Env) (s : Session) → IsConsistent s → IsConsistent (reconnect_timeout env s)
unfolding reconnect_timeout open_stream
reconnect_timeout-IsConsistent env s h = record { fresh = ground (arith, h.fresh) }
