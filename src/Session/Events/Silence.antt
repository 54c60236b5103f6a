-- ===== src/Session/Events/Silence.antt =====
-- connection-session.ts, `stop`: what a stopped session still does.
use herdr_connect.Common.{
  if◌then◌else◌, ℕ, ◌≡◌, refl, ◌∙◌, true, false, Option, none, List, [], ◌∷◌, arith,
}
use herdr_connect.Errors.{Result}
use herdr_connect.Agents.{AgentsResponse}
use herdr_connect.Session.{Tick, Session, StreamStatus, Env}
use herdr_connect.Session.Loop.{release_tick, tick_done}
use herdr_connect.Session.Probe.{probe_done, resume}
use herdr_connect.Discovery.{DiscoveredService}
use herdr_connect.Session.Events.{
  stop, pause, begin, refresh_snapshot, fail_with, handle_services, handle_discovery_failure,
  discovery_timeout, reconnect_timeout, stream_event, stream_ended, polling_timeout, Event, step,
  run, begins, pauses, refreshes, stops, fails, finds, discovery_fails, probe_answers, poll_answers,
  report_ends, discovery_timer_fires, polling_timer_fires, reconnect_timer_fires, stream_tells,
  stream_ends, associates,
}

-- Stopped, with no service to refresh, no timer and no stream.
abbrev pub IsSilent : Session → Type 0
IsSilent s =
    (s.stopped ≡ true)
    × (s.snapshot_service ≡ none)
    × (s.discovery_timer ≡ false)
    × (s.polling_timer ≡ false)
    × (s.stream_handle ≡ false)
    × (s.stream_reconnect_timer ≡ none)
    × (s.stream_status ≡ StreamStatus.polling)

-- What the provider sees of a session.
abbrev pub SeenAlike : Session → Session → Type 0
SeenAlike s t = (s.state ≡ t.state) × (s.reported ≡ t.reported)

abbrev StaysSilent : Session → Session → Type 0
StaysSilent t s = IsSilent t × SeenAlike t s

-- An operation whose first guard is that the session is stopped.
stopped-first : (s t : Session) → IsSilent s → StaysSilent (if s.stopped then s else t) s
stopped-first s t h = ground arith

discovery_timeout-IsSilent :
    (env : Env) (s : Session) → IsSilent s → StaysSilent (discovery_timeout env s) s
unfolding discovery_timeout
discovery_timeout-IsSilent env s h = ground arith

reconnect_timeout-IsSilent :
    (env : Env) (s : Session) → IsSilent s → StaysSilent (reconnect_timeout env s) s
unfolding reconnect_timeout
reconnect_timeout-IsSilent env s h = ground arith

stream_event-IsSilent :
    (service : DiscoveredService) (s : Session)
    → IsSilent s
    → StaysSilent (stream_event service s) s
unfolding stream_event
stream_event-IsSilent service s h = ground arith

stream_ended-IsSilent :
    (service : DiscoveredService) (s : Session)
    → IsSilent s
    → StaysSilent (stream_ended service s) s
unfolding stream_ended
stream_ended-IsSilent service s h = ground arith

handle_services-IsSilent :
    (services : List DiscoveredService) (s : Session)
    → IsSilent s
    → StaysSilent (handle_services services s) s
unfolding handle_services
handle_services-IsSilent services s h = stopped-first s _ h

tick_done-IsSilent :
    (answer : Result AgentsResponse) (s : Session) → IsSilent s → StaysSilent (tick_done answer s) s
unfolding tick_done
tick_done-IsSilent answer s h = ground arith

release_tick-IsSilent :
    (t : Option Tick) (s : Session) → IsSilent s → StaysSilent (release_tick t s) s
release_tick-IsSilent t s h = ground arith

probe_done-IsSilent :
    (env : Env) (id : ℕ) (answer : Result AgentsResponse) (s : Session)
    → IsSilent s
    → StaysSilent (probe_done env id answer s) s
unfolding probe_done resume
probe_done-IsSilent env id answer s h = ground arith

step-IsSilent :
    (env : Env) (s : Session) (event : Event) → IsSilent s → StaysSilent (step env s event) s
unfolding step stop pause begin refresh_snapshot fail_with handle_discovery_failure polling_timeout
step-IsSilent env s (begins initial foreground) h = stopped-first s _ h
step-IsSilent env s pauses h = ground arith
step-IsSilent env s refreshes h = stopped-first s _ h
step-IsSilent env s stops h = ground arith
step-IsSilent env s (fails code status) h = stopped-first s _ h
step-IsSilent env s (finds services) h = handle_services-IsSilent services s h
step-IsSilent env s (discovery_fails stage code) h = stopped-first s _ h
step-IsSilent env s (probe_answers id answer) h = probe_done-IsSilent env id answer s h
step-IsSilent env s (poll_answers answer) h = tick_done-IsSilent answer s h
step-IsSilent env s report_ends h = release_tick-IsSilent s.polling_inflight s h
step-IsSilent env s discovery_timer_fires h = discovery_timeout-IsSilent env s h
step-IsSilent env s polling_timer_fires h = ground arith
step-IsSilent env s reconnect_timer_fires h = reconnect_timeout-IsSilent env s h
step-IsSilent env s (stream_tells service) h = stream_event-IsSilent service s h
step-IsSilent env s (stream_ends service) h = stream_ended-IsSilent service s h
step-IsSilent env s (associates key fingerprint) h = (h, (refl, refl))

run-IsSilent :
    (s : Session) (events : List (Env × Event)) → IsSilent s → StaysSilent (run s events) s
unfolding run
run-IsSilent s [] h = (h, (refl, refl))
run-IsSilent s ((env, event) ∷ events) h =
    let now = step-IsSilent env s event h in
    let later = run-IsSilent (step env s event) events now.0 in
    (later.0, (later.1.0 ∙ now.1.0, later.1.1 ∙ now.1.1))

-- After `stop`, whatever events follow, late answers and timers included, the session stays
-- silent (it has no timer, no stream and no service to refresh, and its stream status is
-- `polling`), its state is the one it was stopped in, and it makes no further call of
-- `onAuthInvalid`.
pub run-stop :
    (s : Session) (events : List (Env × Event))
    → IsSilent (run (stop s) events)
      × (((run (stop s) events).state ≡ s.state) × ((run (stop s) events).reported ≡ s.reported))
unfolding stop
run-stop s events = run-IsSilent (stop s) events (refl, refl, refl, refl, refl, refl, refl)
