-- ===== src/Examples/Sessions.antt =====
-- Examples on the runs of a session.
use herdr_connect.Common.{
  sym, subst, All, Text-discrete, ℕ_discrete, none, refl, ◌==◌, if◌then◌else◌, ◌≡◌, text, some,
  true, List, [], ◌∷◌,
}
use herdr_connect.Session.Events.Late.{IsLate, IsUntouched, run-IsUntouched}
use herdr_connect.Errors.{Result, throw, network, NetworkErrorCode, ok}
use herdr_connect.Agents.{AgentsResponse}
use herdr_connect.Discovery.{DiscoveredService}
use herdr_connect.Session.{ConnectionState, Session, Env, new_session, opened}
use herdr_connect.Session.Probe.{connect}
use herdr_connect.Session.Events.Probing.Order.{answers}
use herdr_connect.Session.Events.Probing.Verdict.{verdict, connect-verdict}
use herdr_connect.Session.Events.{
  Event, begins, probe_answers, polling_timer_fires, poll_answers, finds, stop, run, stream_tells,
  stream_ends,
}
use herdr_connect.Session.Events.Silence.{IsSilent, run-stop}
use herdr_connect.Examples.{desk, service, no_agents, no_stream}

-- The session starts with a service, connects to it, and polls it.
abbrev connects : List (Env × Event)
connects =
    (no_stream, begins (some (service 1 (text "x") ∷ [])) true)
    ∷ (no_stream, probe_answers 0 (ok no_agents))
    ∷ (no_stream, polling_timer_fires)
    ∷ []

abbrev streaming : Env
streaming = record no_stream { stream_start = opened }

-- The session connects, its stream opens and tells something, and then ends.
abbrev streams : List (Env × Event)
streams =
    (streaming, begins (some (service 1 (text "x") ∷ [])) true)
    ∷ (streaming, probe_answers 0 (ok no_agents))
    ∷ (streaming, stream_tells (service 1 (text "x")))
    ∷ (streaming, stream_ends (service 1 (text "x")))
    ∷ []

abbrev connected_session : Session
connected_session = run (new_session desk [] true true) connects

abbrev late : List (Env × Event)
late =
    (no_stream, poll_answers (ok no_agents)) ∷ (no_stream, finds (service 2 (text "x") ∷ [])) ∷ []

run-stop_example :
    IsSilent (run (stop connected_session) late)
    × (((run (stop connected_session) late).state ≡ connected_session.state)
        × ((run (stop connected_session) late).reported ≡ connected_session.reported))
run-stop_example = run-stop connected_session late

-- The first service is another daemon, the second one answers.
abbrev second_is_ours : DiscoveredService → Result AgentsResponse
second_is_ours c =
    if c.object == 1
    then throw (
        network
          (record { code = NetworkErrorCode.fingerprint_mismatch; status = none; detail = none }))
    else ok no_agents

connect-verdict_example :
    (run
      (connect (service 1 (text "x") ∷ service 2 (text "y") ∷ []) (new_session desk [] true true))
      (answers no_stream second_is_ours 0 (service 1 (text "x") ∷ service 2 (text "y") ∷ []))).state
    ≡ verdict no_stream second_is_ours ConnectionState.discovering
        (service 1 (text "x") ∷ service 2 (text "y") ∷ [])
unfolding new_session
connect-verdict_example =
    connect-verdict no_stream second_is_ours (new_session desk [] true true) (service 1 (text "x"))
      (service 2 (text "y") ∷ []) refl refl

-- The session starts twice; the answer to the first run comes late.
abbrev restarts : List (Env × Event)
restarts =
    (no_stream, begins (some (service 1 (text "x") ∷ [])) true)
    ∷ (no_stream, begins (some (service 2 (text "y") ∷ [])) true)
    ∷ []

abbrev too_late : List (Env × Event)
too_late = (no_stream, probe_answers 0 (ok no_agents)) ∷ []

restarted_live : (run (new_session desk [] true true) restarts).live_run ≡ some 1
unfolding run new_session Text-discrete ℕ_discrete
restarted_live = refl

run-IsUntouched_example :
    IsUntouched
      (run (run (new_session desk [] true true) restarts) too_late)
      (run (new_session desk [] true true) restarts)
run-IsUntouched_example =
    run-IsUntouched (run (new_session desk [] true true) restarts) too_late
      (subst (λ live. All (IsLate live) too_late) (sym restarted_live) (refl, tt))
