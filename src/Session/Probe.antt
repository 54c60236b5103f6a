-- ===== src/Session/Probe.antt =====
-- Probing the candidates of a session, one at a time.
use herdr_connect.Common.{
  ℕ, suc, ◌==◌, Text, insert, Bool, false, not, ◌&&◌, ◌||◌, Option, none, some, List, [], ◌∷◌,
  select, first, ltb, if◌then◌else◌,
}
use herdr_connect.Errors.{
  NetworkErrorCode, Thrown, network, Result, ok, throw, connect_failed, to_error_code,
  to_error_status,
}
use herdr_connect.Agents.{AgentsResponse}
use herdr_connect.Discovery.{
  DiscoveredService, service_key, order_candidates, ProbeFailureKind, wrong_daemon, unreachable,
  terminal, classify_probe_failure,
}
use herdr_connect.Session.{Session, Run, ConnectionState, AuthInvalidKind, Env}
use herdr_connect.Session.Loop.{set_state, start_snapshot_loop}

-- `candidatesFor`; the pinned service is a new object each time.
unfoldable pub candidates_for : List DiscoveredService → Session → List DiscoveredService
unfolding order_candidates
candidates_for services s =
    order_candidates s.next_object services s.credentials.fingerprint s.associations
      s.credentials.pinned_host

abbrev pub abort : Session → Session
abort s = record s { live_run = none }

abbrev pub is_run : Option ℕ → ℕ → Bool
is_run none id = false
is_run (some live) id = live == id

-- `this.stopped || controller.signal.aborted`
abbrev pub is_over : Session → ℕ → Bool
is_over s id = s.stopped || not (is_run s.live_run id)

abbrev pub keys_of : List DiscoveredService → List Text
keys_of [] = []
keys_of (c ∷ cs) = service_key c ∷ keys_of cs

abbrev pub failure_from : Thrown → NetworkErrorCode → ConnectionState
failure_from error fallback =
    ConnectionState.failed (to_error_code error fallback) (to_error_status error)

-- What stands in for `lastError ?? new NetworkError("connect_failed")`.
abbrev pub or_connect_failed : Option Thrown → Thrown
or_connect_failed none = network (record { code = connect_failed; status = none; detail = none })
or_connect_failed (some error) = error

-- The loop of `connect` from its test on: the next candidate is asked, or the run ends.
unfoldable pub next_candidate :
    ℕ → List DiscoveredService → ℕ → ℕ → Option Thrown → Session → Session
unfolding set_state service_key to_error_code to_error_status
next_candidate id [] attempts wrong last s =
    let done = record s { connect_in_flight_key = none } in
    if (wrong == attempts) && ltb 0 attempts
    then set_state ConnectionState.not_found done
    else set_state (failure_from (or_connect_failed last) connect_failed) done
next_candidate id (c ∷ cs) attempts wrong last s =
    if is_over s id then record s { connect_in_flight_key = none } else record s {
      connect_in_flight_key = some (service_key c);
      runs =
          record {
            id = id;
            current = c;
            rest = cs;
            attempt_count = suc attempts;
            wrong_daemon_count = wrong;
          }
          ∷ s.runs;
    }

unfoldable pub connect : List DiscoveredService → Session → Session
unfolding next_candidate
connect candidates s = next_candidate s.next_run candidates 0 0 none (record s {
  live_run = some s.next_run;
  next_run = suc s.next_run;
  discovery_timer = false;
  in_flight_candidate_keys = some (keys_of candidates);
  next_object = suc s.next_object;
})

-- A terminal error: the pin was met, and the error is the installation's own.
unfoldable pub terminal_code : NetworkErrorCode → Thrown → Session → Session
unfolding set_state to_error_code to_error_status
terminal_code NetworkErrorCode.unauthorized error s = record s {
  reported = AuthInvalidKind.unauthorized ∷ s.reported;
}
terminal_code NetworkErrorCode.revoked error s = record s {
  reported = AuthInvalidKind.revoked ∷ s.reported;
}
terminal_code NetworkErrorCode.daemon_outdated error s = set_state ConnectionState.daemon_outdated s
terminal_code NetworkErrorCode.app_outdated error s = set_state ConnectionState.app_outdated s
terminal_code _ error s = set_state (failure_from error connect_failed) s

abbrev pub terminal_error : Thrown → Session → Session
terminal_error (network e) s = terminal_code e.code (network e) s
terminal_error error s = set_state (failure_from error connect_failed) s

abbrev pub probe_failed : Run → Thrown → ProbeFailureKind → Session → Session
probe_failed r error wrong_daemon s =
    next_candidate r.id r.rest r.attempt_count (suc r.wrong_daemon_count) (some error) s
probe_failed r error unreachable s =
    next_candidate r.id r.rest r.attempt_count r.wrong_daemon_count (some error) s
probe_failed r error terminal s = terminal_error error (record s { connect_in_flight_key = none })

unfoldable pub probe_succeeded : Env → DiscoveredService → AgentsResponse → Session → Session
unfolding set_state start_snapshot_loop service_key insert
probe_succeeded env c response s = set_state (ConnectionState.connected c response) (
    start_snapshot_loop env c (record s {
      associations = insert (service_key c) s.credentials.fingerprint s.associations;
      connect_in_flight_key = none;
      selected_key = some (service_key c);
    }))

-- The continuation of a run when its candidate answers.
unfoldable pub resume : Env → Run → Result AgentsResponse → Session → Session
unfolding next_candidate terminal_code probe_succeeded classify_probe_failure
resume env r answer s =
    if is_over s r.id then record s { connect_in_flight_key = none } else elim answer [
      | ok response ↦ probe_succeeded env r.current response s
      | throw error ↦ probe_failed r error (classify_probe_failure error) s
    ]

abbrev pub has_id : ℕ → Run → Bool
has_id id r = r.id == id

abbrev pub resume_run : Env → Option Run → ℕ → Result AgentsResponse → Session → Session
resume_run env none id answer s = s
resume_run env (some r) id answer s =
    resume env r answer (record s { runs = select (λ q. not (has_id id q)) s.runs })

unfoldable pub probe_done : Env → ℕ → Result AgentsResponse → Session → Session
unfolding resume
probe_done env id answer s = resume_run env (first (has_id id) s.runs) id answer s
