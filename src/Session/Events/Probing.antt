-- ===== src/Session/Events/Probing.antt =====
-- connection-session.ts, `connect`: how a run over the candidates ends when nothing interferes.
pub mod Order
pub mod Verdict
use herdr_connect.Common.{
  ℕ, zero, suc, ◌==◌, ltb, leb, ◌≡◌, refl, sym, ap, ◌∙◌, Bool, true, false, not, ◌&&◌, ◌||◌, Option,
  none, some, List, [], ◌∷◌, first, select, all, arith, if◌then◌else◌,
}
use herdr_connect.Errors.{
  NetworkErrorCode, Thrown, network, pinned, other, Result, ok, throw, connect_failed,
}
use herdr_connect.Agents.{AgentsResponse}
use herdr_connect.Discovery.{
  DiscoveredService, ProbeFailureKind, wrong_daemon, unreachable, terminal, classify_probe_failure,
  service_key,
}
use herdr_connect.Session.{Session, Run, ConnectionState, Env}
use herdr_connect.Session.Loop.{set_state, start_snapshot_loop}
use herdr_connect.Session.Probe.{
  next_candidate, connect, is_over, is_run, has_id, failure_from, or_connect_failed, terminal_code,
  terminal_error, probe_failed, probe_succeeded, resume, resume_run, probe_done,
}
use herdr_connect.Session.Events.{Event, probe_answers, step, run}

==_refl : (n : ℕ) → (n == n) ≡ true
==_refl n = ground arith

first-select-none :
    (id : ℕ) (rs : List Run) → first (has_id id) rs ≡ none → select (λ q. not (has_id id q)) rs ≡ rs
first-select-none id [] h = refl
first-select-none id (r ∷ rs) h = ground (arith, first-select-none id rs)

-- The state that a terminal error leads to; the provider handles a refused token.
abbrev pub terminal_state : ConnectionState → Thrown → NetworkErrorCode → ConnectionState
terminal_state before error NetworkErrorCode.unauthorized = before
terminal_state before error NetworkErrorCode.revoked = before
terminal_state before error NetworkErrorCode.daemon_outdated = ConnectionState.daemon_outdated
terminal_state before error NetworkErrorCode.app_outdated = ConnectionState.app_outdated
terminal_state before error _ = failure_from error connect_failed

abbrev pub ended_state :
    ConnectionState → DiscoveredService → Result AgentsResponse → ConnectionState
ended_state before c (ok response) = ConnectionState.connected c response
ended_state before c (throw (network e)) = terminal_state before (network e) e.code
ended_state before c (throw error) = failure_from error connect_failed

terminal_code-state :
    (code : NetworkErrorCode) (error : Thrown) (s : Session)
    → (terminal_code code error s).state ≡ terminal_state s.state error code
unfolding terminal_code set_state
terminal_code-state NetworkErrorCode.unauthorized error s = refl
terminal_code-state NetworkErrorCode.revoked error s = refl
terminal_code-state NetworkErrorCode.daemon_outdated error s = refl
terminal_code-state NetworkErrorCode.app_outdated error s = refl
terminal_code-state _ error s = refl

terminal_error-state :
    (c : DiscoveredService) (error : Thrown) (s : Session)
    → (terminal_error error s).state ≡ ended_state s.state c (throw error)
unfolding set_state
terminal_error-state c (network e) s = terminal_code-state e.code (network e) s
terminal_error-state c error s = refl

terminal_code-runs :
    (code : NetworkErrorCode) (error : Thrown) (s : Session)
    → (terminal_code code error s).runs ≡ s.runs
unfolding terminal_code set_state
terminal_code-runs code error s = ground arith

terminal_error-runs : (error : Thrown) (s : Session) → (terminal_error error s).runs ≡ s.runs
unfolding set_state
terminal_error-runs (network e) s = terminal_code-runs e.code (network e) s
terminal_error-runs error s = ground arith

probe_succeeded-runs :
    (env : Env) (c : DiscoveredService) (response : AgentsResponse) (s : Session)
    → (probe_succeeded env c response s).runs ≡ s.runs
unfolding probe_succeeded set_state start_snapshot_loop
probe_succeeded-runs env c response s = ground arith
