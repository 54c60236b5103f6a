-- ===== src/Session/Events/Probing/Verdict.antt =====
-- connection-session.ts, `connect`: the state that a run over the candidates leads to.
use herdr_connect.Common.{
  ℕ, suc, ◌==◌, ◌≤◌, ◌<◌, ◌≡◌, refl, sym, ap, ◌∙◌, Bool, true, false, ◌&&◌, Option, none, some,
  List, [], ◌∷◌, first, all, arith, if◌then◌else◌,
}
use herdr_connect.Errors.{Thrown, Result, ok, throw, connect_failed}
use herdr_connect.Agents.{AgentsResponse}
use herdr_connect.Discovery.{
  DiscoveredService, ProbeFailureKind, wrong_daemon, unreachable, terminal, classify_probe_failure,
}
use herdr_connect.Session.{Session, ConnectionState, Env}
use herdr_connect.Session.Probe.{connect, has_id, keys_of, failure_from, or_connect_failed}
use herdr_connect.Session.Events.{run}
use herdr_connect.Session.Events.Probing.{ended_state}
use herdr_connect.Session.Events.Probing.Order.{answers, outcome, outcome_of, next_candidate-Ends}

abbrev pub is_terminal_kind : ProbeFailureKind → Bool
is_terminal_kind terminal = true
is_terminal_kind _ = false

abbrev pub is_wrong_kind : ProbeFailureKind → Bool
is_wrong_kind wrong_daemon = true
is_wrong_kind _ = false

-- An answer that ends the run: the agents, or an error of the right daemon.
abbrev pub decides : Result AgentsResponse → Bool
decides (ok response) = true
decides (throw e) = is_terminal_kind (classify_probe_failure e)

abbrev pub is_wrong : Result AgentsResponse → Bool
is_wrong (ok response) = false
is_wrong (throw e) = is_wrong_kind (classify_probe_failure e)

abbrev pub error_or : Option Thrown → Result AgentsResponse → Option Thrown
error_or last (ok response) = last
error_or last (throw e) = some e

module _ (env : Env) (oracle : DiscoveredService → Result AgentsResponse) where
  abbrev pub last_error : List DiscoveredService → Option Thrown → Option Thrown
  last_error [] last = last
  last_error (c ∷ cs) last = last_error cs (error_or last (oracle c))

  abbrev pub undecided : Bool → List DiscoveredService → Option Thrown → ConnectionState
  undecided all_wrong cs last =
      if all_wrong && all (λ c. is_wrong (oracle c)) cs
      then ConnectionState.not_found
      else failure_from (or_connect_failed (last_error cs last)) connect_failed

  abbrev pub by_decider :
      ConnectionState → Option DiscoveredService → ConnectionState → ConnectionState
  by_decider before none otherwise = otherwise
  by_decider before (some c) otherwise = ended_state before c (oracle c)

  -- The first candidate whose answer decides; without one, whether all were the wrong daemon, and
  -- the last error.
  abbrev pub verdict : ConnectionState → List DiscoveredService → ConnectionState
  verdict before cs =
      by_decider before (first (λ c. decides (oracle c)) cs) (undecided true cs none)

  abbrev is_nil : List DiscoveredService → Bool
  is_nil [] = true
  is_nil (c ∷ cs) = false

  both_suc : (m n : ℕ) → (suc m == suc n) ≡ (m == n)
  both_suc m n = ground arith

  never_suc : (m n : ℕ) → m ≤ n → (m == suc n) ≡ false
  never_suc m n h = ground arith

  and_false : (b : Bool) → (b && false) ≡ false
  and_false b = ground arith

  -- What an answer makes of the verdict on the candidates after it.
  abbrev Follows : DiscoveredService → List DiscoveredService → ℕ → ℕ → ConnectionState → Type 0
  Follows c cs attempts wrong before =
      (w : ℕ) (l : Option Thrown)
      → w ≤ suc attempts
      → outcome env oracle cs (suc attempts) w l before
        ≡ by_decider before (first (λ d. decides (oracle d)) cs)
            (undecided (w == suc attempts) cs l)

  by_kind :
      (c : DiscoveredService) (cs : List DiscoveredService) (attempts wrong : ℕ) (x : Thrown)
      (before : ConnectionState) (k : ProbeFailureKind)
      → oracle c ≡ throw x
      → wrong ≤ attempts
      → Follows c cs attempts wrong before
      → (elim k [
        | wrong_daemon ↦ outcome env oracle cs (suc attempts) (suc wrong) (some x) before
        | unreachable ↦ outcome env oracle cs (suc attempts) wrong (some x) before
        | terminal ↦ ended_state before c (throw x)
      ])
        ≡ by_decider before
            (if is_terminal_kind k then some c else first (λ d. decides (oracle d)) cs)
            (if (wrong == attempts) && (is_wrong_kind k && all (λ d. is_wrong (oracle d)) cs)
              then ConnectionState.not_found
              else failure_from (or_connect_failed (last_error cs (some x))) connect_failed)
  by_kind c cs attempts wrong x before wrong_daemon e h ih =
      ih (suc wrong) (some x) (omega arith)
      ∙ ap (λ b. by_decider before (first (λ d. decides (oracle d)) cs) (undecided b cs (some x)))
          (both_suc wrong attempts)
  by_kind c cs attempts wrong x before unreachable e h ih =
      ih wrong (some x) (omega arith)
      ∙ ap
          (λ b. by_decider before (first (λ d. decides (oracle d)) cs) (
            if b
            then ConnectionState.not_found
            else failure_from (or_connect_failed (last_error cs (some x))) connect_failed))
          (ap (λ b. b && all (λ d. is_wrong (oracle d)) cs) (never_suc wrong attempts h)
            ∙ sym (and_false (wrong == attempts)))
  by_kind c cs attempts wrong x before terminal e h ih = ap (ended_state before c) (sym e)

  by_answer :
      (c : DiscoveredService) (cs : List DiscoveredService) (attempts wrong : ℕ)
      (last : Option Thrown) (before : ConnectionState) (r : Result AgentsResponse)
      → oracle c ≡ r
      → wrong ≤ attempts
      → Follows c cs attempts wrong before
      → outcome_of env oracle before c r
          (λ w l. outcome env oracle cs (suc attempts) w l before)
          wrong
        ≡ by_decider before (if decides r then some c else first (λ d. decides (oracle d)) cs) (
            if (wrong == attempts) && (is_wrong r && all (λ d. is_wrong (oracle d)) cs)
            then ConnectionState.not_found
            else failure_from (or_connect_failed (last_error cs (error_or last r))) connect_failed)
  by_answer c cs attempts wrong last before (ok response) e h ih = ap (ended_state before c) (sym e)
  by_answer c cs attempts wrong last before (throw x) e h ih =
      by_kind c cs attempts wrong x before (classify_probe_failure x) e h ih

  outcome-verdict :
      (cs : List DiscoveredService) (attempts wrong : ℕ) (last : Option Thrown)
      (before : ConnectionState)
      → wrong ≤ attempts
      → (is_nil cs ≡ true → 0 < attempts)
      → outcome env oracle cs attempts wrong last before
        ≡ by_decider before
            (first (λ c. decides (oracle c)) cs)
            (undecided (wrong == attempts) cs last)
  outcome-verdict [] attempts wrong last before h p = ground arith
  outcome-verdict (c ∷ cs) attempts wrong last before h p =
      by_answer c cs attempts wrong last before (oracle c) refl h
        (λ w l k. outcome-verdict cs (suc attempts) w l before k (λ e. omega arith))

  -- When a session that is not stopped starts a run over at least one candidate under a new number,
  -- and the answers arrive with nothing between them, the session ends in the state of the first
  -- candidate whose answer decides (connected to it, or the end that its daemon's error means); if
  -- none decides, the session is `not_found` when every candidate was another daemon, and has
  -- failed with the last error otherwise.
  pub connect-verdict :
      (s : Session) (c : DiscoveredService) (cs : List DiscoveredService)
      → s.stopped ≡ false
      → first (has_id s.next_run) s.runs ≡ none
      → (run (connect (c ∷ cs) s) (answers env oracle s.next_run (c ∷ cs))).state
        ≡ verdict s.state (c ∷ cs)
  unfolding connect
  connect-verdict s c cs running new =
      next_candidate-Ends env oracle s.next_run (c ∷ cs) 0 0 none
        (record s {
          live_run = some s.next_run;
          next_run = suc s.next_run;
          discovery_timer = false;
          in_flight_candidate_keys = some (keys_of (c ∷ cs));
          next_object = suc s.next_object;
        })
        (record { running = running; live = refl; none_waits = new })
      ∙ outcome-verdict (c ∷ cs) 0 0 none s.state (omega arith) (λ e. cc)
