-- ===== src/Session/Events/Probing/Order.antt =====
-- connection-session.ts, `connect`: the first candidate that decides the run, and the end without.
use herdr_connect.Common.{
  ℕ, suc, ◌==◌, ltb, ◌≡◌, refl, ap, ◌∙◌, Bool, true, false, not, ◌&&◌, Option, none, some, List, [],
  ◌∷◌, first, select, if◌then◌else◌,
}
use herdr_connect.Errors.{Thrown, Result, ok, throw, connect_failed}
use herdr_connect.Agents.{AgentsResponse}
use herdr_connect.Discovery.{
  DiscoveredService, ProbeFailureKind, wrong_daemon, unreachable, terminal, classify_probe_failure,
  service_key,
}
use herdr_connect.Session.{Session, Run, ConnectionState, Env}
use herdr_connect.Session.Loop.{set_state}
use herdr_connect.Session.Probe.{
  next_candidate, is_over, has_id, failure_from, or_connect_failed, terminal_error, probe_failed,
  probe_succeeded, resume, resume_run, probe_done,
}
use herdr_connect.Session.Events.{Event, probe_answers, step, run}
use herdr_connect.Session.Events.Probing.{
  ==_refl, first-select-none, ended_state, terminal_error-state, terminal_error-runs,
  probe_succeeded-runs,
}

-- What each candidate answers.
module _ (env : Env) (oracle : DiscoveredService → Result AgentsResponse) where
  -- The answers to a run, in the order of its candidates.
  abbrev pub answers : ℕ → List DiscoveredService → List (Env × Event)
  answers id [] = []
  answers id (c ∷ cs) = (env, probe_answers id (oracle c)) ∷ answers id cs

  run-no_run :
      (s : Session) (id : ℕ) (cs : List DiscoveredService)
      → first (has_id id) s.runs ≡ none
      → run s (answers id cs) ≡ s
  unfolding run step probe_done
  run-no_run s id [] h = refl
  run-no_run s id (c ∷ cs) h =
      ap (λ o. run (resume_run env o id (oracle c) s) (answers id cs)) h ∙ run-no_run s id cs h

  -- The run by the kinds of its failures.
  abbrev pub outcome_of :
      ConnectionState
      → DiscoveredService
      → Result AgentsResponse
      → (ℕ → Option Thrown → ConnectionState)
      → ℕ
      → ConnectionState
  outcome_of before c (ok response) rest wrong = ConnectionState.connected c response
  outcome_of before c (throw e) rest wrong = elim (classify_probe_failure e) [
    | wrong_daemon ↦ rest (suc wrong) (some e)
    | unreachable ↦ rest wrong (some e)
    | terminal ↦ ended_state before c (throw e)
  ]

  abbrev pub outcome :
      List DiscoveredService → ℕ → ℕ → Option Thrown → ConnectionState → ConnectionState
  outcome [] attempts wrong last before =
      if (wrong == attempts) && ltb 0 attempts
      then ConnectionState.not_found
      else failure_from (or_connect_failed last) connect_failed
  outcome (c ∷ cs) attempts wrong last before =
      outcome_of before c (oracle c) (λ w l. outcome cs (suc attempts) w l before) wrong

  -- A session in which the run `id` is the live one and waits for no answer.
  pub record IsLive (id : ℕ) (s : Session) : Type 0 where
    pub running : s.stopped ≡ false
    pub live : s.live_run ≡ some id
    pub none_waits : first (has_id id) s.runs ≡ none

  not_over : (id : ℕ) (s : Session) → IsLive id s → is_over s id ≡ false
  not_over id s h = rw (h.running, h.live, ==_refl id) refl

  run-state :
      (t : Session) (id : ℕ) (cs : List DiscoveredService)
      → first (has_id id) t.runs ≡ none
      → (run t (answers id cs)).state ≡ t.state
  run-state t id cs h = ap (λ s. s.state) (run-no_run t id cs h)

  abbrev pub Ends : ℕ → List DiscoveredService → ℕ → ℕ → Option Thrown → Type 0
  Ends id cs attempts wrong last =
      (s : Session)
      → IsLive id s
      → (run (next_candidate id cs attempts wrong last s) (answers id cs)).state
        ≡ outcome cs attempts wrong last s.state

  probe_failed-state :
      (r : Run) (e : Thrown) (k : ProbeFailureKind) (t : Session)
      → IsLive r.id t
      → ((w : ℕ) (l : Option Thrown) → Ends r.id r.rest r.attempt_count w l)
      → (run (probe_failed r e k t) (answers r.id r.rest)).state ≡ (elim k [
        | wrong_daemon ↦ outcome r.rest r.attempt_count (suc r.wrong_daemon_count) (some e) t.state
        | unreachable ↦ outcome r.rest r.attempt_count r.wrong_daemon_count (some e) t.state
        | terminal ↦ ended_state t.state r.current (throw e)
      ])
  probe_failed-state r e wrong_daemon t h ih = ih (suc r.wrong_daemon_count) (some e) t h
  probe_failed-state r e unreachable t h ih = ih r.wrong_daemon_count (some e) t h
  probe_failed-state r e terminal t h ih =
      let freed = record t { connect_in_flight_key = none } in
      run-state (terminal_error e freed) r.id r.rest
        (ap (first (has_id r.id)) (terminal_error-runs e freed) ∙ h.none_waits)
      ∙ terminal_error-state r.current e freed

  resume-state :
      (r : Run) (a : Result AgentsResponse) (t : Session)
      → IsLive r.id t
      → ((w : ℕ) (l : Option Thrown) → Ends r.id r.rest r.attempt_count w l)
      → (run (resume env r a t) (answers r.id r.rest)).state
        ≡ outcome_of t.state r.current a
            (λ w l. outcome r.rest r.attempt_count w l t.state)
            r.wrong_daemon_count
  unfolding resume
  resume-state r (ok response) t h ih = rw (not_over r.id t h) (
      run-state (probe_succeeded env r.current response t) r.id r.rest
        (ap (first (has_id r.id)) (probe_succeeded-runs env r.current response t) ∙ h.none_waits)
      ∙ (unfold probe_succeeded set_state in refl))
  resume-state r (throw e) t h ih =
      rw (not_over r.id t h) (probe_failed-state r e (classify_probe_failure e) t h ih)

  abbrev asked : ℕ → DiscoveredService → List DiscoveredService → ℕ → ℕ → Run
  asked id c cs attempts wrong = record {
    id = id;
    current = c;
    rest = cs;
    attempt_count = suc attempts;
    wrong_daemon_count = wrong;
  }

  -- The session while the candidate is asked, without the run that waits for it.
  abbrev waiting : DiscoveredService → Session → Session
  waiting c s = record s { connect_in_flight_key = some (service_key c) }

  if_false : (b : Bool) (s t : Session) → b ≡ false → (if b then s else t) ≡ t
  if_false true s t h = cc
  if_false false s t h = refl

  next_candidate-asked :
      (id : ℕ) (c : DiscoveredService) (cs : List DiscoveredService) (attempts wrong : ℕ)
      (last : Option Thrown) (s : Session)
      → IsLive id s
      → next_candidate id (c ∷ cs) attempts wrong last s
        ≡ record (waiting c s) { runs = asked id c cs attempts wrong ∷ s.runs }
  unfolding next_candidate
  next_candidate-asked id c cs attempts wrong last s h =
      if_false (is_over s id) _
        (record (waiting c s) { runs = asked id c cs attempts wrong ∷ s.runs }) (not_over id s h)

  others :
      (r : Run) (rs : List Run)
      → first (has_id r.id) rs ≡ none
      → select (λ q. not (has_id r.id q)) (r ∷ rs) ≡ rs
  others r rs h = rw (==_refl r.id) (first-select-none r.id rs h)

  found : (r : Run) (rs : List Run) → first (has_id r.id) (r ∷ rs) ≡ some r
  found r rs = rw (==_refl r.id) refl

  probe_done-resume :
      (r : Run) (a : Result AgentsResponse) (s : Session)
      → first (has_id r.id) s.runs ≡ none
      → probe_done env r.id a (record s { runs = r ∷ s.runs }) ≡ resume env r a s
  unfolding probe_done
  probe_done-resume r a s h =
      ap (λ o. resume_run env o r.id a (record s { runs = r ∷ s.runs })) (found r s.runs)
      ∙ ap (λ rs. resume env r a (record s { runs = rs })) (others r s.runs h)

  pub next_candidate-Ends :
      (id : ℕ) (cs : List DiscoveredService) (attempts wrong : ℕ) (last : Option Thrown)
      → Ends id cs attempts wrong last
  unfolding run step next_candidate set_state
  next_candidate-Ends id [] attempts wrong last =
      λ s h. ended ((wrong == attempts) && ltb 0 attempts) s
    where
      ended :
          (b : Bool) (s : Session)
          → (if b
              then set_state ConnectionState.not_found (record s { connect_in_flight_key = none })
              else set_state
                  (failure_from (or_connect_failed last) connect_failed)
                  (record s { connect_in_flight_key = none })).state
            ≡ (if b
                then ConnectionState.not_found
                else failure_from (or_connect_failed last) connect_failed)
      ended true s = refl
      ended false s = refl
  next_candidate-Ends id (c ∷ cs) attempts wrong last = λ s h.
      ap (λ t. (run (probe_done env id (oracle c) t) (answers id cs)).state)
        (next_candidate-asked id c cs attempts wrong last s h)
      ∙ ap (λ t. (run t (answers id cs)).state)
          (probe_done-resume (asked id c cs attempts wrong) (oracle c) (waiting c s) h.none_waits)
      ∙ resume-state (asked id c cs attempts wrong) (oracle c) (waiting c s)
          (record { running = h.running; live = h.live; none_waits = h.none_waits })
          (λ w l. next_candidate-Ends id cs (suc attempts) w l)
