-- ===== src/Session/Events/Late.antt =====
-- connection-session.ts, `connect`: the late answers of runs that were aborted.
use herdr_connect.Common.{
  ℕ, ◌≡◌, refl, ◌∙◌, subst, sym, true, false, Option, none, some, List, [], ◌∷◌, All, first, arith,
}
use herdr_connect.Errors.{Result}
use herdr_connect.Agents.{AgentsResponse}
use herdr_connect.Session.{Session, Run, Env}
use herdr_connect.Session.Probe.{is_run, has_id, resume, resume_run, probe_done}
use herdr_connect.Session.Events.{Event, probe_answers, step, run}

-- An answer to a run that is not the live one.
abbrev pub IsLate : Option ℕ → Env × Event → Type 0
IsLate live (env, probe_answers id answer) = is_run live id ≡ false
IsLate live _ = ⊥

-- All but the key in flight and the runs that wait.
abbrev pub IsUntouched : Session → Session → Type 0
IsUntouched t s =
    (t.state ≡ s.state)
    × (t.live_run ≡ s.live_run)
    × (t.snapshot_service ≡ s.snapshot_service)
    × (t.selected_key ≡ s.selected_key)
    × (t.associations ≡ s.associations)
    × (t.reported ≡ s.reported)

has_id-eq : (id : ℕ) (r : Run) → has_id id r ≡ true → r.id ≡ id
has_id-eq id r h = ground arith

first-has_id : (id : ℕ) (rs : List Run) (r : Run) → first (has_id id) rs ≡ some r → r.id ≡ id
first-has_id id [] r h = cc
first-has_id id (x ∷ rs) r h = ground (arith, first-has_id id rs r, has_id-eq id x)

resume-IsUntouched :
    (env : Env) (r : Run) (answer : Result AgentsResponse) (s : Session)
    → is_run s.live_run r.id ≡ false
    → IsUntouched (resume env r answer s) s
unfolding resume
resume-IsUntouched env r answer s h = rw h (ground arith)

probe_done-IsUntouched :
    (env : Env) (id : ℕ) (answer : Result AgentsResponse) (s : Session)
    → is_run s.live_run id ≡ false
    → IsUntouched (probe_done env id answer s) s
unfolding probe_done
probe_done-IsUntouched env id answer s h = by_run (first (has_id id) s.runs) refl
  where
    by_run :
        (o : Option Run)
        → first (has_id id) s.runs ≡ o
        → IsUntouched (resume_run env o id answer s) s
    by_run none e = (refl, refl, refl, refl, refl, refl)
    by_run (some r) e =
        resume-IsUntouched env r answer _
          (subst (λ n. is_run s.live_run n ≡ false) (sym (first-has_id id s.runs r e)) h)

-- However many answers to runs that are not the live one arrive, the state, the live run, the
-- service that is refreshed, the selected service, the associations and the calls of
-- `onAuthInvalid` stay what they were.
pub run-IsUntouched :
    (s : Session) (events : List (Env × Event))
    → All (IsLate s.live_run) events
    → IsUntouched (run s events) s
unfolding run step
run-IsUntouched s [] h = (refl, refl, refl, refl, refl, refl)
run-IsUntouched s ((env, probe_answers id answer) ∷ events) (h, hs) =
    let now = probe_done-IsUntouched env id answer s h in
    let later =
      run-IsUntouched (probe_done env id answer s) events
        (subst (λ live. All (IsLate live) events) (sym now.1) hs) in
    (
      later.0 ∙ now.0,
      later.1 ∙ now.1,
      later.2 ∙ now.2,
      later.3 ∙ now.3,
      later.4 ∙ now.4,
      later.5 ∙ now.5,
    )
run-IsUntouched s ((env, _) ∷ events) (h, hs) = absurd h
