-- ===== src/Registry.antt =====
-- session-registry.ts and discovery-lifecycle.ts: which connection sessions to stop and to start,
-- what an app state change means for them, and which to probe again. A `Map` keeps the order of
-- insertion; the session of a fingerprint is known by the credentials that it was made with.
pub mod Reconcile
pub mod Credentials
pub mod Settled
pub mod Foreground
pub mod Replaced
use herdr_connect.Common.{
  ℕ, ◌*◌, ◌^◌, min, ltb, Text, text, ◌is◌, Text-discrete, Assoc, lookup, insert, delete, keys, Bool,
  true, false, not, ◌&&◌, ◌||◌, Option, none, some, is_some, List, [], ◌∷◌, ◌++◌, first, select,
  any, if◌then◌else◌,
}
use herdr_connect.Paired.{DeviceCredentials}

pub record SessionSetPlan : Type 0 where
  pub stop : List Text
  pub start : List DeviceCredentials

unfoldable pub same_credentials : DeviceCredentials → DeviceCredentials → Bool
same_credentials a b =
    (a.fingerprint is b.fingerprint)
    && (a.device_id is b.device_id)
    && (a.token is b.token)
    && (a.device_name is b.device_name)
    && (a.paired_at is b.paired_at)

abbrev pub wanted : List DeviceCredentials → Text → Option DeviceCredentials
wanted desired fp = first (λ c. c.fingerprint is fp) desired

-- `!x || !sameCredentials(x, c)`
abbrev pub differs : Option DeviceCredentials → DeviceCredentials → Bool
differs none c = true
differs (some d) c = not (same_credentials d c)

-- The two loops of `planSessionSet`.
unfoldable pub stops : List DeviceCredentials → Assoc DeviceCredentials → List Text
unfolding same_credentials
stops desired [] = []
stops desired ((fp, current) ∷ existing) =
    if differs (wanted desired fp) current
    then fp ∷ stops desired existing
    else stops desired existing

abbrev pub unlike : DeviceCredentials → Option DeviceCredentials → Bool
unlike c none = true
unlike c (some current) = not (same_credentials c current)

unfoldable pub starts : List DeviceCredentials → Assoc DeviceCredentials → List DeviceCredentials
unfolding same_credentials lookup
starts desired existing = select (λ c. unlike c (lookup c.fingerprint existing)) desired

unfoldable pub plan_session_set : List DeviceCredentials → Assoc DeviceCredentials → SessionSetPlan
unfolding stops starts
plan_session_set desired existing = record {
  stop = stops desired existing;
  start = starts desired existing;
}

-- The two loops of `syncModel` in connection.tsx over a plan, stops first, then starts: the entries of
-- the `Map` of sessions. What a stopped and a begun session does is Session.stop and Session.begin.
unfoldable pub stop_all : List Text → Assoc DeviceCredentials → Assoc DeviceCredentials
unfolding delete
stop_all [] sessions = sessions
stop_all (fp ∷ fps) sessions = stop_all fps (delete fp sessions)

unfoldable pub start_all :
    List DeviceCredentials → Assoc DeviceCredentials → Assoc DeviceCredentials
unfolding insert
start_all [] sessions = sessions
start_all (c ∷ cs) sessions = start_all cs (insert c.fingerprint c sessions)

unfoldable pub reconcile :
    List DeviceCredentials → Assoc DeviceCredentials → Assoc DeviceCredentials
unfolding plan_session_set stop_all start_all
reconcile desired existing =
    let plan = plan_session_set desired existing in
    start_all plan.start (stop_all plan.stop existing)

-- A session that is replaced in the `Map` without having been stopped runs on, out of reach.
abbrev pub overwritten : Option DeviceCredentials → List DeviceCredentials
overwritten none = []
overwritten (some session) = session ∷ []

unfoldable pub abandoned : List DeviceCredentials → Assoc DeviceCredentials → List DeviceCredentials
unfolding lookup insert
abandoned [] sessions = []
abandoned (c ∷ cs) sessions =
    overwritten (lookup c.fingerprint sessions) ++ abandoned cs (insert c.fingerprint c sessions)

-- The sessions that are reachable after `syncModel`, and those that run on out of reach.
pub record Synced : Type 0 where
  pub sessions : Assoc DeviceCredentials
  pub out_of_reach : List DeviceCredentials

unfoldable pub sync_sessions : List DeviceCredentials → Assoc DeviceCredentials → Synced
unfolding reconcile plan_session_set stop_all abandoned
sync_sessions desired existing =
    let plan = plan_session_set desired existing in
    record {
      sessions = reconcile desired existing;
      out_of_reach = abandoned plan.start (stop_all plan.stop existing);
    }

pub data SessionLifecycleAction : Type 0 where
  begin pause hold : SessionLifecycleAction

pub record ForegroundPlan : Type 0 where
  pub session_action : SessionLifecycleAction
  pub restart_discovery : Bool

unfoldable pub plan_foreground_transition : Text → Text → ForegroundPlan
unfolding Text-discrete
plan_foreground_transition previous next = record {
  session_action =
      if next is text "background" then pause else if next is text "active" then begin else hold;
  restart_discovery = not (previous is text "active") && (next is text "active");
}

-- discovery-lifecycle.ts
unfoldable pub should_restart_discovery : Text → Text → Bool
should_restart_discovery previous next = not (previous is text "active") && (next is text "active")

-- The attempts that the callers count are natural numbers, for which the guard against other
-- values (`Number.isFinite`, `Math.floor`, `Math.max`) changes nothing.
unfoldable pub discovery_retry_delay : ℕ → ℕ
discovery_retry_delay attempt = min (1_000 * 2 ^ attempt) 15_000

pub record SessionRetryPlan : Type 0 where
  pub restart_probes : List Text
  pub restart_discovery : Bool
  pub probing : Bool

unfoldable pub is_retryable : Text → Bool
is_retryable phase = (phase is text "not_found") || (phase is text "failed")

unfoldable pub probes : Assoc Text → List Text
unfolding is_retryable
probes [] = []
probes ((fp, phase) ∷ phases) = if is_retryable phase then fp ∷ probes phases else probes phases

abbrev pub is_nonempty {ℓ} : {A : Type ℓ} → List A → Bool
is_nonempty [] = false
is_nonempty (x ∷ xs) = true

unfoldable pub plan_session_retry : Assoc Text → SessionRetryPlan
unfolding probes
plan_session_retry phases = record {
  restart_probes = probes phases;
  restart_discovery = is_nonempty (probes phases);
  probing = any (λ entry. entry.1 is text "discovering") phases;
}
