-- ===== src/Registry/Foreground.antt =====
-- The app in the foreground and in the background, and the delays between attempts.
use herdr_connect.Common.{
  ◌+◌, not, ◌&&◌, ◌is◌, if◌then◌else◌, ℕ, zero, suc, ◌*◌, ◌^◌, ◌≤◌, ◌<◌, min, ◌≡◌, Text, text, In,
  Distinct, Assoc, lookup, keys, Bool, true, false, Option, none, some, List, [], ◌∷◌, arith,
}
use native.Mathlib.Nat.{pow-suc}
use herdr_connect.Registry.{
  SessionLifecycleAction, begin, pause, hold, plan_foreground_transition, discovery_retry_delay,
  is_retryable, probes,
}

-- What the provider makes of a plan: whether all sessions run, and how often discovery was restarted.
pub record Life : Type 0 where
  pub app_state : Text
  pub running : Bool
  pub restarts : ℕ

-- The provider begins its sessions only where it also restarts the discovery. (It loads the instances
-- in between, which is left out here.)
abbrev pub runs_after : SessionLifecycleAction → Bool → Bool → Bool
runs_after begin true running = true
runs_after begin false running = running
runs_after pause restarts running = false
runs_after hold restarts running = running

abbrev pub transition : Life → Text → Life
transition a next =
    let plan = plan_foreground_transition a.app_state next in
    record {
      app_state = next;
      running = runs_after plan.session_action plan.restart_discovery a.running;
      restarts = if plan.restart_discovery then a.restarts + 1 else a.restarts;
    }

abbrev pub transitions : Life → List Text → Life
transitions a [] = a
transitions a (next ∷ more) = transitions (transition a next) more

abbrev pub or_own : Option Bool → Text → Option Bool
or_own (some b) s = some b
or_own none s =
    if s is text "active" then some true else if s is text "background" then some false else none

-- The last of the states that is the foreground or the background, read from the end.
abbrev pub last_decisive : List Text → Option Bool
last_decisive [] = none
last_decisive (s ∷ ss) = or_own (last_decisive ss) s

abbrev pub or_running : Option Bool → Bool → Bool
or_running none running = running
or_running (some b) running = b

-- How often the app comes to the foreground from another state.
abbrev pub returns : Text → List Text → ℕ
returns previous [] = 0
returns previous (s ∷ ss) =
    (if (s is text "active") && not (previous is text "active") then 1 else 0) + returns s ss

-- In the foreground the sessions run.
abbrev pub IsAwake : Life → Type 0
IsAwake a = a.app_state ≡ text "active" → a.running ≡ true

power-pos : (n : ℕ) → 0 < 2 ^ n
power-pos zero = omega arith
power-pos (suc n) = omega (arith, pow-suc 2 n, power-pos n)

abbrev pub retries : Option Text → Bool
retries none = false
retries (some phase) = is_retryable phase

-- The delay starts at one second, doubles with each attempt, and stays at fifteen seconds.
pub discovery_retry_delay-suc :
    (n : ℕ)
    → (discovery_retry_delay (suc n) ≡ min (2 * discovery_retry_delay n) 15_000)
      × (1_000 ≤ discovery_retry_delay n)
      × (discovery_retry_delay n ≤ discovery_retry_delay (suc n))
      × (discovery_retry_delay n ≤ 15_000)
unfolding discovery_retry_delay
discovery_retry_delay-suc n = omega (arith, pow-suc 2 n, power-pos n)

-- If each fingerprint has one phase, a retry restarts the sessions whose phase can be retried, and
-- no others.
pub probes-In-lem :
    (phases : Assoc Text) (fp : Text)
    → Distinct (keys phases)
    → (In fp (probes phases) → In fp (keys phases) × (retries (lookup fp phases) ≡ true))
      × (retries (lookup fp phases) ≡ true → In fp (probes phases))
unfolding probes lookup
probes-In-lem [] fp d = ((λ h. absurd h), (λ h. cc))
probes-In-lem ((k, phase) ∷ phases) fp d = ground (arith, probes-In-lem phases fp d.1)
