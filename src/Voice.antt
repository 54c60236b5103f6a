-- ===== src/Voice.antt =====
-- voice/continuousReducer.ts: the phases of the continuous voice mode. `now` is `Date.now()` when
-- the action is reduced.
pub mod Turns
use herdr_connect.Common.{
  ℕ, zero, suc, Bool, true, false, Option, none, some, List, [], ◌∷◌, if◌then◌else◌,
}
use herdr_connect.Agents.{InteractionState}

pub data CPhase : Type 0 where
  idle listening counting_down waiting_for_agent : CPhase

pub record CState : Type 0 where
  pub phase : CPhase
  pub countdown : Option ℕ
  pub last_activity_at : ℕ
  pub saw_working : Bool

pub data CAction : Type 0 where
  user_start : CAction
  result_activity : ℕ → CAction
  silence_detected countdown_tick countdown_done no_speech permission_denied user_stop agent_working
        agent_ready reset :
      CAction

abbrev pub initial_state : CState
initial_state = record { phase = idle; countdown = none; last_activity_at = 0; saw_working = false }

abbrev pub is_continuous_voice_agent_ready : InteractionState → Bool
is_continuous_voice_agent_ready InteractionState.working = false
is_continuous_voice_agent_ready _ = true

abbrev pub start_listening : ℕ → CState
start_listening now = record initial_state { phase = listening; last_activity_at = now }

abbrev pub reduce_idle : ℕ → CState → CAction → CState
reduce_idle now s user_start = start_listening now
reduce_idle now s reset = initial_state
reduce_idle now s _ = s

abbrev pub reduce_listening : CState → CAction → CState
reduce_listening s (result_activity at) = record s { last_activity_at = at }
reduce_listening s silence_detected = record s { phase = counting_down; countdown = some 3 }
reduce_listening s no_speech = initial_state
reduce_listening s permission_denied = initial_state
reduce_listening s user_stop = initial_state
reduce_listening s reset = initial_state
reduce_listening s _ = s

abbrev pub count_down : Option ℕ → Option ℕ
count_down (some (suc n)) = some n
count_down (some zero) = some zero
count_down none = none

abbrev pub reduce_counting_down : CState → CAction → CState
reduce_counting_down s (result_activity at) = record s {
  phase = listening;
  countdown = none;
  last_activity_at = at;
}
reduce_counting_down s countdown_tick = record s { countdown = count_down s.countdown }
reduce_counting_down s countdown_done = record initial_state { phase = waiting_for_agent }
reduce_counting_down s user_stop = initial_state
reduce_counting_down s reset = initial_state
reduce_counting_down s _ = s

abbrev pub reduce_waiting : ℕ → CState → CAction → CState
reduce_waiting now s agent_working = record s { saw_working = true }
reduce_waiting now s agent_ready = if s.saw_working then start_listening now else s
reduce_waiting now s user_stop = initial_state
reduce_waiting now s no_speech = initial_state
reduce_waiting now s permission_denied = initial_state
reduce_waiting now s reset = initial_state
reduce_waiting now s _ = s

abbrev pub reduce_in : CPhase → ℕ → CState → CAction → CState
reduce_in idle now s action = reduce_idle now s action
reduce_in listening now s action = reduce_listening s action
reduce_in counting_down now s action = reduce_counting_down s action
reduce_in waiting_for_agent now s action = reduce_waiting now s action

unfoldable pub c_reducer : ℕ → CState → CAction → CState
c_reducer now s action = reduce_in s.phase now s action

-- The state after a sequence of actions, each with its time.
unfoldable pub reduce_all : CState → List (ℕ × CAction) → CState
unfolding c_reducer
reduce_all s [] = s
reduce_all s ((now, action) ∷ actions) = reduce_all (c_reducer now s action) actions
