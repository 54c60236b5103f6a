-- ===== src/Voice/Turns.antt =====
-- voice/continuousReducer.ts: sequences of actions, the countdown and the turns.
use herdr_connect.Common.{
  ℕ, ◌≤◌, ◌≡◌, refl, ◌⊎◌, Bool, false, Option, none, some, List, [], ◌∷◌, All, arith,
}
use herdr_connect.Voice.{
  CPhase, idle, listening, counting_down, waiting_for_agent, CState, CAction, user_start,
  countdown_done, agent_working, initial_state, c_reducer, reduce_all,
}

-- What each phase allows of the countdown and of the flag.
abbrev pub Suits : CPhase → Option ℕ → Bool → Type 0
Suits idle countdown saw = (countdown ≡ none) × (saw ≡ false)
Suits listening countdown saw = (countdown ≡ none) × (saw ≡ false)
Suits counting_down none saw = ⊥
Suits counting_down (some n) saw = (n ≤ 3) × (saw ≡ false)
Suits waiting_for_agent countdown saw = countdown ≡ none

abbrev pub IsSuited : CState → Type 0
IsSuited s = Suits s.phase s.countdown s.saw_working

c_reducer-IsSuited :
    (now : ℕ) (s : CState) (action : CAction) → IsSuited s → IsSuited (c_reducer now s action)
unfolding c_reducer
c_reducer-IsSuited now s action h = ground arith

reduce_all-IsSuited_lem :
    (s : CState) (actions : List (ℕ × CAction)) → IsSuited s → IsSuited (reduce_all s actions)
unfolding reduce_all
reduce_all-IsSuited_lem s [] h = h
reduce_all-IsSuited_lem s ((now, action) ∷ actions) h =
    reduce_all-IsSuited_lem (c_reducer now s action) actions (c_reducer-IsSuited now s action h)

-- Whatever actions follow from the initial state, a countdown is there exactly while counting down
-- and is at most three, and the agent has been seen working at most while waiting for it.
pub reduce_all-IsSuited :
    (actions : List (ℕ × CAction)) → IsSuited (reduce_all initial_state actions)
reduce_all-IsSuited actions = reduce_all-IsSuited_lem initial_state actions (refl, refl)

-- Neither the user starts, nor is the agent seen working.
abbrev pub IsQuiet : ℕ × CAction → Type 0
IsQuiet (now, user_start) = ⊥
IsQuiet (now, agent_working) = ⊥
IsQuiet _ = Unit

-- Waiting for an agent that was not seen working, or back at rest.
abbrev Waits : CPhase → Bool → Type 0
Waits idle saw = Unit
Waits waiting_for_agent saw = saw ≡ false
Waits _ saw = ⊥

c_reducer-Waits :
    (now : ℕ) (s : CState) (action : CAction)
    → IsQuiet (now, action)
    → Waits s.phase s.saw_working
    → Waits (c_reducer now s action).phase (c_reducer now s action).saw_working
unfolding c_reducer
c_reducer-Waits now s action q h = ground arith

reduce_all-Waits :
    (s : CState) (actions : List (ℕ × CAction))
    → All IsQuiet actions
    → Waits s.phase s.saw_working
    → Waits (reduce_all s actions).phase (reduce_all s actions).saw_working
unfolding reduce_all
reduce_all-Waits s [] q h = h
reduce_all-Waits s ((now, action) ∷ actions) (q, qs) h =
    reduce_all-Waits (c_reducer now s action) actions qs (c_reducer-Waits now s action q h)

-- Once a countdown is done, no sequence of actions leads back to listening or to a countdown
-- unless the agent is seen working or the user starts again.
pub reduce_all-done :
    (now : ℕ) (s : CState) (actions : List (ℕ × CAction))
    → s.phase ≡ counting_down
    → All IsQuiet actions
    → ((reduce_all s ((now, countdown_done) ∷ actions)).phase ≡ idle)
      ⊎ ((reduce_all s ((now, countdown_done) ∷ actions)).phase ≡ waiting_for_agent)
unfolding reduce_all c_reducer
reduce_all-done now s actions e q =
    rw (e, c_reducer)
      (ground (
        arith,
        reduce_all-Waits (record initial_state { phase = waiting_for_agent }) actions q refl,
      ))
