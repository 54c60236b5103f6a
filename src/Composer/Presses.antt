-- ===== src/Composer/Presses.antt =====
-- voice/continuousControls.ts: when a press starts or stops a continuous session.
use herdr_connect.Common.{◌≡◌, ◌≢◌, ◌↔◌, Bool, true, false, arith}
use herdr_connect.Voice.{CPhase, idle}
use herdr_connect.Composer.{start_continuous_session, stop_continuous_session, action_for_mic_press}

-- A press of the microphone starts a continuous session exactly if the mode is on, the phase is
-- idle and nothing is being recorded, and stops one exactly if the mode is on and the phase is not
-- idle.
pub action_for_mic_press-start :
    (enabled : Bool) (phase : CPhase) (recording : Bool)
    → ((action_for_mic_press enabled phase recording ≡ start_continuous_session)
        ↔ ((enabled ≡ true) × (phase ≡ idle) × (recording ≡ false)))
      × ((action_for_mic_press enabled phase recording ≡ stop_continuous_session)
          ↔ ((enabled ≡ true) × (phase ≢ idle)))
unfolding action_for_mic_press
action_for_mic_press-start enabled phase recording = ground arith
