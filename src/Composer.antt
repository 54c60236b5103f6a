-- ===== src/Composer.antt =====
-- composerAction.ts and voice/continuousControls.ts: what a press of the composer's buttons does.
pub mod Presses
use herdr_connect.Common.{Bool, true, false, not, ◌&&◌, ◌||◌, if◌then◌else◌}
use herdr_connect.Voice.{CPhase, idle}

pub data ComposerMode : Type 0 where
  send interrupt : ComposerMode

pub record ComposerActionState : Type 0 where
  pub mode : ComposerMode
  pub disabled : Bool
  pub pending : Bool

pub record ComposerSituation : Type 0 where
  pub can_interrupt : Bool
  pub can_send : Bool
  pub interrupt_pending : Bool
  pub send_pending : Bool
  pub voice_listening : Bool

unfoldable pub resolve_composer_action : ComposerSituation → ComposerActionState
resolve_composer_action s =
    if s.can_interrupt
    then record { mode = interrupt; disabled = s.interrupt_pending; pending = s.interrupt_pending }
    else record {
      mode = send;
      disabled = not s.can_send || s.voice_listening;
      pending = s.send_pending;
    }

pub data MicPressAction : Type 0 where
  toggle_manual_recording start_continuous_session stop_continuous_session : MicPressAction

pub data ContinuousModePressAction : Type 0 where
  enable_continuous_mode disable_continuous_mode disable_continuous_mode_and_stop :
      ContinuousModePressAction

abbrev pub is_idle : CPhase → Bool
is_idle idle = true
is_idle _ = false

unfoldable pub action_for_mic_press : Bool → CPhase → Bool → MicPressAction
action_for_mic_press continuous_enabled phase listening =
    if continuous_enabled && not (is_idle phase)
    then stop_continuous_session
    else if listening
    then toggle_manual_recording
    else if continuous_enabled
    then start_continuous_session
    else toggle_manual_recording

unfoldable pub action_for_continuous_mode_press : Bool → Bool → ContinuousModePressAction
action_for_continuous_mode_press continuous_enabled listening =
    if not continuous_enabled
    then enable_continuous_mode
    else if listening
    then disable_continuous_mode_and_stop
    else disable_continuous_mode
