-- ===== src/Notifications/Chime.antt =====
-- notifications/DoneSoundProvider.tsx: what a new snapshot makes the app do, the effect of the
-- provider, and the agent that a tapped notification opens.
pub mod Alerts
use herdr_connect.Common.{
  Text, text, ◌is◌, is_empty, Assoc, Bool, true, false, not, ◌&&◌, Option, none, some, List, [],
  ◌∷◌, ◌++◌, map, select, first, if◌then◌else◌,
}
use herdr_connect.Agents.{Agent}
use herdr_connect.Notifications.{index_agents, detect_newly_completed, detect_newly_active}

pub record SoundPreferences : Type 0 where
  pub enabled : Bool
  pub notify_while_viewing : Bool
  pub local_notifications_enabled : Bool

abbrev pub or_set : Option Bool → Bool → Bool
or_set none b = b
or_set (some a) b = a

-- All three are on until the owner switches them off.
unfoldable pub preferences_of : Option Bool → Option Bool → Option Bool → SoundPreferences
preferences_of sound viewing local = record {
  enabled = or_set sound true;
  notify_while_viewing = or_set viewing true;
  local_notifications_enabled = or_set local true;
}

-- A banner has a title and the id of its agent; its body is a fixed text.
pub data Effect : Type 0 where
  clear_completed mark_completed : List Text → Effect
  banner : Text → Text → Effect
  haptic completion_sound : Effect

abbrev pub or_text : Option Text → Text → Text
or_text none otherwise = otherwise
or_text (some []) otherwise = otherwise
or_text (some (c ∷ s)) otherwise = c ∷ s

abbrev pub title_of : Agent → Text
title_of a =
    or_text (some a.display_name) (or_text a.workspace_label (or_text a.agent_name (text "Agent")))

abbrev pub banner_of : Agent → Effect
banner_of a = banner (title_of a) a.source_id

-- `viewingSourceId ?? routedSourceId`
abbrev pub current_source_id : Option Text → Option Text → Option Text
current_source_id none routed = routed
current_source_id (some id) routed = some id

abbrev pub audible_of : Bool → Option Text → List Agent → List Agent
audible_of false (some (c ∷ id)) newly_done = select (λ a. not (a.source_id is (c ∷ id))) newly_done
audible_of _ _ newly_done = newly_done

abbrev pub alerts : SoundPreferences → List Agent → List Effect
alerts p [] = []
alerts p (a ∷ audible) =
    (if p.local_notifications_enabled then map banner_of (a ∷ audible) ++ (haptic ∷ []) else [])
    ++ (if p.enabled then completion_sound ∷ [] else [])

abbrev pub announce : SoundPreferences → Option Text → List Agent → List Effect
announce p current [] = []
announce p current (a ∷ newly_done) =
    if not p.enabled && not p.local_notifications_enabled
    then []
    else alerts p (audible_of p.notify_while_viewing current (a ∷ newly_done))

pub record Outcome : Type 0 where
  pub effects : List Effect
  pub previous : Assoc Agent

abbrev pub agents_of : Option (List Agent) → List Agent
agents_of none = []
agents_of (some agents) = agents

-- The agents are those of a connected state.
unfoldable pub on_state :
    SoundPreferences → Option Text → Option Text → Assoc Agent → Option (List Agent) → Outcome
unfolding index_agents detect_newly_completed detect_newly_active
on_state p viewing routed previous connected =
    let agents = agents_of connected in
    let newly_done = detect_newly_completed previous agents in
    record {
      effects =
          clear_completed (map (λ a. a.source_id) (detect_newly_active previous agents))
          ∷ mark_completed (map (λ a. a.source_id) newly_done)
          ∷ announce p (current_source_id viewing routed) newly_done;
      previous = index_agents agents;
    }

-- The agent of the current snapshot that a tapped notification opens.
unfoldable pub tapped_agent : Option Text → List Agent → Option Agent
tapped_agent none agents = none
tapped_agent (some []) agents = none
tapped_agent (some (c ∷ id)) agents = first (λ a. a.source_id is (c ∷ id)) agents
