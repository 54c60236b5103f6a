-- ===== src/Examples/Lists.antt =====
-- Examples on the list of agents, its favourites and notifications, and on the voice mode.
use herdr_connect.Common.{
  ◌≢◌, arith, ◌≡◌, ◌⊎◌, refl, text, ◌is◌, none, some, true, [], ◌∷◌, select, Text-discrete,
  ℕ_discrete, pos, if◌then◌else◌, map, lookup,
}
use herdr_connect.InstanceUi.{
  InstanceUiState, initial_instance_ui_state, default_instance_ui_snapshot, instance_ui_reducer,
  focus_switch, selected_agent,
}
use herdr_connect.InstanceUi.Memory.{reduce_ui, reduce_ui-there_and_back}
use herdr_connect.Json.{JsonText, RoundTrips, arr, integer}
use herdr_connect.Agents.{Agent, InteractionState}
use herdr_connect.Paired.{DeviceCredentials}
use herdr_connect.AgentList.{AgentListFilter, needs_me, filter_agents}
use herdr_connect.AgentList.Filtering.{meets, filter_agents-select}
use herdr_connect.Favorites.{ids_json, parse_favorite_source_ids, serialize_favorite_source_ids}
use herdr_connect.Favorites.Choices.{Fresh, parse-serialize}
use herdr_connect.Voice.{
  CState, idle, counting_down, waiting_for_agent, user_start, silence_detected, countdown_tick,
  countdown_done, agent_ready, user_stop, initial_state, reduce_all,
}
use herdr_connect.Voice.Turns.{IsSuited, reduce_all-IsSuited, reduce_all-done}
use herdr_connect.Notifications.{index_agents, became_active, left_active}
use herdr_connect.Notifications.Chime.{
  SoundPreferences, preferences_of, on_state, clear_completed, mark_completed, banner, haptic,
  completion_sound,
}
use herdr_connect.Notifications.Chime.Alerts.{announced, signals, effects-on_state}
use herdr_connect.Examples.{desk}

abbrev pub busy : Agent
busy = record {
  source_id = text "s1";
  display_name = text "claude";
  workspace_label = some (text " herdr ");
  tab_label = none;
  agent_name = none;
  revision = integer (pos 1);
  interaction_state = InteractionState.working;
  turn_outcome = none;
}

abbrev finished : Agent
finished = record busy { interaction_state = InteractionState.ready_input }

abbrev unnamed : Agent
unnamed = record busy { source_id = text "s2"; workspace_label = none }

abbrev chosen : AgentListFilter
chosen = record {
  status_groups = needs_me ∷ [];
  workspaces = text "herdr" ∷ text "gone" ∷ [];
  favorites_only = true;
}

filter_agents-select_example :
    filter_agents (finished ∷ unnamed ∷ []) [] chosen (text "s1" ∷ [])
    ≡ select (meets chosen [] (text "s1" ∷ [])) (finished ∷ unnamed ∷ [])
filter_agents-select_example =
    filter_agents-select (finished ∷ unnamed ∷ []) [] chosen (text "s1" ∷ [])

abbrev one_list : JsonText
one_list = record {
  parse = λ s. if s is text "list" then some (arr (ids_json (text "s1" ∷ []))) else none;
  stringify = λ j. text "list";
}

one_list-RoundTrips :
    RoundTrips one_list (arr (ids_json (parse_favorite_source_ids one_list (some (text "list")))))
unfolding parse_favorite_source_ids Text-discrete ℕ_discrete
one_list-RoundTrips = refl

one_list-blank : one_list.parse [] ≡ none
unfolding Text-discrete ℕ_discrete
one_list-blank = refl

parse-serialize_example :
    Fresh [] (parse_favorite_source_ids one_list (some (text "list")))
    × (parse_favorite_source_ids one_list (
          some (
            serialize_favorite_source_ids one_list
              (parse_favorite_source_ids one_list (some (text "list")))))
        ≡ parse_favorite_source_ids one_list (some (text "list")))
parse-serialize_example =
    parse-serialize one_list (some (text "list")) one_list-blank one_list-RoundTrips

reduce_all-IsSuited_example :
    IsSuited (
      reduce_all initial_state ((1, user_start) ∷ (2, silence_detected) ∷ (3, countdown_tick) ∷ []))
reduce_all-IsSuited_example =
    reduce_all-IsSuited ((1, user_start) ∷ (2, silence_detected) ∷ (3, countdown_tick) ∷ [])

abbrev counting : CState
counting = record initial_state { phase = counting_down; countdown = some 1 }

reduce_all-done_example :
    ((reduce_all counting ((4, countdown_done) ∷ (5, agent_ready) ∷ (6, user_stop) ∷ [])).phase
      ≡ idle)
    ⊎ ((reduce_all counting ((4, countdown_done) ∷ (5, agent_ready) ∷ (6, user_stop) ∷ [])).phase
        ≡ waiting_for_agent)
reduce_all-done_example =
    reduce_all-done 4 counting ((5, agent_ready) ∷ (6, user_stop) ∷ []) refl (tt, (tt, tt))

-- The same installation, now with an address of its own.
abbrev pinned_desk : DeviceCredentials
pinned_desk = record desk { pinned_host = some (record { host = text "far"; port = 7 }) }

abbrev home : InstanceUiState
home = record initial_instance_ui_state {
  shown = record default_instance_ui_snapshot { selected_agent_id = some (text "s1") };
}

desk_not_attic : text "a1" ≢ text "b2"
unfolding Text-discrete ℕ_discrete
desk_not_attic = λ h. ground arith

reduce_ui-there_and_back_example :
    (instance_ui_reducer
      (reduce_ui
        (instance_ui_reducer home (focus_switch (some (text "a1")) (some (text "b2"))))
        (selected_agent none ∷ []))
      (focus_switch (some (text "b2")) (some (text "a1")))).shown
    ≡ home.shown
reduce_ui-there_and_back_example =
    reduce_ui-there_and_back home (text "a1") (text "b2") (selected_agent none ∷ []) refl refl
      desk_not_attic (tt, tt)

abbrev all_on : SoundPreferences
all_on = preferences_of none none none

-- An agent that has finished is announced, and one that still works is not.
announced_once :
    (on_state all_on none none
      (index_agents (busy ∷ unnamed ∷ []))
      (some (finished ∷ unnamed ∷ []))).effects
    ≡ (clear_completed []
        ∷ mark_completed (text "s1" ∷ [])
        ∷ banner (text "claude") (text "s1")
        ∷ haptic
        ∷ completion_sound
        ∷ [])
unfolding on_state preferences_of herdr_connect.Common.Text-discrete herdr_connect.Common.ℕ_discrete
announced_once = refl

effects-on_state_example :
    (on_state all_on none none
      (index_agents (busy ∷ unnamed ∷ []))
      (some (finished ∷ unnamed ∷ []))).effects
    ≡ (clear_completed (
          map
            (λ a. a.source_id)
            (select
              (λ a. became_active (lookup a.source_id (index_agents (busy ∷ unnamed ∷ []))) a)
              (finished ∷ unnamed ∷ [])))
        ∷ mark_completed (
            map
              (λ a. a.source_id)
              (select
                (λ a. left_active (lookup a.source_id (index_agents (busy ∷ unnamed ∷ []))) a)
                (finished ∷ unnamed ∷ [])))
        ∷ signals all_on
            (announced all_on none (index_agents (busy ∷ unnamed ∷ [])) (finished ∷ unnamed ∷ [])))
effects-on_state_example =
    effects-on_state all_on none none (index_agents (busy ∷ unnamed ∷ []))
      (some (finished ∷ unnamed ∷ []))
