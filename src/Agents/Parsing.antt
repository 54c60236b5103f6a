-- ===== src/Agents/Parsing.antt =====
-- agent-contract.ts: the agents' response as a daemon writes it, and what is read of it.
use herdr_connect.Common.{Text, text, Option, none, some, List, [], ◌∷◌}
use herdr_connect.Json.{Json, Items, nil, cons, Fields, end, field, null, bool, num, str, arr, obj}
use herdr_connect.Agents.{
  Agent, AgentsResponse, InteractionState, working, blocked, ready_input, unknown, TurnOutcome,
  succeeded, failed, cancelled,
}

abbrev pub label : Option Text → Json
label none = null
label (some s) = str s

abbrev pub state_text : InteractionState → Text
state_text working = text "working"
state_text blocked = text "blocked"
state_text ready_input = text "ready_input"
state_text unknown = text "unknown"

abbrev pub outcome_json : Option TurnOutcome → Json
outcome_json none = null
outcome_json (some succeeded) = str (text "succeeded")
outcome_json (some failed) = str (text "failed")
outcome_json (some cancelled) = str (text "cancelled")

-- An outcome that is missing has no field.
abbrev pub outcome_field : Option (Option TurnOutcome) → Fields
outcome_field none = end
outcome_field (some o) = field (text "turn_outcome") (outcome_json o) end

abbrev pub agent_json : Agent → Json
agent_json a = obj (
    field (text "source_id") (str a.source_id) (
      field (text "display_name") (str a.display_name) (
        field (text "workspace_label") (label a.workspace_label) (
          field (text "tab_label") (label a.tab_label) (
            field (text "agent_name") (label a.agent_name) (
              field (text "revision") (num a.revision) (
                field (text "interaction_state") (str (state_text a.interaction_state))
                  (outcome_field a.turn_outcome))))))))

abbrev pub agents_json : List Agent → Items
agents_json [] = nil
agents_json (a ∷ agents) = cons (agent_json a) (agents_json agents)

abbrev pub response_json : AgentsResponse → Json
response_json r = obj (
    field (text "api_version") (num r.api_version) (
      field (text "source_name") (str r.source_name) (
        field (text "source_online") (bool r.source_online) (
          field (text "refreshed_at") (str r.refreshed_at)
            (field (text "agents") (arr (agents_json r.agents)) end)))))
