-- ===== src/Agents.antt =====
-- agent-contract.ts: the agents that a daemon reports, and the parser of its answer.
pub mod Parsing
use herdr_connect.Common.{
  Text, text, ◌is◌, Bool, true, false, Option, none, some, List, [], ◌∷◌, if◌then◌else◌, ◌>>=◌,
}
use herdr_connect.Json.{
  Json, Fields, str, null, Number, get, as_text, as_bool, as_number, as_items, as_record, below_one,
}
use herdr_connect.Errors.{
  NetworkErrorCode, new_error, absent, Thrown, network, Result, ok, throw, agent_invalid,
  agent_missing, response_invalid, response_missing, daemon_outdated,
}

pub data InteractionState : Type 0 where
  working blocked ready_input unknown : InteractionState

pub data TurnOutcome : Type 0 where
  succeeded failed cancelled : TurnOutcome

-- An outcome that is `undefined` is `none`, and one that is `null` is `some none`.
pub record Agent : Type 0 where
  pub source_id : Text
  pub display_name : Text
  pub workspace_label : Option Text
  pub tab_label : Option Text
  pub agent_name : Option Text
  pub revision : Number
  pub interaction_state : InteractionState
  pub turn_outcome : Option (Option TurnOutcome)

pub record AgentsResponse : Type 0 where
  pub api_version : Number
  pub source_name : Text
  pub source_online : Bool
  pub refreshed_at : Text
  pub agents : List Agent

-- `apiVersion` below the supported minimum, which is 1.
abbrev pub is_daemon_outdated : Number → Bool
is_daemon_outdated api_version = below_one api_version

abbrev pub fail {ℓ} : {A : Type ℓ} → NetworkErrorCode → Result A
fail code = throw (network (record { code = code; status = none; detail = none }))

unfoldable pub assert_daemon_supported : Number → Result (Unit {0})
assert_daemon_supported api_version =
    if is_daemon_outdated api_version then fail daemon_outdated else ok tt

unfoldable pub as_interaction_state : Option Json → InteractionState
as_interaction_state (some (str s)) =
    if s is text "working"
    then working
    else if s is text "blocked"
    then blocked
    else if s is text "ready_input"
    then ready_input
    else unknown
as_interaction_state _ = unknown

unfoldable pub as_turn_outcome : Option Json → Option (Option TurnOutcome)
as_turn_outcome (some null) = some none
as_turn_outcome (some (str s)) =
    if s is text "succeeded"
    then some (some succeeded)
    else if s is text "failed"
    then some (some failed)
    else if s is text "cancelled"
    then some (some cancelled)
    else none
as_turn_outcome _ = none

abbrev pub or_throw {ℓ} : {A : Type ℓ} → NetworkErrorCode → Option A → Result A
or_throw code none = fail code
or_throw code (some a) = ok a

unfoldable pub agent_of_fields : Fields → Option Agent
unfolding get as_interaction_state as_turn_outcome
agent_of_fields fields = do
  source_id ← as_text (get (text "source_id") fields)
  display_name ← as_text (get (text "display_name") fields)
  revision ← as_number (get (text "revision") fields)
  some (record {
    source_id = source_id;
    display_name = display_name;
    workspace_label = as_text (get (text "workspace_label") fields);
    tab_label = as_text (get (text "tab_label") fields);
    agent_name = as_text (get (text "agent_name") fields);
    revision = revision;
    interaction_state = as_interaction_state (get (text "interaction_state") fields);
    turn_outcome = as_turn_outcome (get (text "turn_outcome") fields);
  })

unfoldable pub parse_agent : Json → Result Agent
unfolding agent_of_fields
parse_agent value = elim (as_record value) [
  | none ↦ fail agent_invalid
  | some fields ↦ or_throw agent_missing (agent_of_fields fields)
]

abbrev pub put_first : Result Agent → Result (List Agent) → Result (List Agent)
put_first (throw t) rest = throw t
put_first (ok agent) (throw t) = throw t
put_first (ok agent) (ok agents) = ok (agent ∷ agents)

-- `value.agents.map(parseAgent)`, which throws at the first agent that does not parse.
unfoldable pub parse_agents : List Json → Result (List Agent)
unfolding parse_agent
parse_agents [] = ok []
parse_agents (value ∷ values) = put_first (parse_agent value) (parse_agents values)

pub record ResponseFields : Type 0 where
  pub api_version : Number
  pub source_name : Text
  pub source_online : Bool
  pub refreshed_at : Text
  pub agents : List Json

unfoldable pub response_of_fields : Fields → Option ResponseFields
unfolding get
response_of_fields fields = do
  api_version ← as_number (get (text "api_version") fields)
  source_name ← as_text (get (text "source_name") fields)
  source_online ← as_bool (get (text "source_online") fields)
  refreshed_at ← as_text (get (text "refreshed_at") fields)
  agents ← as_items (get (text "agents") fields)
  some (record {
    api_version = api_version;
    source_name = source_name;
    source_online = source_online;
    refreshed_at = refreshed_at;
    agents = agents;
  })

abbrev pub with_agents : ResponseFields → Result (List Agent) → Result AgentsResponse
with_agents r (throw t) = throw t
with_agents r (ok agents) = ok (record {
  api_version = r.api_version;
  source_name = r.source_name;
  source_online = r.source_online;
  refreshed_at = r.refreshed_at;
  agents = agents;
})

unfoldable pub parse_agents_response : Json → Result AgentsResponse
unfolding response_of_fields parse_agents
parse_agents_response value = elim (as_record value) [
  | none ↦ fail response_invalid
  | some fields ↦ elim (response_of_fields fields) [
    | none ↦ fail response_missing
    | some r ↦ with_agents r (parse_agents r.agents)
  ]
]
