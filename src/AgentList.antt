-- ===== src/AgentList.antt =====
-- agent-status.ts and agent-filter.ts: the status that the list of agents shows and the filter
-- over it. A set of strings is a list, of which only membership is used.
pub mod Filtering
pub mod Toggling
pub mod Workspaces
use herdr_connect.Common.{
  ℕ, suc, zero, ◌+◌, ltb, leb, ◌==◌, Text, text, ◌is◌, is_empty, text_lt, Assoc, lookup, insert,
  sort, Bool, true, false, not, ◌&&◌, ◌||◌, Option, none, some, List, [], ◌∷◌, ◌++◌, map, any,
  select, length, if◌then◌else◌,
}
use herdr_connect.Agents.{Agent, InteractionState, TurnOutcome}

pub data SemanticAgentStatus : Type 0 where
  working blocked ready_input just_completed succeeded failed cancelled idle : SemanticAgentStatus

abbrev pub outcome_status : Option (Option TurnOutcome) → SemanticAgentStatus
outcome_status (some (some TurnOutcome.succeeded)) = succeeded
outcome_status (some (some TurnOutcome.failed)) = failed
outcome_status (some (some TurnOutcome.cancelled)) = cancelled
outcome_status (some none) = idle
outcome_status none = idle

abbrev pub status_of : InteractionState → Option (Option TurnOutcome) → Bool → SemanticAgentStatus
status_of InteractionState.working outcome completed = working
status_of InteractionState.blocked outcome completed = blocked
status_of InteractionState.ready_input outcome completed = ready_input
status_of InteractionState.unknown outcome completed =
    if completed then just_completed else outcome_status outcome

unfoldable pub semantic_agent_status : Agent → Bool → SemanticAgentStatus
semantic_agent_status a finished = status_of a.interaction_state a.turn_outcome finished

pub data AgentStatusGroup : Type 0 where
  working needs_me completed failed : AgentStatusGroup

abbrev pub status_groups : List AgentStatusGroup
status_groups = AgentStatusGroup.working ∷ needs_me ∷ completed ∷ AgentStatusGroup.failed ∷ []

abbrev pub same_group : AgentStatusGroup → AgentStatusGroup → Bool
same_group AgentStatusGroup.working AgentStatusGroup.working = true
same_group needs_me needs_me = true
same_group completed completed = true
same_group AgentStatusGroup.failed AgentStatusGroup.failed = true
same_group _ _ = false

abbrev pub unnamed_workspace_key : Text
unnamed_workspace_key = 0 ∷ text "unnamed"

pub record AgentListFilter : Type 0 where
  pub status_groups : List AgentStatusGroup
  pub workspaces : List Text
  pub favorites_only : Bool

abbrev pub no_filter : AgentListFilter
no_filter = record { status_groups = []; workspaces = []; favorites_only = false }

unfoldable pub is_filter_active : AgentListFilter → Bool
is_filter_active f =
    ltb 0 (length f.status_groups) || ltb 0 (length f.workspaces) || f.favorites_only

unfoldable pub active_filter_chip_count : AgentListFilter → ℕ
active_filter_chip_count f =
    length f.status_groups + length f.workspaces + (if f.favorites_only then 1 else 0)

abbrev pub group_of : SemanticAgentStatus → Option AgentStatusGroup
group_of working = some AgentStatusGroup.working
group_of blocked = some needs_me
group_of ready_input = some needs_me
group_of just_completed = some completed
group_of succeeded = some completed
group_of failed = some AgentStatusGroup.failed
group_of cancelled = none
group_of idle = none

unfoldable pub status_group_for : Agent → Bool → Option AgentStatusGroup
unfolding semantic_agent_status
status_group_for a finished = group_of (semantic_agent_status a finished)

-- The code units that `trim` removes.
abbrev pub is_space : ℕ → Bool
is_space c =
    (leb 9 c && leb c 13)
    || c == 32
    || c == 160
    || c == 5760
    || (leb 8192 c && leb c 8202)
    || c == 8232
    || c == 8233
    || c == 8239
    || c == 8287
    || c == 12288
    || c == 65279

abbrev pub trim_end : Text → Text
trim_end [] = []
trim_end (c ∷ cs) = let rest = trim_end cs in if is_empty rest && is_space c then [] else c ∷ rest

abbrev pub trim_start : Text → Text
trim_start [] = []
trim_start (c ∷ cs) = let rest = trim_start cs in if is_space c then rest else c ∷ cs

abbrev pub label_key : Option Text → Text
label_key none = unnamed_workspace_key
label_key (some label) =
    let trimmed = trim_end (trim_start label) in
    if ltb 0 (length trimmed) then trimmed else unnamed_workspace_key

unfoldable pub workspace_key_for : Agent → Text
workspace_key_for a = label_key a.workspace_label

abbrev pub includes : List Text → Text → Bool
includes texts' t = any (λ x. x is t) texts'

abbrev pub includes_group : List AgentStatusGroup → AgentStatusGroup → Bool
includes_group groups g = any (λ x. same_group x g) groups

abbrev pub is_chosen : List AgentStatusGroup → Option AgentStatusGroup → Bool
is_chosen groups none = false
is_chosen groups (some g) = includes_group groups g

unfoldable pub matches_filter : Agent → Bool → AgentListFilter → List Text → Bool
unfolding status_group_for workspace_key_for
matches_filter a finished f favorites =
    if ltb 0 (length f.status_groups)
      && not (is_chosen f.status_groups (status_group_for a finished))
    then false
    else if ltb 0 (length f.workspaces) && not (includes f.workspaces (workspace_key_for a))
    then false
    else not (f.favorites_only && not (includes favorites a.source_id))

unfoldable pub filter_agents : List Agent → List Text → AgentListFilter → List Text → List Agent
unfolding is_filter_active matches_filter
filter_agents agents completed_ids f favorites =
    if not (is_filter_active f)
    then agents
    else select (λ a. matches_filter a (includes completed_ids a.source_id) f favorites) agents

abbrev pub toggled_groups : List AgentStatusGroup → AgentStatusGroup → List AgentStatusGroup
toggled_groups groups g =
    if includes_group groups g
    then select (λ c. not (same_group c g)) groups
    else groups ++ (g ∷ [])

unfoldable pub toggle_status_group : AgentListFilter → AgentStatusGroup → AgentListFilter
toggle_status_group f g = record f {
  status_groups = select (λ c. includes_group (toggled_groups f.status_groups g) c) status_groups;
}

unfoldable pub toggle_workspace : AgentListFilter → Text → AgentListFilter
toggle_workspace f key = record f {
  workspaces =
      if includes f.workspaces key
      then select (λ c. not (c is key)) f.workspaces
      else f.workspaces ++ (key ∷ []);
}

unfoldable pub toggle_favorites_only : AgentListFilter → AgentListFilter
toggle_favorites_only f = record f { favorites_only = not f.favorites_only }

pub record WorkspaceOption : Type 0 where
  pub key : Text
  pub count : ℕ
  pub is_unnamed : Bool

abbrev pub or_zero : Option ℕ → ℕ
or_zero none = 0
or_zero (some n) = n

-- The loop of `enumerateWorkspaceOptions`.
unfoldable pub workspace_counts : List Agent → Assoc ℕ → Assoc ℕ
unfolding workspace_key_for lookup insert
workspace_counts [] counts = counts
workspace_counts (a ∷ agents) counts =
    workspace_counts agents
      (insert (workspace_key_for a) (or_zero (lookup (workspace_key_for a) counts) + 1) counts)

abbrev pub option_before : WorkspaceOption → WorkspaceOption → Bool
option_before a b = if a.count == b.count then text_lt a.key b.key else ltb b.count a.count

abbrev pub option_of : Text × ℕ → WorkspaceOption
option_of (key, count) = record {
  key = key;
  count = count;
  is_unnamed = key is unnamed_workspace_key;
}

unfoldable pub enumerate_workspace_options : List Agent → List WorkspaceOption
unfolding workspace_counts sort
enumerate_workspace_options agents = sort option_before (map option_of (workspace_counts agents []))

unfoldable pub prune_workspaces : AgentListFilter → List Text → AgentListFilter
prune_workspaces f live =
    let kept = select (λ key. includes live key) f.workspaces in
    if length f.workspaces == 0
    then f
    else if length kept == length f.workspaces
    then f
    else record f { workspaces = kept }
