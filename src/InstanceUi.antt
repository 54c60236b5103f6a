-- ===== src/InstanceUi.antt =====
-- instance-ui-state.ts: what the app shows for the instance in focus, and what it remembers of the
-- others.
pub mod Memory
use herdr_connect.Common.{
  Text, ◌is◌, Assoc, lookup, insert, Bool, Option, none, some, List, [], ◌∷◌, any, if◌then◌else◌,
}
use herdr_connect.Paired.{truthy}
use herdr_connect.AgentList.{AgentListFilter, no_filter}

-- navigation.ts
pub data SidebarDestination : Type 0 where
  agents settings : SidebarDestination

pub record InstanceUiSnapshot : Type 0 where
  pub destination : SidebarDestination
  pub selected_agent_id : Option Text
  pub agent_filter : AgentListFilter

abbrev pub default_instance_ui_snapshot : InstanceUiSnapshot
default_instance_ui_snapshot = record {
  destination = agents;
  selected_agent_id = none;
  agent_filter = no_filter;
}

-- The three fields that are shown are one snapshot, `shown`.
pub record InstanceUiState : Type 0 where
  pub map : Assoc InstanceUiSnapshot
  pub shown : InstanceUiSnapshot

abbrev pub initial_instance_ui_state : InstanceUiState
initial_instance_ui_state = record { map = []; shown = default_instance_ui_snapshot }

pub data InstanceUiAction : Type 0 where
  destination : SidebarDestination → InstanceUiAction
  selected_agent : Option Text → InstanceUiAction
  agent_filter : AgentListFilter → InstanceUiAction
  focus_switch : Option Text → Option Text → InstanceUiAction
  prune : List Text → InstanceUiAction

abbrev pub or_default : Option InstanceUiSnapshot → InstanceUiSnapshot
or_default none = default_instance_ui_snapshot
or_default (some snapshot) = snapshot

abbrev pub remembered : Assoc InstanceUiSnapshot → Option Text → InstanceUiSnapshot
remembered m none = default_instance_ui_snapshot
remembered m (some fp) = or_default (lookup fp m)

unfoldable pub resolve_instance_ui_state :
    Assoc InstanceUiSnapshot → Option Text → InstanceUiSnapshot
unfolding lookup
resolve_instance_ui_state m fp = remembered m (truthy fp)

abbrev pub remember :
    Option Text → InstanceUiSnapshot → Assoc InstanceUiSnapshot → Assoc InstanceUiSnapshot
remember none snapshot m = m
remember (some fp) snapshot m = insert fp snapshot m

-- The loop of the action `prune`.
unfoldable pub keep_live : List Text → Assoc InstanceUiSnapshot → Assoc InstanceUiSnapshot
keep_live live [] = []
keep_live live ((fp, snapshot) ∷ m) =
    let rest = keep_live live m in if any (λ x. x is fp) live then (fp, snapshot) ∷ rest else rest

unfoldable pub instance_ui_reducer : InstanceUiState → InstanceUiAction → InstanceUiState
unfolding resolve_instance_ui_state keep_live insert
instance_ui_reducer s (destination d) = record s { shown = record s.shown { destination = d } }
instance_ui_reducer s (selected_agent id) = record s {
  shown = record s.shown { selected_agent_id = id };
}
instance_ui_reducer s (agent_filter f) = record s { shown = record s.shown { agent_filter = f } }
instance_ui_reducer s (focus_switch previous next) =
    let m = remember (truthy previous) s.shown s.map in
    record { map = m; shown = resolve_instance_ui_state m next }
instance_ui_reducer s (prune live) = record s { map = keep_live live s.map }
