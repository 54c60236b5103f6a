-- ===== src/Notifications.antt =====
-- notifications/doneDetection.ts: which agents have just finished, and which work again.
pub mod Transitions
pub mod Chime
use herdr_connect.Common.{
  Text, Assoc, lookup, insert, Bool, true, false, not, ◌&&◌, Option, none, some, List, [], ◌∷◌,
  if◌then◌else◌,
}
use herdr_connect.Agents.{Agent, InteractionState}

abbrev pub is_active_state : InteractionState → Bool
is_active_state InteractionState.working = true
is_active_state InteractionState.blocked = true
is_active_state InteractionState.ready_input = false
is_active_state InteractionState.unknown = false

abbrev pub is_active : Agent → Bool
is_active a = is_active_state a.interaction_state

-- The loop of `indexAgents`.
unfoldable pub index_all : List Agent → Assoc Agent → Assoc Agent
unfolding insert
index_all [] m = m
index_all (a ∷ agents) m = index_all agents (insert a.source_id a m)

unfoldable pub index_agents : List Agent → Assoc Agent
unfolding index_all
index_agents agents = index_all agents []

abbrev pub left_active : Option Agent → Agent → Bool
left_active none a = false
left_active (some previous) a = is_active previous && not (is_active a)

abbrev pub became_active : Option Agent → Agent → Bool
became_active none a = false
became_active (some previous) a = not (is_active previous) && is_active a

unfoldable pub detect_newly_completed : Assoc Agent → List Agent → List Agent
unfolding lookup
detect_newly_completed prev [] = []
detect_newly_completed prev (a ∷ agents) =
    let rest = detect_newly_completed prev agents in
    if left_active (lookup a.source_id prev) a then a ∷ rest else rest

unfoldable pub detect_newly_active : Assoc Agent → List Agent → List Agent
unfolding lookup
detect_newly_active prev [] = []
detect_newly_active prev (a ∷ agents) =
    let rest = detect_newly_active prev agents in
    if became_active (lookup a.source_id prev) a then a ∷ rest else rest
