-- ===== src/Notifications/Transitions.antt =====
-- notifications/doneDetection.ts: what a snapshot tells compared with the one before.
use herdr_connect.Common.{
  sym, select, In-select, select-In, ◌≡◌, refl, ap, ◌∙◌, Text, ◌is◌, In, Assoc, lookup, insert,
  lookup-insert, Bool, true, Option, none, some, List, [], ◌∷◌, arith, if◌then◌else◌,
}
use herdr_connect.Agents.{Agent}
use herdr_connect.Notifications.{
  index_all, index_agents, left_active, became_active, detect_newly_completed, detect_newly_active,
}

-- The last agent of the list that has the id.
abbrev pub last_with : Text → List Agent → Option Agent → Option Agent
last_with id [] found = found
last_with id (a ∷ agents) found = last_with id agents (if a.source_id is id then some a else found)

lookup-index_all :
    (agents : List Agent) (m : Assoc Agent) (id : Text)
    → lookup id (index_all agents m) ≡ last_with id agents (lookup id m)
unfolding index_all
lookup-index_all [] m id = refl
lookup-index_all (a ∷ agents) m id =
    lookup-index_all agents (insert a.source_id a m) id
    ∙ ap (last_with id agents) (lookup-insert a.source_id id a m)

pub detect_newly_completed-select :
    (prev : Assoc Agent) (agents : List Agent)
    → detect_newly_completed prev agents
      ≡ select (λ a. left_active (lookup a.source_id prev) a) agents
unfolding detect_newly_completed
detect_newly_completed-select prev [] = refl
detect_newly_completed-select prev (a ∷ agents) =
    rw (detect_newly_completed-select prev agents) refl

pub detect_newly_active-select :
    (prev : Assoc Agent) (agents : List Agent)
    → detect_newly_active prev agents
      ≡ select (λ a. became_active (lookup a.source_id prev) a) agents
unfolding detect_newly_active
detect_newly_active-select prev [] = refl
detect_newly_active-select prev (a ∷ agents) = rw (detect_newly_active-select prev agents) refl

lookup-index_agents :
    (agents : List Agent) (id : Text) → lookup id (index_agents agents) ≡ last_with id agents none
unfolding index_agents lookup
lookup-index_agents agents id = lookup-index_all agents [] id

-- What makes an agent newly completed, or newly active: it was there before, and which way it went.
abbrev pub Left : List Agent → Agent → Type 0
Left old a = left_active (last_with a.source_id old none) a ≡ true

abbrev pub Returned : List Agent → Agent → Type 0
Returned old a = became_active (last_with a.source_id old none) a ≡ true

-- Compared with the snapshot before, in which the last agent with an id counts, exactly those
-- agents have newly completed that were active and are not, and exactly those are newly active
-- that were not and are; an agent that was not there is neither, and none is both.
pub detect_newly-In :
    (old agents : List Agent) (a : Agent)
    → (In a (detect_newly_completed (index_agents old) agents) → In a agents × Left old a)
      × (In a agents → Left old a → In a (detect_newly_completed (index_agents old) agents))
      × (In a (detect_newly_active (index_agents old) agents) → In a agents × Returned old a)
      × (In a agents → Returned old a → In a (detect_newly_active (index_agents old) agents))
      × (¬ (Left old a × Returned old a))
detect_newly-In old agents a =
    rw
      (
        detect_newly_completed-select (index_agents old) agents,
        detect_newly_active-select (index_agents old) agents,
      )
      (
        (λ h.
            let (i, e) = select-In went a agents h in
            (i, ap (λ o. left_active o a) (sym same) ∙ e)),
        (λ i e. In-select went a agents i (ap (λ o. left_active o a) same ∙ e)),
        (λ h.
            let (i, e) = select-In came a agents h in
            (i, ap (λ o. became_active o a) (sym same) ∙ e)),
        (λ i e. In-select came a agents i (ap (λ o. became_active o a) same ∙ e)),
        (λ h. neither (last_with a.source_id old none) h.0 h.1),
      )
  where
    went : Agent → Bool
    went b = left_active (lookup b.source_id (index_agents old)) b

    came : Agent → Bool
    came b = became_active (lookup b.source_id (index_agents old)) b

    same : lookup a.source_id (index_agents old) ≡ last_with a.source_id old none
    same = lookup-index_agents old a.source_id

    neither : (o : Option Agent) → left_active o a ≡ true → became_active o a ≡ true → ⊥
    neither o h k = ground arith
