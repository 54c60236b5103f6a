-- ===== src/AgentList/Filtering.antt =====
-- agent-filter.ts: which agents the list shows.
use herdr_connect.Common.{
  fun_ext, ◌≡◌, refl, sym, ap, Text, Bool, true, false, not, ◌&&◌, List, [], ◌∷◌, select, arith,
  if◌then◌else◌,
}
use herdr_connect.Agents.{Agent}
use herdr_connect.AgentList.{
  AgentListFilter, is_filter_active, matches_filter, filter_agents, status_group_for,
  workspace_key_for, is_chosen, includes,
}

-- Nothing chosen, or one of the chosen.
abbrev pub is_open {ℓ} : {A : Type ℓ} → List A → Bool → Bool
is_open [] hit = true
is_open (x ∷ xs) hit = hit

-- The three dimensions of the filter.
abbrev pub meets_status : AgentListFilter → List Text → Agent → Bool
meets_status f finished a =
    is_open f.status_groups
      (is_chosen f.status_groups (status_group_for a (includes finished a.source_id)))

abbrev pub meets_workspace : AgentListFilter → Agent → Bool
meets_workspace f a = is_open f.workspaces (includes f.workspaces (workspace_key_for a))

abbrev pub meets_favorites : AgentListFilter → List Text → Agent → Bool
meets_favorites f favorites a = if f.favorites_only then includes favorites a.source_id else true

-- In every dimension.
abbrev pub meets : AgentListFilter → List Text → List Text → Agent → Bool
meets f finished favorites a =
    meets_status f finished a && meets_workspace f a && meets_favorites f favorites a

matches_filter-meets :
    (a : Agent) (finished : List Text) (f : AgentListFilter) (favorites : List Text)
    → matches_filter a (includes finished a.source_id) f favorites ≡ meets f finished favorites a
unfolding matches_filter
matches_filter-meets a finished f favorites = ground arith

inactive-meets :
    (a : Agent) (finished : List Text) (f : AgentListFilter) (favorites : List Text)
    → is_filter_active f ≡ false
    → meets f finished favorites a ≡ true
unfolding is_filter_active
inactive-meets a finished f favorites h = ground arith

select-all : {A : Type 0} (p : A → Bool) (xs : List A) → ((a : A) → p a ≡ true) → select p xs ≡ xs
select-all p [] h = refl
select-all p (x ∷ xs) h = rw (h x) (ap (◌∷◌ x) (select-all p xs h))

-- The list shows, in their order, exactly the agents that meet the filter in each of its three
-- dimensions: in a dimension with a choice the agent is one of the chosen, in another one any is.
pub filter_agents-select :
    (agents : List Agent) (finished : List Text) (f : AgentListFilter) (favorites : List Text)
    → filter_agents agents finished f favorites ≡ select (meets f finished favorites) agents
unfolding filter_agents
filter_agents-select agents finished f favorites = by_activity (is_filter_active f) refl
  where
    by_activity :
        (b : Bool)
        → is_filter_active f ≡ b
        → (if not b
            then agents
            else select (λ a. matches_filter a (includes finished a.source_id) f favorites) agents)
          ≡ select (meets f finished favorites) agents
    by_activity false e = sym (
        select-all (meets f finished favorites) agents
          (λ a. inactive-meets a finished f favorites e))
    by_activity true e =
        ap (λ p. select p agents) (fun_ext (λ a. matches_filter-meets a finished f favorites))
