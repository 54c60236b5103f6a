-- ===== src/AgentList/Workspaces.antt =====
-- agent-filter.ts: the workspaces that the filter offers, with their counts.
use herdr_connect.Common.{
  lookup-entry, In-lookup, ◌<◌, sort, sort-In, In-sort, ℕ, suc, ◌+◌, ◌≡◌, refl, sym, ap, ◌∙◌, Text,
  ◌is◌, In, Assoc, lookup, insert, keys, lookup-insert, insert-Distinct, Distinct, inl, inr, List,
  [], ◌∷◌, map, arith, if◌then◌else◌,
}
use herdr_connect.Agents.{Agent}
use herdr_connect.AgentList.{
  WorkspaceOption, option_of, option_before, enumerate_workspace_options, workspace_key_for,
  or_zero, workspace_counts,
}

-- How many agents work in a workspace.
abbrev pub agents_in : Text → List Agent → ℕ
agents_in key [] = 0
agents_in key (a ∷ agents) =
    if workspace_key_for a is key then suc (agents_in key agents) else agents_in key agents

workspace_counts-lookup_lem :
    (agents : List Agent) (counts : Assoc ℕ) (key : Text)
    → or_zero (lookup key (workspace_counts agents counts))
      ≡ or_zero (lookup key counts) + agents_in key agents
unfolding workspace_counts
workspace_counts-lookup_lem [] counts key = omega arith
workspace_counts-lookup_lem (a ∷ agents) counts key = ground (
  arith,
  workspace_counts-lookup_lem agents
      (insert (workspace_key_for a) (or_zero (lookup (workspace_key_for a) counts) + 1) counts) key,
  lookup-insert (workspace_key_for a) key (or_zero (lookup (workspace_key_for a) counts) + 1)
      counts,
)

workspace_counts-Distinct :
    (agents : List Agent) (counts : Assoc ℕ)
    → Distinct (keys counts)
    → Distinct (keys (workspace_counts agents counts))
unfolding workspace_counts
workspace_counts-Distinct [] counts d = d
workspace_counts-Distinct (a ∷ agents) counts d = workspace_counts-Distinct agents _ (
    insert-Distinct (workspace_key_for a) (or_zero (lookup (workspace_key_for a) counts) + 1) counts
      d)

In-options :
    (o : WorkspaceOption) (m : Assoc ℕ)
    → In o (map option_of m)
    → (e : Text × ℕ) × (o ≡ option_of e) × In e m
In-options o [] h = absurd h
In-options o (e ∷ m) (inl h) = (e, h, inl refl)
In-options o (e ∷ m) (inr h) = let (d, p, i) = In-options o m h in (d, p, inr i)

keys-options :
    (key : Text) (m : Assoc ℕ)
    → In key (keys m)
    → (o : WorkspaceOption) × (o.key ≡ key) × In o (map option_of m)
keys-options key [] h = absurd h
keys-options key ((k, n) ∷ m) (inl h) = (option_of (k, n), sym h, inl refl)
keys-options key ((k, n) ∷ m) (inr h) = let (o, p, i) = keys-options key m h in (o, p, inr i)

counted :
    (agents : List Agent) (key : Text) (n : ℕ)
    → In (key, n) (workspace_counts agents [])
    → n ≡ agents_in key agents
unfolding lookup
counted agents key n i =
    let found =
      lookup-entry key n (workspace_counts agents []) (workspace_counts-Distinct agents [] tt) i in
    omega (arith, ap or_zero (sym found) ∙ workspace_counts-lookup_lem agents [] key)

counted-keys :
    (agents : List Agent) (key : Text)
    → 0 < agents_in key agents
    → In key (keys (workspace_counts agents []))
unfolding lookup
counted-keys agents key h =
    In-lookup key (workspace_counts agents [])
      (ground (arith, workspace_counts-lookup_lem agents [] key))

-- The options have the right counts, over all agents, and each workspace with an agent is offered.
pub enumerate_workspace_options-count :
    (agents : List Agent)
    → ((o : WorkspaceOption)
        → In o (enumerate_workspace_options agents)
        → o.count ≡ agents_in o.key agents)
      × ((key : Text)
          → 0 < agents_in key agents
          → (o : WorkspaceOption) × (o.key ≡ key) × In o (enumerate_workspace_options agents))
unfolding enumerate_workspace_options
enumerate_workspace_options-count agents = (right, offered)
  where
    right :
        (o : WorkspaceOption)
        → In o (sort option_before (map option_of (workspace_counts agents [])))
        → o.count ≡ agents_in o.key agents
    right o i =
        let (e, p, j) =
          In-options o (workspace_counts agents [])
            (sort-In option_before o (map option_of (workspace_counts agents [])) i) in
        ap (λ x. x.count) p
        ∙ counted agents e.0 e.1 j
        ∙ ap (λ (x : WorkspaceOption). agents_in x.key agents) (sym p)

    offered :
        (key : Text)
        → 0 < agents_in key agents
        → (o : WorkspaceOption) × (o.key ≡ key)
          × In o (sort option_before (map option_of (workspace_counts agents [])))
    offered key h =
        let (o, p, i) = keys-options key (workspace_counts agents []) (counted-keys agents key h) in
        (o, p, In-sort option_before o (map option_of (workspace_counts agents [])) i)
