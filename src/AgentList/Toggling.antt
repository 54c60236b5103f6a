-- ===== src/AgentList/Toggling.antt =====
-- agent-filter.ts: choosing a group or a workspace.
use herdr_connect.Common.{
  refl, ap, sym, ◌∙◌, length, select, Bool, ◌==◌, true, false, ◌≡◌, Text, ◌is◌, not, ◌&&◌, ◌||◌,
  List, [], ◌∷◌, ◌++◌, arith, if◌then◌else◌, length-select-le,
}
use herdr_connect.AgentList.{
  AgentListFilter, AgentStatusGroup, status_groups, same_group, includes, includes_group,
  toggled_groups, toggle_status_group, toggle_workspace, prune_workspaces,
}

includes-append :
    (xs ys : List Text) (t : Text) → includes (xs ++ ys) t ≡ (includes xs t || includes ys t)
includes-append [] ys t = refl
includes-append (x ∷ xs) ys t = ground (arith, includes-append xs ys t)

includes-without :
    (xs : List Text) (key t : Text)
    → includes (select (λ c. not (c is key)) xs) t ≡ (includes xs t && not (t is key))
includes-without [] key t = refl
includes-without (x ∷ xs) key t = ground (arith, includes-without xs key t)

-- Toggling a workspace turns the choice of that workspace and keeps every other choice.
pub toggle_workspace-includes :
    (f : AgentListFilter) (key t : Text)
    → includes (toggle_workspace f key).workspaces t
      ≡ (if t is key then not (includes f.workspaces t) else includes f.workspaces t)
unfolding toggle_workspace
toggle_workspace-includes f key t =
    ground (arith, includes-append f.workspaces (key ∷ []) t, includes-without f.workspaces key t)

includes_group-append :
    (xs ys : List AgentStatusGroup) (g : AgentStatusGroup)
    → includes_group (xs ++ ys) g ≡ (includes_group xs g || includes_group ys g)
includes_group-append [] ys g = refl
includes_group-append (x ∷ xs) ys g = ground (arith, includes_group-append xs ys g)

same_group-eq : (g h : AgentStatusGroup) → same_group g h ≡ true → g ≡ h
same_group-eq g h e = ground arith

same_group_refl : (g : AgentStatusGroup) → same_group g g ≡ true
same_group_refl g = ground arith

includes_group-without :
    (xs : List AgentStatusGroup) (h g : AgentStatusGroup)
    → includes_group (select (λ c. not (same_group c h)) xs) g
      ≡ (includes_group xs g && not (same_group g h))
includes_group-without [] h g = refl
includes_group-without (x ∷ xs) h g =
    ground (
      arith,
      includes_group-without xs h g,
      same_group-eq x g,
      same_group-eq x h,
      same_group_refl x,
    )

-- The list in the fixed order has the groups that the other one has.
includes_group-ordered :
    (p : AgentStatusGroup → Bool) (g : AgentStatusGroup)
    → includes_group (select p status_groups) g ≡ p g
includes_group-ordered p AgentStatusGroup.working = ground arith
includes_group-ordered p AgentStatusGroup.needs_me = ground arith
includes_group-ordered p AgentStatusGroup.completed = ground arith
includes_group-ordered p AgentStatusGroup.failed = ground arith

-- Toggling a group turns the choice of that group and keeps every other choice.
pub toggle_status_group-includes :
    (f : AgentListFilter) (h g : AgentStatusGroup)
    → includes_group (toggle_status_group f h).status_groups g ≡ (
        if same_group g h
        then not (includes_group f.status_groups g)
        else includes_group f.status_groups g)
unfolding toggle_status_group
toggle_status_group-includes f h g =
    includes_group-ordered (λ c. includes_group (toggled_groups f.status_groups h) c) g
    ∙ ground (
      arith,
      includes_group-append f.status_groups (h ∷ []) g,
      includes_group-without f.status_groups h g,
      same_group-eq g h,
      same_group-eq h g,
      same_group_refl g,
    )

select-full :
    {A : Type 0} (p : A → Bool) (xs : List A) → length (select p xs) ≡ length xs → select p xs ≡ xs
select-full p [] h = refl
select-full p (x ∷ xs) h = ground (arith, select-full p xs, length-select-le p xs)

-- Pruning keeps, in their order, exactly the chosen workspaces that are still there, and nothing
-- else of the filter changes.
pub prune_workspaces-select :
    (f : AgentListFilter) (live : List Text)
    → prune_workspaces f live
      ≡ record f { workspaces = select (λ key. includes live key) f.workspaces }
unfolding prune_workspaces
prune_workspaces-select f live =
    let kept = select (λ key. includes live key) f.workspaces in
    pruned (length f.workspaces == 0) (length kept == length f.workspaces)
      (λ e.
        select-full (λ key. includes live key) f.workspaces
          (ground (arith, length-select-le (λ (key : Text). includes live key) f.workspaces)))
      (λ e. select-full (λ key. includes live key) f.workspaces (ground arith))
  where
    pruned :
        (b c : Bool)
        → (b ≡ true → select (λ key. includes live key) f.workspaces ≡ f.workspaces)
        → (c ≡ true → select (λ key. includes live key) f.workspaces ≡ f.workspaces)
        → (if b
            then f
            else if c
            then f
            else record f { workspaces = select (λ key. includes live key) f.workspaces })
          ≡ record f { workspaces = select (λ key. includes live key) f.workspaces }
    pruned true c h k = ap (λ w. record f { workspaces = w }) (sym (h refl))
    pruned false true h k = ap (λ w. record f { workspaces = w }) (sym (k refl))
    pruned false false h k = refl
