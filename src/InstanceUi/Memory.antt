-- ===== src/InstanceUi/Memory.antt =====
-- instance-ui-state.ts: changing the focus and coming back.
use herdr_connect.Common.{
  ◌≡◌, ◌≢◌, refl, ap, ◌∙◌, Text, ◌is◌, is_empty, Assoc, lookup, insert, lookup-insert, false,
  Option, none, some, List, [], ◌∷◌, any, All, arith, if◌then◌else◌,
}
use herdr_connect.InstanceUi.{
  InstanceUiSnapshot, InstanceUiState, InstanceUiAction, destination, selected_agent, agent_filter,
  focus_switch, prune, or_default, remembered, remember, resolve_instance_ui_state, keep_live,
  instance_ui_reducer,
}

abbrev pub reduce_ui : InstanceUiState → List InstanceUiAction → InstanceUiState
reduce_ui s [] = s
reduce_ui s (action ∷ actions) = reduce_ui (instance_ui_reducer s action) actions

-- An action on the screen of the instance in focus.
abbrev pub OnScreen : InstanceUiAction → Type 0
OnScreen (focus_switch previous next) = ⊥
OnScreen (prune live) = ⊥
OnScreen _ = Unit

reduce_ui-map :
    (s : InstanceUiState) (actions : List InstanceUiAction)
    → All OnScreen actions
    → (reduce_ui s actions).map ≡ s.map
unfolding instance_ui_reducer
reduce_ui-map s [] h = refl
reduce_ui-map s (destination d ∷ actions) (_, h) =
    reduce_ui-map (instance_ui_reducer s (destination d)) actions h
reduce_ui-map s (selected_agent id ∷ actions) (_, h) =
    reduce_ui-map (instance_ui_reducer s (selected_agent id)) actions h
reduce_ui-map s (agent_filter f ∷ actions) (_, h) =
    reduce_ui-map (instance_ui_reducer s (agent_filter f)) actions h
reduce_ui-map s (focus_switch previous next ∷ actions) (h, _) = absurd h
reduce_ui-map s (prune live ∷ actions) (h, _) = absurd h

lookup-there_and_back :
    (fp other : Text) (shown later : InstanceUiSnapshot) (m : Assoc InstanceUiSnapshot)
    → fp ≢ other
    → lookup fp (insert other later (insert fp shown m)) ≡ some shown
lookup-there_and_back fp other shown later m h =
    ground (arith, lookup-insert other fp later (insert fp shown m), lookup-insert fp fp shown m)

switched-map :
    (s : InstanceUiState) (fp : Text) (next : Option Text)
    → is_empty fp ≡ false
    → (instance_ui_reducer s (focus_switch (some fp) next)).map ≡ insert fp s.shown s.map
unfolding instance_ui_reducer
switched-map s fp next p = rw (p, remember) refl

resolve-some :
    (m : Assoc InstanceUiSnapshot) (fp : Text)
    → is_empty fp ≡ false
    → resolve_instance_ui_state m (some fp) ≡ or_default (lookup fp m)
unfolding resolve_instance_ui_state
resolve-some m fp p = rw (p, remembered) refl

switched-shown :
    (s : InstanceUiState) (fp other : Text)
    → is_empty fp ≡ false
    → is_empty other ≡ false
    → (instance_ui_reducer s (focus_switch (some other) (some fp))).shown
      ≡ or_default (lookup fp (insert other s.shown s.map))
unfolding instance_ui_reducer
switched-shown s fp other p q = rw (q, remember) (resolve-some (insert other s.shown s.map) fp p)

-- When the focus goes from one instance to another and, after any actions on the other's screen,
-- back again, what was shown before is shown again, if the two differ and the fingerprints are not
-- empty.
pub reduce_ui-there_and_back :
    (s : InstanceUiState) (fp other : Text) (actions : List InstanceUiAction)
    → is_empty fp ≡ false
    → is_empty other ≡ false
    → fp ≢ other
    → All OnScreen actions
    → (instance_ui_reducer
        (reduce_ui (instance_ui_reducer s (focus_switch (some fp) (some other))) actions)
        (focus_switch (some other) (some fp))).shown
      ≡ s.shown
reduce_ui-there_and_back s fp other actions p q h screen =
    let away = instance_ui_reducer s (focus_switch (some fp) (some other)) in
    let later = reduce_ui away actions in
    let kept : later.map ≡ insert fp s.shown s.map =
      reduce_ui-map away actions screen ∙ switched-map s fp (some other) p in
    switched-shown later fp other p q
    ∙ ap (λ m. or_default (lookup fp (insert other later.shown m))) kept
    ∙ ap or_default (lookup-there_and_back fp other s.shown later.shown s.map h)

lookup-keep_live :
    (live : List Text) (m : Assoc InstanceUiSnapshot) (fp : Text)
    → lookup fp (keep_live live m) ≡ (if any (λ x. x is fp) live then lookup fp m else none)
unfolding keep_live lookup
lookup-keep_live live [] fp = ground arith
lookup-keep_live live ((k, v) ∷ m) fp = ground (arith, lookup-keep_live live m fp)

-- Pruning forgets exactly the instances that are gone, and does not change what is shown.
pub prune-lookup :
    (s : InstanceUiState) (live : List Text) (fp : Text)
    → (lookup fp (instance_ui_reducer s (prune live)).map
        ≡ (if any (λ x. x is fp) live then lookup fp s.map else none))
      × ((instance_ui_reducer s (prune live)).shown ≡ s.shown)
unfolding instance_ui_reducer
prune-lookup s live fp = (lookup-keep_live live s.map fp, refl)
