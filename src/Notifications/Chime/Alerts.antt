-- ===== src/Notifications/Chime/Alerts.antt =====
-- notifications/DoneSoundProvider.tsx: which agents are announced, and how.
use herdr_connect.Common.{
  sym, lookup, select, ◌≡◌, refl, ap, ◌∙◌, Text, ◌is◌, Assoc, Bool, true, false, not, ◌&&◌, Option,
  none, some, List, [], ◌∷◌, ◌++◌, map, arith, if◌then◌else◌,
}
use herdr_connect.Agents.{Agent}
use herdr_connect.Notifications.{left_active, became_active, detect_newly_completed}
use herdr_connect.Notifications.Transitions.{
  detect_newly_completed-select, detect_newly_active-select,
}
use herdr_connect.Notifications.Chime.{
  SoundPreferences, Effect, clear_completed, mark_completed, haptic, completion_sound, banner_of,
  current_source_id, audible_of, alerts, announce, agents_of, on_state,
}

-- Whether the agent is the one on the screen, where that one is not announced.
abbrev pub is_muted : Bool → Option Text → Agent → Bool
is_muted false (some (c ∷ id)) a = a.source_id is (c ∷ id)
is_muted _ _ a = false

-- The agents that have left an active state since the snapshot before, and are not muted.
abbrev pub announced : SoundPreferences → Option Text → Assoc Agent → List Agent → List Agent
announced p current previous agents =
    select
      (λ a.
        left_active (lookup a.source_id previous) a
        && not (is_muted p.notify_while_viewing current a))
      agents

-- One banner for each, one haptic and one sound for all of them.
abbrev pub signals : SoundPreferences → List Agent → List Effect
signals p [] = []
signals p (a ∷ xs) =
    (if p.local_notifications_enabled then map banner_of (a ∷ xs) ++ (haptic ∷ []) else [])
    ++ (if p.enabled then completion_sound ∷ [] else [])

abbrev prefs : Bool → Bool → Bool → SoundPreferences
prefs e v l = record { enabled = e; notify_while_viewing = v; local_notifications_enabled = l }

signals-silent : (v : Bool) (xs : List Agent) → signals (prefs false v false) xs ≡ []
signals-silent v [] = refl
signals-silent v (a ∷ xs) = refl

alerts-signals : (p : SoundPreferences) (xs : List Agent) → alerts p xs ≡ signals p xs
alerts-signals p [] = refl
alerts-signals p (a ∷ xs) = refl

unless_silent :
    (e v l : Bool) (xs : List Agent)
    → (if not e && not l then [] else alerts (prefs e v l) xs) ≡ signals (prefs e v l) xs
unless_silent true v l xs = alerts-signals (prefs true v l) xs
unless_silent false v true xs = alerts-signals (prefs false v true) xs
unless_silent false v false xs = sym (signals-silent v xs)

audible_of-none : (v : Bool) (current : Option Text) → audible_of v current [] ≡ []
audible_of-none true current = refl
audible_of-none false none = refl
audible_of-none false (some []) = refl
audible_of-none false (some (c ∷ id)) = refl

announce-signals :
    (p : SoundPreferences) (current : Option Text) (newly_done : List Agent)
    → announce p current newly_done
      ≡ signals p (audible_of p.notify_while_viewing current newly_done)
announce-signals p current [] =
    sym (ap (signals p) (audible_of-none p.notify_while_viewing current))
announce-signals p current (a ∷ newly_done) =
    unless_silent p.enabled p.notify_while_viewing p.local_notifications_enabled
      (audible_of p.notify_while_viewing current (a ∷ newly_done))

select-all : (xs : List Agent) → xs ≡ select (λ a. not false) xs
select-all [] = refl
select-all (a ∷ xs) = ap (λ t. a ∷ t) (select-all xs)

audible_of-select :
    (v : Bool) (current : Option Text) (xs : List Agent)
    → audible_of v current xs ≡ select (λ a. not (is_muted v current a)) xs
audible_of-select true current xs = select-all xs
audible_of-select false none xs = select-all xs
audible_of-select false (some []) xs = select-all xs
audible_of-select false (some (c ∷ id)) xs = refl

select-select :
    (f g : Agent → Bool) (xs : List Agent) → select g (select f xs) ≡ select (λ a. f a && g a) xs
select-select f g [] = refl
select-select f g (a ∷ xs) = ground (arith, select-select f g xs)

audible_of-announced :
    (p : SoundPreferences) (current : Option Text) (previous : Assoc Agent) (agents : List Agent)
    → audible_of p.notify_while_viewing current (detect_newly_completed previous agents)
      ≡ announced p current previous agents
audible_of-announced p current previous agents =
    audible_of-select p.notify_while_viewing current (detect_newly_completed previous agents)
    ∙ ap (select (λ a. not (is_muted p.notify_while_viewing current a)))
        (detect_newly_completed-select previous agents)
    ∙ select-select (λ a. left_active (lookup a.source_id previous) a)
        (λ a. not (is_muted p.notify_while_viewing current a)) agents

-- A new state clears the badges of the agents that have become active and marks those that have left
-- an active state, whatever the preferences; and it announces exactly those of the latter that are
-- not on the screen, or all where that is preferred: by a banner each and one haptic where local
-- notifications are on, and by one sound where the sound is on, and by nothing if there is none.
pub effects-on_state :
    (p : SoundPreferences) (viewing routed : Option Text) (previous : Assoc Agent)
    (connected : Option (List Agent))
    → (on_state p viewing routed previous connected).effects ≡ (
        clear_completed (
          map
            (λ a. a.source_id)
            (select (λ a. became_active (lookup a.source_id previous) a) (agents_of connected)))
        ∷ mark_completed (
            map
              (λ a. a.source_id)
              (select (λ a. left_active (lookup a.source_id previous) a) (agents_of connected)))
        ∷ signals p (announced p (current_source_id viewing routed) previous (agents_of connected)))
unfolding on_state
effects-on_state p viewing routed previous connected =
    let agents = agents_of connected in
    let current = current_source_id viewing routed in
    rw
      (
        announce-signals p current (detect_newly_completed previous agents),
        audible_of-announced p current previous agents,
        detect_newly_completed-select previous agents,
        detect_newly_active-select previous agents,
      )
      refl
