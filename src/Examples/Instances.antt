-- ===== src/Examples/Instances.antt =====
-- Examples on the paired instances, the Keychain and the session set.
use herdr_connect.Common.{
  arith, ◌≡◌, refl, sym, subst, Assoc, Distinct, text, Text, lookup, true, none, some, List, [],
  ◌∷◌, inl, All, Text-discrete, ℕ_discrete, keys,
}
use herdr_connect.Paired.{remove, apply}
use herdr_connect.Paired.Invariant.{IsValid, apply-IsValid}
use herdr_connect.Paired.Frame.{entry_after, lookup-apply}
use herdr_connect.Keychain.{
  Store, parse_index, plan_keychain_writes, visited, read_model, write_model, load_paired_instances,
}
use herdr_connect.Keychain.Orphans.{NoOrphan, write-NoOrphan}
use herdr_connect.Keychain.RoundTrip.{IsSound, Encodes, read-write}
use herdr_connect.Keychain.Migration.{read_model-IsValid, load_paired_instances-settles}
use herdr_connect.Registry.{wanted}
use herdr_connect.Registry.{sync_sessions}
use herdr_connect.Registry.Replaced.{IsSettled, sync_sessions-IsSettled}
use herdr_connect.Registry.Foreground.{Life, last_decisive}
use herdr_connect.Agents.{AgentsResponse}
use herdr_connect.Examples.Lists.{busy}
use herdr_connect.Examples.{
  no_agents, desk, attic_again, one_instance, two_instances, digit_date, desk_json,
}

two_instances-IsValid : IsValid two_instances
unfolding Text-discrete ℕ_discrete
two_instances-IsValid = record {
  distinct = ((λ h. ground arith), ((λ h. h), tt));
  keyed = (refl, (refl, tt));
  active = inl refl;
}

one_instance-IsSound : IsSound one_instance
one_instance-IsSound = record {
  valid = record { distinct = ((λ h. h), tt); keyed = (refl, tt); active = inl refl };
  names = (refl, tt);
  storable = (record { fingerprint = refl; token = refl; pinned = tt }, tt);
}

one_instance-Encodes : Encodes desk_json one_instance
unfolding Text-discrete ℕ_discrete
one_instance-Encodes = record { blank = refl; index = refl; records = (refl, tt) }

abbrev empty_store : Store
empty_store = record { index = none; active = none; legacy = none; records = [] }

-- The store of an app from before there were several instances.
abbrev legacy_store : Store
legacy_store = record empty_store { legacy = some (text "desk") }

loaded : (load_paired_instances desk_json legacy_store).1 ≡ one_instance
unfolding load_paired_instances Text-discrete ℕ_discrete
loaded = refl

sync_sessions-IsSettled_example :
    ((fp : Text)
      → IsSettled
          (wanted (desk ∷ attic_again ∷ []) fp)
          (lookup fp two_instances.instances)
          (lookup fp (sync_sessions (desk ∷ attic_again ∷ []) two_instances.instances).sessions))
    × ((sync_sessions (desk ∷ attic_again ∷ []) two_instances.instances).out_of_reach ≡ [])
sync_sessions-IsSettled_example =
    sync_sessions-IsSettled (desk ∷ attic_again ∷ []) two_instances.instances
      two_instances-IsValid.distinct two_instances-IsValid.distinct

write-NoOrphan_example : All (NoOrphan desk_json) (
    visited desk_json one_instance empty_store
      (plan_keychain_writes (parse_index desk_json empty_store.index) one_instance))
write-NoOrphan_example =
    write-NoOrphan desk_json empty_store one_instance one_instance-Encodes.blank
      one_instance-Encodes.index one_instance-IsSound.names (λ fp h. absurd h)

read-write_example :
    read_model desk_json (write_model desk_json empty_store one_instance) ≡ one_instance
read-write_example =
    read-write desk_json empty_store one_instance one_instance-IsSound one_instance-Encodes

load_paired_instances-settles_example :
    load_paired_instances desk_json (load_paired_instances desk_json legacy_store).0
    ≡ load_paired_instances desk_json legacy_store
load_paired_instances-settles_example =
    load_paired_instances-settles desk_json legacy_store
      (subst IsSound (sym loaded) one_instance-IsSound)
      (subst (Encodes desk_json) (sym loaded) one_instance-Encodes)

apply-IsValid_example : IsValid (apply digit_date two_instances (remove (text "a1")))
apply-IsValid_example =
    apply-IsValid digit_date two_instances (remove (text "a1")) two_instances-IsValid

lookup-apply_example :
    lookup (text "b2") (apply digit_date two_instances (remove (text "a1"))).instances
    ≡ entry_after (remove (text "a1")) (text "b2") (lookup (text "b2") two_instances.instances)
lookup-apply_example = lookup-apply digit_date two_instances (remove (text "a1")) (text "b2")

read_model-IsValid_example : IsValid (read_model desk_json legacy_store)
read_model-IsValid_example = read_model-IsValid desk_json legacy_store

abbrev in_front : Life
in_front = record { app_state = text "active"; running = true; restarts = 0 }

abbrev comes_and_goes : List Text
comes_and_goes =
    text "inactive" ∷ text "background" ∷ text "inactive" ∷ text "active" ∷ text "inactive" ∷ []

-- The sessions run again, and the discovery was restarted once.
restarted_once : last_decisive comes_and_goes ≡ some true
unfolding Text-discrete ℕ_discrete
restarted_once = refl

abbrev two_phases : Assoc Text
two_phases = (text "a1", text "failed") ∷ (text "b2", text "connected") ∷ []

two_phases-Distinct : Distinct (keys two_phases)
unfolding Text-discrete ℕ_discrete
two_phases-Distinct = ((λ h. ground arith), ((λ h. h), tt))

abbrev one_agent : AgentsResponse
one_agent = record no_agents { agents = busy ∷ [] }
