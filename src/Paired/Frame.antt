-- ===== src/Paired/Frame.antt =====
-- The model of paired instances as a finite map from fingerprints to credentials, and the choice
-- of the active instance.
use mathlib.Core.Option.{get_or}
use herdr_connect.Common.{
  ◌>>=◌, Assoc, lookup-In-values as lookup-In-values_of, ◌≡◌, refl, Text, ◌is◌, In, lookup, values,
  lookup-insert, lookup-delete, if◌then◌else◌, ◌⊎◌, inl, inr, Option, none, some, Option-cases,
  List, [], ◌∷◌, ℤ, arith,
}
use herdr_connect.Paired.{
  DeviceCredentials, PairedInstancesModel, after, truthy, upsert_instance, set_active_instance,
  migrate_legacy_credentials, most_recent_of, most_recent_instance, remove_instance,
  resolve_active_instance, Op, upsert, remove, set_active, migrate, apply,
}
use herdr_connect.Paired.Invariant.{IsValid, most_recent_of-In, lookup-In-values}

-- What an operation makes of the entry at a fingerprint.
abbrev pub entry_after : Op → Text → Option DeviceCredentials → Option DeviceCredentials
entry_after (upsert c activate) fp old = if c.fingerprint is fp then some c else old
entry_after (remove gone) fp old = if gone is fp then none else old
entry_after (set_active _) fp old = old
entry_after (migrate c) fp old = if c.fingerprint is fp then some (get_or old c) else old

module _ (date_parse : Text → Option ℤ) where
  lookup-remove :
      (m : PairedInstancesModel) (gone fp : Text)
      → lookup fp (after m (remove_instance date_parse m gone)).instances
        ≡ (if gone is fp then none else lookup fp m.instances)
  unfolding remove_instance
  lookup-remove m gone fp = ground (arith, lookup-delete gone fp m.instances)

  lookup-migrate :
      (m : PairedInstancesModel) (c : DeviceCredentials) (fp : Text)
      → lookup fp (after m (migrate_legacy_credentials m c)).instances
        ≡ entry_after (migrate c) fp (lookup fp m.instances)
  unfolding migrate_legacy_credentials
  lookup-migrate m c fp = ground (arith, lookup-insert c.fingerprint fp c m.instances)

  -- Each operation changes the entry of its own fingerprint only, and as the abstract map does.
  pub lookup-apply :
      (m : PairedInstancesModel) (op : Op) (fp : Text)
      → lookup fp (apply date_parse m op).instances ≡ entry_after op fp (lookup fp m.instances)
  unfolding apply
  lookup-apply m (upsert c activate) fp =
      unfold upsert_instance in lookup-insert c.fingerprint fp c m.instances
  lookup-apply m (remove gone) fp = lookup-remove m gone fp
  lookup-apply m (set_active chosen) fp = unfold set_active_instance in ground arith
  lookup-apply m (migrate c) fp = lookup-migrate m c fp

  abbrev pointed : PairedInstancesModel → Option DeviceCredentials
  pointed m = truthy m.active_fingerprint >>= λ fp. lookup fp m.instances

  pointed-In :
      (o : Option Text) (m : Assoc DeviceCredentials) (c : DeviceCredentials)
      → (truthy o >>= λ fp. lookup fp m) ≡ some c
      → In c (values m)
  pointed-In none m c h = cc
  pointed-In (some []) m c h = cc
  pointed-In (some (x ∷ s)) m c h = lookup-In-values_of (x ∷ s) m c h

  most_recent_of-none :
      (vs : List DeviceCredentials) → most_recent_of date_parse vs ≡ none → vs ≡ []
  unfolding most_recent_of
  most_recent_of-none [] h = refl
  most_recent_of-none (c ∷ cs) h = cc

  -- In a valid model, the instance that the app treats as active is an entry of the model, and there
  -- is one unless the model is empty.
  pub resolve_active_instance-In :
      (m : PairedInstancesModel)
      → IsValid m
      → ((resolve_active_instance date_parse m ≡ none) × (values m.instances ≡ []))
        ⊎ ((c : DeviceCredentials) × (resolve_active_instance date_parse m ≡ some c)
            × (lookup c.fingerprint m.instances ≡ some c))
  unfolding resolve_active_instance most_recent_instance
  resolve_active_instance-In m v = elim (Option-cases (pointed m)) [
    | inl e ↦ rw (e, resolve_active_instance) recent
    | inr (c, e) ↦ inr (
      c,
      rw (e, resolve_active_instance) refl,
      entry c (pointed-In m.active_fingerprint m.instances c e),
    )
  ]
    where
      entry :
          (c : DeviceCredentials)
          → In c (values m.instances)
          → lookup c.fingerprint m.instances ≡ some c
      entry c i = lookup-In-values c m.instances v.keyed v.distinct i

      recent :
          ((most_recent_of date_parse (values m.instances) ≡ none) × (values m.instances ≡ []))
          ⊎ ((c : DeviceCredentials) × (most_recent_of date_parse (values m.instances) ≡ some c)
              × (lookup c.fingerprint m.instances ≡ some c))
      recent = elim (Option-cases (most_recent_of date_parse (values m.instances))) [
        | inl e ↦ inl (e, most_recent_of-none _ e)
        | inr (c, e) ↦ inr (c, e, entry c (most_recent_of-In date_parse _ c e))
      ]
