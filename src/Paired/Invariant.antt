-- ===== src/Paired/Invariant.antt =====
-- paired-instances.ts: the well-formedness of the model, and the operations on it.
use mathlib.Core.Option.{get_or}
use herdr_connect.Common.{
  ◌∙◌, ◌≡◌, refl, ap, subst, Text, In, Distinct, Assoc, lookup, insert, delete, keys, values,
  In-keys-insert, In-keys-delete, insert-Distinct, delete-Distinct, In-lookup, Bool, true, false,
  Bool-cases, not, ◌||◌, is_some, inl, inr, Option, none, some, Option-cases, List, [], ◌∷◌, ℤ,
  least-In, arith,
}
use herdr_connect.Paired.{
  Op, upsert, remove, set_active, migrate, apply, DeviceCredentials, PairedInstancesModel, after,
  upsert_instance, set_active_instance, migrate_legacy_credentials, more_recent,
  most_recent_instance, most_recent_of, pointer_after_remove, points_to, remove_instance,
}

-- Each entry stands under its own fingerprint.
abbrev pub Keyed : Assoc DeviceCredentials → Type 0
Keyed [] = Unit
Keyed ((k, c) ∷ m) = (c.fingerprint ≡ k) × Keyed m

-- The pointer names an entry, or nothing.
abbrev pub PointsIn : Option Text → Assoc DeviceCredentials → Type 0
PointsIn none m = Unit {0}
PointsIn (some fp) m = In fp (keys m)

pub record IsValid (m : PairedInstancesModel) : Type 0 where
  pub distinct : Distinct (keys m.instances)
  pub keyed : Keyed m.instances
  pub active : PointsIn m.active_fingerprint m.instances

pub Keyed-insert :
    (c : DeviceCredentials) (m : Assoc DeviceCredentials)
    → Keyed m
    → Keyed (insert c.fingerprint c m)
unfolding insert
Keyed-insert c [] h = (refl, tt)
Keyed-insert c ((k, d) ∷ m) h = ground (arith, Keyed-insert c m)

Keyed-delete : (fp : Text) (m : Assoc DeviceCredentials) → Keyed m → Keyed (delete fp m)
unfolding delete
Keyed-delete fp [] h = tt
Keyed-delete fp ((k, d) ∷ m) h = ground (arith, Keyed-delete fp m)

PointsIn-insert :
    (o : Option Text) (c : DeviceCredentials) (m : Assoc DeviceCredentials)
    → PointsIn o m
    → PointsIn o (insert c.fingerprint c m)
PointsIn-insert none c m h = tt
PointsIn-insert (some fp) c m h = In-keys-insert c.fingerprint fp c m (inr h)

pub In-values-fingerprint :
    (c : DeviceCredentials) (m : Assoc DeviceCredentials)
    → Keyed m
    → In c (values m)
    → In c.fingerprint (keys m)
In-values-fingerprint c [] h i = absurd i
In-values-fingerprint c ((k, d) ∷ m) (e, h) (inl i) =
    inl (ap (λ (x : DeviceCredentials). x.fingerprint) i ∙ e)
In-values-fingerprint c ((k, d) ∷ m) (e, h) (inr i) = inr (In-values-fingerprint c m h i)

pub lookup-In-values :
    (c : DeviceCredentials) (m : Assoc DeviceCredentials)
    → Keyed m
    → Distinct (keys m)
    → In c (values m)
    → lookup c.fingerprint m ≡ some c
unfolding lookup
lookup-In-values c [] h d i = absurd i
lookup-In-values c ((k, x) ∷ m) h d i =
    ground (arith, lookup-In-values c m, In-values-fingerprint c m)

module _ (date_parse : Text → Option ℤ) where
  pub most_recent_of-In :
      (vs : List DeviceCredentials) (c : DeviceCredentials)
      → most_recent_of date_parse vs ≡ some c
      → In c vs
  unfolding most_recent_of
  most_recent_of-In [] c h = cc
  most_recent_of-In (x ∷ xs) c h =
      subst (λ z. In z (x ∷ xs)) (ap (λ o. get_or o x) h) (least-In (more_recent date_parse) x xs)

  upsert-PointsIn :
      (m : PairedInstancesModel) (c : DeviceCredentials) (activate : Bool)
      → IsValid m
      → PointsIn
          (upsert_instance m c activate).active_fingerprint
          (upsert_instance m c activate).instances
  unfolding upsert_instance
  upsert-PointsIn m c true v = In-keys-insert c.fingerprint c.fingerprint c m.instances (inl refl)
  upsert-PointsIn m c false v = PointsIn-insert m.active_fingerprint c m.instances v.active

  remove-PointsIn :
      (fp : Text) (active : Option Text) (m : Assoc DeviceCredentials)
      → Keyed m
      → PointsIn active m
      → PointsIn
          (pointer_after_remove active fp (most_recent_of date_parse (values (delete fp m))))
          (delete fp m)
  remove-PointsIn fp none m k h = tt
  remove-PointsIn fp (some a) m k h =
      elim (Option-cases (most_recent_of date_parse (values (delete fp m)))) [
        | inl e ↦ rw e (ground (arith, In-keys-delete fp a m))
        | inr (c, e) ↦ rw e (
            ground (
              arith,
              In-keys-delete fp a m,
              In-values-fingerprint c (delete fp m) (Keyed-delete fp m k)
                  (most_recent_of-In (values (delete fp m)) c e),
            ))
      ]

  upsert-IsValid :
      (m : PairedInstancesModel) (c : DeviceCredentials) (activate : Bool)
      → IsValid m
      → IsValid (upsert_instance m c activate)
  unfolding upsert_instance
  upsert-IsValid m c activate v = record {
    distinct = insert-Distinct c.fingerprint c m.instances v.distinct;
    keyed = Keyed-insert c m.instances v.keyed;
    active = upsert-PointsIn m c activate v;
  }

  remove-IsValid :
      (m : PairedInstancesModel) (fp : Text)
      → IsValid m
      → IsValid (after m (remove_instance date_parse m fp))
  unfolding remove_instance most_recent_instance
  remove-IsValid m fp v = elim (Option-cases (lookup fp m.instances)) [
    | inl e ↦ rw (e, after, remove_instance) v
    | inr (c, e) ↦
        rw (e, after, remove_instance)
          (record {
            distinct = delete-Distinct fp m.instances v.distinct;
            keyed = Keyed-delete fp m.instances v.keyed;
            active = remove-PointsIn fp m.active_fingerprint m.instances v.keyed v.active;
          })
  ]

  set_active-IsValid :
      (m : PairedInstancesModel) (fp : Text)
      → IsValid m
      → IsValid (after m (set_active_instance m fp))
  unfolding set_active_instance
  set_active-IsValid m fp v =
      elim (Bool-cases
        (not (is_some (lookup fp m.instances)) || points_to m.active_fingerprint fp)) [
          | inl e ↦ rw e v
          | inr e ↦ rw e (record {
            distinct = v.distinct;
            keyed = v.keyed;
            active = In-lookup fp m.instances (ground arith);
          })
        ]

  migrate-PointsIn :
      (o : Option Text) (c : DeviceCredentials) (m : Assoc DeviceCredentials)
      → PointsIn o m
      → PointsIn
          (elim o [ none ↦ some c.fingerprint | some active ↦ some active ])
          (insert c.fingerprint c m)
  migrate-PointsIn none c m h = In-keys-insert c.fingerprint c.fingerprint c m (inl refl)
  migrate-PointsIn (some fp) c m h = PointsIn-insert (some fp) c m h

  migrate-IsValid :
      (m : PairedInstancesModel) (c : DeviceCredentials)
      → IsValid m
      → IsValid (after m (migrate_legacy_credentials m c))
  unfolding migrate_legacy_credentials
  migrate-IsValid m c v = elim (Option-cases (lookup c.fingerprint m.instances)) [
    | inl e ↦ rw e (record {
      distinct = insert-Distinct c.fingerprint c m.instances v.distinct;
      keyed = Keyed-insert c m.instances v.keyed;
      active = migrate-PointsIn m.active_fingerprint c m.instances v.active;
    })
    | inr (d, e) ↦ rw e v
  ]

  -- Each operation on a valid model gives a valid model: the fingerprints differ, each entry stands
  -- under its own, and the pointer names an entry or nothing.
  pub apply-IsValid :
      (m : PairedInstancesModel) (op : Op) → IsValid m → IsValid (apply date_parse m op)
  unfolding apply
  apply-IsValid m (upsert c activate) v = upsert-IsValid m c activate v
  apply-IsValid m (remove fp) v = remove-IsValid m fp v
  apply-IsValid m (set_active fp) v = set_active-IsValid m fp v
  apply-IsValid m (migrate c) v = migrate-IsValid m c v
