-- ===== src/Keychain/Migration.antt =====
-- credentials.ts: reading the model, and the legacy entry.
use herdr_connect.Common.{
  ◌≡◌, refl, ap, ◌∙◌, subst, Text, Distinct, Assoc, lookup, insert, keys, insert-Distinct,
  In-lookup, inl, inr, Option, none, some, Option-cases, List, [], ◌∷◌, arith,
}
use herdr_connect.Json.{JsonText}
use herdr_connect.Paired.{DeviceCredentials, Update, same, fresh, after, parse_instance_record_json}
use herdr_connect.Paired.Invariant.{Keyed, PointsIn, IsValid, Keyed-insert}
use herdr_connect.Keychain.{
  Store, read_record, read_records, read_model, known, migrated, parse_index, write_model,
  migrate_store, take_over, load_paired_instances,
}
use herdr_connect.Keychain.RoundTrip.{IsSound, Encodes, read-write}

module _ (json : JsonText) where
  read_record-fingerprint :
      (s : Store) (fp : Text) (c : DeviceCredentials)
      → read_record json s fp ≡ some c
      → c.fingerprint ≡ fp
  unfolding read_record
  read_record-fingerprint s fp c h = ground arith

  read_records-IsKeyed :
      (s : Store) (fps : List Text) (read : Assoc DeviceCredentials)
      → Distinct (keys read)
      → Keyed read
      → Distinct (keys (read_records json s fps read)) × Keyed (read_records json s fps read)
  unfolding read_records
  read_records-IsKeyed s [] read d k = (d, k)
  read_records-IsKeyed s (fp ∷ fps) read d k = elim (Option-cases (read_record json s fp)) [
    | inl e ↦ rw (e, read_records) (read_records-IsKeyed s fps read d k)
    | inr (c, e) ↦
        let own = read_record-fingerprint s fp c e in
        rw (e, read_records)
          (read_records-IsKeyed s fps (insert fp c read) (insert-Distinct fp c read d)
            (subst (λ j. Keyed (insert j c read)) own (Keyed-insert c read k)))
  ]

  known-PointsIn : (o : Option Text) (m : Assoc DeviceCredentials) → PointsIn (known o m) m
  known-PointsIn none m = tt
  known-PointsIn (some fp) m = elim (Option-cases (lookup fp m)) [
    | inl e ↦ rw e tt
    | inr (c, e) ↦ rw e (In-lookup fp m (λ n. cc))
  ]

  -- Whatever the Keychain holds, the model that is read satisfies the invariant.
  pub read_model-IsValid : (s : Store) → IsValid (read_model json s)
  unfolding read_model
  read_model-IsValid s =
      let (d, k) = read_records-IsKeyed s (parse_index json s.index) [] tt tt in
      record { distinct = d; keyed = k; active = known-PointsIn s.active _ }

  read_records-without_legacy :
      (s : Store) (fps : List Text) (read : Assoc DeviceCredentials)
      → read_records json (record s { legacy = none }) fps read ≡ read_records json s fps read
  unfolding read_records
  read_records-without_legacy s [] read = refl
  read_records-without_legacy s (fp ∷ fps) read =
      read_records-without_legacy s fps
        (elim (read_record json s fp) [ none ↦ read | some c ↦ insert fp c read ])

  read-without_legacy :
      (s : Store) → read_model json (record s { legacy = none }) ≡ read_model json s
  unfolding read_model
  read-without_legacy s = rw (read_records-without_legacy s (parse_index json s.index) [])

  migrate_store-settles :
      (s : Store) (update : Update)
      → IsSound (after (read_model json s) update)
      → Encodes json (after (read_model json s) update)
      → load_paired_instances json (migrate_store json s (read_model json s) update).0
        ≡ migrate_store json s (read_model json s) update
  unfolding load_paired_instances
  migrate_store-settles s same sound enc =
      ap (λ m. (record s { legacy = none }, m)) (read-without_legacy s)
  migrate_store-settles s (fresh m) sound enc =
      ap (λ n. (record (write_model json s m) { legacy = none }, n))
        (read-without_legacy (write_model json s m) ∙ read-write json s m sound enc)

  -- If what is loaded can be stored (it is valid, has no empty fingerprint or token and no zero
  -- port) and its JSON texts are read back, loading again gives the same model and the same
  -- Keychain: a legacy entry is taken over once.
  pub load_paired_instances-settles :
      (s : Store)
      → IsSound (load_paired_instances json s).1
      → Encodes json (load_paired_instances json s).1
      → load_paired_instances json (load_paired_instances json s).0 ≡ load_paired_instances json s
  unfolding load_paired_instances
  load_paired_instances-settles s sound enc = by_legacy s.legacy refl sound enc
    where
      by_legacy :
          (o : Option Text)
          → s.legacy ≡ o
          → IsSound (take_over json s (read_model json s) o).1
          → Encodes json (take_over json s (read_model json s) o).1
          → load_paired_instances json (take_over json s (read_model json s) o).0
            ≡ take_over json s (read_model json s) o
      by_legacy none e v w = ap (take_over json s (read_model json s)) e
      by_legacy (some raw) e v w =
          migrate_store-settles s
            (migrated (read_model json s) (parse_instance_record_json json.parse raw)) v w
