-- ===== src/Keychain.antt =====
-- keychain-write-plan.ts and credentials.ts: how the model of paired instances is kept in the
-- Keychain, one write at a time. The Keychain's keys are a record here: the index, the active
-- pointer, the legacy entry, and one entry for each fingerprint. The mutation queue of
-- credentials.ts runs one operation at a time, so each operation is a function on the store.
pub mod Orphans
pub mod Writes
pub mod RoundTrip
pub mod Migration
use herdr_connect.Common.{
  ℕ, Text, text, ◌is◌, is_empty, Assoc, lookup, insert, delete, keys, Bool, true, false, not,
  Option, none, some, is_some, List, [], ◌∷◌, ◌++◌, map, select, if◌then◌else◌, ℤ, pos, ◌>>=◌,
}
use herdr_connect.Json.{
  JsonText, Json, Items, Fields, str, num, arr, obj, nil, cons, end, field, integer, to_list,
}
use herdr_connect.Paired.{
  DeviceCredentials, PinnedHost, PairedInstancesModel, Update, same, fresh, after, truthy,
  parse_instance_record_json, parse_instance_record, upsert_instance, remove_instance,
  set_active_instance, migrate_legacy_credentials, resolve_active_instance,
}

pub data KeychainWriteStep : Type 0 where
  delete_instance : Text → KeychainWriteStep
  write_index : List Text → KeychainWriteStep
  write_instance : Text → KeychainWriteStep
  set_active : Option Text → KeychainWriteStep

-- The indexed fingerprints that the model has no longer.
abbrev pub gone : List Text → PairedInstancesModel → List Text
gone previous m = select (λ fp. not (is_some (lookup fp m.instances))) previous

unfoldable pub plan_keychain_writes : List Text → PairedInstancesModel → List KeychainWriteStep
plan_keychain_writes previous m =
    map delete_instance (gone previous m)
    ++ (write_index (keys m.instances)
        ∷ (map write_instance (keys m.instances) ++ (set_active m.active_fingerprint ∷ [])))

pub record Store : Type 0 where
  pub index : Option Text
  pub active : Option Text
  pub legacy : Option Text
  pub records : Assoc Text

abbrev pub index_json : List Text → Items
index_json [] = nil
index_json (fp ∷ fps) = cons (str fp) (index_json fps)

abbrev pub pinned_host_fields : Option PinnedHost → Fields
pinned_host_fields none = end
pinned_host_fields (some p) =
    field (text "pinnedHost")
      (obj
        (field (text "host") (str p.host) (field (text "port") (num (integer (pos p.port))) end)))
      end

-- The object that `JSON.stringify` gets for an entry; a property that is not there has no field.
abbrev pub record_json : DeviceCredentials → Json
record_json c = obj (
    field (text "fingerprint") (str c.fingerprint) (
      field (text "deviceId") (str c.device_id) (
        field (text "token") (str c.token) (
          field (text "deviceName") (str c.device_name)
            (field (text "pairedAt") (str c.paired_at) (pinned_host_fields c.pinned_host))))))

abbrev pub texts : List Json → List Text
texts [] = []
texts (str s ∷ js) = if is_empty s then texts js else s ∷ texts js
texts (_ ∷ js) = texts js

abbrev pub index_texts : Option Json → List Text
index_texts (some (arr items)) = texts (to_list items)
index_texts _ = []

abbrev pub known : Option Text → Assoc DeviceCredentials → Option Text
known none instances = none
known (some fp) instances = if is_some (lookup fp instances) then some fp else none

abbrev pub migrated : PairedInstancesModel → Option DeviceCredentials → Update
migrated m none = same
migrated m (some legacy) = migrate_legacy_credentials m legacy

module _ (json : JsonText) where
  unfoldable pub parse_index : Option Text → List Text
  parse_index raw = index_texts (truthy raw >>= json.parse)

  unfoldable pub read_record : Store → Text → Option DeviceCredentials
  unfolding parse_instance_record_json
  read_record s fp = do
    record' ← truthy (lookup fp s.records) >>= parse_instance_record_json json.parse
    if record'.fingerprint is fp then some record' else none

  -- The loop of `readModel` over the index.
  unfoldable pub read_records :
      Store → List Text → Assoc DeviceCredentials → Assoc DeviceCredentials
  unfolding read_record insert
  read_records s [] read = read
  read_records s (fp ∷ fps) read =
      read_records s fps (elim (read_record s fp) [ none ↦ read | some c ↦ insert fp c read ])

  unfoldable pub read_model : Store → PairedInstancesModel
  unfolding read_records parse_index
  read_model s =
      let instances = read_records s (parse_index s.index) [] in
      record { active_fingerprint = known s.active instances; instances = instances }

  -- `write_instance` is planned for the model's own fingerprints only.
  unfoldable pub run_step : PairedInstancesModel → Store → KeychainWriteStep → Store
  unfolding insert delete lookup
  run_step m s (delete_instance fp) = record s { records = delete fp s.records }
  run_step m s (write_index fps) = record s { index = some (json.stringify (arr (index_json fps))) }
  run_step m s (write_instance fp) = elim (lookup fp m.instances) [
    | none ↦ s
    | some c ↦ record s { records = insert fp (json.stringify (record_json c)) s.records }
  ]
  run_step m s (set_active fp) = record s { active = truthy fp }

  unfoldable pub run_steps : PairedInstancesModel → Store → List KeychainWriteStep → Store
  unfolding run_step
  run_steps m s [] = s
  run_steps m s (step ∷ steps) = run_steps m (run_step m s step) steps

  unfoldable pub write_model : Store → PairedInstancesModel → Store
  unfolding run_steps plan_keychain_writes parse_index
  write_model s m = run_steps m s (plan_keychain_writes (parse_index s.index) m)

  -- Every state of the Keychain during a write: where it may be interrupted.
  unfoldable pub visited : PairedInstancesModel → Store → List KeychainWriteStep → List Store
  unfolding run_step
  visited m s [] = s ∷ []
  visited m s (step ∷ steps) = s ∷ visited m (run_step m s step) steps

  abbrev pub write_update : Store → Update → Store
  write_update s same = s
  write_update s (fresh m) = write_model s m

  -- An operation gives the new store and its result. The queued part of `loadPairedInstances`
  -- writes what the migration changed, and removes the legacy entry.
  abbrev pub migrate_store : Store → PairedInstancesModel → Update → Store × PairedInstancesModel
  migrate_store s current update =
      (record (write_update s update) { legacy = none }, after current update)

  abbrev pub take_over : Store → PairedInstancesModel → Option Text → Store × PairedInstancesModel
  take_over s current none = (s, current)
  take_over s current (some raw) =
      migrate_store s current (migrated current (parse_instance_record_json json.parse raw))

  unfoldable pub load_paired_instances : Store → Store × PairedInstancesModel
  unfolding read_model write_model migrate_legacy_credentials
  load_paired_instances s = take_over s (read_model s) s.legacy

  unfoldable pub save_credentials : Store → DeviceCredentials → Store × PairedInstancesModel
  unfolding read_model write_model upsert_instance
  save_credentials s c =
      let next = upsert_instance (read_model s) c true in (write_model s next, next)

  unfoldable pub select_active_instance : Store → Text → Store × Option PairedInstancesModel
  unfolding read_model write_model set_active_instance
  select_active_instance s fp = elim (set_active_instance (read_model s) fp) [
    | same ↦ (s, none)
    | fresh next ↦ (write_model s next, some next)
  ]

  module _ (date_parse : Text → Option ℤ) where
    unfoldable pub load_credentials : Store → Store × Option DeviceCredentials
    unfolding load_paired_instances resolve_active_instance
    load_credentials s =
        let (s', model) = load_paired_instances s in (s', resolve_active_instance date_parse model)

    unfoldable pub remove_instance_credentials : Store → Text → Store × PairedInstancesModel
    unfolding read_model write_model remove_instance
    remove_instance_credentials s fp =
        let update = remove_instance date_parse (read_model s) fp in
        (write_update s update, after (read_model s) update)
