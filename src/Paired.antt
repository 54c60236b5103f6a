-- ===== src/Paired.antt =====
-- paired-instances.ts: the credentials of the paired installations, keyed by the fingerprint of
-- the daemon's certificate, and the pointer to the active one. `null` is `none`; the operations
-- that may return the model that they were given, by reference, return an `Update`. A fingerprint
-- is no array index and no name of an `Object.prototype` member: it is a base64url SHA-256.
pub mod Ranking
pub mod Invariant
pub mod Frame
use herdr_connect.Common.{
  ℕ, Text, text, ◌is◌, is_empty, text_lt, Assoc, lookup, insert, delete, values, Bool, true, false,
  not, ◌&&◌, ◌||◌, Option, none, some, is_some, List, [], ◌∷◌, if◌then◌else◌, ℤ, pos, ltb_ℤ, sort,
  least, ◌>>=◌, ◌>>◌, guard,
}
use mathlib.Core.Option
use herdr_connect.Json.{
  Json, Fields, str, num, get, as_text, as_number, as_record, as_positive, Number,
}

pub record PinnedHost : Type 0 where
  pub host : Text
  pub port : ℕ

pub record DeviceCredentials : Type 0 where
  pub fingerprint : Text
  pub device_id : Text
  pub token : Text
  pub device_name : Text
  pub paired_at : Text
  pub pinned_host : Option PinnedHost

pub record PairedInstancesModel : Type 0 where
  pub active_fingerprint : Option Text
  pub instances : Assoc DeviceCredentials

abbrev pub empty_paired_instances : PairedInstancesModel
empty_paired_instances = record { active_fingerprint = none; instances = [] }

unfoldable pub parse_pinned_host : Option Json → Option PinnedHost
unfolding get
parse_pinned_host value = do
  fields ← value >>= as_record
  host ← as_text (get (text "host") fields)
  guard (not (is_empty host))
  port ← as_number (get (text "port") fields) >>= as_positive
  some (record { host = host; port = port })

unfoldable pub parse_instance_record : Json → Option DeviceCredentials
unfolding parse_pinned_host
parse_instance_record value = do
  fields ← as_record value
  fingerprint ← as_text (get (text "fingerprint") fields)
  device_id ← as_text (get (text "deviceId") fields)
  token ← as_text (get (text "token") fields)
  device_name ← as_text (get (text "deviceName") fields)
  paired_at ← as_text (get (text "pairedAt") fields)
  guard (not (is_empty fingerprint || is_empty token))
  some (record {
    fingerprint = fingerprint;
    device_id = device_id;
    token = token;
    device_name = device_name;
    paired_at = paired_at;
    pinned_host = parse_pinned_host (get (text "pinnedHost") fields);
  })

-- `none` where `JSON.parse` throws.
unfoldable pub parse_instance_record_json : (Text → Option Json) → Text → Option DeviceCredentials
unfolding parse_instance_record
parse_instance_record_json json_parse raw = json_parse raw >>= parse_instance_record

-- The outcome of an operation that returns its argument where nothing changes.
pub data Update : Type 0 where
  same : Update
  fresh : PairedInstancesModel → Update

abbrev pub after : PairedInstancesModel → Update → PairedInstancesModel
after m same = m
after m (fresh n) = n

-- A JavaScript string as a condition: null and "" are false.
abbrev pub truthy : Option Text → Option Text
truthy none = none
truthy (some s) = if is_empty s then none else some s

unfoldable pub upsert_instance :
    PairedInstancesModel → DeviceCredentials → Bool → PairedInstancesModel
upsert_instance m c activate = record {
  active_fingerprint = if activate then some c.fingerprint else m.active_fingerprint;
  instances = insert c.fingerprint c m.instances;
}

abbrev pub points_to : Option Text → Text → Bool
points_to none fp = false
points_to (some active) fp = active is fp

unfoldable pub set_active_instance : PairedInstancesModel → Text → Update
set_active_instance m fp =
    if not (is_some (lookup fp m.instances)) || points_to m.active_fingerprint fp
    then same
    else fresh (record m { active_fingerprint = some fp })

unfoldable pub migrate_legacy_credentials : PairedInstancesModel → DeviceCredentials → Update
migrate_legacy_credentials m legacy =
    if is_some (lookup legacy.fingerprint m.instances)
    then same
    else fresh (record {
      active_fingerprint = elim m.active_fingerprint [
        | none ↦ some legacy.fingerprint
        | some active ↦ some active
      ];
      instances = insert legacy.fingerprint legacy m.instances;
    })

abbrev pub pointer_after_remove : Option Text → Text → Option DeviceCredentials → Option Text
pointer_after_remove active fp fallback =
    if points_to active fp then Option.map (λ c. c.fingerprint) fallback else active

-- The operations that make a model of a model.
pub data Op : Type 0 where
  upsert : DeviceCredentials → Bool → Op
  remove : Text → Op
  set_active : Text → Op
  migrate : DeviceCredentials → Op

-- `date_parse` is the engine's `Date.parse`, with `none` for NaN.
module _ (date_parse : Text → Option ℤ) where
  abbrev pub paired_at_time : DeviceCredentials → ℤ
  paired_at_time c = elim (date_parse c.paired_at) [ none ↦ pos 0 | some time ↦ time ]

  -- Whether the reducer of `mostRecentInstance` gives up `b` for `a`.
  unfoldable pub more_recent : DeviceCredentials → DeviceCredentials → Bool
  more_recent a b =
      if ltb_ℤ (paired_at_time b) (paired_at_time a)
      then true
      else if ltb_ℤ (paired_at_time a) (paired_at_time b)
      then false
      else text_lt a.fingerprint b.fingerprint

  unfoldable pub most_recent_of : List DeviceCredentials → Option DeviceCredentials
  unfolding more_recent least
  most_recent_of [] = none
  most_recent_of (c ∷ cs) = some (least more_recent c cs)

  unfoldable pub most_recent_instance : PairedInstancesModel → Option DeviceCredentials
  unfolding most_recent_of
  most_recent_instance m = most_recent_of (values m.instances)

  -- Whether the comparator of `listInstances` is negative.
  unfoldable pub listed_before : DeviceCredentials → DeviceCredentials → Bool
  listed_before a b =
      if ltb_ℤ (paired_at_time a) (paired_at_time b) || ltb_ℤ (paired_at_time b) (paired_at_time a)
      then ltb_ℤ (paired_at_time b) (paired_at_time a)
      else text_lt a.fingerprint b.fingerprint

  unfoldable pub list_instances : PairedInstancesModel → List DeviceCredentials
  unfolding listed_before sort
  list_instances m = sort listed_before (values m.instances)

  unfoldable pub resolve_active_instance : PairedInstancesModel → Option DeviceCredentials
  unfolding most_recent_instance lookup
  resolve_active_instance m = elim (truthy m.active_fingerprint >>= λ fp. lookup fp m.instances) [
    | some active ↦ some active
    | none ↦ most_recent_instance m
  ]

  unfoldable pub remove_instance : PairedInstancesModel → Text → Update
  unfolding most_recent_instance lookup delete
  remove_instance m fp =
      let rest = delete fp m.instances in
      let fallback =
        most_recent_instance (record { active_fingerprint = none; instances = rest }) in
      elim (lookup fp m.instances) [
        | none ↦ same
        | some _ ↦ fresh (record {
          active_fingerprint = pointer_after_remove m.active_fingerprint fp fallback;
          instances = rest;
        })
      ]

  unfoldable pub apply : PairedInstancesModel → Op → PairedInstancesModel
  unfolding upsert_instance remove_instance set_active_instance migrate_legacy_credentials
  apply m (upsert c activate) = upsert_instance m c activate
  apply m (remove fp) = after m (remove_instance m fp)
  apply m (set_active fp) = after m (set_active_instance m fp)
  apply m (migrate c) = after m (migrate_legacy_credentials m c)
