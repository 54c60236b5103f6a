-- ===== src/Keychain/RoundTrip.antt =====
-- credentials.ts: reading after a write.
use mathlib.Core.List.{append-nil, append_assoc}
use herdr_connect.Common.{
  All-In, lookup-some_of_In, keys-append-In, lookup-entry, pos, text, ℕ, ◌<◌, suc, zero, ◌≡◌, refl,
  sym, ap, ◌∙◌, subst, Text, Text-discrete, ℕ_discrete, In, Distinct, Assoc, lookup, insert, keys,
  values, inl, inr, Option, none, some, [], ◌∷◌, ◌++◌, All, arith, ◌>>=◌,
}
use herdr_connect.Json.{integer, as_positive, JsonText, RoundTrips, RejectsEmpty, arr, get}
use herdr_connect.Paired.{
  DeviceCredentials, PinnedHost, PairedInstancesModel, truthy, parse_instance_record_json,
  parse_instance_record, parse_pinned_host,
}
use herdr_connect.Paired.Invariant.{Keyed, PointsIn, IsValid}
use herdr_connect.Keychain.{
  Store, index_json, record_json, pinned_host_fields, read_record, read_records, read_model, known,
  write_model,
}
use herdr_connect.Keychain.Orphans.{NonEmpty, parse_index-write}
use herdr_connect.Keychain.Writes.{write-Holds, write-index, write-active}

abbrev pub IsReachable : Option PinnedHost → Type 0
IsReachable none = Unit {0}
IsReachable (some p) = NonEmpty p.host × (0 < p.port)

-- What the parser of a record asks of it.
pub record IsStorable (c : DeviceCredentials) : Type 0 where
  pub fingerprint : NonEmpty c.fingerprint
  pub token : NonEmpty c.token
  pub pinned : IsReachable c.pinned_host

as_positive-pos : (n : ℕ) → 0 < n → as_positive (integer (pos n)) ≡ some n
as_positive-pos zero h = elim h [ ]
as_positive-pos (suc n) h = refl

parse-pinned_host_fields :
    (o : Option PinnedHost)
    → IsReachable o
    → parse_pinned_host (get (text "pinnedHost") (pinned_host_fields o)) ≡ o
unfolding parse_pinned_host get Text-discrete ℕ_discrete
parse-pinned_host_fields none h = refl
parse-pinned_host_fields (some p) (named, open') = rw (named, as_positive-pos p.port open')

parse-record_json :
    (c : DeviceCredentials) → IsStorable c → parse_instance_record (record_json c) ≡ some c
unfolding parse_instance_record get Text-discrete ℕ_discrete
parse-record_json c v = rw (v.fingerprint, v.token, parse-pinned_host_fields c.pinned_host v.pinned)

-- What a model that is to be written must satisfy.
pub record IsSound (m : PairedInstancesModel) : Type 0 where
  pub valid : IsValid m
  pub open valid use *
  pub names : All NonEmpty (keys m.instances)
  pub storable : All IsStorable (values m.instances)

module _ (json : JsonText) where
  -- What is relied on for the texts that a write of the model makes.
  pub record Encodes (m : PairedInstancesModel) : Type 0 where
    pub blank : RejectsEmpty json
    pub index : RoundTrips json (arr (index_json (keys m.instances)))
    pub records : All (λ c. RoundTrips json (record_json c)) (values m.instances)

  parse_record-write :
      (c : DeviceCredentials)
      → RejectsEmpty json
      → RoundTrips json (record_json c)
      → IsStorable c
      → (truthy (some (json.stringify (record_json c))) >>= parse_instance_record_json json.parse)
        ≡ some c
  unfolding parse_instance_record_json
  parse_record-write c blank round v = go (json.stringify (record_json c)) refl
    where
      go :
          (s : Text)
          → s ≡ json.stringify (record_json c)
          → (truthy (some s) >>= parse_instance_record_json json.parse) ≡ some c
      go [] e = cc
      go (x ∷ s) e = rw (e, round) (parse-record_json c v)

  -- Reading entry by entry gives the entries back.
  insert-new :
      (k : Text) (c : DeviceCredentials) (read : Assoc DeviceCredentials)
      → ¬ In k (keys read)
      → insert k c read ≡ read ++ ((k, c) ∷ [])
  unfolding insert
  insert-new k c [] n = refl
  insert-new k c ((j, d) ∷ read) n = ground (arith, insert-new k c read)

  abbrev Reads : Store → Assoc DeviceCredentials → Type 0
  Reads s [] = Unit {0}
  Reads s ((k, c) ∷ m) = (read_record json s k ≡ some c) × Reads s m

  read_records-entries :
      (s : Store) (read m : Assoc DeviceCredentials)
      → Reads s m
      → Distinct (keys m)
      → ((k : Text) → In k (keys read) → ¬ In k (keys m))
      → read_records json s (keys m) read ≡ read ++ m
  unfolding read_records
  read_records-entries s read [] h d apart = sym (append-nil read)
  read_records-entries s read ((k, c) ∷ m) (e, h) (new, d) apart =
      rw (e, read_records, insert-new k c read (λ i. apart k i (inl refl)))
        (read_records-entries s (read ++ ((k, c) ∷ [])) m h d (λ j i.
            elim (keys-append-In j k c read i) [
              | inl old ↦ λ n. apart j old (inr n)
              | inr e' ↦ λ n. new (subst (λ x. In x (keys m)) e' n)
            ])
          ∙ append_assoc read ((k, c) ∷ []) m)

  entries-Reads :
      (s : Store) (m : Assoc DeviceCredentials)
      → RejectsEmpty json
      → All (λ c. RoundTrips json (record_json c)) (values m)
      → All IsStorable (values m)
      → Keyed m
      → ((k : Text) (c : DeviceCredentials)
          → In (k, c) m
          → lookup k s.records ≡ some (json.stringify (record_json c)))
      → Reads s m
  unfolding read_record
  entries-Reads s [] blank rounds sound keyed held = tt
  entries-Reads s ((k, c) ∷ m) blank (round, rounds) (ok, sound) (key, keyed) held = (
    rw (held k c (inl refl), parse_record-write c blank round ok) (ground arith),
    entries-Reads s m blank rounds sound keyed (λ j d i. held j d (inr i)),
  )

  PointsIn-known :
      (o : Option Text) (m : Assoc DeviceCredentials)
      → All NonEmpty (keys m)
      → PointsIn o m
      → known (truthy o) m ≡ o
  PointsIn-known none m names h = refl
  PointsIn-known (some fp) m names h =
      let (c, e) = lookup-some_of_In fp m h in rw (All-In NonEmpty fp (keys m) names h, e)

  -- After a complete write the model that is read is the one that was written, whatever an earlier
  -- write, complete or interrupted, left in the Keychain, if the model is valid, its fingerprints and
  -- tokens are not empty and its ports not zero, the JSON texts of its index and its entries are
  -- read back, and the empty string is no JSON text.
  pub read-write :
      (s : Store) (m : PairedInstancesModel)
      → IsSound m
      → Encodes m
      → read_model json (write_model json s m) ≡ m
  unfolding read_model
  read-write s m v enc =
      rw
        (
          write-index json m s,
          write-active json m s,
          parse_index-write json (keys m.instances) enc.blank enc.index v.names,
          entries,
        )
        (ap (λ a. record m { active_fingerprint = a })
          (PointsIn-known m.active_fingerprint m.instances v.names v.active))
    where
      entries : read_records json (write_model json s m) (keys m.instances) [] ≡ m.instances
      entries =
          read_records-entries (write_model json s m) [] m.instances
            (entries-Reads (write_model json s m) m.instances enc.blank enc.records v.storable
              v.keyed
              (λ k c i. write-Holds json m s k c (lookup-entry k c m.instances v.distinct i)))
            v.distinct (λ k i. absurd i)
