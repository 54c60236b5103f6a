-- ===== src/Keychain/Orphans.antt =====
-- keychain-write-plan.ts: the Keychain between the steps of a write.
use herdr_connect.Common.{
  ◌≡◌, refl, sym, ap, Text, is_empty, In, In-select, lookup, delete, keys, keys-insert-In,
  keys-delete-In, In-lookup, false, not, inl, inr, Option, some, Option-cases, is_some, List, [],
  ◌∷◌, ◌++◌, map, All, ◌>>=◌,
}
use herdr_connect.Json.{JsonText, RoundTrips, RejectsEmpty, arr, to_list}
use herdr_connect.Paired.{PairedInstancesModel, truthy}
use herdr_connect.Keychain.{
  KeychainWriteStep, delete_instance, write_instance, set_active, gone, plan_keychain_writes, Store,
  index_json, record_json, texts, parse_index, run_step, run_steps, visited,
}

-- A string that an index keeps.
abbrev pub NonEmpty : Text → Type 0
NonEmpty s = is_empty s ≡ false

texts-index_json : (fps : List Text) → All NonEmpty fps → texts (to_list (index_json fps)) ≡ fps
texts-index_json [] h = refl
texts-index_json (fp ∷ fps) (e, h) = rw e (ap (◌∷◌ fp) (texts-index_json fps h))

module _ (json : JsonText) where
  truthy-parse : (s : Text) → RejectsEmpty json → (truthy (some s) >>= json.parse) ≡ json.parse s
  truthy-parse [] h = sym h
  truthy-parse (c ∷ s) h = refl

  -- An index of proper strings is read back as it was written.
  pub parse_index-write :
      (fps : List Text)
      → RejectsEmpty json
      → RoundTrips json (arr (index_json fps))
      → All NonEmpty fps
      → parse_index json (some (json.stringify (arr (index_json fps)))) ≡ fps
  unfolding parse_index
  parse_index-write fps blank round h =
      rw (truthy-parse (json.stringify (arr (index_json fps))) blank, round)
        (texts-index_json fps h)

  -- Every entry's key stands in the index.
  abbrev pub NoOrphan : Store → Type 0
  NoOrphan s = (fp : Text) → In fp (keys s.records) → In fp (parse_index json s.index)

  module _ (m : PairedInstancesModel) where
    visited-append :
        (s : Store) (xs ys : List KeychainWriteStep)
        → All NoOrphan (visited json m s xs)
        → All NoOrphan (visited json m (run_steps json m s xs) ys)
        → All NoOrphan (visited json m s (xs ++ ys))
    unfolding visited run_steps
    visited-append s [] ys h k = k
    visited-append s (x ∷ xs) ys (p, h) k = (p, visited-append (run_step json m s x) xs ys h k)

    -- Deleting first: the index still names what is there.
    deletes-visited :
        (s : Store) (fps : List Text)
        → NoOrphan s
        → All NoOrphan (visited json m s (map delete_instance fps))
    unfolding visited run_step
    deletes-visited s [] h = (h, tt)
    deletes-visited s (fp ∷ fps) h = (
      h,
      deletes-visited (record s { records = delete fp s.records }) fps
          (λ k i. h k (keys-delete-In fp k s.records i).0),
    )

    deletes-run :
        (s : Store) (fps : List Text) (fp : Text)
        → In fp (keys (run_steps json m s (map delete_instance fps)).records)
        → In fp (keys s.records) × (¬ In fp fps)
    unfolding run_steps run_step
    deletes-run s [] fp i = (i, λ h. h)
    deletes-run s (x ∷ xs) fp i =
        let (i', other) = deletes-run (record s { records = delete x s.records }) xs fp i in
        let (i'', n) = keys-delete-In x fp s.records i' in
        (i'', elim [ inl e ↦ n e | inr h ↦ other h ])

    -- What is left after the deletions belongs to the new model.
    deletes-kept :
        (s : Store) (fp : Text)
        → NoOrphan s
        → In fp (
            keys
              (run_steps json m s
                (map delete_instance (gone (parse_index json s.index) m))).records)
        → In fp (keys m.instances)
    deletes-kept s fp h i =
        let (i', stays) = deletes-run s (gone (parse_index json s.index) m) fp i in
        In-lookup fp m.instances (λ e. stays (
          In-select (λ k. not (is_some (lookup k m.instances))) fp (parse_index json s.index)
            (h fp i') (rw e)))

    -- Every entry belongs to the model, whose fingerprints the index names.
    record Indexed (s : Store) : Type 0 where
      index : parse_index json s.index ≡ keys m.instances
      within : (fp : Text) → In fp (keys s.records) → In fp (keys m.instances)

    Indexed-NoOrphan : (s : Store) → Indexed s → NoOrphan s
    Indexed-NoOrphan s v fp i = rw v.index (v.within fp i)

    write_instance-Indexed :
        (s : Store) (fp : Text) → Indexed s → Indexed (run_step json m s (write_instance fp))
    unfolding run_step
    write_instance-Indexed s fp v = elim (Option-cases (lookup fp m.instances)) [
      | inl e ↦ rw (e, run_step) v
      | inr (c, e) ↦
          rw (e, run_step)
            (record {
              index = v.index;
              within = λ k i.
                  elim (keys-insert-In fp k (json.stringify (record_json c)) s.records i) [
                    | inl same ↦ rw same (In-lookup fp m.instances (λ n. cc))
                    | inr old ↦ v.within k old
                  ];
            })
    ]

    deletes-index :
        (s : Store) (fps : List Text)
        → (run_steps json m s (map delete_instance fps)).index ≡ s.index
    unfolding run_steps run_step
    deletes-index s [] = refl
    deletes-index s (fp ∷ fps) = deletes-index (record s { records = delete fp s.records }) fps

    deletes-NoOrphan :
        (s : Store) (fps : List Text)
        → NoOrphan s
        → NoOrphan (run_steps json m s (map delete_instance fps))
    deletes-NoOrphan s fps h fp i = rw (deletes-index s fps) (h fp (deletes-run s fps fp i).0)

    writes-visited :
        (s : Store) (fps : List Text) (last : Option Text)
        → Indexed s
        → All NoOrphan (visited json m s (map write_instance fps ++ (set_active last ∷ [])))
    unfolding visited run_step
    writes-visited s [] last v = (Indexed-NoOrphan s v, (Indexed-NoOrphan s v, tt))
    writes-visited s (fp ∷ fps) last v = (
      Indexed-NoOrphan s v,
      writes-visited (run_step json m s (write_instance fp)) fps last
          (write_instance-Indexed s fp v),
    )

  -- A write that stops after any of its steps leaves no entry outside the index, if there was none
  -- before, the fingerprints of the model are not empty, the JSON text of the new index is read
  -- back, and the empty string is no JSON text.
  pub write-NoOrphan :
      (s : Store) (m : PairedInstancesModel)
      → RejectsEmpty json
      → RoundTrips json (arr (index_json (keys m.instances)))
      → All NonEmpty (keys m.instances)
      → NoOrphan s
      → All NoOrphan (visited json m s (plan_keychain_writes (parse_index json s.index) m))
  unfolding plan_keychain_writes visited run_step
  write-NoOrphan s m blank round names h =
      visited-append m s (map delete_instance (gone (parse_index json s.index) m)) _
        (deletes-visited m s (gone (parse_index json s.index) m) h)
        (
          deletes-NoOrphan m s (gone (parse_index json s.index) m) h,
          writes-visited m _ (keys m.instances) m.active_fingerprint (record {
            index = parse_index-write (keys m.instances) blank round names;
            within = λ fp i. deletes-kept m s fp h i;
          }),
        )
