-- ===== src/Keychain/Writes.antt =====
-- keychain-write-plan.ts: the Keychain after all steps of a write.
use herdr_connect.Common.{
  In-lookup, ◌≡◌, refl, sym, ◌∙◌, Text, In, lookup, keys, lookup-insert, ◌⊎◌, inl, inr, some,
  Option-cases, List, [], ◌∷◌, ◌++◌, map, arith,
}
use herdr_connect.Json.{JsonText, arr}
use herdr_connect.Paired.{DeviceCredentials, PairedInstancesModel, truthy}
use herdr_connect.Keychain.{
  KeychainWriteStep, delete_instance, write_index, write_instance, set_active, gone, Store,
  index_json, record_json, parse_index, run_step, run_steps, write_model,
}

module _ (json : JsonText) where
  module _ (m : PairedInstancesModel) where
    run_steps-append :
        (s : Store) (xs ys : List KeychainWriteStep)
        → run_steps json m s (xs ++ ys) ≡ run_steps json m (run_steps json m s xs) ys
    unfolding run_steps
    run_steps-append s [] ys = refl
    run_steps-append s (x ∷ xs) ys = run_steps-append (run_step json m s x) xs ys

    -- The text that the write leaves under a fingerprint.
    abbrev pub Holds : Store → Text → DeviceCredentials → Type 0
    Holds s fp c = lookup fp s.records ≡ some (json.stringify (record_json c))

    write_instance-kept :
        (s : Store) (k fp : Text) (c : DeviceCredentials)
        → lookup fp m.instances ≡ some c
        → (k ≡ fp) ⊎ Holds s fp c
        → Holds (run_step json m s (write_instance k)) fp c
    unfolding run_step
    write_instance-kept s k fp c e h = elim (Option-cases (lookup k m.instances)) [
      | inl n ↦ rw (n, run_step) (ground arith)
      | inr (d, n) ↦
          rw (n, run_step)
            (ground (arith, lookup-insert k fp (json.stringify (record_json d)) s.records))
    ]

    step-index : (s : Store) (fp : Text) → (run_step json m s (write_instance fp)).index ≡ s.index
    unfolding run_step
    step-index s fp = ground arith

    step-active :
        (s : Store) (fp : Text) → (run_step json m s (write_instance fp)).active ≡ s.active
    unfolding run_step
    step-active s fp = ground arith

    writes-hold :
        (s : Store) (fps : List Text) (fp : Text) (c : DeviceCredentials)
        → lookup fp m.instances ≡ some c
        → In fp fps ⊎ Holds s fp c
        → Holds (run_steps json m s (map write_instance fps)) fp c
    unfolding run_steps
    writes-hold s [] fp c e (inl i) = absurd i
    writes-hold s [] fp c e (inr h) = h
    writes-hold s (k ∷ fps) fp c e (inl (inl same)) =
        writes-hold (run_step json m s (write_instance k)) fps fp c e
          (inr (write_instance-kept s k fp c e (inl (sym same))))
    writes-hold s (k ∷ fps) fp c e (inl (inr i)) =
        writes-hold (run_step json m s (write_instance k)) fps fp c e (inl i)
    writes-hold s (k ∷ fps) fp c e (inr h) =
        writes-hold (run_step json m s (write_instance k)) fps fp c e
          (inr (write_instance-kept s k fp c e (inr h)))

    writes-rest :
        (s : Store) (fps : List Text)
        → ((run_steps json m s (map write_instance fps)).index ≡ s.index)
          × ((run_steps json m s (map write_instance fps)).active ≡ s.active)
    unfolding run_steps
    writes-rest s [] = (refl, refl)
    writes-rest s (fp ∷ fps) =
        let (i, a) = writes-rest (run_step json m s (write_instance fp)) fps in
        (i ∙ step-index s fp, a ∙ step-active s fp)

    indexed : Store → Store
    indexed s =
        run_step json m
          (run_steps json m s (map delete_instance (gone (parse_index json s.index) m)))
          (write_index (keys m.instances))

    write_model-stages :
        (s : Store)
        → write_model json s m
          ≡ run_step json m
              (run_steps json m (indexed s) (map write_instance (keys m.instances)))
              (set_active m.active_fingerprint)
    unfolding write_model indexed
    write_model-stages s =
        run_steps-append s (map delete_instance (gone (parse_index json s.index) m)) _
        ∙ run_steps-append (indexed s) (map write_instance (keys m.instances)) _

    -- The state after the whole write.
    pub write-Holds :
        (s : Store) (fp : Text) (c : DeviceCredentials)
        → lookup fp m.instances ≡ some c
        → Holds (write_model json s m) fp c
    unfolding run_step
    write-Holds s fp c e = rw (write_model-stages s) (
        writes-hold (indexed s) (keys m.instances) fp c e
          (inl (In-lookup fp m.instances (λ n. cc))))

    pub write-index :
        (s : Store)
        → (write_model json s m).index ≡ some (json.stringify (arr (index_json (keys m.instances))))
    unfolding run_step indexed
    write-index s = rw (write_model-stages s) (writes-rest (indexed s) (keys m.instances)).0

    pub write-active : (s : Store) → (write_model json s m).active ≡ truthy m.active_fingerprint
    unfolding run_step
    write-active s = rw (write_model-stages s)
