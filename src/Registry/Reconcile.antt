-- ===== src/Registry/Reconcile.antt =====
-- session-registry.ts: carrying out a plan of sessions.
use herdr_connect.Common.{
  ◌≡◌, refl, ◌∙◌, Text, In, Distinct, Assoc, lookup, insert, delete, keys, lookup-insert,
  lookup-delete, Bool, true, false, ◌⊎◌, inl, Option, none, some, List, [], ◌∷◌, select, arith,
  if◌then◌else◌,
}
use herdr_connect.Paired.{DeviceCredentials}
use herdr_connect.Registry.{
  same_credentials, wanted, differs, unlike, stops, starts, plan_session_set, stop_all, start_all,
  reconcile,
}

abbrev pub fingerprints : List DeviceCredentials → List Text
fingerprints [] = []
fingerprints (c ∷ cs) = c.fingerprint ∷ fingerprints cs

-- Whether the session that a fingerprint has is to be stopped.
abbrev pub unwanted : Option DeviceCredentials → Option DeviceCredentials → Bool
unwanted w none = false
unwanted w (some current) = differs w current

pub same_credentials_refl : (c : DeviceCredentials) → same_credentials c c ≡ true
unfolding same_credentials
same_credentials_refl c = ground arith

same_credentials_comm : (c d : DeviceCredentials) → same_credentials c d ≡ same_credentials d c
unfolding same_credentials
same_credentials_comm c d = ground arith

wanted-fingerprint :
    (desired : List DeviceCredentials) (fp : Text) (c : DeviceCredentials)
    → wanted desired fp ≡ some c
    → c.fingerprint ≡ fp
wanted-fingerprint [] fp c h = cc
wanted-fingerprint (d ∷ ds) fp c h = ground (arith, wanted-fingerprint ds fp c)

pub wanted-none :
    (desired : List DeviceCredentials) (fp : Text)
    → ¬ In fp (fingerprints desired)
    → wanted desired fp ≡ none
wanted-none [] fp h = refl
wanted-none (d ∷ ds) fp h = ground (arith, wanted-none ds fp)

pub lookup-stop_all :
    (fps : List Text) (s : Assoc DeviceCredentials) (fp : Text)
    → ((¬ In fp fps) × (lookup fp (stop_all fps s) ≡ lookup fp s))
      ⊎ (In fp fps × (lookup fp (stop_all fps s) ≡ none))
unfolding stop_all
lookup-stop_all [] s fp = inl ((λ h. h), refl)
lookup-stop_all (k ∷ fps) s fp =
    ground (arith, lookup-stop_all fps (delete k s) fp, lookup-delete k fp s)

-- A start overwrites; with distinct fingerprints the entry of `fp` is the one that is started.
lookup-start_all :
    (cs : List DeviceCredentials) (s : Assoc DeviceCredentials) (fp : Text)
    → Distinct (fingerprints cs)
    → lookup fp (start_all cs s) ≡ (elim (wanted cs fp) [ none ↦ lookup fp s | some c ↦ some c ])
unfolding start_all
lookup-start_all [] s fp d = refl
lookup-start_all (c ∷ cs) s fp d = ground (
  arith,
  lookup-start_all cs (insert c.fingerprint c s) fp d.1,
  lookup-insert c.fingerprint fp c s,
  wanted-none cs fp,
)

wanted-starts :
    (desired : List DeviceCredentials) (existing : Assoc DeviceCredentials) (fp : Text)
    → Distinct (fingerprints desired)
    → wanted (starts desired existing) fp ≡ (elim (wanted desired fp) [
      | none ↦ none
      | some c ↦ if unlike c (lookup fp existing) then some c else none
    ])
unfolding starts
wanted-starts [] existing fp d = refl
wanted-starts (c ∷ cs) existing fp d =
    ground (arith, wanted-starts cs existing fp d.1, wanted-none cs fp)

fingerprints-select-In :
    (p : DeviceCredentials → Bool) (cs : List DeviceCredentials) (fp : Text)
    → In fp (fingerprints (select p cs))
    → In fp (fingerprints cs)
fingerprints-select-In p [] fp h = h
fingerprints-select-In p (c ∷ cs) fp h = ground (arith, fingerprints-select-In p cs fp)

pub starts-Distinct :
    (p : DeviceCredentials → Bool) (cs : List DeviceCredentials)
    → Distinct (fingerprints cs)
    → Distinct (fingerprints (select p cs))
starts-Distinct p [] d = tt
starts-Distinct p (c ∷ cs) d =
    ground (arith, starts-Distinct p cs d.1, fingerprints-select-In p cs c.fingerprint)

stops-In :
    (desired : List DeviceCredentials) (existing : Assoc DeviceCredentials) (fp : Text)
    → Distinct (keys existing)
    → In fp (stops desired existing)
    → In fp (keys existing) × (unwanted (wanted desired fp) (lookup fp existing) ≡ true)
unfolding stops lookup
stops-In desired [] fp d h = absurd h
stops-In desired ((k, c) ∷ m) fp d h = ground (arith, stops-In desired m fp d.1)

pub In-stops :
    (desired : List DeviceCredentials) (existing : Assoc DeviceCredentials) (fp : Text)
    → unwanted (wanted desired fp) (lookup fp existing) ≡ true
    → In fp (stops desired existing)
unfolding stops lookup
In-stops desired [] fp h = cc
In-stops desired ((k, c) ∷ m) fp h = ground (arith, In-stops desired m fp)

-- Which session a fingerprint should have: none if the instance is gone, the running one if its
-- credentials are still the same, and one with the new credentials otherwise.
abbrev pub settled : Option DeviceCredentials → Option DeviceCredentials → Option DeviceCredentials
settled none current = none
settled (some c) none = some c
settled (some c) (some current) = if same_credentials c current then some current else some c

settle :
    (w cur stopped started : Option DeviceCredentials)
    → ((unwanted w cur ≡ false) × (stopped ≡ cur)) ⊎ ((unwanted w cur ≡ true) × (stopped ≡ none))
    → started ≡ (elim w [ none ↦ none | some c ↦ if unlike c cur then some c else none ])
    → (elim started [ none ↦ stopped | some c ↦ some c ]) ≡ settled w cur
settle w cur stopped started h k = ground arith

-- If no two desired instances and no two running sessions share a fingerprint, then after the plan
-- is carried out each fingerprint has the session that it should have: none if the instance is
-- gone, the running one if its credentials count as the same, and one with the new ones otherwise.
pub lookup-reconcile :
    (desired : List DeviceCredentials) (existing : Assoc DeviceCredentials)
    → Distinct (fingerprints desired)
    → Distinct (keys existing)
    → (fp : Text)
    → lookup fp (reconcile desired existing) ≡ settled (wanted desired fp) (lookup fp existing)
unfolding reconcile plan_session_set
lookup-reconcile desired existing d u fp =
    lookup-start_all (starts desired existing) (stop_all (stops desired existing) existing) fp
      (unfold starts in starts-Distinct (λ c. unlike c (lookup c.fingerprint existing)) desired d)
    ∙ settle (wanted desired fp) (lookup fp existing) _ (wanted (starts desired existing) fp)
        stopped (wanted-starts desired existing fp d)
  where
    stopped :
        ((unwanted (wanted desired fp) (lookup fp existing) ≡ false)
          × (lookup fp (stop_all (stops desired existing) existing) ≡ lookup fp existing))
        ⊎ ((unwanted (wanted desired fp) (lookup fp existing) ≡ true)
            × (lookup fp (stop_all (stops desired existing) existing) ≡ none))
    stopped = ground (
      arith,
      lookup-stop_all (stops desired existing) existing fp,
      stops-In desired existing fp u,
      In-stops desired existing fp,
    )
