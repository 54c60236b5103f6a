-- ===== src/Registry/Replaced.antt =====
-- session-registry.ts and `syncModel` of connection.tsx: what becomes of each session.
use herdr_connect.Common.{
  ◌≡◌, refl, sym, ap, subst, ◌∙◌, Text, In, Distinct, Assoc, lookup, insert, keys, lookup-insert,
  true, Bool-cases, ◌⊎◌, inl, inr, Option, none, some, List, [], ◌∷◌, ◌++◌, select-In, arith,
}
use herdr_connect.Paired.{DeviceCredentials}
use herdr_connect.Registry.{
  same_credentials, wanted, unlike, stops, starts, plan_session_set, stop_all, overwritten,
  abandoned, sync_sessions,
}
use herdr_connect.Registry.Credentials.{same_credentials-eq}
use herdr_connect.Registry.Reconcile.{
  fingerprints, settled, lookup-reconcile, lookup-stop_all, In-stops, starts-Distinct, unwanted,
}
use herdr_connect.Registry.Settled.{wanted-In, In-fingerprints}

-- The same pairing: all fields but the pinned host.
abbrev pub IsSamePairing : DeviceCredentials → DeviceCredentials → Type 0
IsSamePairing c d = record c { pinned_host = d.pinned_host } ≡ d

-- Which session there is for what is wanted and what there was.
abbrev pub IsSettled :
    Option DeviceCredentials → Option DeviceCredentials → Option DeviceCredentials → Type 0
IsSettled none current now = now ≡ none
IsSettled (some c) none now = now ≡ some c
IsSettled (some c) (some current) now =
    (IsSamePairing c current × (now ≡ some current))
    ⊎ ((¬ IsSamePairing c current) × (now ≡ some c))

settled-IsSettled : (w cur : Option DeviceCredentials) → IsSettled w cur (settled w cur)
settled-IsSettled none cur = refl
settled-IsSettled (some c) none = refl
settled-IsSettled (some c) (some d) = elim (Bool-cases (same_credentials c d)) [
  | inl e ↦ inl ((same_credentials-eq c d).0 e, rw (e) refl)
  | inr e ↦ inr ((λ s. ground (arith, (same_credentials-eq c d).1 s)), rw (e) refl)
]

-- What is started was not running, or was stopped before.
start-none :
    (w cur : Option DeviceCredentials) (c : DeviceCredentials) (stopped : Option DeviceCredentials)
    (P : Type 0)
    → w ≡ some c
    → unlike c cur ≡ true
    → (unwanted w cur ≡ true → P)
    → (((¬ P) × (stopped ≡ cur)) ⊎ (P × (stopped ≡ none)))
    → stopped ≡ none
start-none w none c stopped P e u k (inl (n, h)) = h
start-none w (some d) c stopped P e u k (inl (n, h)) =
    absurd (n (k (ap (λ o. unwanted o (some d)) e ∙ u)))
start-none w cur c stopped P e u k (inr (p, h)) = h

starts-none :
    (desired : List DeviceCredentials) (existing : Assoc DeviceCredentials) (c : DeviceCredentials)
    → Distinct (fingerprints desired)
    → In c (starts desired existing)
    → lookup c.fingerprint (stop_all (stops desired existing) existing) ≡ none
unfolding starts
starts-none desired existing c d i =
    let (j, u) = select-In (λ c. unlike c (lookup c.fingerprint existing)) c desired i in
    start-none (wanted desired c.fingerprint) (lookup c.fingerprint existing) c _ _
      (wanted-In desired c d j) u (In-stops desired existing c.fingerprint)
      (lookup-stop_all (stops desired existing) existing c.fingerprint)

abandoned-nil :
    (cs : List DeviceCredentials) (s : Assoc DeviceCredentials)
    → Distinct (fingerprints cs)
    → ((c : DeviceCredentials) → In c cs → lookup c.fingerprint s ≡ none)
    → abandoned cs s ≡ []
unfolding abandoned
abandoned-nil [] s d h = refl
abandoned-nil (c ∷ cs) s d h =
    ap (λ o. overwritten o ++ abandoned cs (insert c.fingerprint c s)) (h c (inl refl))
    ∙ abandoned-nil cs (insert c.fingerprint c s) d.1 (λ x i.
      ground
        (arith, lookup-insert c.fingerprint x.fingerprint c s, h x (inr i), In-fingerprints x cs i))

-- If no two desired instances and no two running sessions share a fingerprint, then after a sync each
-- fingerprint has the session that it should have: none if the instance is gone, the running one if
-- its credentials differ in no field but the pinned host, and one with the new ones otherwise; and
-- every session that is replaced was stopped before, so that none runs on out of reach.
pub sync_sessions-IsSettled :
    (desired : List DeviceCredentials) (existing : Assoc DeviceCredentials)
    → Distinct (fingerprints desired)
    → Distinct (keys existing)
    → ((fp : Text)
        → IsSettled
            (wanted desired fp)
            (lookup fp existing)
            (lookup fp (sync_sessions desired existing).sessions))
      × ((sync_sessions desired existing).out_of_reach ≡ [])
unfolding sync_sessions plan_session_set
sync_sessions-IsSettled desired existing d u = (
  λ fp.
      subst (IsSettled (wanted desired fp) (lookup fp existing))
        (sym (lookup-reconcile desired existing d u fp))
        (settled-IsSettled (wanted desired fp) (lookup fp existing)),
  abandoned-nil (starts desired existing) (stop_all (stops desired existing) existing)
      (unfold starts in starts-Distinct (λ c. unlike c (lookup c.fingerprint existing)) desired d)
      (λ c i. starts-none desired existing c d i),
)
