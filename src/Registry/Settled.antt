-- ===== src/Registry/Settled.antt =====
-- session-registry.ts, `planSessionSet`: planning again after a plan.
use herdr_connect.Common.{
  ◌≡◌, refl, sym, ◌∙◌, Text, In, Distinct, Assoc, lookup, insert, delete, keys, insert-Distinct,
  delete-Distinct, lookup-entry, Bool, false, inl, inr, Option, none, some, List, [], ◌∷◌, select,
  arith,
}
use herdr_connect.Paired.{DeviceCredentials}
use herdr_connect.Registry.{
  wanted, differs, unlike, stops, starts, plan_session_set, stop_all, start_all, reconcile,
}
use herdr_connect.Registry.Reconcile.{
  fingerprints, same_credentials_refl, settled, lookup-reconcile,
}

stop_all-Distinct :
    (fps : List Text) (s : Assoc DeviceCredentials)
    → Distinct (keys s)
    → Distinct (keys (stop_all fps s))
unfolding stop_all
stop_all-Distinct [] s d = d
stop_all-Distinct (fp ∷ fps) s d = stop_all-Distinct fps (delete fp s) (delete-Distinct fp s d)

start_all-Distinct :
    (cs : List DeviceCredentials) (s : Assoc DeviceCredentials)
    → Distinct (keys s)
    → Distinct (keys (start_all cs s))
unfolding start_all
start_all-Distinct [] s d = d
start_all-Distinct (c ∷ cs) s d =
    start_all-Distinct cs (insert c.fingerprint c s) (insert-Distinct c.fingerprint c s d)

reconcile-Distinct :
    (desired : List DeviceCredentials) (s : Assoc DeviceCredentials)
    → Distinct (keys s)
    → Distinct (keys (reconcile desired s))
unfolding reconcile
reconcile-Distinct desired s d =
    start_all-Distinct (plan_session_set desired s).start
      (stop_all (plan_session_set desired s).stop s)
      (stop_all-Distinct (plan_session_set desired s).stop s d)

stops-nil :
    (desired : List DeviceCredentials) (m : Assoc DeviceCredentials)
    → ((fp : Text) (c : DeviceCredentials) → In (fp, c) m → differs (wanted desired fp) c ≡ false)
    → stops desired m ≡ []
unfolding stops
stops-nil desired [] h = refl
stops-nil desired ((fp, c) ∷ m) h =
    rw (h fp c (inl refl), stops) (stops-nil desired m (λ k d i. h k d (inr i)))

select-nil :
    (p : DeviceCredentials → Bool) (cs : List DeviceCredentials)
    → ((c : DeviceCredentials) → In c cs → p c ≡ false)
    → select p cs ≡ []
select-nil p [] h = refl
select-nil p (c ∷ cs) h = rw (h c (inl refl)) (select-nil p cs (λ d i. h d (inr i)))

pub In-fingerprints :
    (c : DeviceCredentials) (cs : List DeviceCredentials)
    → In c cs
    → In c.fingerprint (fingerprints cs)
In-fingerprints c [] h = h
In-fingerprints c (d ∷ ds) h = ground (arith, In-fingerprints c ds)

pub wanted-In :
    (desired : List DeviceCredentials) (c : DeviceCredentials)
    → Distinct (fingerprints desired)
    → In c desired
    → wanted desired c.fingerprint ≡ some c
wanted-In [] c d h = absurd h
wanted-In (x ∷ xs) c d h = ground (arith, wanted-In xs c d.1, In-fingerprints c xs)

settled-differs :
    (w cur : Option DeviceCredentials) (s : DeviceCredentials)
    → settled w cur ≡ some s
    → differs w s ≡ false
settled-differs none cur s h = cc
settled-differs (some c) none s h = ground (arith, same_credentials_refl c)
settled-differs (some c) (some d) s h = ground (arith, same_credentials_refl c)

settled-unlike :
    (c : DeviceCredentials) (cur : Option DeviceCredentials)
    → unlike c (settled (some c) cur) ≡ false
settled-unlike c none = ground (arith, same_credentials_refl c)
settled-unlike c (some d) = ground (arith, same_credentials_refl c)

-- If no two desired instances and no two running sessions share a fingerprint, planning again right
-- after a plan was carried out neither stops nor starts a session.
pub plan_session_set-reconcile :
    (desired : List DeviceCredentials) (existing : Assoc DeviceCredentials)
    → Distinct (fingerprints desired)
    → Distinct (keys existing)
    → plan_session_set desired (reconcile desired existing) ≡ record { stop = []; start = [] }
unfolding plan_session_set
plan_session_set-reconcile desired existing d u =
    λ i. record { stop = none_stopped i; start = none_started i }
  where
    now : Assoc DeviceCredentials
    now = reconcile desired existing

    none_stopped : stops desired now ≡ []
    none_stopped = stops-nil desired now (λ fp c i.
        settled-differs (wanted desired fp) (lookup fp existing) c (
          sym (lookup-reconcile desired existing d u fp)
          ∙ lookup-entry fp c now (reconcile-Distinct desired existing u) i))

    none_started : starts desired now ≡ []
    none_started =
        unfold starts in
        select-nil (λ c. unlike c (lookup c.fingerprint now)) desired
          (λ c i.
            rw (lookup-reconcile desired existing d u c.fingerprint, wanted-In desired c d i)
              (settled-unlike c (lookup c.fingerprint existing)))
