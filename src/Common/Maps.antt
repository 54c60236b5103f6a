-- ===== src/Common/Maps.antt =====
-- A JavaScript `Map`, or an object used as one: entries in the order of first insertion. A write
-- to a key that is there keeps its place; a new key goes to the end.
use mathlib.Core.Path.{◌≡◌, refl, sym, ap}
use mathlib.Core.Logic.{◌≢◌, ◌⊎◌, inl, inr}
use mathlib.Core.Option.{Option, none, some}
use mathlib.Core.List.{List, [], ◌∷◌, ◌++◌}
use native.Mathlib.Omega.{arith}
use herdr_connect.Common.Tests.{if◌then◌else◌}
use herdr_connect.Common.Lists.{In, Distinct}
use herdr_connect.Common.Strings.{Text, Text-discrete, ◌is◌}

abbrev pub Assoc {ℓ} : Type ℓ → Type ℓ
Assoc V = List (Text × V)

module _ {ℓ} {V : Type ℓ} where
  unfoldable pub lookup : Text → Assoc V → Option V
  lookup k [] = none
  lookup k ((j, v) ∷ m) = if j is k then some v else lookup k m

  unfoldable pub insert : Text → V → Assoc V → Assoc V
  insert k v [] = (k, v) ∷ []
  insert k v ((j, w) ∷ m) = if j is k then (j, v) ∷ m else (j, w) ∷ insert k v m

  unfoldable pub delete : Text → Assoc V → Assoc V
  delete k [] = []
  delete k ((j, w) ∷ m) = if j is k then delete k m else (j, w) ∷ delete k m

  abbrev pub keys : Assoc V → List Text
  keys [] = []
  keys ((j, w) ∷ m) = j ∷ keys m

  abbrev pub values : Assoc V → List V
  values [] = []
  values ((j, w) ∷ m) = w ∷ values m

  pub lookup-insert :
      (k j : Text) (v : V) (m : Assoc V)
      → lookup j (insert k v m) ≡ (if k is j then some v else lookup j m)
  unfolding lookup insert
  lookup-insert k j v [] = refl
  lookup-insert k j v ((i, w) ∷ m) = ground (arith, lookup-insert k j v m)

  pub lookup-delete :
      (k j : Text) (m : Assoc V) → lookup j (delete k m) ≡ (if k is j then none else lookup j m)
  unfolding lookup delete
  lookup-delete k j [] = ground arith
  lookup-delete k j ((i, w) ∷ m) = ground (arith, lookup-delete k j m)

  pub keys-insert-In :
      (k j : Text) (v : V) (m : Assoc V) → In j (keys (insert k v m)) → (j ≡ k) ⊎ In j (keys m)
  unfolding insert
  keys-insert-In k j v [] h = h
  keys-insert-In k j v ((i, w) ∷ m) h = ground (arith, keys-insert-In k j v m)

  pub keys-delete-In :
      (k j : Text) (m : Assoc V) → In j (keys (delete k m)) → In j (keys m) × (j ≢ k)
  unfolding delete
  keys-delete-In k j [] h = absurd h
  keys-delete-In k j ((i, w) ∷ m) h = ground (arith, keys-delete-In k j m)

  pub insert-Distinct :
      (k : Text) (v : V) (m : Assoc V) → Distinct (keys m) → Distinct (keys (insert k v m))
  unfolding insert
  insert-Distinct k v [] d = ((λ h. h), tt)
  insert-Distinct k v ((i, w) ∷ m) d =
      ground (arith, insert-Distinct k v m d.1, keys-insert-In k i v m)

  pub delete-Distinct : (k : Text) (m : Assoc V) → Distinct (keys m) → Distinct (keys (delete k m))
  unfolding delete
  delete-Distinct k [] d = tt
  delete-Distinct k ((i, w) ∷ m) d = ground (arith, delete-Distinct k m d.1, keys-delete-In k i m)

  pub lookup-none_of_not_In : (k : Text) (m : Assoc V) → ¬ In k (keys m) → lookup k m ≡ none
  unfolding lookup
  lookup-none_of_not_In k [] h = refl
  lookup-none_of_not_In k ((i, w) ∷ m) h = ground (arith, lookup-none_of_not_In k m)

  pub lookup-some_of_In : (k : Text) (m : Assoc V) → In k (keys m) → (v : V) × (lookup k m ≡ some v)
  unfolding lookup
  lookup-some_of_In k [] h = absurd h
  lookup-some_of_In k ((i, w) ∷ m) h = elim (Text-discrete i k) [
    | yes e ↦ (w, ground arith)
    | no n ↦ elim h [ inl e ↦ absurd (n (sym e)) | inr t ↦ later n (lookup-some_of_In k m t) ]
  ]
    where
      later : i ≢ k → (v : V) × (lookup k m ≡ some v) → (v : V) × (lookup k ((i, w) ∷ m) ≡ some v)
      later n (v, e) = (v, ground arith)

  pub In-lookup : (k : Text) (m : Assoc V) → lookup k m ≢ none → In k (keys m)
  unfolding lookup
  In-lookup k [] h = h refl
  In-lookup k ((i, w) ∷ m) h = ground (arith, In-lookup k m)

  pub In-keys-insert :
      (k j : Text) (v : V) (m : Assoc V) → (j ≡ k) ⊎ In j (keys m) → In j (keys (insert k v m))
  unfolding insert
  In-keys-insert k j v [] h = h
  In-keys-insert k j v ((i, w) ∷ m) h = ground (arith, In-keys-insert k j v m)

  pub In-keys-delete : (k j : Text) (m : Assoc V) → In j (keys m) → j ≢ k → In j (keys (delete k m))
  unfolding delete
  In-keys-delete k j [] h n = h
  In-keys-delete k j ((i, w) ∷ m) h n = ground (arith, In-keys-delete k j m)

pub lookup-In-values :
    {V : Type 0} (k : Text) (m : Assoc V) (v : V) → lookup k m ≡ some v → In v (values m)
unfolding lookup
lookup-In-values k [] v h = cc
lookup-In-values k ((i, w) ∷ m) v h = ground (arith, lookup-In-values k m v)

pub In-entry-keys : {V : Type 0} (k : Text) (v : V) (m : Assoc V) → In (k, v) m → In k (keys m)
In-entry-keys k v [] h = absurd h
In-entry-keys k v ((i, w) ∷ m) (inl e) = inl (ap (λ p. p.0) e)
In-entry-keys k v ((i, w) ∷ m) (inr h) = inr (In-entry-keys k v m h)

pub lookup-entry :
    {V : Type 0} (k : Text) (v : V) (m : Assoc V)
    → Distinct (keys m)
    → In (k, v) m
    → lookup k m ≡ some v
unfolding lookup
lookup-entry k v [] d h = absurd h
lookup-entry k v ((i, w) ∷ m) d (inl e) =
    ground (arith, ap {B = Text} (λ p. p.0) e, ap {B = _} (λ p. p.1) e)
lookup-entry k v ((i, w) ∷ m) d (inr h) =
    ground (arith, lookup-entry k v m d.1 h, In-entry-keys k v m h)

pub keys-append-In :
    {V : Type 0} (j k : Text) (v : V) (m : Assoc V)
    → In j (keys (m ++ ((k, v) ∷ [])))
    → In j (keys m) ⊎ (j ≡ k)
keys-append-In j k v [] h = ground arith
keys-append-In j k v ((i, w) ∷ m) h = ground (arith, keys-append-In j k v m)
