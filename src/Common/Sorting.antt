-- ===== src/Common/Sorting.antt =====
-- `Array.prototype.sort` with a comparator, and a fold that keeps the least element. The sort is
-- stable; it is modelled by insertion, whose result any stable sort has for a consistent comparator.
use mathlib.Core.Path.{◌≡◌, refl}
use mathlib.Core.Logic.{◌⊎◌, inl, inr}
use mathlib.Core.Bool.{Bool, true, false}
use mathlib.Core.List.{List, [], ◌∷◌, Perm}
use mathlib.Core.List.Perm
use native.Mathlib.Omega.{arith}
use herdr_connect.Common.Tests.{if◌then◌else◌, Bool-cases}
use herdr_connect.Common.Lists.{In, All}

module _ {A : Type 0} (before : A → A → Bool) where
  unfoldable pub place : A → List A → List A
  place x [] = x ∷ []
  place x (y ∷ ys) = if before y x then y ∷ place x ys else x ∷ y ∷ ys

  unfoldable pub sort : List A → List A
  unfolding place
  sort [] = []
  sort (x ∷ xs) = place x (sort xs)

  place-perm : (x : A) (ys : List A) → Perm (place x ys) (x ∷ ys)
  unfolding place
  place-perm x [] = Perm.refl (x ∷ [])
  place-perm x (y ∷ ys) = elim (Bool-cases (before y x)) [
    | inl e ↦ rw e (Perm.trans (Perm.cons y (place-perm x ys)) (Perm.swap x y ys))
    | inr e ↦ rw e (Perm.refl (x ∷ y ∷ ys))
  ]

  pub sort-perm : (xs : List A) → Perm (sort xs) xs
  unfolding sort
  sort-perm [] = Perm.refl []
  sort-perm (x ∷ xs) = Perm.trans (place-perm x (sort xs)) (Perm.cons x (sort-perm xs))

  -- Nothing later in the list goes before something earlier.
  abbrev pub IsSorted : List A → Type 0
  IsSorted [] = Unit {0}
  IsSorted (x ∷ xs) = All (λ y. before y x ≡ false) xs × IsSorted xs

  place-All : (P : A → Type 0) (x : A) (ys : List A) → P x → All P ys → All P (place x ys)
  unfolding place
  place-All P x [] p h = (p, tt)
  place-All P x (y ∷ ys) p (q, h) = ground (arith, place-All P x ys p h)

  pub place-In : (a x : A) (ys : List A) → In a (place x ys) → (a ≡ x) ⊎ In a ys
  unfolding place
  place-In a x [] h = h
  place-In a x (y ∷ ys) h = ground (arith, place-In a x ys)

  pub In-place : (a x : A) (ys : List A) → (a ≡ x) ⊎ In a ys → In a (place x ys)
  unfolding place
  In-place a x [] h = h
  In-place a x (y ∷ ys) h = ground (arith, In-place a x ys)

  pub sort-In : (a : A) (xs : List A) → In a (sort xs) → In a xs
  unfolding sort
  sort-In a [] h = h
  sort-In a (x ∷ xs) h = ground (arith, place-In a x (sort xs) h, sort-In a xs)

  pub In-sort : (a : A) (xs : List A) → In a xs → In a (sort xs)
  unfolding sort
  In-sort a [] h = h
  In-sort a (x ∷ xs) (inl e) = In-place a x (sort xs) (inl e)
  In-sort a (x ∷ xs) (inr h) = In-place a x (sort xs) (inr (In-sort a xs h))

  -- `xs.reduce((best, current) => …)`, keeping what goes before.
  unfoldable pub least : A → List A → A
  least best [] = best
  least best (x ∷ xs) = least (if before x best then x else best) xs

  pub least-In : (best : A) (xs : List A) → In (least best xs) (best ∷ xs)
  unfolding least
  least-In best [] = inl refl
  least-In best (x ∷ xs) = ground (arith, least-In (if before x best then x else best) xs)

  module _ (asym : (a b : A) → before a b ≡ true → before b a ≡ false)
      (neg_trans : (a b c : A) → before a b ≡ false → before b c ≡ false → before a c ≡ false) where
    below :
        (x y : A) (zs : List A)
        → before y x ≡ false
        → All (λ z. before z y ≡ false) zs
        → All (λ z. before z x ≡ false) zs
    below x y [] e h = tt
    below x y (z ∷ zs) e (k, h) = (neg_trans z y x k e, below x y zs e h)

    place-IsSorted : (x : A) (ys : List A) → IsSorted ys → IsSorted (place x ys)
    unfolding place
    place-IsSorted x [] h = (tt, tt)
    place-IsSorted x (y ∷ ys) (h, s) = elim (Bool-cases (before y x)) [
      | inl e ↦
          rw e (place-All (λ z. before z y ≡ false) x ys (asym y x e) h, place-IsSorted x ys s)
      | inr e ↦ rw e ((e, below x y ys e h), (h, s))
    ]

    pub sort-IsSorted : (xs : List A) → IsSorted (sort xs)
    unfolding sort
    sort-IsSorted [] = tt
    sort-IsSorted (x ∷ xs) = place-IsSorted x (sort xs) (sort-IsSorted xs)

    -- The result is no later than the start value, nor than anything in the list.
    pub least-first :
        (best : A) (xs : List A) (y : A) → In y (best ∷ xs) → before y (least best xs) ≡ false
    unfolding least
    least-first best [] y m = ground (arith, asym best best)
    least-first best (x ∷ xs) y m = ground (
      arith,
      asym x best,
      least-first x xs y,
      least-first best xs y,
      neg_trans best x (least x xs),
      neg_trans x best (least best xs),
      least-first x xs x (inl refl),
      least-first best xs best (inl refl),
    )
