-- ===== src/Discovery/Candidates.antt =====
-- Which services are probed, in which order, and which address of one is used.
use herdr_connect.Common.{
  ℕ, ◌≡◌, refl, Text, ◌is◌, In, Assoc, lookup, Bool, true, false, Bool-cases, ◌⊎◌, inl, inr, Option,
  none, some, List, [], ◌∷◌, ◌++◌, select, first, arith,
}
use herdr_connect.Paired.{PinnedHost}
use herdr_connect.Discovery.{
  DiscoveredService, service_key, sort_out, select_candidates, pinned_service, order_candidates,
  is_ipv4, head?, preferred_address,
}

-- The service was verified to belong to the fingerprint.
abbrev pub is_associated : Text → Assoc Text → DiscoveredService → Bool
is_associated fp associations s = elim (lookup (service_key s) associations) [
  | none ↦ false
  | some owner ↦ owner is fp
]

-- Nothing is known of whom the service belongs to.
abbrev pub is_unverified : Assoc Text → DiscoveredService → Bool
is_unverified associations s = elim (lookup (service_key s) associations) [
  | none ↦ true
  | some _ ↦ false
]

sort_out-select :
    (services : List DiscoveredService) (fp : Text) (associations : Assoc Text)
    → sort_out services fp associations ≡ (
      select (is_associated fp associations) services,
      select (is_unverified associations) services,
    )
unfolding sort_out
sort_out-select [] fp associations = refl
sort_out-select (s ∷ services) fp associations =
    ground (arith, sort_out-select services fp associations)

abbrev pub pinned_part : ℕ → Option PinnedHost → List DiscoveredService
pinned_part object none = []
pinned_part object (some p) = pinned_service object p ∷ []

-- The candidates are the pinned address, then the verified services in the order of discovery,
-- then the unverified ones in theirs; a service verified for another instance is none.
pub order_candidates_lem :
    (object : ℕ) (services : List DiscoveredService) (fp : Text) (associations : Assoc Text)
    (pinned : Option PinnedHost)
    → order_candidates object services fp associations pinned
      ≡ pinned_part object pinned
        ++ (select (is_associated fp associations) services
            ++ select (is_unverified associations) services)
unfolding order_candidates select_candidates
order_candidates_lem object services fp associations none =
    rw (sort_out-select services fp associations)
order_candidates_lem object services fp associations (some p) =
    rw (sort_out-select services fp associations)

first-cases :
    (p : Text → Bool) (xs : List Text)
    → ((first p xs ≡ none) × ((x : Text) → In x xs → p x ≡ false))
      ⊎ ((x : Text) × (first p xs ≡ some x) × In x xs × (p x ≡ true))
first-cases p [] = inl (refl, (λ x h. absurd h))
first-cases p (x ∷ xs) = elim (Bool-cases (p x)) [
  | inl e ↦ inr (x, rw e refl, inl refl, e)
  | inr e ↦ elim (first-cases p xs) [
    | inl (n, h) ↦ inl (rw e n, (λ y m. elim m [ inl same ↦ rw same e | inr m' ↦ h y m' ]))
    | inr (y, f, m, q) ↦ inr (y, rw e f, inr m, q)
  ]
]

-- An address is chosen unless there is none; it is one of the given, and an IPv4 address if any
-- of the given is.
pub preferred_address-choice :
    (addresses : List Text)
    → ((preferred_address addresses ≡ none) × (addresses ≡ []))
      ⊎ ((a : Text) × (preferred_address addresses ≡ some a)
          × In a addresses
          × ((is_ipv4 a ≡ true) ⊎ ((b : Text) → In b addresses → is_ipv4 b ≡ false)))
unfolding preferred_address
preferred_address-choice addresses = elim (first-cases is_ipv4 addresses) [
  | inl (n, h) ↦ rw (n, preferred_address) (fallback addresses h)
  | inr (a, e, m, q) ↦ inr (a, rw (e, preferred_address) refl, m, inl q)
]
  where
    fallback :
        (xs : List Text)
        → ((b : Text) → In b xs → is_ipv4 b ≡ false)
        → ((head? xs ≡ none) × (xs ≡ []))
          ⊎ ((a : Text) × (head? xs ≡ some a)
              × In a xs
              × ((is_ipv4 a ≡ true) ⊎ ((b : Text) → In b xs → is_ipv4 b ≡ false)))
    fallback [] h = inl (refl, refl)
    fallback (a ∷ xs) h = inr (a, refl, inl refl, inr h)
