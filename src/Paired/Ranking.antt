-- ===== src/Paired/Ranking.antt =====
-- paired-instances.ts: `mostRecentInstance` and `listInstances`.
use mathlib.Core.Option.{get_or}
use herdr_connect.Common.{
  ◌≡◌, refl, sym, ap, Text, text_lt_asym, text_lt_neg_trans, text_lt_total, In, lookup, values,
  true, false, inl, inr, Option, none, some, List, [], ◌∷◌, ℤ, ltb_ℤ, least-In, least-first, least,
  sort, sort-IsSorted, sort-In, In-sort, IsSorted, All-In, ◌∙◌, arith, fun_ext,
}
use herdr_connect.Paired.{
  DeviceCredentials, PairedInstancesModel, more_recent, most_recent_of, most_recent_instance,
  listed_before, list_instances,
}
use herdr_connect.Paired.Invariant.{IsValid, lookup-In-values}

ltb_ℤ-asym : (a b : ℤ) → ltb_ℤ a b ≡ true → ltb_ℤ b a ≡ false
ltb_ℤ-asym a b h = ground arith

abbrev head? : List DeviceCredentials → Option DeviceCredentials
head? [] = none
head? (c ∷ cs) = some c

module _ (date_parse : Text → Option ℤ) where
  more_recent-eq :
      (a b : DeviceCredentials) → listed_before date_parse a b ≡ more_recent date_parse a b
  unfolding listed_before more_recent
  more_recent-eq a b = ground arith

  more_recent-asym :
      (a b : DeviceCredentials)
      → more_recent date_parse a b ≡ true
      → more_recent date_parse b a ≡ false
  unfolding more_recent
  more_recent-asym a b h = ground (arith, text_lt_asym a.fingerprint b.fingerprint)

  more_recent-neg_trans :
      (a b c : DeviceCredentials)
      → more_recent date_parse a b ≡ false
      → more_recent date_parse b c ≡ false
      → more_recent date_parse a c ≡ false
  unfolding more_recent
  more_recent-neg_trans a b c h k =
      ground (arith, text_lt_neg_trans a.fingerprint b.fingerprint c.fingerprint)

  more_recent-total :
      (a b : DeviceCredentials)
      → more_recent date_parse a b ≡ false
      → more_recent date_parse b a ≡ false
      → a.fingerprint ≡ b.fingerprint
  unfolding more_recent
  more_recent-total a b h k = ground (arith, text_lt_total a.fingerprint b.fingerprint)

  -- Entries with one fingerprint are one entry.
  abbrev AreUnique : List DeviceCredentials → Type 0
  AreUnique vs =
      (a b : DeviceCredentials) → In a vs → In b vs → a.fingerprint ≡ b.fingerprint → a ≡ b

  values-AreUnique : (m : PairedInstancesModel) → IsValid m → AreUnique (values m.instances)
  values-AreUnique m v a b ia ib e =
      ap (λ o. get_or o a)
        (sym (lookup-In-values a m.instances v.keyed v.distinct ia)
          ∙ ap (λ k. lookup k m.instances) e
          ∙ lookup-In-values b m.instances v.keyed v.distinct ib)

  head-sorted :
      (x : DeviceCredentials) (xs s : List DeviceCredentials)
      → AreUnique (x ∷ xs)
      → IsSorted (more_recent date_parse) s
      → ((y : DeviceCredentials) → In y s → In y (x ∷ xs))
      → In (least (more_recent date_parse) x xs) s
      → head? s ≡ some (least (more_recent date_parse) x xs)
  head-sorted x xs [] u sorted within m = absurd m
  head-sorted x xs (h ∷ t) u sorted within (inl e) = ap some (sym e)
  head-sorted x xs (h ∷ t) u (below, sorted) within (inr m) =
      let best = least (more_recent date_parse) x xs in
      let first : more_recent date_parse h best ≡ false =
        least-first (more_recent date_parse) more_recent-asym more_recent-neg_trans x xs h
          (within h (inl refl)) in
      let later : more_recent date_parse best h ≡ false =
        All-In (λ y. more_recent date_parse y h ≡ false) best t below m in
      ap some (
        u h best (within h (inl refl)) (within best (inr m)) (more_recent-total h best first later))

  head-sort :
      (vs : List DeviceCredentials)
      → AreUnique vs
      → head? (sort (more_recent date_parse) vs) ≡ most_recent_of date_parse vs
  unfolding most_recent_of
  head-sort [] u = unfold sort in refl
  head-sort (x ∷ xs) u =
      head-sorted x xs (sort (more_recent date_parse) (x ∷ xs)) u
        (sort-IsSorted (more_recent date_parse) more_recent-asym more_recent-neg_trans (x ∷ xs))
        (λ y. sort-In (more_recent date_parse) y (x ∷ xs))
        (In-sort (more_recent date_parse) _ (x ∷ xs) (least-In (more_recent date_parse) x xs))

  -- In a valid model the list of instances starts with the most recent instance.
  pub list_instances-head :
      (m : PairedInstancesModel)
      → IsValid m
      → head? (list_instances date_parse m) ≡ most_recent_instance date_parse m
  unfolding list_instances most_recent_instance
  list_instances-head m v =
      rw (fun_ext (λ a. fun_ext (more_recent-eq a)))
        (head-sort (values m.instances) (values-AreUnique m v))
