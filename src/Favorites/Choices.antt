-- ===== src/Favorites/Choices.antt =====
-- agent-favorites.ts: toggling, pruning, and what is stored.
use herdr_connect.Common.{
  ◌≡◌, refl, sym, ap, Text, ◌is◌, false, not, ◌&&◌, ◌||◌, Option, some, List, [], ◌∷◌, ◌++◌, any,
  select, arith, if◌then◌else◌, ◌>>=◌,
}
use herdr_connect.Json.{Json, str, arr, to_list, JsonText, RoundTrips, RejectsEmpty}
use herdr_connect.Paired.{truthy}
use herdr_connect.Keychain.Orphans.{NonEmpty}
use herdr_connect.Favorites.{
  is_favorite_source_id, toggle_favorite_source_id, take_ids, ids_of, ids_json,
  parse_favorite_source_ids, serialize_favorite_source_ids,
}

favorite-append :
    (xs ys : List Text) (t : Text)
    → is_favorite_source_id (xs ++ ys) t
      ≡ (is_favorite_source_id xs t || is_favorite_source_id ys t)
favorite-append [] ys t = refl
favorite-append (x ∷ xs) ys t = ground (arith, favorite-append xs ys t)

favorite-without :
    (xs : List Text) (id t : Text)
    → is_favorite_source_id (select (λ c. not (c is id)) xs) t
      ≡ (is_favorite_source_id xs t && not (t is id))
favorite-without [] id t = refl
favorite-without (x ∷ xs) id t = ground (arith, favorite-without xs id t)

-- Toggling an agent turns whether it is a favourite, and no other agent's.
pub toggle_favorite_source_id-turns :
    (favorites : List Text) (id t : Text)
    → is_favorite_source_id (toggle_favorite_source_id favorites id) t ≡ (
        if t is id
        then not (is_favorite_source_id favorites t)
        else is_favorite_source_id favorites t)
unfolding toggle_favorite_source_id
toggle_favorite_source_id-turns favorites id t =
    ground (arith, favorite-append favorites (id ∷ []) t, favorite-without favorites id t)

-- The ids that are read are proper strings, and none of them was seen before.
abbrev pub Fresh : List Text → List Text → Type 0
Fresh seen [] = Unit
Fresh seen (id ∷ ids) = (any (λ x. x is id) seen ≡ false) × NonEmpty id × Fresh (id ∷ seen) ids

take_ids-ids_json :
    (seen ids : List Text) → Fresh seen ids → take_ids seen (to_list (ids_json ids)) ≡ ids
unfolding take_ids
take_ids-ids_json seen [] h = refl
take_ids-ids_json seen (id ∷ ids) (new, proper, h) =
    rw (new, proper) (ap (◌∷◌ id) (take_ids-ids_json (id ∷ seen) ids h))

take_ids-Fresh : (seen : List Text) (items : List Json) → Fresh seen (take_ids seen items)
unfolding take_ids
take_ids-Fresh seen [] = tt
take_ids-Fresh seen (str id ∷ items) =
    ground (arith, take_ids-Fresh seen items, take_ids-Fresh (id ∷ seen) items)
take_ids-Fresh seen (_ ∷ items) = take_ids-Fresh seen items

ids_of-Fresh : (o : Option Json) → Fresh [] (ids_of o)
ids_of-Fresh (some (arr items)) = take_ids-Fresh [] (to_list items)
ids_of-Fresh _ = tt

module _ (json : JsonText) where
  truthy-parsed : (s : Text) → RejectsEmpty json → (truthy (some s) >>= json.parse) ≡ json.parse s
  truthy-parsed [] h = sym h
  truthy-parsed (c ∷ s) h = refl

  parse-serialize_lem :
      (ids : List Text)
      → Fresh [] ids
      → RejectsEmpty json
      → RoundTrips json (arr (ids_json ids))
      → parse_favorite_source_ids json (some (serialize_favorite_source_ids json ids)) ≡ ids
  unfolding parse_favorite_source_ids serialize_favorite_source_ids
  parse-serialize_lem ids h blank round =
      rw (truthy-parsed (json.stringify (arr (ids_json ids))) blank, round)
        (take_ids-ids_json [] ids h)

  -- Favourites that are read are proper, distinct ids, and are written so that the same are read
  -- again, if the JSON text of their list is read back and the empty string is no JSON text.
  pub parse-serialize :
      (raw : Option Text)
      → RejectsEmpty json
      → RoundTrips json (arr (ids_json (parse_favorite_source_ids json raw)))
      → Fresh [] (parse_favorite_source_ids json raw)
        × (parse_favorite_source_ids json
              (some (serialize_favorite_source_ids json (parse_favorite_source_ids json raw)))
            ≡ parse_favorite_source_ids json raw)
  parse-serialize raw blank round =
      let h : Fresh [] (parse_favorite_source_ids json raw) =
        unfold parse_favorite_source_ids in ids_of-Fresh (truthy raw >>= json.parse) in
      (h, parse-serialize_lem (parse_favorite_source_ids json raw) h blank round)
