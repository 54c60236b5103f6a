-- ===== src/Favorites.antt =====
-- agent-favorites.ts: the favourite agents of an instance, a list of source ids in order.
pub mod Choices
use herdr_connect.Common.{
  ◌==◌, Text, ◌is◌, is_empty, Bool, true, false, not, ◌||◌, Option, none, some, List, [], ◌∷◌, ◌++◌,
  any, select, length, if◌then◌else◌, ◌>>=◌,
}
use herdr_connect.Json.{Json, Items, nil, cons, str, arr, to_list, JsonText}
use herdr_connect.Paired.{truthy}

abbrev pub is_favorite_source_id : List Text → Text → Bool
is_favorite_source_id favorites source_id = any (λ x. x is source_id) favorites

unfoldable pub toggle_favorite_source_id : List Text → Text → List Text
toggle_favorite_source_id favorites source_id =
    if not (is_favorite_source_id favorites source_id)
    then favorites ++ (source_id ∷ [])
    else select (λ candidate. not (candidate is source_id)) favorites

abbrev pub still_live : List Text → List Text → List Text
still_live live favorites = select (λ source_id. any (λ x. x is source_id) live) favorites

unfoldable pub prune_favorite_source_ids : List Text → List Text → List Text
prune_favorite_source_ids favorites live =
    if (length live == 0) || (length favorites == 0)
    then favorites
    else if length (still_live live favorites) == length favorites
    then favorites
    else still_live live favorites

-- The loop of `parseFavoriteSourceIds`; `seen` has the ids that were taken.
unfoldable pub take_ids : List Text → List Json → List Text
take_ids seen [] = []
take_ids seen (str id ∷ items) =
    let skipped = take_ids seen items in
    let taken = take_ids (id ∷ seen) items in
    if is_empty id || any (λ x. x is id) seen then skipped else id ∷ taken
take_ids seen (_ ∷ items) = take_ids seen items

abbrev pub ids_of : Option Json → List Text
ids_of (some (arr items)) = take_ids [] (to_list items)
ids_of _ = []

abbrev pub ids_json : List Text → Items
ids_json [] = nil
ids_json (id ∷ ids) = cons (str id) (ids_json ids)

module _ (json : JsonText) where
  unfoldable pub parse_favorite_source_ids : Option Text → List Text
  unfolding take_ids
  parse_favorite_source_ids raw = ids_of (truthy raw >>= json.parse)

  unfoldable pub serialize_favorite_source_ids : List Text → Text
  serialize_favorite_source_ids favorites = json.stringify (arr (ids_json favorites))
