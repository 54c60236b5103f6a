-- ===== src/Json.antt =====
-- The values that `JSON.parse` gives, and the run-time type tests that the parsers make on them
-- (`typeof`, `Array.isArray`, `Number.isInteger` and the `isRecord` helpers).
use herdr_connect.Common.{
  ◌≡◌, ℕ, suc, ◌+◌, ◌^◌, Text, ◌is◌, Bool, true, Option, none, some, List, [], ◌∷◌, ltb,
  if◌then◌else◌, ℤ, pos, negsuc,
}

-- A double: an integer, m / 2 ^ (k + 1) for odd m, or a value that is not finite.
pub data Number : Type 0 where
  integer : ℤ → Number
  dyadic : ℤ → ℕ → Number
  infinite : Bool → Number
  nan : Number

mutual
  pub data Json : Type 0 where
    null : Json
    bool : Bool → Json
    num : Number → Json
    str : Text → Json
    arr : Items → Json
    obj : Fields → Json

  pub data Items : Type 0 where
    nil : Items
    cons : Json → Items → Items

  pub data Fields : Type 0 where
    end : Fields
    field : Text → Json → Fields → Fields

-- A property that is missing is `none`. The fields of a parsed object have different names.
unfoldable pub get : Text → Fields → Option Json
get k end = none
get k (field j v fs) = if j is k then some v else get k fs

abbrev pub to_list : Items → List Json
to_list nil = []
to_list (cons j js) = j ∷ to_list js

abbrev pub as_text : Option Json → Option Text
as_text (some (str s)) = some s
as_text _ = none

abbrev pub as_bool : Option Json → Option Bool
as_bool (some (bool b)) = some b
as_bool _ = none

abbrev pub as_number : Option Json → Option Number
as_number (some (num n)) = some n
as_number _ = none

abbrev pub as_items : Option Json → Option (List Json)
as_items (some (arr xs)) = some (to_list xs)
as_items _ = none

-- `typeof value === "object" && value !== null && !Array.isArray(value)`
abbrev pub as_record : Json → Option Fields
as_record (obj fs) = some fs
as_record _ = none

-- `Number.isInteger(n) && n > 0`
abbrev pub as_positive : Number → Option ℕ
as_positive (integer (pos (suc n))) = some (suc n)
as_positive _ = none

-- `!Number.isFinite(n) || n < 1`
abbrev pub below_one : Number → Bool
below_one (integer (pos n)) = ltb n 1
below_one (integer (negsuc n)) = true
below_one (dyadic (pos m) k) = ltb m (2 ^ (k + 1))
below_one (dyadic (negsuc m) k) = true
below_one (infinite b) = true
below_one nan = true

-- The engine's `JSON.parse`, with `none` where it throws, and `JSON.stringify`.
pub record JsonText : Type 0 where
  pub parse : Text → Option Json
  pub stringify : Json → Text

-- What is relied on: a value is read back from its text, and the empty string is no JSON text.
abbrev pub RoundTrips : JsonText → Json → Type 0
RoundTrips json j = json.parse (json.stringify j) ≡ some j

abbrev pub RejectsEmpty : JsonText → Type 0
RejectsEmpty json = json.parse [] ≡ none
