-- ===== src/Sources/Json.antt =====
-- The JSON values that orjson gives, as src/procurement_parser/infrastructure/sources/zakup_sk reads
-- them: a float is its text, an object has one entry for a key. `str`, `lower`, `upper` and `strip` of
-- Python, `Decimal` and `datetime.fromisoformat`, and the digests are a record of functions.
use Prim.Native.String
use govpars.Prelude.{
  ℕ, zero, String, Bool, true, false, not, ◌&&◌, ◌||◌, Option, List, [], ◌∷◌, ◌++◌, str_eq,
  if◌then◌else◌,
}
use govpars.Prelude.Int.{ℤ, pos}
use govpars.Domain.Models.{Payload}

mutual
  pub data Json : Type 0 where
    null : Json
    boolean : Bool → Json
    integer : ℤ → Json
    float : String → Json
    text : String → Json
    array : Items → Json
    object : Fields → Json

  pub data Items : Type 0 where
    no_items : Items
    item : Json → Items → Items

  pub data Fields : Type 0 where
    no_fields : Fields
    field : String → Json → Fields → Fields

-- Python's functions on values and texts; `none` is an `InvalidOperation` or a `ValueError`, and of
-- `int_of_digits` that `isdigit` is false.
pub record Python : Type 0 where
  pub str_of : Json → String
  pub lower : String → String
  pub upper : String → String
  pub strip : String → String
  pub decimal : String → Option String
  pub from_iso_format : String → Option ℕ
  pub dumps : Json → String
  pub guess_type : String → Option String
  pub int_of_digits : String → Option ℕ

-- `bool(value)`
unfoldable pub truthy : Json → Bool
truthy null = false
truthy (boolean b) = b
truthy (integer (pos zero)) = false
truthy (integer _) = true
truthy (float f) = not (str_eq f "0.0" || str_eq f "-0.0")
truthy (text t) = not (str_eq t "")
truthy (array no_items) = false
truthy (array (item _ _)) = true
truthy (object no_fields) = false
truthy (object (field _ _ _)) = true

-- `value in (None, "", [])`
unfoldable pub is_blank : Json → Bool
is_blank null = true
is_blank (text t) = str_eq t ""
is_blank (array no_items) = true
is_blank _ = false

-- `data.get(key)`
unfoldable pub get : Fields → String → Json
get no_fields key = null
get (field k v fs) key = if str_eq k key then v else get fs key

-- `data.get(key, default)`
unfoldable pub get_or : Fields → String → Json → Json
get_or no_fields key default = default
get_or (field k v fs) key default = if str_eq k key then v else get_or fs key default

-- `_pick`
unfoldable pub pick : Fields → List String → Json
unfolding is_blank get
pick fs [] = null
pick fs (key ∷ keys) = let rest = pick fs keys in if is_blank (get fs key) then rest else get fs key

-- The dictionary's entries, each value serialised.
unfoldable pub payload_of : (Json → String) → Fields → Payload
payload_of dumps no_fields = []
payload_of dumps (field k v fs) = (k, dumps v) ∷ payload_of dumps fs

-- `isinstance(item, dict)` for the items of a list
unfoldable pub dicts : Items → List Fields
dicts no_items = []
dicts (item (object fs) rest) = fs ∷ dicts rest
dicts (item _ rest) = dicts rest

-- `_walk_dicts`: every dictionary of the value, the outer first.
unfoldable mutual
  pub walk : Json → List Fields
  walk (object fs) = fs ∷ walk_fields fs
  walk (array xs) = walk_items xs
  walk _ = []

  pub walk_fields : Fields → List Fields
  walk_fields no_fields = []
  walk_fields (field k v fs) = walk v ++ walk_fields fs

  pub walk_items : Items → List Fields
  walk_items no_items = []
  walk_items (item v xs) = walk v ++ walk_items xs

-- What `_items` finds in a value: the dictionaries of a list, or those that it finds in a dictionary.
pub data Found : Type 0 where
  listed nested : List Fields → Found
  neither : Found

abbrev item_keys : List String
item_keys = "content" ∷ "items" ∷ "data" ∷ "results" ∷ "result" ∷ []

abbrev found_at : List (String × Found) → String → Found
found_at [] key = neither
found_at ((k, f) ∷ fs) key = if str_eq k key then f else found_at fs key

-- The loop over the keys: a list is taken as it is, a dictionary if it has some item.
unfoldable pub first_found : List (String × Found) → List String → List Fields
first_found table [] = []
first_found table (key ∷ keys) =
    let rest = first_found table keys in
    elim (found_at table key) [
      | listed fs ↦ fs
      | nested [] ↦ rest
      | nested (f ∷ fs) ↦ f ∷ fs
      | neither ↦ rest
    ]

unfoldable mutual
  pub found : Json → Found
  found (array xs) = listed (dicts xs)
  found (object fs) = nested (first_found (found_fields fs) item_keys)
  found _ = neither

  pub found_fields : Fields → List (String × Found)
  found_fields no_fields = []
  found_fields (field k v fs) = (k, found v) ∷ found_fields fs

-- `_items`
unfoldable pub items : Json → List Fields
unfolding found
items payload = elim (found payload) [ listed fs ↦ fs | nested fs ↦ fs | neither ↦ [] ]

-- Python's `sub in s`
unfoldable pub starts_with : String → String → Bool
starts_with String.[] s = true
starts_with (String.◌∷◌ c sub) String.[] = false
starts_with (String.◌∷◌ c sub) (String.◌∷◌ d s) =
    str_eq (String.◌∷◌ c String.[]) (String.◌∷◌ d String.[]) && starts_with sub s

unfoldable pub contains : String → String → Bool
contains sub String.[] = starts_with sub String.[]
contains sub (String.◌∷◌ d s) = starts_with sub (String.◌∷◌ d s) || contains sub s

-- `sep.join(parts)`
unfoldable pub join : String → List String → String
join sep [] = ""
join sep (p ∷ []) = p
join sep (p ∷ q ∷ ps) = String.◌++◌ p (String.◌++◌ sep (join sep (q ∷ ps)))
