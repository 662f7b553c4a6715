-- ===== src/Json.antt =====
-- JSON values as Go's encoding/json decodes them into `any`, and the maps among them. A number keeps its
-- literal. An object is a list of fields with at most one field for each key.
pub mod Merge
use providerapi.Prelude.{
  String, Bool, true, false, ◌||◌, ◌&&◌, Option, none, some, List, [], ◌∷◌, map, ◌==◌, eqb, leb, ℕ,
  ◌+◌, if◌then◌else◌,
}
use providerapi.Text.{codes, same_codes}

mutual
  pub data Json : Type 0 where
    null : Json
    bool : Bool → Json
    num : String → Json
    str : String → Json
    arr : Items → Json
    obj : Fields → Json

  pub data Items : Type 0 where
    nil : Items
    cons : Json → Items → Items

  pub data Fields : Type 0 where
    end : Fields
    field : String → Json → Fields → Fields

-- m[k] of a map[string]any
unfoldable pub get_field : String → Fields → Option Json
get_field k end = none
get_field k (field j v m) = if j == k then some v else get_field k m

-- m[k] = v
unfoldable pub put_field : String → Json → Fields → Fields
put_field k v end = field k v end
put_field k v (field j w m) = if j == k then field k v m else field j w (put_field k v m)

-- delete(m, k)
unfoldable pub remove_field : String → Fields → Fields
remove_field k end = end
remove_field k (field j v m) =
    let rest = remove_field k m in if j == k then rest else field j v rest

-- The key that encoding/json compares with a struct's field: case is folded.
abbrev pub fold_code : ℕ → ℕ
fold_code c =
    if leb b'A' c && leb c b'Z'
    then c + 32
    else if eqb c 0x212a
    then b'k'
    else if eqb c 0x17f
    then b's'
    else c

abbrev pub same_fold : String → String → Bool
same_fold s t = same_codes (map fold_code (codes s)) (map fold_code (codes t))

-- The value that reaches a struct's field `k`: of the keys that fold to it the last.
unfoldable pub struct_field : String → Fields → Option Json
struct_field k end = none
struct_field k (field j v m) = elim (struct_field k m) [
  | some w ↦ some w
  | none ↦ if same_fold j k then some v else none
]

-- Decoding into a struct's field of type `string`: null and a missing key leave it empty, any other
-- value than a text is an error.
abbrev pub string_field : Option Json → Option String
string_field none = some ""
string_field (some null) = some ""
string_field (some (str s)) = some s
string_field (some _) = none

abbrev pub items_of : List Json → Items
items_of [] = nil
items_of (v ∷ vs) = cons v (items_of vs)

abbrev pub list_of : Items → List Json
list_of nil = []
list_of (cons v vs) = v ∷ list_of vs
