-- ===== src/Json/Merge.antt =====
-- The laws of a map's fields.
use providerapi.Prelude.{String, ◌≡◌, refl, none, some, arith, ◌==◌, eq_iff, if◌then◌else◌}
use providerapi.Json.{Json, Fields, end, field, get_field, put_field, remove_field}

pub get_field-put_field :
    (k j : String) (v : Json) (m : Fields)
    → get_field j (put_field k v m) ≡ (if k == j then some v else get_field j m)
unfolding get_field put_field
get_field-put_field k j v end = refl
get_field-put_field k j v (field i w m) =
    ground (arith, eq_iff k j, eq_iff i k, eq_iff i j, get_field-put_field k j v m)

pub get_field-remove_field :
    (k j : String) (m : Fields)
    → get_field j (remove_field k m) ≡ (if k == j then none else get_field j m)
unfolding get_field remove_field
get_field-remove_field k j end = ground arith
get_field-remove_field k j (field i v m) =
    ground (arith, get_field-remove_field k j m, eq_iff i k, eq_iff i j, eq_iff k j)

-- No two fields have one key.
abbrev pub IsMap : Fields → Type 0
IsMap end = Unit
IsMap (field k v m) = (get_field k m ≡ none) × IsMap m
