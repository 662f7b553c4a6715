-- ===== src/Compat/Body/Merge.antt =====
-- plugins/openai-compat/main.go: what deepMerge does to each key, and what the patch of a reasoning level
-- cannot change in a body.
use providerapi.Prelude.{
  String, ◌≡◌, refl, Option, none, some, List, [], arith, eq_iff, if◌then◌else◌,
}
use providerapi.Json.{Json, obj, Fields, end, field, get_field, put_field}
use providerapi.Json.Merge.{get_field-put_field, IsMap}
use providerapi.Compat.Body.{is_listed, over_existing, deep_merge}

-- What is at a key: what was there, what the patch has, or for two maps their merge.
abbrev pub merged : Option Json → Option Json → Option Json
merged old none = old
merged (some (obj a)) (some (obj b)) = some (obj (deep_merge [] a b))
merged old (some v) = some v

-- the value that one round of the loop writes
abbrev written : Option Json → Json → Json
written old (obj b) = over_existing (λ a. deep_merge [] a b) b old
written old v = v

merged-written : (old : Option Json) (v : Json) → merged old (some v) ≡ some (written old v)
merged-written (some (obj a)) (obj b) = refl
merged-written (some (obj a)) _ = refl
merged-written _ v = ground arith

abbrev round : List String → String → Json → Fields → Fields
round guarded j v dst =
    if is_listed j guarded then dst else put_field j (written (get_field j dst) v) dst

get_field-merge_step :
    (guarded : List String) (dst src : Fields) (k j : String) (v : Json)
    → get_field j src ≡ none
    → get_field k (deep_merge guarded (round guarded j v dst) src) ≡ (
        if is_listed k guarded
        then get_field k (round guarded j v dst)
        else merged (get_field k (round guarded j v dst)) (get_field k src))
    → get_field k (deep_merge guarded (round guarded j v dst) src) ≡ (
        if is_listed k guarded
        then get_field k dst
        else merged (get_field k dst) (get_field k (field j v src)))
unfolding get_field
get_field-merge_step guarded dst src k j v new ih = ground (
  arith,
  eq_iff j k,
  get_field-put_field j k (written (get_field j dst) v) dst,
  merged-written (get_field j dst) v,
)

-- At a key that is not guarded, deepMerge leaves what the two maps have there, merged; a guarded key keeps what it had.
pub get_field-deep_merge :
    (guarded : List String) (dst src : Fields) (k : String)
    → IsMap src
    → get_field k (deep_merge guarded dst src) ≡ (
        if is_listed k guarded then get_field k dst else merged (get_field k dst) (get_field k src))
unfolding deep_merge
get_field-deep_merge guarded dst end k m = ground arith
get_field-deep_merge guarded dst (field j (obj b) src) k (new, m) =
    get_field-merge_step guarded dst src k j (obj b) new
      (get_field-deep_merge guarded (round guarded j (obj b) dst) src k m)
get_field-deep_merge guarded dst (field j v src) k (new, m) =
    get_field-merge_step guarded dst src k j v new
      (get_field-deep_merge guarded (round guarded j v dst) src k m)
