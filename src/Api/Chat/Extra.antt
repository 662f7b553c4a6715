-- ===== src/Api/Chat/Extra.antt =====
-- internal/api/openai.go: which of a request's fields parseChatRequest passes on as extra ones.
use providerapi.Prelude.{String, ◌≡◌, refl, none, List, [], ◌∷◌, arith, any, ◌==◌, if◌then◌else◌}
use providerapi.Dict.{Dict, get, remove, get-remove}
use providerapi.Json.{Json}
use providerapi.Api.Chat.{known_keys, remove_all, extra_of}

get-remove_all :
    {V : Type 0} (k : String) (ks : List String) (m : Dict V)
    → get k (remove_all ks m) ≡ (if any (λ j. j == k) ks then none else get k m)
unfolding remove_all
get-remove_all k [] m = refl
get-remove_all k (j ∷ ks) m = ground (arith, get-remove_all k ks (remove j m), get-remove j k m)

-- The extra fields of a request are its fields under every key that the request type does not know, with
-- their values, and no others.
get-extra_of :
    (k : String) (all_ : Dict Json)
    → get k (extra_of all_) ≡ (if any (λ j. j == k) known_keys then none else get k all_)
unfolding extra_of
get-extra_of k all_ = get-remove_all k known_keys all_
