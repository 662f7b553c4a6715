-- ===== src/Text/Words.antt =====
-- strings.Fields: the words of a text.
use Prim.Native.Char.{code}
use providerapi.Prelude.{String, Bool, true, false, List, [], ◌∷◌, if◌then◌else◌}
use providerapi.Text.{is_space, ◌<>◌}

abbrev starts_word : String → Bool
starts_word String.[] = false
starts_word (String.◌∷◌ c s) = if is_space (code c) then false else true

abbrev lengthen : String → List String → List String
lengthen c [] = c ∷ []
lengthen c (w ∷ ws) = (c <> w) ∷ ws

-- strings.Fields
unfoldable pub fields : String → List String
fields String.[] = []
fields (String.◌∷◌ c s) =
    let rest = fields s in
    let one = String.◌∷◌ c String.[] in
    if is_space (code c) then rest else if starts_word s then lengthen one rest else one ∷ rest
