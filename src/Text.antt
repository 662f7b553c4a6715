-- ===== src/Text.antt =====
-- What the program uses of Go's `strings` and `bytes`. A text is a native `String`; where the program
-- looks into a text, it looks at the code points. Lower case is exact for every comparison with an
-- ASCII text: of the letters beyond ASCII only U+0130 and U+212A have an ASCII lower case, and every
-- other is left as it is.
pub mod Decimal
pub mod Order
pub mod Words
use Prim.Native.Char.{code}
use Prim.Native.String
use providerapi.Prelude.{
  ℕ, ◌+◌, String, Bool, true, false, ◌&&◌, ◌||◌, List, [], ◌∷◌, map, leb, ltb, eqb, if◌then◌else◌,
}

abbrev pub codes : String → List ℕ
codes String.[] = []
codes (String.◌∷◌ c s) = code c ∷ codes s

abbrev pub is_empty : String → Bool
is_empty String.[] = true
is_empty (String.◌∷◌ c s) = false

abbrev pub lower_code : ℕ → ℕ
lower_code c =
    if leb b'A' c && leb c b'Z'
    then c + 32
    else if eqb c 0x130
    then b'i'
    else if eqb c 0x212a
    then b'k'
    else c

-- strings.ToLower
unfoldable pub to_lower : String → List ℕ
to_lower s = map lower_code (codes s)

abbrev pub same_codes : List ℕ → List ℕ → Bool
same_codes [] [] = true
same_codes (a ∷ s) (b ∷ t) = eqb a b && same_codes s t
same_codes _ _ = false

-- strings.HasPrefix: `t` is a prefix of `s`
abbrev pub has_prefix : List ℕ → List ℕ → Bool
has_prefix s [] = true
has_prefix [] (b ∷ t) = false
has_prefix (a ∷ s) (b ∷ t) = eqb a b && has_prefix s t

-- strings.Contains
abbrev pub contains : List ℕ → List ℕ → Bool
contains [] t = has_prefix [] t
contains (a ∷ s) t = has_prefix (a ∷ s) t || contains s t

-- strings.ReplaceAll, of one character by another
abbrev pub replace_all : ℕ → ℕ → List ℕ → List ℕ
replace_all a b = map (λ c. if eqb c a then b else c)

-- unicode.IsSpace
abbrev pub is_space : ℕ → Bool
is_space c =
    (leb 9 c && leb c 13)
    || eqb c 32
    || eqb c 0x85
    || eqb c 0xa0
    || eqb c 0x1680
    || (leb 0x2000 c && leb c 0x200a)
    || eqb c 0x2028
    || eqb c 0x2029
    || eqb c 0x202f
    || eqb c 0x205f
    || eqb c 0x3000

-- strings.TrimLeftFunc and strings.TrimRightFunc
unfoldable pub trim_left : (ℕ → Bool) → String → String
trim_left p String.[] = String.[]
trim_left p (String.◌∷◌ c s) = if p (code c) then trim_left p s else String.◌∷◌ c s

unfoldable pub trim_right : (ℕ → Bool) → String → String
trim_right p String.[] = String.[]
trim_right p (String.◌∷◌ c s) =
    let rest = trim_right p s in
    if p (code c) && is_empty rest then String.[] else String.◌∷◌ c rest

-- strings.TrimSpace
unfoldable pub trim_space : String → String
unfolding trim_left trim_right
trim_space s = trim_left is_space (trim_right is_space s)

-- strings.TrimPrefix: the text behind the prefix `t`, or the whole text
abbrev pub after_prefix : String → List ℕ → String → String
after_prefix whole [] s = s
after_prefix whole (b ∷ t) String.[] = whole
after_prefix whole (b ∷ t) (String.◌∷◌ c s) =
    if eqb (code c) b then after_prefix whole t s else whole

abbrev pub trim_prefix : String → String → String
trim_prefix s t = after_prefix s (codes t) s

infixr 65 ◌<>◌
abbrev pub ◌<>◌ : String → String → String
s <> t = String.◌++◌ s t

-- The order of texts: by bytes, which for UTF-8 is by code points.
abbrev pub lt_codes : List ℕ → List ℕ → Bool
lt_codes [] [] = false
lt_codes [] (b ∷ t) = true
lt_codes (a ∷ s) [] = false
lt_codes (a ∷ s) (b ∷ t) = if ltb a b then true else if ltb b a then false else lt_codes s t

abbrev pub text_before : String → String → Bool
text_before s t = lt_codes (codes s) (codes t)
