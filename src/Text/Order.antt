-- ===== src/Text/Order.antt =====
-- The order of texts is one that a sort can use.
use providerapi.Prelude.{String, ◌≡◌, refl, true, false, List, [], ◌∷◌, ℕ, arith}
use providerapi.Text.{codes, lt_codes, text_before}

lt_codes_asym : (s t : List ℕ) → lt_codes s t ≡ true → lt_codes t s ≡ false
lt_codes_asym [] [] h = refl
lt_codes_asym [] (b ∷ t) h = refl
lt_codes_asym (a ∷ s) [] h = ground arith
lt_codes_asym (a ∷ s) (b ∷ t) h = ground (arith, lt_codes_asym s t)

not_lt_codes_trans :
    (s t u : List ℕ) → lt_codes s t ≡ false → lt_codes t u ≡ false → lt_codes s u ≡ false
not_lt_codes_trans [] [] [] h k = refl
not_lt_codes_trans [] [] (c ∷ u) h k = k
not_lt_codes_trans [] (b ∷ t) u h k = ground arith
not_lt_codes_trans (a ∷ s) t [] h k = refl
not_lt_codes_trans (a ∷ s) [] (c ∷ u) h k = ground arith
not_lt_codes_trans (a ∷ s) (b ∷ t) (c ∷ u) h k = ground (arith, not_lt_codes_trans s t u)

pub text_before_asym : (s t : String) → text_before s t ≡ true → text_before t s ≡ false
text_before_asym s t h = lt_codes_asym (codes s) (codes t) h

pub not_text_before_trans :
    (s t u : String) → text_before s t ≡ false → text_before t u ≡ false → text_before s u ≡ false
not_text_before_trans s t u h k = not_lt_codes_trans (codes s) (codes t) (codes u) h k
