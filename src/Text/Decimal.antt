-- ===== src/Text/Decimal.antt =====
-- What the program uses of encoding/json's integers: the decimal text of a number, and the number of a text. An
-- `int` of Go has 64 bits. A text with a sign stands for no number here: no status that the program makes is
-- negative.
use Prim.Native.Char.{Char, code}
use providerapi.Prelude.{
  ℕ, zero, suc, ◌+◌, ◌-◌, ◌*◌, ◌/◌, ◌%◌, ◌^◌, ◌≤◌, ◌<◌, String, false, true, ◌&&◌, Option, none,
  some, ◌≡◌, refl, ap, leb, eqb, arith, if◌then◌else◌,
}
use providerapi.Text.{is_empty}

abbrev pub max_int : ℕ
max_int = 2 ^ 63 - 1

abbrev digit : ℕ → Char
digit zero = "0"
digit (suc zero) = "1"
digit (suc (suc zero)) = "2"
digit (suc (suc (suc zero))) = "3"
digit (suc (suc (suc (suc zero)))) = "4"
digit (suc (suc (suc (suc (suc zero))))) = "5"
digit (suc (suc (suc (suc (suc (suc zero)))))) = "6"
digit (suc (suc (suc (suc (suc (suc (suc zero))))))) = "7"
digit (suc (suc (suc (suc (suc (suc (suc (suc zero)))))))) = "8"
digit (suc (suc (suc (suc (suc (suc (suc (suc (suc n))))))))) = "9"

-- The digits of `n` before `out`; a number has at most as many digits as it is large.
unfoldable emit : ℕ → ℕ → String → String
emit zero n out = out
emit (suc k) n out =
    let rest = emit k (n / 10) (String.◌∷◌ (digit (n % 10)) out) in if eqb n 0 then out else rest

unfoldable pub print_int : ℕ → String
unfolding emit
print_int zero = "0"
print_int (suc k) = emit (suc k) (suc k) ""

unfoldable scan : String → ℕ → Option ℕ
scan String.[] n = some n
scan (String.◌∷◌ c s) n =
    let rest = scan s (n * 10 + (code c - b'0')) in
    if leb b'0' (code c) && leb (code c) b'9' then rest else none

abbrev fits : Option ℕ → Option ℕ
fits none = none
fits (some n) = if leb n max_int then some n else none

unfoldable pub parse_int : String → Option ℕ
unfolding scan
parse_int s = if is_empty s then none else fits (scan s 0)

code-digit : (d : ℕ) → d < 10 → code (digit d) ≡ b'0' + d
code-digit zero h = refl
code-digit (suc zero) h = refl
code-digit (suc (suc zero)) h = refl
code-digit (suc (suc (suc zero))) h = refl
code-digit (suc (suc (suc (suc zero)))) h = refl
code-digit (suc (suc (suc (suc (suc zero))))) h = refl
code-digit (suc (suc (suc (suc (suc (suc zero)))))) h = refl
code-digit (suc (suc (suc (suc (suc (suc (suc zero))))))) h = refl
code-digit (suc (suc (suc (suc (suc (suc (suc (suc zero)))))))) h = refl
code-digit (suc (suc (suc (suc (suc (suc (suc (suc (suc zero))))))))) h = refl
code-digit (suc (suc (suc (suc (suc (suc (suc (suc (suc (suc n)))))))))) h = absurd (omega arith)

digit_in_range : (d : ℕ) → d < 10 → (leb b'0' (b'0' + d) && leb (b'0' + d) b'9') ≡ true
digit_in_range d h = ground arith

tens_and_ones : (n : ℕ) → n / 10 * 10 + (b'0' + n % 10 - b'0') ≡ n
tens_and_ones n = omega arith

scan_last : (n : ℕ) (out : String) → scan (String.◌∷◌ (digit (n % 10)) out) (n / 10) ≡ scan out n
unfolding scan
scan_last n out =
    let small : n % 10 < 10 = omega arith in
    rw (code-digit (n % 10) small, digit_in_range (n % 10) small, tens_and_ones n) refl

scan-emit : (k n : ℕ) (out : String) → n ≤ k → scan (emit k n out) 0 ≡ scan out n
unfolding emit
scan-emit zero n out h = ap (scan out) (omega arith)
scan-emit (suc k) n out h =
    grind (arith, scan_last n out, scan-emit k (n / 10) (String.◌∷◌ (digit (n % 10)) out))

is_empty-emit : (k n : ℕ) (out : String) → is_empty out ≡ false → is_empty (emit k n out) ≡ false
unfolding emit
is_empty-emit zero n out h = h
is_empty-emit (suc k) n out h =
    ground (arith, h, is_empty-emit k (n / 10) (String.◌∷◌ (digit (n % 10)) out) refl)

fits-some : (n : ℕ) → n ≤ max_int → fits (some n) ≡ some n
fits-some n h = ground arith

parse_int-scan :
    (s : String) (n : ℕ)
    → is_empty s ≡ false
    → scan s 0 ≡ some n
    → n ≤ max_int
    → parse_int s ≡ some n
unfolding parse_int
parse_int-scan s n there read h = rw (there, read) (fits-some n h)

print_int-suc : (k : ℕ) → print_int (suc k) ≡ emit (suc k) (suc k) ""
unfolding print_int
print_int-suc k = refl

is_empty-emit-suc : (k : ℕ) → is_empty (emit (suc k) (suc k) "") ≡ false
unfolding emit
is_empty-emit-suc k =
    ground (arith, is_empty-emit k (suc k / 10) (String.◌∷◌ (digit (suc k % 10)) "") refl)

parse_int-print_zero : parse_int (print_int 0) ≡ some 0
unfolding parse_int print_int scan
parse_int-print_zero = refl

-- An int that is not negative is read back from its decimal text.
pub parse_int-print_int : (n : ℕ) → n ≤ max_int → parse_int (print_int n) ≡ some n
unfolding scan
parse_int-print_int zero h = parse_int-print_zero
parse_int-print_int (suc k) h = rw (print_int-suc k) (
    parse_int-scan (emit (suc k) (suc k) "") (suc k) (is_empty-emit-suc k)
      (scan-emit (suc k) (suc k) "" (omega arith)) h)
