-- ===== src/Decimal.antt =====
-- `fmt.Sprintf("%d", n)` at a length or a counter, and `strconv.Atoi`.
-- An `int` is its 64-bit two's complement pattern, a number below 2 ^ 64.
pub mod RoundTrip
pub mod Accepts
use dia.Prelude.{
  ℕ, zero, suc, ◌+◌, ◌-◌, ◌*◌, ◌/◌, ◌%◌, ◌^◌, ◌≡◌, refl, Bool, ◌||◌, List, [], ◌∷◌, ◌++◌, Option,
  none, some, Bytes, codes, ltb, leb, ◌==◌, if◌then◌else◌,
}

abbrev pub int_mod : ℕ
int_mod = 2 ^ 64

abbrev pub int_half : ℕ
int_half = 2 ^ 63

-- The digits of `n` most significant first; `suc n` rounds of fuel are more than its digits.
digits : ℕ → ℕ → Bytes
digits zero n = []
digits (suc fuel) n =
    let more = digits fuel (n / 10) ++ (b'0' + n % 10) ∷ [] in
    if ltb n 10 then (b'0' + n) ∷ [] else more

unfoldable pub format : ℕ → Bytes
unfolding digits
format n = digits (suc n) n

-- The value that decimal digits spell behind `n`, with no bound yet.
unfoldable pub scan : ℕ → Bytes → Option ℕ
scan n [] = some n
scan n (c ∷ s) = if ltb c b'0' || ltb b'9' c then none else scan (n * 10 + (c - b'0')) s

-- An empty digit string is a syntax error.
unfoldable pub scan_digits : Bytes → Option ℕ
unfolding scan
scan_digits [] = none
scan_digits (c ∷ s) = scan 0 (c ∷ s)

-- Range errors: a positive number is below 2 ^ 63, a negative one at least -2 ^ 63.
signed : Bool → Option ℕ → Option ℕ
signed negative none = none
signed negative (some v) =
    if negative
    then (if ltb int_half v then none else some ((int_mod - v) % int_mod))
    else (if ltb v int_half then some v else none)

unfoldable pub atoi : Bytes → Option ℕ
unfolding scan_digits signed
atoi [] = none
atoi (c ∷ s) =
    if c == b'-'
    then signed Bool.true (scan_digits s)
    else if c == b'+'
    then signed Bool.false (scan_digits s)
    else signed Bool.false (scan_digits (c ∷ s))

format_120 : format 120 ≡ codes "120"
unfolding format
format_120 = refl

atoi_signs : (atoi (codes "-5") ≡ some (int_mod - 5)) × (atoi (codes "+07") ≡ some 7)
unfolding atoi
atoi_signs = (refl, refl)

atoi_errors : (atoi (codes "") ≡ none) × (atoi (codes "9223372036854775808") ≡ none)
unfolding atoi
atoi_errors = (refl, refl)
