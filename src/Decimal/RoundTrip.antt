-- ===== src/Decimal/RoundTrip.antt =====
-- What is printed is read back, and prints of different numbers differ.
use dia.Prelude.{
  ℕ, zero, suc, ◌+◌, ◌-◌, ◌*◌, ◌/◌, ◌%◌, ◌≤◌, ◌<◌, ◌≡◌, ◌≢◌, refl, ap, ◌∙◌, inl, inr, [], ◌∷◌, ◌++◌,
  some, arith, Bytes, ltb, All, All-append, Bool-cases,
}
use dia.Decimal.{int_half, digits, format, scan, atoi}

abbrev pub IsDigit : ℕ → Type 0
IsDigit c = (b'0' ≤ c) × (c ≤ b'9')

scan-concat :
    (n m d : ℕ) (s : Bytes)
    → d < 10
    → scan n s ≡ some m
    → scan n (s ++ (b'0' + d) ∷ []) ≡ some (m * 10 + d)
unfolding scan
scan-concat n m d [] h e = ground arith
scan-concat n m d (c ∷ s) h e = ground (arith, scan-concat (n * 10 + (c - b'0')) m d s h)

scan-digits : (fuel n : ℕ) → n < fuel → scan 0 (digits fuel n) ≡ some n
unfolding digits
scan-digits zero n h = elim h [ ]
scan-digits (suc fuel) n h = elim (Bool-cases (ltb n 10)) [
  | inl small ↦ rw small (unfold scan in ground arith)
  | inr large ↦ rw large (
      scan-concat 0 (n / 10) (n % 10) (digits fuel (n / 10)) (omega arith)
        (scan-digits fuel (n / 10) (ground arith))
      ∙ ap some (omega arith))
]

digits-IsDigit : (fuel n : ℕ) → All IsDigit (digits fuel n)
unfolding digits
digits-IsDigit zero n = tt
digits-IsDigit (suc fuel) n = elim (Bool-cases (ltb n 10)) [
  | inl small ↦ rw small (ground arith, tt)
  | inr large ↦ rw large (
      All-append IsDigit (digits fuel (n / 10)) ((b'0' + n % 10) ∷ [])
        (digits-IsDigit fuel (n / 10)) (omega arith, tt))
]

pub format-IsDigit : (n : ℕ) → All IsDigit (format n)
unfolding format
format-IsDigit n = digits-IsDigit (suc n) n

pub scan-format : (n : ℕ) → scan 0 (format n) ≡ some n
unfolding format
scan-format n = scan-digits (suc n) n (omega arith)

-- A nonempty text of digits has no sign, so `Atoi` is the digits' value in range.
atoi_of_scan :
    (n : ℕ) (s : Bytes)
    → s ≢ []
    → All IsDigit s
    → scan 0 s ≡ some n
    → n < int_half
    → atoi s ≡ some n
unfolding atoi
atoi_of_scan n [] ne d e h = absurd (ne refl)
atoi_of_scan n (c ∷ s) ne d e h = ground arith

concat-ne-nil : (s : Bytes) (c : ℕ) → s ++ c ∷ [] ≢ []
concat-ne-nil [] c = λ e. cc
concat-ne-nil (x ∷ s) c = λ e. cc

pub format-ne-nil : (n : ℕ) → format n ≢ []
unfolding format
format-ne-nil n = elim (Bool-cases (ltb n 10)) [
  | inl small ↦ rw small (λ e. cc)
  | inr large ↦ rw large (concat-ne-nil (digits n (n / 10)) (b'0' + n % 10))
]

-- Every number in the range of `int` is read back from its decimal print.
pub atoi-format : (n : ℕ) → n < int_half → atoi (format n) ≡ some n
atoi-format n h = atoi_of_scan n (format n) (format-ne-nil n) (format-IsDigit n) (scan-format n) h

pub format-injective : (m n : ℕ) → format m ≡ format n → m ≡ n
format-injective m n e = ground (arith, scan-format m, scan-format n)
