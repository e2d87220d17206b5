-- ===== src/Decimal/Accepts.antt =====
-- The texts that `Atoi` accepts.
use dia.Prelude.{
  ℕ, ◌+◌, ◌-◌, ◌*◌, ◌<◌, ◌≡◌, ◌≢◌, Bool, true, false, [], ◌∷◌, Option, none, some, inl, inr, arith,
  Bytes, ◌==◌, All, Bool-cases,
}
use dia.Decimal.{int_mod, scan, scan_digits, signed, atoi}

abbrev pub NotComma : ℕ → Type 0
NotComma c = c ≢ b','

scan-NotComma : (s : Bytes) (n v : ℕ) → scan n s ≡ some v → All NotComma s
unfolding scan
scan-NotComma [] n v e = tt
scan-NotComma (c ∷ s) n v e = ground (arith, scan-NotComma s (n * 10 + (c - b'0')) v)

scan_digits-NotComma : (s : Bytes) (v : ℕ) → scan_digits s ≡ some v → All NotComma s
unfolding scan_digits
scan_digits-NotComma [] v e = tt
scan_digits-NotComma (c ∷ s) v e = scan-NotComma (c ∷ s) 0 v e

-- A signed text is in range if its digits have a value.
signed-some :
    (g : Bool) (o : Option ℕ) (v : ℕ) → signed g o ≡ some v → (w : ℕ) × (o ≡ some w) × (v < int_mod)
unfolding signed
signed-some g none v e = cc
signed-some g (some w) v e = (w, cc, ground arith)

-- What `Atoi` accepts holds no comma, and its value is a 64-bit pattern.
pub atoi-some : (s : Bytes) (v : ℕ) → atoi s ≡ some v → All NotComma s × (v < int_mod)
unfolding atoi
atoi-some [] v e = cc
atoi-some (c ∷ s) v e = elim (Bool-cases (c == b'-')) [
  | inl minus ↦
      let (w, h, l) = signed-some true (scan_digits s) v (ground arith) in
      ((ground arith, scan_digits-NotComma s w h), l)
  | inr other ↦ elim (Bool-cases (c == b'+')) [
    | inl plus ↦
        let (w, h, l) = signed-some false (scan_digits s) v (ground arith) in
        ((ground arith, scan_digits-NotComma s w h), l)
    | inr digit ↦
        let (w, h, l) = signed-some false (scan_digits (c ∷ s)) v (ground arith) in
        (scan_digits-NotComma (c ∷ s) w h, l)
  ]
]
