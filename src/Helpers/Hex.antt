-- ===== src/Helpers/Hex.antt =====
-- What is encoded is decoded, and chunks are put together without loss.
use dia.Prelude.{
  ℕ, zero, suc, ◌+◌, ◌-◌, ◌/◌, ◌%◌, ◌<◌, ◌≡◌, refl, sym, ap, ◌∙◌, List, [], ◌∷◌, ◌++◌, append_assoc,
  some, arith, Bytes, length, length-append, All,
}
use dia.Helpers.{
  zeros, copy, copy_at, min, total, copy_in, concat_bytes, encode_to_hex, hex_digit, hex_value,
  decode_hex,
}

hex_value-hex_digit : (n : ℕ) → n < 16 → hex_value (hex_digit n) ≡ some n
unfolding hex_value
hex_value-hex_digit n h = ground arith

-- Bytes are decoded from their hexadecimal text.
pub decode_hex-encode_to_hex :
    (bs : Bytes) → All (λ b. b < 256) bs → decode_hex (encode_to_hex bs) ≡ some bs
unfolding decode_hex encode_to_hex
decode_hex-encode_to_hex [] h = refl
decode_hex-encode_to_hex (b ∷ bs) (h, hs) =
    rw
      (
        hex_value-hex_digit (b / 16) (omega arith),
        hex_value-hex_digit (b % 16) (omega arith),
        decode_hex-encode_to_hex bs hs,
      )
      (ap (λ x. some (x ∷ bs)) (omega arith))

unfoldable pub concat : List Bytes → Bytes
concat [] = []
concat (c ∷ cs) = c ++ concat cs

length-zeros : (n : ℕ) → length (zeros n) ≡ n
unfolding zeros
length-zeros zero = refl
length-zeros (suc n) = ap suc (length-zeros n)

copy-nil : (xs : Bytes) → copy xs [] ≡ xs
unfolding copy
copy-nil [] = refl
copy-nil (x ∷ xs) = refl

copy-zeros : (c : Bytes) (n m : ℕ) → m ≡ length c + n → copy (zeros m) c ≡ c ++ zeros n
unfolding zeros copy
copy-zeros [] n m e = copy-nil (zeros m) ∙ ap zeros (omega (arith, e))
copy-zeros (b ∷ c) n zero e = absurd (omega (arith, e))
copy-zeros (b ∷ c) n (suc m) e = ap (◌∷◌ b) (copy-zeros c n m (omega (arith, e)))

copy_at-zeros :
    (done c : Bytes) (n : ℕ)
    → copy_at (length done) (done ++ zeros (length c + n)) c ≡ done ++ (c ++ zeros n)
unfolding copy_at
copy_at-zeros [] c n = copy-zeros c n (length c + n) refl
copy_at-zeros (d ∷ done) c n = ap (◌∷◌ d) (copy_at-zeros done c n)

copied : (i l n c : ℕ) → l ≡ i + (c + n) → i + min (l - i) c ≡ i + c
copied i l n c e = ground arith

-- Putting chunks together behind what is done.
copy_in-zeros :
    (done : Bytes) (cs : List Bytes) (i : ℕ) (out : Bytes)
    → i ≡ length done
    → out ≡ done ++ zeros (total cs)
    → copy_in i out cs ≡ done ++ concat cs
unfolding copy_in total concat
copy_in-zeros done [] i out e f = f ∙ (unfold zeros in refl)
copy_in-zeros done (c ∷ cs) i out e f =
    let whole : length out ≡ length done + (length c + total cs) =
      ap length f
      ∙ length-append done (zeros (length c + total cs))
      ∙ ap (λ x. length done + x) (length-zeros (length c + total cs)) in
    copy_in-zeros (done ++ c) cs (i + min (length out - i) (length c)) (copy_at i out c)
      (copied i (length out) (total cs) (length c) (omega (arith, e, whole))
        ∙ omega (arith, e, length-append done c))
      (rw (e, f) (copy_at-zeros done c (total cs) ∙ sym (append_assoc done c (zeros (total cs)))))
    ∙ append_assoc done c (concat cs)

-- The chunks are put together one behind the other, and nothing is cut off.
pub concat_bytes-concat : (chunks : List Bytes) → concat_bytes chunks ≡ concat chunks
unfolding concat_bytes
concat_bytes-concat chunks = copy_in-zeros [] chunks 0 (zeros (total chunks)) refl refl
