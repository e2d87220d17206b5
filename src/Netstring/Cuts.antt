-- ===== src/Netstring/Cuts.antt =====
-- The prefixes of a text with a separator.
use dia.Prelude.{
  ℕ, ◌≤◌, ◌<◌, ◌≡◌, ◌≢◌, refl, ap, ◌∙◌, ◌⊎◌, inl, inr, [], ◌∷◌, ◌++◌, none, some, arith, Bytes,
  length, All,
}
use dia.Decimal.RoundTrip.{IsDigit}
use dia.Netstring.{index_byte}

-- A prefix of `h ++ b ∷ r`: it ends within `h`, or holds `h` and the byte `b`.
pub data Cut (b : ℕ) (h r s x : Bytes) : Type 0 where
  inside : index_byte s b ≡ none → length s ≤ length h → Cut b h r s x
  past :
      (t : Bytes) → s ≡ h ++ (b ∷ t) → t ++ x ≡ r → index_byte s b ≡ some (length h) → Cut b h r s x

Cut-cons : (b c : ℕ) (h r s x : Bytes) → c ≢ b → Cut b h r s x → Cut b (c ∷ h) r (c ∷ s) x
unfolding index_byte
Cut-cons b c h r s x ne (inside e l) = inside (ground arith) (omega arith)
Cut-cons b c h r s x ne (past t e f i) = past t (ap (◌∷◌ c) e) f (ground arith)

pub cut : (b : ℕ) (h r s x : Bytes) → All (λ c. c ≢ b) h → s ++ x ≡ h ++ (b ∷ r) → Cut b h r s x
cut b h r [] x d e = inside (unfold index_byte in refl) (omega arith)
cut b [] r (c ∷ s) x d e = past s (cc) (cc) (unfold index_byte in ground arith)
cut b (c ∷ h) r (c' ∷ s) x (n, d) e =
    let same : c' ≡ c = cc in
    let rest : s ++ x ≡ h ++ (b ∷ r) = cc in rw same (Cut-cons b c h r s x n (cut b h r s x d rest))

-- A prefix of `p ++ q`: it is shorter than `p`, or holds it.
pub split_prefix :
    (p q s x : Bytes)
    → s ++ x ≡ p ++ q
    → (length s < length p) ⊎ ((t : Bytes) × (s ≡ p ++ t) × (t ++ x ≡ q))
split_prefix [] q s x e = inr (s, refl, e)
split_prefix (c ∷ p) q [] x e = inl (omega arith)
split_prefix (c ∷ p) q (c' ∷ s) x e =
    let rest : s ++ x ≡ p ++ q = cc in
    let same : c' ≡ c = cc in
    elim (split_prefix p q s x rest) [
      | inl l ↦ inl (omega arith)
      | inr (t, f, g) ↦ inr (t, ap (λ l. c' ∷ l) f ∙ ap (λ d. d ∷ (p ++ t)) same, g)
    ]

pub digits_no_colon : (s : Bytes) → All IsDigit s → All (λ c. c ≢ b':') s
digits_no_colon [] d = tt
digits_no_colon (c ∷ s) d = (omega arith, digits_no_colon s d.1)
