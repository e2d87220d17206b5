-- ===== src/Phone/Laws.antt =====
-- A phone number is read back from the URI that is made of it.
use dia.Prelude.{
  ◌≡◌, refl, ap, ◌∙◌, true, [], ◌∷◌, ◌++◌, arith, Bytes, codes, All, inl, inr, Bool-cases,
}
use dia.Phone.{
  starts_with, trim_prefix, cut_before, is_phone_char, keep_phone, extract_phone, format_sip_uri,
}

-- Only digits and plus signs.
abbrev pub IsPhone : Bytes → Type 0
IsPhone = All (λ c. is_phone_char c ≡ true)

keep_phone-IsPhone : (s : Bytes) → IsPhone (keep_phone s)
unfolding keep_phone
keep_phone-IsPhone [] = tt
keep_phone-IsPhone (c ∷ s) = elim (Bool-cases (is_phone_char c)) [
  | inl e ↦ rw e (e, keep_phone-IsPhone s)
  | inr e ↦ rw e (keep_phone-IsPhone s)
]

-- What is extracted of any text has only digits and plus signs.
pub extract_phone-IsPhone : (uri : Bytes) → IsPhone (extract_phone uri)
unfolding extract_phone
extract_phone-IsPhone uri = keep_phone-IsPhone (
    cut_before b';' (cut_before b'@' (trim_prefix (codes "tel:") (trim_prefix (codes "sip:") uri))))

cut_before-phone : (p rest : Bytes) → IsPhone p → cut_before b'@' (p ++ (b'@' ∷ rest)) ≡ p
unfolding cut_before is_phone_char
cut_before-phone [] rest h = refl
cut_before-phone (c ∷ p) rest h = ground (arith, h.0, cut_before-phone p rest h.1)

no_parameters : (p : Bytes) → IsPhone p → cut_before b';' p ≡ p
unfolding cut_before is_phone_char
no_parameters [] h = refl
no_parameters (c ∷ p) h = ground (arith, h.0, no_parameters p h.1)

keep_phone-all : (p : Bytes) → IsPhone p → keep_phone p ≡ p
unfolding keep_phone
keep_phone-all [] h = refl
keep_phone-all (c ∷ p) h = rw h.0 (ap (◌∷◌ c) (keep_phone-all p h.1))

no_tel :
    (p rest : Bytes)
    → IsPhone p
    → trim_prefix (codes "tel:") (p ++ (b'@' ∷ rest)) ≡ p ++ (b'@' ∷ rest)
unfolding trim_prefix starts_with is_phone_char
no_tel [] rest h = refl
no_tel (c ∷ p) rest h = ground (arith, h.0)

-- The phone number of a formatted SIP URI is the number that it was formatted from, for every
-- domain, the default one included.
pub extract_phone-format_sip_uri :
    (phone domain : Bytes) → IsPhone phone → extract_phone (format_sip_uri phone domain) ≡ phone
unfolding extract_phone format_sip_uri
extract_phone-format_sip_uri phone domain h =
    ap (λ s. keep_phone (cut_before b';' (cut_before b'@' s))) (no_tel phone _ h)
    ∙ ap (λ s. keep_phone (cut_before b';' s)) (cut_before-phone phone _ h)
    ∙ ap keep_phone (no_parameters phone h)
    ∙ keep_phone-all phone h
