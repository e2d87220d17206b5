-- ===== src/Callauth/Flags.antt =====
-- cmd/client/callauth/main.go: `parseCommaList`.
use dia.Prelude.{
  ℕ, ◌≡◌, refl, sym, ap, append_assoc, ◌∙◌, inl, inr, true, false, List, [], ◌∷◌, ◌++◌, arith,
  Bytes, is_empty, ◌==◌, if◌then◌else◌, All, Bool-cases,
}
use dia.PeerCache.{trim_left, trim_right, trim_space}
use dia.PeerCache.Keys.{trim_space-trim_space}
use dia.Text.{lacks, lacks-trim_space, Ink-cases, trim_space-ink, trim_space-blank}

unfoldable pub push : ℕ → List Bytes → List Bytes
push c [] = (c ∷ []) ∷ []
push c (w ∷ ws) = (c ∷ w) ∷ ws

-- `strings.Split(s, ",")`
unfoldable pub split : Bytes → List Bytes
unfolding push
split [] = [] ∷ []
split (c ∷ s) = if c == b',' then [] ∷ split s else push c (split s)

unfoldable pub keep_items : List Bytes → List Bytes
unfolding trim_space
keep_items [] = []
keep_items (p ∷ ps) =
    let rest = keep_items ps in if is_empty (trim_space p) then rest else trim_space p ∷ rest

unfoldable pub parse_comma_list : Bytes → List Bytes
unfolding split keep_items
parse_comma_list s = if is_empty (trim_space s) then [] else keep_items (split s)

-- An item of a list: not empty, with no comma and no space at its ends.
pub record IsItem (s : Bytes) : Type 0 where
  pub filled : is_empty s ≡ false
  pub trimmed : trim_space s ≡ s
  pub plain : lacks b',' s ≡ true

abbrev ArePlain : List Bytes → Type 0
ArePlain = All (λ s. lacks b',' s ≡ true)

push-ArePlain : (c : ℕ) (ws : List Bytes) → (c == b',') ≡ false → ArePlain ws → ArePlain (push c ws)
unfolding push lacks
push-ArePlain c [] h p = (ground arith, tt)
push-ArePlain c (w ∷ ws) h (q, p) = (ground arith, p)

split-ArePlain : (s : Bytes) → ArePlain (split s)
unfolding split lacks
split-ArePlain [] = (refl, tt)
split-ArePlain (c ∷ s) = elim (Bool-cases (c == b',')) [
  | inl comma ↦ rw comma (refl, split-ArePlain s)
  | inr other ↦ rw other (push-ArePlain c (split s) other (split-ArePlain s))
]

keep_items-IsItem : (ps : List Bytes) → ArePlain ps → All IsItem (keep_items ps)
unfolding keep_items
keep_items-IsItem [] h = tt
keep_items-IsItem (p ∷ ps) (h, hs) = elim (Bool-cases (is_empty (trim_space p))) [
  | inl bare ↦ rw bare (keep_items-IsItem ps hs)
  | inr full ↦ rw full (
    record { filled = full; trimmed = trim_space-trim_space p; plain = lacks-trim_space b',' p h },
    keep_items-IsItem ps hs,
  )
]

-- Every name that a comma list yields is an item: not empty, with no comma, trimmed.
pub parse_comma_list-IsItem : (s : Bytes) → All IsItem (parse_comma_list s)
unfolding parse_comma_list
parse_comma_list-IsItem s = elim (Bool-cases (is_empty (trim_space s))) [
  | inl bare ↦ rw bare tt
  | inr full ↦ rw full (keep_items-IsItem (split s) (split-ArePlain s))
]

-- Items with commas between them.
unfoldable pub join : List Bytes → Bytes
join [] = []
join (w ∷ []) = w
join (w ∷ v ∷ ws) = w ++ (b',' ∷ join (v ∷ ws))

split-plain : (w : Bytes) → lacks b',' w ≡ true → split w ≡ w ∷ []
unfolding split lacks push
split-plain [] h = refl
split-plain (c ∷ w) h = ground (arith, split-plain w)

split-append : (w s : Bytes) → lacks b',' w ≡ true → split (w ++ (b',' ∷ s)) ≡ w ∷ split s
unfolding split lacks push
split-append [] s h = refl
split-append (c ∷ w) s h = ground (arith, split-append w s)

pub split-join :
    (w : Bytes) (ws : List Bytes) → All IsItem (w ∷ ws) → split (join (w ∷ ws)) ≡ w ∷ ws
unfolding join
split-join w [] (i, is) = split-plain w i.plain
split-join w (v ∷ ws) (i, is) =
    split-append w (join (v ∷ ws)) i.plain ∙ ap (◌∷◌ w) (split-join v ws is)

keep_items-items : (ws : List Bytes) → All IsItem ws → keep_items ws ≡ ws
unfolding keep_items
keep_items-items [] h = refl
keep_items-items (w ∷ ws) (i, is) = rw (i.trimmed, i.filled) (ap (◌∷◌ w) (keep_items-items ws is))

item_of_nothing : (w : Bytes) → trim_space w ≡ w → trim_left w ≡ [] → is_empty w ≡ false → ⊥
item_of_nothing w p q h = cc (ap (λ (s : Bytes). is_empty s) (sym p ∙ trim_space-blank w q))

-- What begins with an item is not blank.
item_first : (w rest : Bytes) → IsItem w → is_empty (trim_space (w ++ rest)) ≡ false
item_first w rest i = elim (Ink-cases w) [
  | inl e ↦ absurd (item_of_nothing w i.trimmed e i.filled)
  | inr (pad, d, t, ink, e, f) ↦
      ap (λ x. is_empty (trim_space (x ++ rest))) f
      ∙ ap (λ x. is_empty (trim_space x)) (append_assoc pad (d ∷ t) rest)
      ∙ ap (λ (x : Bytes). is_empty x)
          (trim_space-ink pad d (t ++ rest) ink ∙ ap (λ x. x ++ d ∷ trim_right (t ++ rest)) e)
]

join-filled :
    (w : Bytes) (ws : List Bytes) → IsItem w → is_empty (trim_space (join (w ∷ ws))) ≡ false
unfolding join
join-filled w [] i = rw i.trimmed i.filled
join-filled w (v ∷ ws) i = item_first w (b',' ∷ join (v ∷ ws)) i

join-nothing : is_empty (trim_space (join [])) ≡ true
unfolding join trim_space trim_right trim_left
join-nothing = refl

-- A list of items that is written with commas is read back as it was, the empty list included.
pub parse_comma_list-join : (ws : List Bytes) → All IsItem ws → parse_comma_list (join ws) ≡ ws
unfolding parse_comma_list
parse_comma_list-join [] h = rw join-nothing refl
parse_comma_list-join (w ∷ ws) (i, is) =
    rw (join-filled w ws i, split-join w ws (i, is)) (keep_items-items (w ∷ ws) (i, is))
