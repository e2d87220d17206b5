-- ===== src/Console/Words.antt =====
-- A typed command is read as what it says, however much white space is between its words.
use dia.Prelude.{
  ℕ, ◌≡◌, refl, sym, ap, ◌∙◌, inl, inr, Bool, true, false, not, ◌&&◌, List, [], ◌∷◌, ◌++◌, Bytes,
  is_empty, All, Bool-cases, map,
}
use dia.PeerCache.{is_space, trim_left, trim_space}
use dia.Text.{trim_space-parts}
use dia.Console.{fields_from, fields, put_word, nothing, command_of, read_command}

-- Only white space, and none of it.
unfoldable pub blank : Bytes → Bool
blank [] = true
blank (c ∷ s) = is_space c && blank s

unfoldable pub inky : Bytes → Bool
inky [] = true
inky (c ∷ s) = not (is_space c) && inky s

fields_from-blank : (s : Bytes) → blank s ≡ true → fields_from s ≡ ([], [])
unfolding fields_from blank
fields_from-blank [] h = refl
fields_from-blank (c ∷ s) h = elim (Bool-cases (is_space c)) [
  | inl e ↦ rw (fields_from-blank s (rw e at h), e) refl
  | inr e ↦ absurd (cc (rw e at h))
]

fields_from-word :
    (w rest : Bytes) (ws : List Bytes)
    → inky w ≡ true
    → fields_from rest ≡ (ws, [])
    → fields_from (w ++ rest) ≡ (ws, w)
unfolding fields_from inky
fields_from-word [] rest ws h e = e
fields_from-word (c ∷ w) rest ws h e = elim (Bool-cases (is_space c)) [
  | inl b ↦ absurd (cc (rw b at h))
  | inr b ↦ rw (fields_from-word w rest ws (rw b at h) e, b) refl
]

fields_from-gap :
    (c : ℕ) (gap rest : Bytes)
    → blank (c ∷ gap) ≡ true
    → fields_from (c ∷ (gap ++ rest)) ≡ (fields rest, [])
unfolding fields_from fields blank
fields_from-gap c [] rest h = elim (Bool-cases (is_space c)) [
  | inl e ↦ rw e refl
  | inr e ↦ absurd (cc (rw e at h))
]
fields_from-gap c (d ∷ gap) rest h = elim (Bool-cases (is_space c)) [
  | inl e ↦ rw (fields_from-gap d gap rest (rw e at h), e) refl
  | inr e ↦ absurd (cc (rw e at h))
]

fields-blank : (pad rest : Bytes) → blank pad ≡ true → fields (pad ++ rest) ≡ fields rest
unfolding fields
fields-blank [] rest h = refl
fields-blank (c ∷ pad) rest h = rw (fields_from-gap c pad rest h) refl

trim_left-blank : (s : Bytes) → trim_left s ≡ [] → blank s ≡ true
unfolding trim_left blank
trim_left-blank [] e = refl
trim_left-blank (c ∷ s) e = elim (Bool-cases (is_space c)) [
  | inl b ↦ rw b (trim_left-blank s (rw b at e))
  | inr b ↦ absurd (cc (rw b at e))
]

fields_from-after : (s pad : Bytes) → blank pad ≡ true → fields_from (s ++ pad) ≡ fields_from s
unfolding fields_from
fields_from-after [] pad h = fields_from-blank pad h
fields_from-after (c ∷ s) pad h = rw (fields_from-after s pad h) refl

fields-after : (s pad : Bytes) → blank pad ≡ true → fields (s ++ pad) ≡ fields s
unfolding fields
fields-after s pad h = rw (fields_from-after s pad h) refl

-- Trimming changes no word.
fields-trim_space : (s : Bytes) → fields (trim_space s) ≡ fields s
fields-trim_space s =
    let (before, after, e, f, g) = trim_space-parts s in
    sym (
      ap fields g
      ∙ fields-blank before (trim_space s ++ after) (trim_left-blank before e)
      ∙ fields-after (trim_space s) after (trim_left-blank after f))

command_of-nothing : (s : Bytes) → is_empty s ≡ true → command_of (fields s) ≡ nothing
unfolding command_of fields fields_from
command_of-nothing [] h = refl
command_of-nothing (c ∷ s) h = cc

-- A line is read by its words alone.
pub read_command-fields : (s : Bytes) → read_command s ≡ command_of (fields s)
unfolding read_command
read_command-fields s = elim (Bool-cases (is_empty (trim_space s))) [
  | inl e ↦ rw e (sym (command_of-nothing (trim_space s) e) ∙ ap command_of (fields-trim_space s))
  | inr e ↦ rw e (ap command_of (fields-trim_space s))
]

-- Words, each behind its gap, and the end of the line.
unfoldable pub spread : List (Bytes × Bytes) → Bytes → Bytes
spread [] tail = tail
spread ((gap, w) ∷ ws) tail = gap ++ (w ++ spread ws tail)

abbrev pub IsWord : Bytes → Type 0
IsWord w = (is_empty w ≡ false) × (inky w ≡ true)

abbrev pub IsGap : Bytes × Bytes → Type 0
IsGap p = (is_empty p.0 ≡ false) × (blank p.0 ≡ true) × IsWord p.1

put_word-full : (w : Bytes) (ws : List Bytes) → is_empty w ≡ false → put_word w ws ≡ w ∷ ws
put_word-full w ws h = rw h refl

fields_from-spread :
    (ws : List (Bytes × Bytes)) (tail : Bytes)
    → All IsGap ws
    → blank tail ≡ true
    → fields_from (spread ws tail) ≡ (map (λ p. p.1) ws, [])
unfolding spread fields
fields_from-spread [] tail h b = fields_from-blank tail b
fields_from-spread (([], w) ∷ ws) tail ((e, _, _), h) b = absurd (cc e)
fields_from-spread ((c ∷ gap, w) ∷ ws) tail ((e, g, (full, ink)), h) b =
    fields_from-gap c gap (w ++ spread ws tail) g
    ∙ ap (λ (p : List Bytes × Bytes). (put_word p.1 p.0, []))
        (fields_from-word w (spread ws tail) (map (λ p. p.1) ws) ink
          (fields_from-spread ws tail h b))
    ∙ ap (λ x. (x, [])) (put_word-full w (map (λ p. p.1) ws) full)

-- The words of a line.
pub fields-spread :
    (lead w : Bytes) (ws : List (Bytes × Bytes)) (tail : Bytes)
    → blank lead ≡ true
    → IsWord w
    → All IsGap ws
    → blank tail ≡ true
    → fields (lead ++ (w ++ spread ws tail)) ≡ w ∷ map (λ p. p.1) ws
unfolding fields
fields-spread lead w ws tail p (full, ink) h b =
    fields-blank lead (w ++ spread ws tail) p
    ∙ ap (λ (p : List Bytes × Bytes). put_word p.1 p.0)
        (fields_from-word w (spread ws tail) (map (λ p. p.1) ws) ink
          (fields_from-spread ws tail h b))
    ∙ put_word-full w (map (λ p. p.1) ws) full
