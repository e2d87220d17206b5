-- ===== src/Text.antt =====
-- What the text functions of the Go programs share: bytes that a text lacks, and trimming at an ink byte.
use dia.Prelude.{
  ℕ, ◌≡◌, refl, sym, ap, ◌∙◌, inl, inr, ◌⊎◌, Bool, true, false, not, ◌&&◌, [], ◌∷◌, ◌++◌,
  append_assoc, arith, Bytes, ◌==◌, is_empty, Bool-cases,
}
use mathlib.Core.List.{reverse, reverse-append, reverse-reverse}
use dia.PeerCache.{is_space, trim_left, trim_right, trim_space}
use dia.PeerCache.Keys.{trim_left-trim_left, trim_right-trim_right}

-- A text without the byte.
unfoldable pub lacks : ℕ → Bytes → Bool
lacks b [] = true
lacks b (c ∷ s) = not (c == b) && lacks b s

pub lacks-append : (b : ℕ) (s t : Bytes) → lacks b (s ++ t) ≡ (lacks b s && lacks b t)
unfolding lacks
lacks-append b [] t = refl
lacks-append b (c ∷ s) t = ground (arith, lacks-append b s t)

lacks-reverse : (b : ℕ) (s : Bytes) → lacks b s ≡ true → lacks b (reverse s) ≡ true
unfolding lacks
lacks-reverse b [] h = refl
lacks-reverse b (c ∷ s) h =
    ap (lacks b) (reverse-append (c ∷ []) s)
    ∙ lacks-append b (reverse s) (c ∷ [])
    ∙ ground (arith, lacks-reverse b s)

pub lacks-trim_left : (b : ℕ) (s : Bytes) → lacks b s ≡ true → lacks b (trim_left s) ≡ true
unfolding lacks trim_left
lacks-trim_left b [] h = refl
lacks-trim_left b (c ∷ s) h = ground (arith, lacks-trim_left b s)

pub lacks-trim_space : (b : ℕ) (s : Bytes) → lacks b s ≡ true → lacks b (trim_space s) ≡ true
unfolding trim_space trim_right
lacks-trim_space b s h = lacks-reverse b (trim_left (reverse (trim_left s))) (
    lacks-trim_left b (reverse (trim_left s))
      (lacks-reverse b (trim_left s) (lacks-trim_left b s h)))

-- Trimming stops at an ink byte.
pub trim_left-ink :
    (s : Bytes) (d : ℕ) (t : Bytes)
    → is_space d ≡ false
    → trim_left (s ++ d ∷ t) ≡ trim_left s ++ d ∷ t
unfolding trim_left
trim_left-ink [] d t ink = rw ink refl
trim_left-ink (c ∷ s) d t ink = elim (Bool-cases (is_space c)) [
  | inl blank ↦ rw blank (trim_left-ink s d t ink)
  | inr other ↦ rw other refl
]

reverse-around : (s : Bytes) (d : ℕ) (t : Bytes) → reverse (s ++ d ∷ t) ≡ reverse t ++ d ∷ reverse s
reverse-around s d t =
    reverse-append s (d ∷ t)
    ∙ ap (λ r. r ++ reverse s) (reverse-append (d ∷ []) t)
    ∙ append_assoc (reverse t) (d ∷ []) (reverse s)

pub trim_right-ink :
    (s : Bytes) (d : ℕ) (t : Bytes)
    → is_space d ≡ false
    → trim_right (s ++ d ∷ t) ≡ s ++ d ∷ trim_right t
unfolding trim_right
trim_right-ink s d t ink =
    ap (λ r. reverse (trim_left r)) (reverse-around s d t)
    ∙ ap reverse (trim_left-ink (reverse t) d (reverse s) ink)
    ∙ reverse-around (trim_left (reverse t)) d (reverse s)
    ∙ ap (λ r. r ++ d ∷ reverse (trim_left (reverse t))) (reverse-reverse s)

-- A text is trimmed on both sides of an ink byte.
pub trim_space-ink :
    (s : Bytes) (d : ℕ) (t : Bytes)
    → is_space d ≡ false
    → trim_space (s ++ d ∷ t) ≡ trim_left s ++ d ∷ trim_right t
unfolding trim_space
trim_space-ink s d t ink =
    ap trim_right (trim_left-ink s d t ink) ∙ trim_right-ink (trim_left s) d t ink

pub trim_space-trim_left : (s : Bytes) → trim_space (trim_left s) ≡ trim_space s
unfolding trim_space
trim_space-trim_left s = ap trim_right (trim_left-trim_left s)

blank-append : (s t : Bytes) → trim_left s ≡ [] → trim_left (s ++ t) ≡ trim_left t
unfolding trim_left
blank-append [] t e = refl
blank-append (c ∷ s) t e = elim (Bool-cases (is_space c)) [
  | inl blank ↦ rw blank (blank-append s t (rw blank at e))
  | inr ink ↦ absurd (cc (rw ink at e))
]

reverse-blank : (s : Bytes) → trim_left s ≡ [] → trim_left (reverse s) ≡ []
unfolding trim_left
reverse-blank [] e = refl
reverse-blank (c ∷ s) e = elim (Bool-cases (is_space c)) [
  | inl blank ↦
      ap trim_left (reverse-append (c ∷ []) s)
      ∙ blank-append (reverse s) (c ∷ []) (reverse-blank s (rw blank at e))
      ∙ rw blank refl
  | inr ink ↦ absurd (cc (rw ink at e))
]

-- A text is white space, or it has a first ink byte.
pub Ink-cases :
    (s : Bytes)
    → (trim_left s ≡ [])
      ⊎ ((pad : Bytes) × (d : ℕ) × (t : Bytes) × (is_space d ≡ false)
          × (trim_left pad ≡ [])
          × (s ≡ pad ++ d ∷ t))
unfolding trim_left
Ink-cases [] = inl refl
Ink-cases (c ∷ s) = elim (Bool-cases (is_space c)) [
  | inl blank ↦ elim (Ink-cases s) [
    | inl e ↦ inl (rw blank e)
    | inr (pad, d, t, ink, e, f) ↦ inr (c ∷ pad, d, t, ink, rw blank e, ap (◌∷◌ c) f)
  ]
  | inr ink ↦ inr ([], c, s, ink, refl, refl)
]

pub trim_space-blank : (s : Bytes) → trim_left s ≡ [] → trim_space s ≡ []
unfolding trim_space trim_right trim_left
trim_space-blank s e = rw e refl

trim_right-blank : (s : Bytes) → trim_left s ≡ [] → trim_right s ≡ []
unfolding trim_right
trim_right-blank s e = ap reverse (reverse-blank s e)

nothing_left : trim_left [] ≡ []
unfolding trim_left
nothing_left = refl

pub trim_space-trim_right : (s : Bytes) → trim_space (trim_right s) ≡ trim_space s
trim_space-trim_right s = elim (Ink-cases s) [
  | inl e ↦
      ap trim_space (trim_right-blank s e)
      ∙ trim_space-blank [] nothing_left
      ∙ sym (trim_space-blank s e)
  | inr (pad, d, t, ink, e, f) ↦
      ap (λ x. trim_space (trim_right x)) f
      ∙ ap trim_space (trim_right-ink pad d t ink)
      ∙ trim_space-ink pad d (trim_right t) ink
      ∙ ap (λ x. trim_left pad ++ d ∷ x) (trim_right-trim_right t)
      ∙ sym (trim_space-ink pad d t ink)
      ∙ ap trim_space (sym f)
]

-- What is left of a text begins with its first ink byte, if it is not trimmed at its end too.
pub trim_space-starts :
    (s : Bytes)
    → is_empty (trim_space s) ≡ false
    → (d : ℕ) × (u : Bytes) × (t : Bytes) × (trim_left s ≡ d ∷ u) × (trim_space s ≡ d ∷ t)
trim_space-starts s h = elim (Ink-cases s) [
  | inl e ↦ absurd (cc (ap (λ (x : Bytes). is_empty x) (trim_space-blank s e)))
  | inr (pad, d, t, ink, e, f) ↦ (
    d,
    t,
    trim_right t,
    ap trim_left f ∙ trim_left-ink pad d t ink ∙ ap (λ x. x ++ d ∷ t) e,
    ap trim_space f ∙ trim_space-ink pad d t ink ∙ ap (λ x. x ++ d ∷ trim_right t) e,
  )
]

trim_left-parts : (s : Bytes) → (pad : Bytes) × (trim_left pad ≡ []) × (s ≡ pad ++ trim_left s)
unfolding trim_left
trim_left-parts [] = ([], refl, refl)
trim_left-parts (c ∷ s) = elim (Bool-cases (is_space c)) [
  | inl blank ↦
      let (pad, e, f) = trim_left-parts s in (c ∷ pad, rw blank e, rw blank (ap (◌∷◌ c) f))
  | inr ink ↦ ([], refl, rw ink refl)
]

trim_right-parts : (s : Bytes) → (pad : Bytes) × (trim_left pad ≡ []) × (s ≡ trim_right s ++ pad)
unfolding trim_right
trim_right-parts s =
    let (pad, e, f) = trim_left-parts (reverse s) in
    (
      reverse pad,
      reverse-blank pad e,
      sym (reverse-reverse s) ∙ ap reverse f ∙ reverse-append pad (trim_left (reverse s)),
    )

-- What trimming takes off a text is white space.
pub trim_space-parts :
    (s : Bytes)
    → (before : Bytes) × (after : Bytes) × (trim_left before ≡ [])
      × (trim_left after ≡ [])
      × (s ≡ before ++ (trim_space s ++ after))
unfolding trim_space
trim_space-parts s =
    let (before, e, f) = trim_left-parts s in
    let (after, g, h) = trim_right-parts (trim_left s) in
    (before, after, e, g, f ∙ ap (λ x. before ++ x) h)
