-- ===== src/PeerCache/Keys.antt =====
-- Trimmed text, and the keys of the peer session cache.
use dia.Prelude.{
  ℕ, ◌≡◌, refl, sym, ap, ◌∙◌, inl, inr, Bool, true, false, not, ◌&&◌, [], ◌∷◌, ◌++◌, arith, Bytes,
  ◌==◌, str_eq, str_eq_iff, str_eq_refl, some, is_empty, Bool-cases,
}
use mathlib.Core.List.{append_cancel_left, reverse, reverse-append, reverse-reverse}
use dia.PeerCache.{
  default_prefix, prefix_of, new_peer_session_cache, CacheConfig, is_space, trim_left, trim_right,
  trim_space, KeyStore, PeerSessionCache, key,
}

pub trim_left-trim_left : (s : Bytes) → trim_left (trim_left s) ≡ trim_left s
unfolding trim_left
trim_left-trim_left [] = refl
trim_left-trim_left (c ∷ s) = elim (Bool-cases (is_space c)) [
  | inl blank ↦ rw blank (trim_left-trim_left s)
  | inr ink ↦ rw (ink, ink) refl
]

pub trim_right-trim_right : (s : Bytes) → trim_right (trim_right s) ≡ trim_right s
unfolding trim_right
trim_right-trim_right s =
    rw (reverse-reverse (trim_left (reverse s)), trim_left-trim_left (reverse s)) refl

trim_left-snoc :
    (s : Bytes) (c : ℕ) → is_space c ≡ false → (t : Bytes) × (trim_left (s ++ c ∷ []) ≡ t ++ c ∷ [])
unfolding trim_left
trim_left-snoc [] c ink = ([], rw ink refl)
trim_left-snoc (d ∷ s) c ink = elim (Bool-cases (is_space d)) [
  | inl blank ↦ rw blank (trim_left-snoc s c ink)
  | inr other ↦ (d ∷ s, rw other refl)
]

pub trim_right-cons :
    (c : ℕ) (s : Bytes) → is_space c ≡ false → (t : Bytes) × (trim_right (c ∷ s) ≡ c ∷ t)
unfolding trim_right
trim_right-cons c s ink =
    let (t, e) = trim_left-snoc (reverse s) c ink in
    (
      reverse t,
      ap (λ x. reverse (trim_left x)) (reverse-append (c ∷ []) s)
          ∙ ap reverse e
          ∙ reverse-append t (c ∷ []),
    )

-- Trimming the end keeps a first character that is no space.
trim_right-keeps :
    (c : ℕ) (s : Bytes) → is_space c ≡ false → trim_left (trim_right (c ∷ s)) ≡ trim_right (c ∷ s)
unfolding trim_left
trim_right-keeps c s ink = let (t, e) = trim_right-cons c s ink in rw (e, ink) refl

trim_left-nothing : trim_left (trim_right []) ≡ trim_right []
unfolding trim_left trim_right
trim_left-nothing = refl

trim_left-trimmed : (s : Bytes) → trim_left (trim_right (trim_left s)) ≡ trim_right (trim_left s)
unfolding trim_left
trim_left-trimmed [] = trim_left-nothing
trim_left-trimmed (c ∷ s) = elim (Bool-cases (is_space c)) [
  | inl blank ↦ rw blank (trim_left-trimmed s)
  | inr ink ↦ rw ink (trim_right-keeps c s ink)
]

pub trim_space-trim_space : (s : Bytes) → trim_space (trim_space s) ≡ trim_space s
unfolding trim_space
trim_space-trim_space s = ap trim_right (trim_left-trimmed s) ∙ trim_right-trim_right (trim_left s)

default_trimmed : trim_space default_prefix ≡ default_prefix
unfolding trim_space trim_right trim_left
default_trimmed = refl

prefix_of-trims : (prefix : Bytes) → trim_space (prefix_of prefix) ≡ prefix_of prefix
unfolding prefix_of
prefix_of-trims prefix = elim (Bool-cases (is_empty (trim_space prefix))) [
  | inl e ↦ rw e default_trimmed
  | inr e ↦ rw e (trim_space-trim_space prefix)
]

pub nothing_trimmed : trim_space [] ≡ []
unfolding trim_space trim_right trim_left
nothing_trimmed = refl

-- The prefix of an opened cache is trimmed.
pub new_peer_session_cache-trims :
    (redis : KeyStore) (cfg : CacheConfig) (c : PeerSessionCache)
    → new_peer_session_cache redis (some cfg) ≡ some c
    → trim_space c.prefix ≡ c.prefix
unfolding new_peer_session_cache
new_peer_session_cache-trims redis cfg c e =
    ground (arith, prefix_of-trims cfg.redis_prefix, nothing_trimmed)

-- A text without a colon.
unfoldable pub no_colon : Bytes → Bool
no_colon [] = true
no_colon (c ∷ s) = not (c == b':') && no_colon s

-- The first colon cuts a text in only one way.
colon_cuts :
    (a b x y : Bytes)
    → no_colon a ≡ true
    → no_colon b ≡ true
    → ◌≡◌ {A = Bytes} (a ++ b':' ∷ x) (b ++ b':' ∷ y)
    → (a ≡ b) × (x ≡ y)
unfolding no_colon
colon_cuts [] [] x y p q e = (refl, ground arith)
colon_cuts [] (d ∷ b) x y p q e = ground arith
colon_cuts (c ∷ a) [] x y p q e = ground arith
colon_cuts (c ∷ a) (d ∷ b) x y p q e = ground (arith, colon_cuts a b x y)

same_Bool : (b d : Bool) → (b ≡ true → d ≡ true) → (d ≡ true → b ≡ true) → b ≡ d
same_Bool true d f g = sym (f refl)
same_Bool false true f g = g refl
same_Bool false false f g = refl

and_true : (b d : Bool) → (b && d) ≡ true → (b ≡ true) × (d ≡ true)
and_true true true h = (refl, refl)
and_true true false h = cc
and_true false d h = cc

module _ (redis : KeyStore) (c : PeerSessionCache) where
  -- Keys tell the pairs of phones apart, if no own phone has a colon.
  pub key-Injective :
      (s p t q : Bytes)
      → no_colon (trim_space s) ≡ true
      → no_colon (trim_space t) ≡ true
      → key redis c s p ≡ key redis c t q
      → (trim_space s ≡ trim_space t) × (trim_space p ≡ trim_space q)
  unfolding key
  key-Injective s p t q clean_s clean_t e =
      colon_cuts (trim_space s) (trim_space t) (trim_space p) (trim_space q) clean_s clean_t (
        ground (
          arith,
          append_cancel_left c.prefix (b':' ∷ (trim_space s ++ (b':' ∷ trim_space p)))
              (b':' ∷ (trim_space t ++ (b':' ∷ trim_space q))) e,
        ))

  -- The key's test is that of the two phones.
  pub str_eq-key :
      (s p t q : Bytes)
      → no_colon (trim_space s) ≡ true
      → no_colon (trim_space t) ≡ true
      → str_eq (key redis c s p) (key redis c t q)
        ≡ (str_eq (trim_space s) (trim_space t) && str_eq (trim_space p) (trim_space q))
  unfolding key
  str_eq-key s p t q clean_s clean_t =
      same_Bool _ _
        (λ h.
          let (a, b) =
            key-Injective s p t q clean_s clean_t
              ((str_eq_iff (key redis c s p) (key redis c t q)).0 h) in
          rw (a, b, str_eq_refl (trim_space t), str_eq_refl (trim_space q)) refl)
        (λ h.
          let (a, b) =
            and_true (str_eq (trim_space s) (trim_space t)) (str_eq (trim_space p) (trim_space q))
              h in
          (str_eq_iff (key redis c s p) (key redis c t q)).1 (
            rw
              (
                (str_eq_iff (trim_space s) (trim_space t)).0 a,
                (str_eq_iff (trim_space p) (trim_space q)).0 b,
              )
              refl))
