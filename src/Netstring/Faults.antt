-- ===== src/Netstring/Faults.antt =====
-- Input that is no netstring: where `tryParse` panics, and where `Decode` never recovers.
use dia.Prelude.{
  ℕ, zero, suc, ◌+◌, ◌-◌, ◌%◌, ◌≤◌, ◌<◌, ◌≡◌, ◌≢◌, refl, ap, sym, ◌∙◌, inl, inr, List, ◌↔◌, [], ◌∷◌,
  ◌++◌, none, some, arith, Bytes, ltb, ◌==◌, length, All, get_elem?, take, drop, Option-cases,
  Bool-cases, ge→ltb, length-append,
}
use dia.Decimal.{int_mod, int_half, atoi}
use dia.Decimal.Accepts.{NotComma, atoi-some}
use dia.Netstring.{
  index_byte, skip, panics, try_parse, with_length, check_comma, extract, Read, chunk, fails, got,
  decode,
}

index_byte-get :
    (s : Bytes) (b i : ℕ) → index_byte s b ≡ some i → (get_elem? s i ≡ some b) × (i < length s)
unfolding index_byte
index_byte-get [] b i e = cc
index_byte-get (c ∷ s) b i e = elim (Bool-cases (c == b)) [
  | inl here ↦ ground arith
  | inr later ↦ elim (Option-cases (index_byte s b)) [
    | inl n ↦ ground arith
    | inr (j, f) ↦ ground (arith, index_byte-get s b j f)
  ]
]

index_byte-append :
    (s x : Bytes) (b i : ℕ)
    → index_byte s b ≡ some i
    → (index_byte (s ++ x) b ≡ some i) × (take i (s ++ x) ≡ take i s)
unfolding index_byte
index_byte-append [] x b i e = cc
index_byte-append (c ∷ s) x b i e = elim (Bool-cases (c == b)) [
  | inl here ↦ ground arith
  | inr later ↦ elim (Option-cases (index_byte s b)) [
    | inl n ↦ ground arith
    | inr (j, f) ↦ ground (arith, index_byte-append s x b j f)
  ]
]

-- Before the colon every byte satisfies what the header's bytes do.
get_elem?-take :
    (s : Bytes) (i j c : ℕ) → All NotComma (take i s) → j < i → get_elem? s j ≡ some c → NotComma c
get_elem?-take [] i j c a l e = cc
get_elem?-take (x ∷ s) zero j c a l e = absurd (omega arith)
get_elem?-take (x ∷ s) (suc i) zero c a l e = ground arith
get_elem?-take (x ∷ s) (suc i) (suc j) c a l e = get_elem?-take s i j c a.1 (omega arith) e

get_elem?_lt : (s : Bytes) (i : ℕ) → i < length s → (c : ℕ) × (get_elem? s i ≡ some c)
get_elem?_lt [] i h = absurd (omega arith)
get_elem?_lt (c ∷ s) zero h = (c, refl)
get_elem?_lt (c ∷ s) (suc i) h = get_elem?_lt s i (omega arith)

-- The buffer declares the length `v`, a 64-bit pattern, in front of its first colon, at `i`.
pub record Declares (s : Bytes) (i v : ℕ) : Type 0 where
  pub enough : 3 ≤ length s
  pub colon : index_byte s b':' ≡ some i
  pub value : atoi (take i s) ≡ some v

module _ (s : Bytes) (i v : ℕ) where
  try_parse-Declares : Declares s i v → try_parse s ≡ with_length s i (some v)
  unfolding try_parse
  try_parse-Declares d = rw (ge→ltb (length s) 3 d.enough, d.colon) (rw d.value)

  -- Read forwards, `totalNeeded` is in range and no index or size is bad.
  in_range : 0 < i + 2 + v → i + 2 + v < int_half → with_length s i (some v) ≢ panics
  unfolding with_length check_comma extract
  in_range p h = elim (Bool-cases (ltb (length s) ((i + 1 + v + 1) % int_mod))) [
    | inl short ↦ ground arith
    | inr long ↦
        let (c, e) = get_elem?_lt s ((i + 1 + v + 1) % int_mod - 1) (ground arith) in
        ground (arith, e)
  ]

  -- A small negative length makes `totalNeeded` point into the header, where no comma stands.
  in_header :
      Declares s i v → length s < int_half → int_mod < i + 2 + v → with_length s i (some v) ≢ panics
  unfolding with_length check_comma
  in_header d l h =
      let total = (i + 1 + v + 1) % int_mod in
      let (at_colon, inside) = index_byte-get s b':' i d.colon in
      let (clean, pattern) = atoi-some (take i s) v d.value in
      let (c, e) = get_elem?_lt s (total - 1) (omega arith) in
      let comma_free : NotComma c = elim (Bool-cases (total - 1 == i)) [
        | inl same ↦ ground (arith, e, at_colon)
        | inr before ↦ get_elem?-take s i (total - 1) c clean (ground arith) e
      ] in
      ground (arith, e, comma_free)

  out_of_range : int_half ≤ i + 2 + v → i + 2 + v ≤ int_mod → with_length s i (some v) ≡ panics
  unfolding with_length
  out_of_range l u = elim (Bool-cases (i + 2 + v == int_mod)) [
    | inl zero_total ↦ ground arith
    | inr negative ↦ ground arith
  ]

-- The buffer declares a length for which `totalNeeded`, in 64 bits, is negative or zero.
abbrev pub Overflows : Bytes → Type 0
Overflows s = (i : ℕ) × (v : ℕ) × Declares s i v × (int_half ≤ i + 2 + v) × (i + 2 + v ≤ int_mod)

Declares-or_not : (s : Bytes) → (try_parse s ≡ panics) → (i : ℕ) × (v : ℕ) × Declares s i v
unfolding try_parse
Declares-or_not s p = elim (Bool-cases (ltb (length s) 3)) [
  | inl tiny ↦ ground arith
  | inr big ↦ elim (Option-cases (index_byte s b':')) [
    | inl n ↦ ground arith
    | inr (i, e) ↦ elim (Option-cases (atoi (take i s))) [
      | inl n ↦ ground arith
      | inr (v, f) ↦ (i, v, record { enough = ground arith; colon = e; value = f })
    ]
  ]
]

panics-Overflows :
    (s : Bytes) (i v : ℕ)
    → length s < int_half
    → Declares s i v
    → try_parse s ≡ panics
    → Overflows s
panics-Overflows s i v l d p = elim (Bool-cases (ltb (i + 2 + v) int_half)) [
  | inl low ↦ absurd (in_range s i v (omega arith) (ground arith) stuck)
  | inr high ↦ elim (Bool-cases (ltb int_mod (i + 2 + v))) [
    | inl far ↦ absurd (in_header s i v d l (ground arith) stuck)
    | inr near ↦ (i, v, d, ground arith, ground arith)
  ]
]
  where
    stuck : with_length s i (some v) ≡ panics
    stuck = sym (try_parse-Declares s i v d) ∙ p

-- `tryParse` panics exactly on a buffer whose declared length makes `totalNeeded` negative or zero
-- in 64 bits: one near the largest `int`, or one far enough below zero. The buffer's own length is
-- an `int`.
pub try_parse-panics_iff : (s : Bytes) → length s < int_half → (try_parse s ≡ panics) ↔ Overflows s
try_parse-panics_iff s l = (
  λ p. let (i, v, d) = Declares-or_not s p in panics-Overflows s i v l d p,
  λ o. let (i, v, d, lo, hi) = o in try_parse-Declares s i v d ∙ out_of_range s i v lo hi,
)

-- The buffer has a colon, and what stands before the first one is no `int`.
abbrev pub IsMalformed : Bytes → Type 0
IsMalformed s = (3 ≤ length s) × ((i : ℕ) × (index_byte s b':' ≡ some i) × (atoi (take i s) ≡ none))

IsMalformed-append : (s x : Bytes) → IsMalformed s → IsMalformed (s ++ x)
IsMalformed-append s x (l, (i, e, f)) =
    let (e', t) = index_byte-append s x b':' i e in
    (omega (arith, length-append s x), (i, e', ap atoi t ∙ f))

try_parse-IsMalformed : (s : Bytes) → IsMalformed s → try_parse s ≡ skip (drop 1 s)
unfolding try_parse
try_parse-IsMalformed s (l, (i, e, f)) = rw (ge→ltb (length s) 3 l, e) (rw f)

-- Once the buffer has a malformed header in front, `Decode` returns no payload, whatever the stream
-- brings: the byte that `tryParse` skips is skipped in no buffer, so that the header stays.
pub decode-IsMalformed :
    (s payload rest : Bytes) (reads left : List Read)
    → IsMalformed s
    → decode s reads ≢ got payload rest left
unfolding decode
decode-IsMalformed s payload rest [] left m = rw (try_parse-IsMalformed s m, decode) (λ e. cc)
decode-IsMalformed s payload rest (fails ∷ reads) left m =
    rw (try_parse-IsMalformed s m, decode) (λ e. cc)
decode-IsMalformed s payload rest (chunk bytes ∷ reads) left m =
    rw (try_parse-IsMalformed s m, decode)
      (decode-IsMalformed (s ++ bytes) payload rest reads left (IsMalformed-append s bytes m))
