-- ===== src/Netstring.antt =====
-- internal/sipcontroller/netstring.go: `Encode`, `tryParse` and the loop of `Decode`.
-- A length is an `int`, that is a 64-bit pattern, so sums wrap and a negative one counts from
-- 2 ^ 63. What Go does on a bad index or a negative `make` is the outcome `panics`.
pub mod Cuts
pub mod Prefix
pub mod RoundTrip
pub mod Faults
mod Tests
use dia.Prelude.{
  ℕ, suc, ◌+◌, ◌-◌, ◌%◌, ◌≡◌, refl, Bool, true, false, List, [], ◌∷◌, ◌++◌, Option, none, some,
  Bytes, codes, ltb, leb, ◌==◌, if◌then◌else◌, length, get_elem?, take, drop,
}
use dia.Decimal.{int_mod, int_half, format, atoi}

-- The three writes of `Encode`, as the bytes that reach the stream.
unfoldable pub encode : Bytes → Bytes
encode payload = format (length payload) ++ (b':' ∷ (payload ++ b',' ∷ []))

-- `bytes.IndexByte`; -1 is `none`.
unfoldable pub index_byte : Bytes → ℕ → Option ℕ
index_byte [] b = none
index_byte (c ∷ s) b =
    let later = index_byte s b in
    if c == b then some 0 else elim later [ none ↦ none | some i ↦ some (suc i) ]

-- What `tryParse` returns: `(payload, remaining, true)`, `(nil, nil, false)`,
-- `(nil, buffer[1:], false)`, or a run-time panic.
pub data Parse : Type 0 where
  parsed : Bytes → Bytes → Parse
  need_more : Parse
  skip : Bytes → Parse
  panics : Parse

abbrev is_negative : ℕ → Bool
is_negative x = leb int_half x

-- From `payload := make([]byte, length)` on.
extract : Bytes → ℕ → ℕ → ℕ → Parse
extract buffer colon len total =
    if is_negative len
    then panics
    else parsed (take len (drop (suc colon) buffer)) (drop total buffer)

-- The check of `d.buffer[totalNeeded-1]`.
check_comma : Bytes → ℕ → ℕ → ℕ → Option ℕ → Parse
unfolding extract
check_comma buffer colon len total none = panics
check_comma buffer colon len total (some c) =
    if c == b',' then extract buffer colon len total else skip (drop 1 buffer)

-- From the length on: `totalNeeded := colonIdx + 1 + length + 1`, in 64 bits.
with_length : Bytes → ℕ → Option ℕ → Parse
unfolding check_comma
with_length buffer colon none = skip (drop 1 buffer)
with_length buffer colon (some len) =
    let total = (colon + 1 + len + 1) % int_mod in
    if is_negative total
    then panics
    else if ltb (length buffer) total
    then need_more
    else if total == 0
    then panics
    else check_comma buffer colon len total (get_elem? buffer (total - 1))

with_colon : Bytes → Option ℕ → Parse
unfolding with_length
with_colon buffer none = need_more
with_colon buffer (some i) = with_length buffer i (atoi (take i buffer))

unfoldable pub try_parse : Bytes → Parse
unfolding with_colon index_byte
try_parse buffer =
    if ltb (length buffer) 3 then need_more else with_colon buffer (index_byte buffer b':')

-- One `Read` of the stream: some bytes, or an error.
pub data Read : Type 0 where
  chunk : Bytes → Read
  fails : Read

-- How a call of `Decode` ends, with the buffer that it leaves and the reads not yet made.
-- `waits` is a call that still blocks in `Read` when the reads at hand are used up.
pub data Decoded : Type 0 where
  got : Bytes → Bytes → List Read → Decoded
  failed : Bytes → List Read → Decoded
  crashed : Decoded
  waits : Bytes → Decoded

-- A failed `tryParse` keeps the buffer as it is: its `remaining` is used only with `ok`.
unfoldable pub decode : Bytes → List Read → Decoded
decode buffer [] = elim (try_parse buffer) [
  | parsed payload rest ↦ got payload rest []
  | need_more ↦ waits buffer
  | skip _ ↦ waits buffer
  | panics ↦ crashed
]
decode buffer (fails ∷ reads) = elim (try_parse buffer) [
  | parsed payload rest ↦ got payload rest (fails ∷ reads)
  | need_more ↦ failed buffer reads
  | skip _ ↦ failed buffer reads
  | panics ↦ crashed
]
decode buffer (chunk bytes ∷ reads) =
    let again = decode (buffer ++ bytes) reads in
    elim (try_parse buffer) [
      | parsed payload rest ↦ got payload rest (chunk bytes ∷ reads)
      | need_more ↦ again
      | skip _ ↦ again
      | panics ↦ crashed
    ]

encode_hello : encode (codes "hello") ≡ codes "5:hello,"
unfolding encode format
encode_hello = refl

decode_split :
    decode [] (chunk (codes "5:he") ∷ chunk (codes "llo,3:") ∷ fails ∷ [])
    ≡ got (codes "hello") (codes "3:") (fails ∷ [])
unfolding decode try_parse atoi
decode_split = refl

panic_negative : try_parse (codes "-4:") ≡ panics
unfolding try_parse atoi
panic_negative = refl
