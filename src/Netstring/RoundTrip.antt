-- ===== src/Netstring/RoundTrip.antt =====
-- What `Encode` writes, `Decode` reads back, however the stream is cut into reads.
use dia.Prelude.{
  ◌<◌, ◌≡◌, ap, ◌∙◌, List, [], ◌∷◌, ◌++◌, arith, append_assoc, Bytes, length, length-append,
}
use dia.Decimal.{int_half}
use dia.Netstring.{encode, Read, chunk, fails, Decoded, got, decode}
use dia.Netstring.Prefix.{short, whole, progress}

-- The bytes that reads bring, up to the first error.
abbrev pub stream : List Read → Bytes
stream [] = []
stream (chunk bytes ∷ reads) = bytes ++ stream reads
stream (fails ∷ reads) = []

-- A decoder takes the frame `payload` off, and the bytes it leaves are `rest`.
abbrev pub Takes : Bytes → Bytes → Decoded → Type 0
Takes payload rest d =
    (buffer : Bytes) × (reads : List Read) × (d ≡ got payload buffer reads)
    × (buffer ++ stream reads ≡ rest)

-- A prefix shorter than the frame leaves bytes to be read.
not_short :
    (payload rest buffer : Bytes)
    → buffer ++ [] ≡ encode payload ++ rest
    → ¬ (length buffer < length (encode payload))
not_short payload rest buffer e l =
    omega (arith, ap length e, length-append buffer [], length-append (encode payload) rest)

-- If the buffered bytes and those still to be read begin with an encoded payload whose frame fits
-- an `int`, `Decode` returns that payload, however the bytes are cut into reads, and leaves
-- exactly the bytes behind the frame.
pub decode-encode :
    (payload rest buffer : Bytes) (reads : List Read)
    → length (encode payload) < int_half
    → buffer ++ stream reads ≡ encode payload ++ rest
    → Takes payload rest (decode buffer reads)
unfolding decode
decode-encode payload rest buffer [] fits e = elim (progress payload fits rest buffer [] e) [
  | short p l ↦ absurd (not_short payload rest buffer e l)
  | whole t p k ↦ (t, [], rw (p, decode), k)
]
decode-encode payload rest buffer (fails ∷ reads) fits e =
    elim (progress payload fits rest buffer [] e) [
      | short p l ↦ absurd (not_short payload rest buffer e l)
      | whole t p k ↦ (t, fails ∷ reads, rw (p, decode), k)
    ]
decode-encode payload rest buffer (chunk bytes ∷ reads) fits e =
    let later =
      decode-encode payload rest (buffer ++ bytes) reads fits
        (append_assoc buffer bytes (stream reads) ∙ e) in
    elim (progress payload fits rest buffer (bytes ++ stream reads) e) [
      | short p l ↦ rw (p, decode) later
      | whole t p k ↦ (t, chunk bytes ∷ reads, rw (p, decode), k)
    ]
