-- ===== src/Netstring/Tests.antt =====
-- The theorems on netstrings at concrete streams.
use dia.Prelude.{◌≡◌, ◌≢◌, refl, [], ◌∷◌, ◌-◌, ◌^◌, arith, codes}
use dia.Decimal.{format, atoi}
use dia.Netstring.{encode, index_byte, try_parse, panics, chunk, fails, decode, got}
use dia.Netstring.RoundTrip.{Takes, decode-encode}
use dia.Netstring.Faults.{try_parse-panics_iff, decode-IsMalformed}

decode-encode_example :
    Takes
      (codes "hello")
      (codes "3:")
      (decode (codes "5:h") (chunk (codes "ello") ∷ chunk (codes ",3:") ∷ fails ∷ []))
unfolding encode format
decode-encode_example =
    decode-encode (codes "hello") (codes "3:") (codes "5:h")
      (chunk (codes "ello") ∷ chunk (codes ",3:") ∷ fails ∷ []) (omega arith) refl

try_parse-panics_example : try_parse (codes "-4:") ≡ panics
unfolding index_byte atoi
try_parse-panics_example = (try_parse-panics_iff (codes "-4:") (omega arith)).1 (
  2,
  2 ^ 64 - 4,
  record { enough = omega arith; colon = refl; value = refl },
  omega arith,
  omega arith,
)

decode-IsMalformed_example :
    decode (codes "x1:a,") (chunk (encode (codes "hello")) ∷ []) ≢ got (codes "hello") [] []
unfolding index_byte atoi
decode-IsMalformed_example =
    decode-IsMalformed (codes "x1:a,") (codes "hello") [] (chunk (encode (codes "hello")) ∷ []) []
      (omega arith, (2, refl, refl))
