-- ===== src/Helpers/Tests.antt =====
-- The helpers at small inputs, and a relay that starts.
use dia.Prelude.{◌≡◌, refl, true, none, some, [], ◌∷◌, codes}
use dia.Helpers.{concat_bytes, decode_hex, wipe_bytes, relay_main, serving, bad_keys}

chunks : concat_bytes ((1 ∷ 2 ∷ []) ∷ [] ∷ (3 ∷ []) ∷ []) ≡ 1 ∷ 2 ∷ 3 ∷ []
unfolding concat_bytes
chunks = refl

half_byte : decode_hex (codes "0fA") ≡ none
unfolding decode_hex
half_byte = refl

wiped : wipe_bytes (1 ∷ 2 ∷ []) ≡ 0 ∷ 0 ∷ []
unfolding wipe_bytes
wiped = refl

relay_starts :
    (relay_main (some (codes "50051", codes "0F")) (λ addr. true) true
      ≡ serving (codes ":50051") (15 ∷ []))
    × (relay_main (some (codes ":1", codes "x")) (λ addr. true) true ≡ bad_keys)
unfolding relay_main
relay_starts = (refl, refl)
