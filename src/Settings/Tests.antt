-- ===== src/Settings/Tests.antt =====
-- The environment file at a small example, and the flags.
use dia.Prelude.{◌≡◌, refl, true, false, List, [], ◌∷◌, ◌++◌, codes, str_eq}
use dia.Phone.{starts_with}
use dia.PeerCache.{trim_space}
use dia.Text.{lacks}
use dia.Settings.{extract_self_phone, oda_attributes, parse_flags, parsed, env_required}
use dia.Settings.Env.{Line, other, comment, entry, env_text, phone_of, extract_self_phone-env_text}

abbrev file : List Line
file =
    comment (codes " ") (codes " MY_PHONE=0")
    ∷ other []
    ∷ entry (codes " MY_PHONE ") (codes " +1=2 ")
    ∷ []

abbrev tail : Line
tail = entry (codes "MY_PHONE") (codes "+3")

file_phone : phone_of (file ++ tail ∷ []) ≡ codes "+1=2"
unfolding phone_of trim_space str_eq
file_phone = refl

extract_self_phone-env_text_example :
    extract_self_phone (env_text file tail) ≡ phone_of (file ++ tail ∷ [])
unfolding lacks trim_space starts_with
extract_self_phone-env_text_example =
    extract_self_phone-env_text file tail
      ((refl, refl, refl), ((refl, refl), ((refl, refl, refl, refl, refl), tt)))
      (refl, refl, refl, refl, refl)

equals_first : extract_self_phone (codes "=1") ≡ []
unfolding extract_self_phone
equals_first = refl

attributes_kept : oda_attributes (codes " a,,b ") ≡ codes "a" ∷ [] ∷ codes "b" ∷ []
unfolding oda_attributes
attributes_kept = refl

flags_cleared :
    parse_flags (record { clear_cache = true; cache = false; env = []; oda_attrs = [] })
    ≡ parsed true []
unfolding parse_flags
flags_cleared = refl

flags_missing :
    parse_flags (record { clear_cache = false; cache = true; env = []; oda_attrs = [] })
    ≡ env_required
unfolding parse_flags
flags_missing = refl
