-- ===== src/Phone/Tests.antt =====
-- The theorems on phone numbers at a number.
use dia.Prelude.{◌≡◌, refl, codes}
use dia.Phone.{is_phone_char, extract_phone, format_sip_uri}
use dia.Phone.Laws.{extract_phone-format_sip_uri}

extract_phone-format_sip_uri_example :
    extract_phone (format_sip_uri (codes "+1") (codes "")) ≡ codes "+1"
unfolding is_phone_char
extract_phone-format_sip_uri_example =
    extract_phone-format_sip_uri (codes "+1") (codes "") (refl, (refl, tt))
