-- ===== src/Phone.antt =====
-- The text functions of internal/sipcontroller/callmanager.go: `ExtractPhoneFromURI`, `FormatSIPURI`.
pub mod Laws
mod Tests
use dia.Prelude.{
  ℕ, ◌≡◌, refl, Bool, true, false, ◌&&◌, ◌||◌, List, [], ◌∷◌, ◌++◌, Option, none, some, Bytes,
  codes, leb, ◌==◌, is_empty, if◌then◌else◌, take, drop, length,
}

unfoldable pub starts_with : Bytes → Bytes → Bool
starts_with [] s = true
starts_with (c ∷ p) [] = false
starts_with (c ∷ p) (d ∷ s) = c == d && starts_with p s

-- `strings.TrimPrefix`
unfoldable pub trim_prefix : Bytes → Bytes → Bytes
unfolding starts_with
trim_prefix p s = if starts_with p s then drop (length p) s else s

-- `uri[:idx]` at the first `b`, the whole text if there is none.
unfoldable pub cut_before : ℕ → Bytes → Bytes
cut_before b [] = []
cut_before b (c ∷ s) = if c == b then [] else c ∷ cut_before b s

-- What the expression `[^\d+]` leaves.
unfoldable pub is_phone_char : ℕ → Bool
is_phone_char c = (leb b'0' c && leb c b'9') || c == b'+'

unfoldable pub keep_phone : Bytes → Bytes
unfolding is_phone_char
keep_phone [] = []
keep_phone (c ∷ s) = let rest = keep_phone s in if is_phone_char c then c ∷ rest else rest

unfoldable pub extract_phone : Bytes → Bytes
unfolding trim_prefix cut_before keep_phone
extract_phone uri = keep_phone (
    cut_before b';' (cut_before b'@' (trim_prefix (codes "tel:") (trim_prefix (codes "sip:") uri))))

unfoldable pub format_sip_uri : Bytes → Bytes → Bytes
format_sip_uri phone domain =
    codes "sip:" ++ (phone ++ (b'@' ∷ (if is_empty domain then codes "localhost" else domain)))

extract_sip : extract_phone (codes "sip:+15551234567@domain.com") ≡ codes "+15551234567"
unfolding extract_phone
extract_sip = refl

extract_tel : extract_phone (codes "tel:+1555;ext=2") ≡ codes "+1555"
unfolding extract_phone
extract_tel = refl
