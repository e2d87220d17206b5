-- ===== src/Helpers.antt =====
-- internal/helpers, and what cmd/relay/main.go and internal/relay/config.go make of the relay's settings.
-- SHA-256 is a parameter.
pub mod Hex
mod Tests
use dia.Prelude.{
  ℕ, zero, suc, ◌+◌, ◌-◌, ◌*◌, ◌/◌, ◌%◌, ◌≡◌, refl, ap, ◌∙◌, Bool, true, false, ◌&&◌, ◌||◌, List,
  [], ◌∷◌, ◌++◌, Option, none, some, Bytes, codes, ltb, leb, if◌then◌else◌, length,
}
use dia.Phone.{starts_with}

-- `WipeBytes`
unfoldable pub wipe_bytes : Bytes → Bytes
wipe_bytes [] = []
wipe_bytes (b ∷ bs) = 0 ∷ wipe_bytes bs

-- `make([]byte, n)`
unfoldable pub zeros : ℕ → Bytes
zeros zero = []
zeros (suc n) = 0 ∷ zeros n

-- `copy(dst, src)`: as much as fits.
unfoldable pub copy : Bytes → Bytes → Bytes
copy [] src = []
copy (d ∷ dst) [] = d ∷ dst
copy (d ∷ dst) (s ∷ src) = s ∷ copy dst src

-- The same behind the first `i` bytes.
unfoldable pub copy_at : ℕ → Bytes → Bytes → Bytes
unfolding copy
copy_at zero dst src = copy dst src
copy_at (suc i) [] src = []
copy_at (suc i) (d ∷ dst) src = d ∷ copy_at i dst src

-- How many bytes that is.
abbrev pub min : ℕ → ℕ → ℕ
min a b = if ltb a b then a else b

unfoldable pub total : List Bytes → ℕ
total [] = 0
total (c ∷ cs) = length c + total cs

-- The loop that copies the chunks in.
unfoldable pub copy_in : ℕ → Bytes → List Bytes → Bytes
unfolding copy_at
copy_in i out [] = out
copy_in i out (c ∷ cs) = copy_in (i + min (length out - i) (length c)) (copy_at i out c) cs

-- `ConcatBytes`
unfoldable pub concat_bytes : List Bytes → Bytes
unfolding copy_in zeros total
concat_bytes chunks = copy_in 0 (zeros (total chunks)) chunks

abbrev pub hex_digit : ℕ → ℕ
hex_digit n = if ltb n 10 then b'0' + n else b'a' + (n - 10)

-- `EncodeToHex`
unfoldable pub encode_to_hex : Bytes → Bytes
encode_to_hex [] = []
encode_to_hex (b ∷ bs) = hex_digit (b / 16) ∷ hex_digit (b % 16) ∷ encode_to_hex bs

unfoldable pub hex_value : ℕ → Option ℕ
hex_value c =
    if leb b'0' c && leb c b'9'
    then some (c - b'0')
    else if leb b'a' c && leb c b'f'
    then some (c - b'a' + 10)
    else if leb b'A' c && leb c b'F'
    then some (c - b'A' + 10)
    else none

abbrev pub hex_byte : Option ℕ → Option ℕ → Option Bytes → Option Bytes
hex_byte (some a) (some b) (some bs) = some ((a * 16 + b) ∷ bs)
hex_byte a b rest = none

-- `DecodeHex`: an error for another character or half a byte.
unfoldable pub decode_hex : Bytes → Option Bytes
unfolding hex_value
decode_hex [] = some []
decode_hex (c ∷ []) = none
decode_hex (c ∷ d ∷ s) = hex_byte (hex_value c) (hex_value d) (decode_hex s)

module _ (sha256 : Bytes → Bytes) where
  -- `Hash256`
  abbrev pub hash256 : Bytes → Bytes
  hash256 data_bytes = sha256 data_bytes

  -- `HashAll`
  unfoldable pub hash_all : List Bytes → Bytes
  unfolding concat_bytes
  hash_all items = hash256 (concat_bytes items)

  -- `HashAllHex`
  unfoldable pub hash_all_hex : List Bytes → Bytes
  unfolding concat_bytes encode_to_hex
  hash_all_hex items = encode_to_hex (hash256 (concat_bytes items))

  -- `Hash256Hex`
  unfoldable pub hash256_hex : Bytes → Bytes
  unfolding encode_to_hex
  hash256_hex data_bytes = encode_to_hex (hash256 data_bytes)

-- `ParseKeysAsBytes`, on `AtSkStr`; `none` is an error, also of a missing configuration.
unfoldable pub parse_keys_as_bytes : Option Bytes → Option Bytes
unfolding decode_hex
parse_keys_as_bytes none = none
parse_keys_as_bytes (some text) = decode_hex text

-- The address that the relay listens on.
unfoldable pub listen_addr : Bytes → Bytes
unfolding starts_with
listen_addr port = if starts_with (codes ":") port then port else codes ":" ++ port

-- How the relay's `main` ends, or that it serves with its key on an address.
pub data RelayMain : Type 0 where
  no_config bad_keys not_listening no_store : RelayMain
  serving : Bytes → Bytes → RelayMain

abbrev pub with_keys : (Bytes → Bool) → Bool → Bytes → Option Bytes → RelayMain
with_keys listens connects port none = bad_keys
with_keys listens connects port (some key) =
    let addr = listen_addr port in
    if listens addr then (if connects then serving addr key else no_store) else not_listening

-- The relay's `main`: a configuration is a port and the text of the key; `listens` and `connects` are
-- whether it can listen on an address and reach Redis.
unfoldable pub relay_main : Option (Bytes × Bytes) → (Bytes → Bool) → Bool → RelayMain
unfolding parse_keys_as_bytes listen_addr
relay_main none listens connects = no_config
relay_main (some (port, key)) listens connects =
    with_keys listens connects port (parse_keys_as_bytes (some key))
