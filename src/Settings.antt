-- ===== src/Settings.antt =====
-- internal/sipcontroller/config.go: the DIA environment file, and what `ParseFlags` makes of the flags.
pub mod Env
mod Tests
use dia.Prelude.{
  Bool, true, false, ◌||◌, List, [], ◌∷◌, Option, none, some, Bytes, ℕ, codes, str_eq, is_empty,
  ◌==◌, if◌then◌else◌, map,
}
use dia.Phone.{starts_with}
use dia.PeerCache.{trim_space}
use dia.Callauth.Flags.{push, split}

-- `strings.Split(s, "\n")`
unfoldable pub split_lines : Bytes → List Bytes
unfolding push
split_lines [] = [] ∷ []
split_lines (c ∷ s) = let rest = split_lines s in if c == b'\n' then [] ∷ rest else push c rest

abbrev pub put_before : ℕ → Option (Bytes × Bytes) → Option (Bytes × Bytes)
put_before c none = none
put_before c (some (k, v)) = some (c ∷ k, v)

-- The texts before and after the first `b`, if there is one.
unfoldable pub cut_at : ℕ → Bytes → Option (Bytes × Bytes)
cut_at b [] = none
cut_at b (c ∷ s) = let rest = cut_at b s in if c == b then some ([], s) else put_before c rest

-- A key that is empty before it is trimmed makes no entry.
abbrev pub named : Option (Bytes × Bytes) → Option (Bytes × Bytes)
named none = none
named (some (k, v)) = if is_empty k then none else some (trim_space k, trim_space v)

-- The entry of a trimmed line: none of an empty line or a comment, or without `=` behind a key.
unfoldable pub read_entry : Bytes → Option (Bytes × Bytes)
unfolding cut_at starts_with trim_space
read_entry line =
    if is_empty line || starts_with (codes "#") line then none else named (cut_at b'=' line)

abbrev pub my_phone : Bytes
my_phone = codes "MY_PHONE"

abbrev pub phone_or : Bytes → Option (Bytes × Bytes) → Bytes
phone_or rest none = rest
phone_or rest (some (k, v)) = if str_eq k my_phone then v else rest

unfoldable pub find_phone : List Bytes → Bytes
unfolding read_entry
find_phone [] = []
find_phone (l ∷ ls) = phone_or (find_phone ls) (read_entry (trim_space l))

-- `ExtractSelfPhoneFromDIAEnv`
unfoldable pub extract_self_phone : Bytes → Bytes
unfolding find_phone split_lines
extract_self_phone content = find_phone (split_lines content)

-- `dia.ConfigFromEnv` over the texts of files; `none` is an error.
module _ {C : Type 0} (config_from_env : Bytes → Option C) where
  abbrev pub with_phone : Bytes → Option C → Option (C × Bytes)
  with_phone phone none = none
  with_phone phone (some c) = some (c, phone)

  -- `LoadDIAConfig`, on what `os.ReadFile` gives.
  unfoldable pub load_dia_config : Option Bytes → Option C
  load_dia_config none = none
  load_dia_config (some content) = config_from_env content

  -- `LoadDIAConfigAndSelfPhone`
  unfoldable pub load_dia_config_and_self_phone : Option Bytes → Option (C × Bytes)
  unfolding extract_self_phone
  load_dia_config_and_self_phone none = none
  load_dia_config_and_self_phone (some content) =
      with_phone (extract_self_phone content) (config_from_env content)

-- The defaults of the flags that are a text or a number; -1 is `none`, and a Boolean flag is off.
pub record Defaults : Type 0 where
  pub baresip_addr : Bytes
  pub relay_addr : Bytes
  pub timeout_sec : ℕ
  pub incoming_mode : Bytes
  pub oda_timeout_sec : ℕ
  pub outgoing_oda_delay : Option ℕ
  pub redis_addr : Bytes
  pub redis_db : ℕ
  pub redis_prefix : Bytes
  pub peer_session_ttl : ℕ
  pub experiment_runs : ℕ
  pub experiment_concurrency : ℕ
  pub inter_attempt_ms : ℕ

-- Every other text is empty.
abbrev pub flag_defaults : Defaults
flag_defaults = record {
  baresip_addr = codes "localhost:4444";
  relay_addr = codes "localhost:50052";
  timeout_sec = 5;
  incoming_mode = codes "baseline";
  oda_timeout_sec = 10;
  outgoing_oda_delay = none;
  redis_addr = codes "localhost:6379";
  redis_db = 0;
  redis_prefix = codes "denseid:dia:peer_session:v1";
  peer_session_ttl = 0;
  experiment_runs = 1;
  experiment_concurrency = 1;
  inter_attempt_ms = 0;
}

-- The flags that `ParseFlags` tests or changes.
pub record Flags : Type 0 where
  pub clear_cache : Bool
  pub cache : Bool
  pub env : Bytes
  pub oda_attrs : Bytes

-- The end of `ParseFlags`: whether the cache is enabled and the attributes, or the exit with status 1.
pub data Parsed : Type 0 where
  parsed : Bool → List Bytes → Parsed
  env_required : Parsed

-- `-oda-attrs`; unlike the list of the command line client, it keeps names that are empty.
unfoldable pub oda_attributes : Bytes → List Bytes
unfolding split trim_space
oda_attributes s = if is_empty s then [] else map trim_space (split s)

unfoldable pub parse_flags : Flags → Parsed
unfolding oda_attributes
parse_flags f =
    if f.clear_cache
    then parsed true []
    else if is_empty f.env
    then env_required
    else parsed f.cache (oda_attributes f.oda_attrs)
