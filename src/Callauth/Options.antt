-- ===== src/Callauth/Options.antt =====
-- cmd/client/callauth/main.go: `parseFlags`, and the cache that `main` opens by its options.
use dia.Prelude.{ℕ, Bool, not, ◌&&◌, Option, none, some, Bytes, is_empty, if◌then◌else◌}
use dia.PeerCache.{KeyStore, trim_space, ttl_of}
use dia.PeerCache.Shared.{Options, Cache, new_cache}
use dia.Controller.State.{ℤ, pos, negsuc}
use dia.Callauth.{AppConfig}
use dia.Callauth.Flags.{parse_comma_list}

-- The flags as they are given.
pub record Given : Type 0 where
  pub dial : Bytes
  pub receive : Bytes
  pub env : Bytes
  pub oda : ℤ
  pub oda_attrs : Bytes
  pub bye : Bool
  pub cache : Bool
  pub self : Bytes
  pub redis : Bytes
  pub redis_user : Bytes
  pub redis_pass : Bytes
  pub redis_db : ℤ
  pub redis_prefix : Bytes
  pub peer_session_ttl : ℤ

-- What `parseFlags` returns: the environment file, the phone, the direction, the options of the
-- handlers and those of the cache; or the message that ends the program.
pub data Parsed : Type 0 where
  ready : Bytes → Bytes → Bool → AppConfig → Options → Parsed
  phone_required both_phones env_required self_required : Parsed

-- Only a delay that is not negative counts.
abbrev pub delay_of : ℤ → Option ℕ
delay_of (pos n) = some n
delay_of (negsuc n) = none

unfoldable pub app_config : Given → AppConfig
unfolding parse_comma_list trim_space
app_config g = record {
  oda_delay_sec = delay_of g.oda;
  oda_attrs = parse_comma_list g.oda_attrs;
  bye = g.bye;
  cache_enabled = g.cache;
  self_phone = trim_space g.self;
}

unfoldable pub cache_options : Given → Options
unfolding trim_space ttl_of
cache_options g = record {
  enabled = g.cache;
  addr = trim_space g.redis;
  username = trim_space g.redis_user;
  password = g.redis_pass;
  db = g.redis_db;
  prefix = trim_space g.redis_prefix;
  ttl = ttl_of g.peer_session_ttl;
}

-- `parseFlags`, behind `flag.Parse`; a text that is not there is empty.
unfoldable pub parse_flags : Given → Parsed
unfolding app_config cache_options
parse_flags g =
    if is_empty g.dial && is_empty g.receive
    then phone_required
    else if not (is_empty g.dial) && not (is_empty g.receive)
    then both_phones
    else if is_empty g.env
    then env_required
    else if g.cache && is_empty (app_config g).self_phone
    then self_required
    else ready g.env (if is_empty g.dial then g.receive else g.dial) (not (is_empty g.dial))
        (app_config g) (cache_options g)

-- `loadDIAConfig`, on what `os.ReadFile` gives; `none` is an error.
unfoldable pub load_dia_config : {C : Type 0} → (Bytes → Option C) → Option Bytes → Option C
load_dia_config config_from_env none = none
load_dia_config config_from_env (some content) = config_from_env content

-- The cache that `main` opens; the outer `none` ends the program.
unfoldable pub open_cache : KeyStore → Options → Option (Option Cache)
unfolding new_cache
open_cache redis opts = new_cache redis opts
