-- ===== src/Enrollment.antt =====
-- internal/enrollment and cmd/client/enroll: the keys of the enrollment server, and one enrollment.
-- libdia is a parameter; gRPC carries the request and the response as they are.
pub mod Keys
mod Tests
use dia.Prelude.{
  ℕ, Bool, true, false, List, [], ◌∷◌, ◌++◌, Option, none, some, Bytes, codes, is_empty,
  if◌then◌else◌,
}
use dia.Controller.State.{ℤ}

-- The calls of libdia: for the client keys and the configuration, for the server its configuration.
pub record EnrollLib : Type 1 where
  pub ServerConfig : Type 0
  pub Keys : Type 0
  pub ClientConfig : Type 0
  pub server_config_from_env : Bytes → Option ServerConfig
  pub process_enrollment : Bytes → ServerConfig → Option Bytes
  pub create_request : Bytes → Bytes → Bytes → Option (Keys × Bytes)
  pub finalize : Keys → Bytes → Bytes → Bytes → Bytes → Option ClientConfig
  pub to_env : ClientConfig → Option Bytes

abbrev pub env_vars : List Bytes
env_vars =
    codes "CI_SK"
    ∷ codes "CI_PK"
    ∷ codes "AT_SK"
    ∷ codes "AT_VK"
    ∷ codes "AMF_SK"
    ∷ codes "AMF_PK"
    ∷ []

-- `"%s=%s\n"`
abbrev pub env_line : Bytes → Bytes → Bytes
env_line key val = key ++ b'=' ∷ (val ++ b'\n' ∷ [])

-- The loop over the variables: the missing ones, and the text so far.
unfoldable pub gather : (Bytes → Bytes) → List Bytes → List Bytes → Bytes → List Bytes × Bytes
gather getenv [] missing text = (missing, text)
gather getenv (key ∷ keys) missing text =
    if is_empty (getenv key)
    then gather getenv keys (missing ++ key ∷ []) text
    else gather getenv keys missing (text ++ env_line key (getenv key))

-- How `InitializeDiaServerConfig` ends.
pub data Initialized (S : Type 0) : Type 0 where
  initialized : S → Initialized S
  missing_keys : List Bytes → Initialized S
  bad_keys : Initialized S

-- How the client's `main` ends: the printed configuration, or the step that failed.
pub data Enrolled : Type 0 where
  enrolled : Bytes → Enrolled
  name_required phone_required request_failed call_failed finalize_failed output_failed : Enrolled

module _ (lib : EnrollLib) where
  open lib use {ServerConfig, Keys, ClientConfig}

  abbrev pub parsed_keys : Option ServerConfig → Initialized ServerConfig
  parsed_keys none = bad_keys
  parsed_keys (some s) = initialized s

  abbrev pub with_keys : List Bytes × Bytes → Initialized ServerConfig
  with_keys (missing, text) =
      if is_empty missing
      then parsed_keys (lib.server_config_from_env text)
      else missing_keys missing

  -- `InitializeDiaServerConfig`
  unfoldable pub initialize : (Bytes → Bytes) → Initialized ServerConfig
  unfolding gather
  initialize getenv = with_keys (gather getenv env_vars [] [])

  -- `EnrollSubscriber`; `none` is an internal error, also for a server without its configuration.
  unfoldable pub enroll_subscriber : Option ServerConfig → Bytes → Option Bytes
  enroll_subscriber none request = none
  enroll_subscriber (some s) request = lib.process_enrollment request s

  abbrev pub printed : Option Bytes → Enrolled
  printed none = output_failed
  printed (some text) = enrolled text

  abbrev pub configured : Option ClientConfig → Enrolled
  configured none = finalize_failed
  configured (some c) = printed (lib.to_env c)

  abbrev pub answered : Bytes → Bytes → Bytes → Keys → Option Bytes → Enrolled
  answered phone name logo keys none = call_failed
  answered phone name logo keys (some response) =
      configured (lib.finalize keys response phone name logo)

  abbrev pub requested :
      (Bytes → Option Bytes) → Bytes → Bytes → Bytes → Option (Keys × Bytes) → Enrolled
  requested call phone name logo none = request_failed
  requested call phone name logo (some (keys, request)) =
      answered phone name logo keys (call request)

  -- The client's `main`: `call` is the server, `random_logo` the address drawn without `-logo`.
  unfoldable pub enroll : (Bytes → Option Bytes) → Bytes → Bytes → Bytes → Bytes → Enrolled
  enroll call random_logo phone name logo =
      let logo_url = if is_empty logo then random_logo else logo in
      if is_empty name
      then name_required
      else if is_empty phone
      then phone_required
      else requested call phone name logo_url (lib.create_request phone name logo_url)

-- How the `main` of a server ends, or that it serves.
pub data ServerMain (S : Type 0) : Type 0 where
  no_config not_listening : ServerMain S
  no_keys : Initialized S → ServerMain S
  serving : Bytes → S → ServerMain S

module _ (lib : EnrollLib) where
  abbrev pub when_initialized :
      (Bytes → Bool) → Bytes → Initialized lib.ServerConfig → ServerMain lib.ServerConfig
  when_initialized listens port (initialized s) =
      if listens port then serving port s else not_listening
  when_initialized listens port (missing_keys keys) = no_keys (missing_keys keys)
  when_initialized listens port bad_keys = no_keys bad_keys

  -- The `main` of the enrollment server; the configuration is its port.
  unfoldable pub server_main :
      Option Bytes → (Bytes → Bytes) → (Bytes → Bool) → ServerMain lib.ServerConfig
  unfolding initialize
  server_main none getenv listens = no_config
  server_main (some port) getenv listens = when_initialized listens port (initialize lib getenv)

-- cmd/helper/main.go: the keys of a new server as text. `generate` and `to_env` are libdia's.
module _ {S : Type 0} (generate : ℤ → Option S) (to_env : S → Option Bytes) where
  abbrev pub as_text : Option S → Option Bytes
  as_text none = none
  as_text (some s) = to_env s

  -- `registrationAuthoritySetup`; `none` is a failure.
  unfoldable pub registration_authority_setup : ℤ → Option Bytes
  registration_authority_setup duration_days = as_text (generate duration_days)
