-- ===== src/Enrollment/Tests.antt =====
-- The enrollment server without one of its keys.
use dia.Prelude.{◌≡◌, refl, [], ◌∷◌, some, is_empty, Bytes, codes, str_eq, if◌then◌else◌}
use dia.Enrollment.{
  EnrollLib, gather, env_vars, initialize, parsed_keys, missing_keys, enroll, enroll_subscriber,
  enrolled,
}
use dia.Enrollment.Keys.{missing_of, lines_of, initialize-missing_of}

no_key : Bytes → Bytes
no_key key = if str_eq key (codes "AT_SK") then [] else codes "1"

one_missing : (gather no_key env_vars [] []).0 ≡ codes "AT_SK" ∷ []
unfolding gather no_key str_eq
one_missing = refl

-- A library that takes the text of the keys as they are.
abbrev plain_lib : EnrollLib
plain_lib = record {
  ServerConfig = Bytes;
  Keys = Bytes;
  ClientConfig = Bytes;
  server_config_from_env = λ text. some text;
  process_enrollment = λ request s. some request;
  create_request = λ phone name logo. some (phone, name);
  finalize = λ keys response phone name logo. some response;
  to_env = λ c. some c;
}

initialize-missing_of_example : initialize plain_lib no_key ≡ (
    if is_empty (missing_of no_key env_vars)
    then parsed_keys plain_lib (some (lines_of no_key env_vars))
    else missing_keys (missing_of no_key env_vars))
initialize-missing_of_example = initialize-missing_of plain_lib no_key

enrolled_by :
    enroll plain_lib
      (λ request. enroll_subscriber plain_lib (some []) request)
      []
      (codes "1")
      (codes "n")
      []
    ≡ enrolled (codes "n")
unfolding enroll enroll_subscriber
enrolled_by = refl
