-- ===== src/Enrollment/Keys.antt =====
-- What the enrollment server reads of its environment.
use dia.Prelude.{
  ◌≡◌, refl, sym, ◌∙◌, inl, inr, true, List, [], ◌∷◌, ◌++◌, append_assoc, append-nil, Bytes,
  is_empty, if◌then◌else◌, Bool-cases,
}
use dia.Enrollment.{EnrollLib, env_vars, env_line, gather, missing_keys, parsed_keys, initialize}

-- The keys whose variable is empty, in the order of the list.
unfoldable pub missing_of : (Bytes → Bytes) → List Bytes → List Bytes
missing_of getenv [] = []
missing_of getenv (key ∷ keys) =
    let rest = missing_of getenv keys in if is_empty (getenv key) then key ∷ rest else rest

-- The lines of all keys.
unfoldable pub lines_of : (Bytes → Bytes) → List Bytes → Bytes
lines_of getenv [] = []
lines_of getenv (key ∷ keys) = env_line key (getenv key) ++ lines_of getenv keys

gather-missing_of :
    (getenv : Bytes → Bytes) (keys missing : List Bytes) (text : Bytes)
    → (gather getenv keys missing text).0 ≡ missing ++ missing_of getenv keys
unfolding gather missing_of
gather-missing_of getenv [] missing text = sym (append-nil missing)
gather-missing_of getenv (key ∷ keys) missing text = elim (Bool-cases (is_empty (getenv key))) [
  | inl e ↦ rw e (
      gather-missing_of getenv keys (missing ++ key ∷ []) text
      ∙ append_assoc missing (key ∷ []) (missing_of getenv keys))
  | inr e ↦ rw e (gather-missing_of getenv keys missing (text ++ env_line key (getenv key)))
]

gather-lines_of :
    (getenv : Bytes → Bytes) (keys missing : List Bytes) (text : Bytes)
    → is_empty (missing_of getenv keys) ≡ true
    → (gather getenv keys missing text).1 ≡ text ++ lines_of getenv keys
unfolding gather missing_of lines_of
gather-lines_of getenv [] missing text h = sym (append-nil text)
gather-lines_of getenv (key ∷ keys) missing text h = elim (Bool-cases (is_empty (getenv key))) [
  | inl e ↦ absurd (cc (rw e at h))
  | inr e ↦ rw e (
      gather-lines_of getenv keys missing (text ++ env_line key (getenv key)) (rw e at h)
      ∙ append_assoc text (env_line key (getenv key)) (lines_of getenv keys))
]

-- The server starts only with all six keys: without some of them it fails and names those, in their
-- order; with all, libdia gets one line for each, in their order, and decides.
pub initialize-missing_of :
    (lib : EnrollLib) (getenv : Bytes → Bytes)
    → initialize lib getenv ≡ (
        if is_empty (missing_of getenv env_vars)
        then parsed_keys lib (lib.server_config_from_env (lines_of getenv env_vars))
        else missing_keys (missing_of getenv env_vars))
unfolding initialize
initialize-missing_of lib getenv = elim (Bool-cases (is_empty (missing_of getenv env_vars))) [
  | inl e ↦
      rw (gather-missing_of getenv env_vars [] [], e, gather-lines_of getenv env_vars [] [] e) refl
  | inr e ↦ rw (gather-missing_of getenv env_vars [] [], e) refl
]
