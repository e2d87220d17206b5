-- ===== src/Console/RoundTrip.antt =====
-- A typed command is read as what it says.
use dia.Prelude.{
  ℕ, suc, ◌<◌, ◌≡◌, refl, ap, ◌∙◌, inl, inr, Bool, true, false, List, [], ◌∷◌, ◌++◌, some, arith,
  Bytes, codes, str_eq, is_empty, if◌then◌else◌, All, Bool-cases, map,
}
use dia.Decimal.{format, int_half, scan}
use dia.Decimal.RoundTrip.{IsDigit, format-IsDigit, scan-format, format-ne-nil}
use dia.Callauth.Flags.{join, IsItem, split-join}
use dia.Controller.State.{ℤ, pos, negsuc}
use dia.Console.{
  digit_prefix, sscanf_int, Command, nothing, list, quit, help, dial_usage, dial_proto, oda_usage,
  run_usage, dial, oda, run, unknown, dial_words, oda_words, run_words, proto_flag, command_of,
  read_command,
}
use dia.Console.Words.{blank, inky, spread, IsWord, IsGap, fields-spread, read_command-fields}

abbrev pub show : ℤ → Bytes
show (pos n) = format n
show (negsuc n) = b'-' ∷ format (suc n)

abbrev pub InRange : ℤ → Type 0
InRange (pos n) = n < int_half
InRange (negsuc n) = n < int_half

-- A command's words.
abbrev pub words_of : Command → Bytes × List Bytes
words_of list = (codes "list", [])
words_of quit = (codes "quit", [])
words_of help = (codes "help", [])
words_of (dial phone on) = (codes "dial", phone ∷ (if on then codes "on" else codes "off") ∷ [])
words_of (oda call_id attrs) = (codes "oda", call_id ∷ join attrs ∷ [])
words_of (run mode phone runs conc) = (codes "run", mode ∷ phone ∷ show runs ∷ show conc ∷ [])
words_of (unknown cmd) = (cmd, [])
words_of _ = ([], [])

abbrev pub IsTyped : Command → Type 0
IsTyped list = Unit
IsTyped quit = Unit
IsTyped help = Unit
IsTyped (dial phone on) = Unit
IsTyped (oda call_id attrs) = (is_empty attrs ≡ false) × All IsItem attrs
IsTyped (run mode phone runs conc) = InRange runs × InRange conc
IsTyped _ = ⊥

digit_prefix-digits : (s : Bytes) → All IsDigit s → digit_prefix s ≡ s
unfolding digit_prefix
digit_prefix-digits [] h = refl
digit_prefix-digits (c ∷ s) (h, hs) = rw (digit_prefix-digits s hs) (ground arith)

sscanf-pos :
    (n : ℕ) (s : Bytes)
    → All IsDigit s
    → is_empty s ≡ false
    → scan 0 s ≡ some n
    → n < int_half
    → sscanf_int s ≡ some (pos n)
unfolding sscanf_int
sscanf-pos n [] d h e lt = absurd (cc h)
sscanf-pos n (c ∷ s) d h e lt = rw (digit_prefix-digits (c ∷ s) d, e) (ground arith)

sscanf-neg :
    (n : ℕ) (s : Bytes)
    → All IsDigit s
    → is_empty s ≡ false
    → scan 0 s ≡ some (suc n)
    → n < int_half
    → sscanf_int (b'-' ∷ s) ≡ some (negsuc n)
unfolding sscanf_int
sscanf-neg n s d h e lt = rw (digit_prefix-digits s d, e, h) (ground arith)

format-filled : (n : ℕ) → is_empty (format n) ≡ false
format-filled n = elim (Bool-cases (is_empty (format n))) [
  | inl e ↦ absurd (format-ne-nil n (nothing_in (format n) e))
  | inr e ↦ e
]
  where
    nothing_in : (s : Bytes) → is_empty s ≡ true → s ≡ []
    nothing_in [] e = refl
    nothing_in (c ∷ s) e = cc

sscanf_int-show : (z : ℤ) → InRange z → sscanf_int (show z) ≡ some z
sscanf_int-show (pos n) h =
    sscanf-pos n (format n) (format-IsDigit n) (format-filled n) (scan-format n) h
sscanf_int-show (negsuc n) h =
    sscanf-neg n (format (suc n)) (format-IsDigit (suc n)) (format-filled (suc n))
      (scan-format (suc n)) h

oda_read :
    (call_id : Bytes) (attrs : List Bytes)
    → is_empty attrs ≡ false
    → All IsItem attrs
    → oda_words (call_id ∷ join attrs ∷ []) ≡ oda call_id attrs
unfolding oda_words
oda_read call_id [] h i = absurd (cc h)
oda_read call_id (a ∷ attrs) h i = ap (oda call_id) (split-join a attrs i)

run_read :
    (mode phone : Bytes) (runs conc : ℤ)
    → InRange runs
    → InRange conc
    → run_words (mode ∷ phone ∷ show runs ∷ show conc ∷ []) ≡ run mode phone runs conc
unfolding run_words
run_read mode phone runs conc p q = rw (sscanf_int-show runs p, sscanf_int-show conc q) refl

dial_read :
    (phone : Bytes) (on : Bool)
    → dial_words (phone ∷ (if on then codes "on" else codes "off") ∷ []) ≡ dial phone on
unfolding dial_words proto_flag str_eq
dial_read phone true = refl
dial_read phone false = refl

command_of-words_of : (c : Command) → IsTyped c → command_of ((words_of c).0 ∷ (words_of c).1) ≡ c
unfolding command_of str_eq
command_of-words_of list h = refl
command_of-words_of quit h = refl
command_of-words_of help h = refl
command_of-words_of (dial phone on) h = dial_read phone on
command_of-words_of (oda call_id attrs) (p, q) = oda_read call_id attrs p q
command_of-words_of (run mode phone runs conc) (p, q) = run_read mode phone runs conc p q
command_of-words_of nothing h = absurd h
command_of-words_of dial_usage h = absurd h
command_of-words_of dial_proto h = absurd h
command_of-words_of oda_usage h = absurd h
command_of-words_of run_usage h = absurd h
command_of-words_of (unknown cmd) h = absurd h

command-IsWord : (c : Command) → IsTyped c → IsWord (words_of c).0
unfolding inky
command-IsWord list h = (refl, refl)
command-IsWord quit h = (refl, refl)
command-IsWord help h = (refl, refl)
command-IsWord (dial phone on) h = (refl, refl)
command-IsWord (oda call_id attrs) h = (refl, refl)
command-IsWord (run mode phone runs conc) h = (refl, refl)
command-IsWord nothing h = absurd h
command-IsWord dial_usage h = absurd h
command-IsWord dial_proto h = absurd h
command-IsWord oda_usage h = absurd h
command-IsWord run_usage h = absurd h
command-IsWord (unknown cmd) h = absurd h

-- A line that has the words of a list, help, quit, dial, oda or run command, with any white space
-- around and between them, is read as that command, if the attributes are items, at least one, and the
-- two numbers are in the range of an int.
pub read_command-words_of :
    (c : Command) (lead : Bytes) (ws : List (Bytes × Bytes)) (tail : Bytes)
    → IsTyped c
    → map (λ p. p.1) ws ≡ (words_of c).1
    → blank lead ≡ true
    → All IsGap ws
    → blank tail ≡ true
    → read_command (lead ++ ((words_of c).0 ++ spread ws tail)) ≡ c
read_command-words_of c lead ws tail t e p h b =
    read_command-fields (lead ++ ((words_of c).0 ++ spread ws tail))
    ∙ ap command_of (
        fields-spread lead (words_of c).0 ws tail p (command-IsWord c t) h b
        ∙ ap (◌∷◌ (words_of c).0) e)
    ∙ command_of-words_of c t
