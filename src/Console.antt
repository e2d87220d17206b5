-- ===== src/Console.antt =====
-- cmd/sipcontroller/main.go: the commands that are typed at the controller.
pub mod Words
pub mod RoundTrip
pub mod Loop
mod Tests
use dia.Prelude.{
  ℕ, zero, suc, Bool, true, false, ◌&&◌, ◌||◌, List, [], ◌∷◌, Option, none, some, Bytes, codes,
  str_eq, is_empty, ltb, leb, ◌==◌, if◌then◌else◌,
}
use dia.Decimal.{int_half, scan}
use dia.Experiment.{to_lower}
use dia.PeerCache.{is_space, trim_space}
use dia.Callauth.Flags.{split}
use dia.Controller.State.{ℤ, pos, negsuc}

abbrev pub put_word : Bytes → List Bytes → List Bytes
put_word w ws = if is_empty w then ws else w ∷ ws

-- The fields behind the word at hand.
unfoldable pub fields_from : Bytes → List Bytes × Bytes
fields_from [] = ([], [])
fields_from (c ∷ s) =
    let (ws, w) = fields_from s in if is_space c then (put_word w ws, []) else (ws, c ∷ w)

-- `strings.Fields` on ASCII.
unfoldable pub fields : Bytes → List Bytes
unfolding fields_from
fields s = let (ws, w) = fields_from s in put_word w ws

unfoldable pub digit_prefix : Bytes → Bytes
digit_prefix [] = []
digit_prefix (c ∷ s) =
    let rest = digit_prefix s in if leb b'0' c && leb c b'9' then c ∷ rest else []

abbrev pub negated : ℕ → ℤ
negated zero = pos zero
negated (suc n) = negsuc n

-- A number that is out of the range of an int64 is an error.
abbrev pub in_range : Bool → Option ℕ → Option ℤ
in_range negative none = none
in_range true (some n) = if leb n int_half then some (negated n) else none
in_range false (some n) = if ltb n int_half then some (pos n) else none

abbrev pub scan_prefix : Bool → Bytes → Option ℤ
scan_prefix negative s =
    let digits = digit_prefix s in
    if is_empty digits then none else in_range negative (scan 0 digits)

-- `fmt.Sscanf` with "%d" on a word: the number that it begins with; `none` stores nothing.
unfoldable pub sscanf_int : Bytes → Option ℤ
unfolding digit_prefix scan
sscanf_int [] = none
sscanf_int (c ∷ s) =
    if c == b'-'
    then scan_prefix true s
    else if c == b'+'
    then scan_prefix false s
    else scan_prefix false (c ∷ s)

abbrev pub or_else : ℤ → Option ℤ → ℤ
or_else n none = n
or_else n (some m) = m

-- What a line asks for, with the reasons for which it is refused.
pub data Command : Type 0 where
  nothing list quit help dial_usage dial_proto oda_usage run_usage : Command
  dial : Bytes → Bool → Command
  oda : Bytes → List Bytes → Command
  run : Bytes → Bytes → ℤ → ℤ → Command
  unknown : Bytes → Command

-- `on`, `off` and their likes in any case.
unfoldable pub proto_flag : Bytes → Option Bool
unfolding to_lower
proto_flag word =
    let w = to_lower word in
    if str_eq w (codes "on")
      || str_eq w (codes "true")
      || str_eq w (codes "1")
      || str_eq w (codes "proto_on")
    then some true
    else if str_eq w (codes "off")
        || str_eq w (codes "false")
        || str_eq w (codes "0")
        || str_eq w (codes "proto_off")
    then some false
    else none

abbrev pub dial_with : Bytes → Option Bool → Command
dial_with phone none = dial_proto
dial_with phone (some on) = dial phone on

-- The words behind each command; words beyond those that it reads are ignored.
unfoldable pub dial_words : List Bytes → Command
unfolding proto_flag
dial_words [] = dial_usage
dial_words (phone ∷ []) = dial phone true
dial_words (phone ∷ proto ∷ more) = dial_with phone (proto_flag proto)

unfoldable pub oda_words : List Bytes → Command
unfolding split
oda_words (call_id ∷ attrs ∷ more) = oda call_id (split attrs)
oda_words _ = oda_usage

unfoldable pub run_words : List Bytes → Command
unfolding sscanf_int
run_words (mode ∷ phone ∷ runs ∷ []) = run mode phone (or_else (pos 0) (sscanf_int runs)) (pos 1)
run_words (mode ∷ phone ∷ runs ∷ conc ∷ more) =
    run mode phone (or_else (pos 0) (sscanf_int runs)) (or_else (pos 1) (sscanf_int conc))
run_words _ = run_usage

unfoldable pub command_of : List Bytes → Command
unfolding dial_words oda_words run_words
command_of [] = nothing
command_of (cmd ∷ args) =
    if str_eq cmd (codes "dial")
    then dial_words args
    else if str_eq cmd (codes "list")
    then list
    else if str_eq cmd (codes "oda")
    then oda_words args
    else if str_eq cmd (codes "quit") || str_eq cmd (codes "exit")
    then quit
    else if str_eq cmd (codes "run")
    then run_words args
    else if str_eq cmd (codes "help")
    then help
    else unknown cmd

-- A line of the input; an empty one is passed over.
unfoldable pub read_command : Bytes → Command
unfolding fields command_of trim_space
read_command text =
    let line = trim_space text in if is_empty line then nothing else command_of (fields line)
