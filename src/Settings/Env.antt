-- ===== src/Settings/Env.antt =====
-- The own phone number in an environment file, whatever its lines look like.
use dia.Prelude.{
  ℕ, ◌≡◌, refl, sym, ap, ◌∙◌, true, false, List, [], ◌∷◌, ◌++◌, Option, none, some, arith, Bytes,
  codes, str_eq, is_empty, ◌==◌, if◌then◌else◌, All,
}
use dia.Phone.{starts_with}
use dia.PeerCache.{trim_left, trim_right, trim_space}
use dia.Text.{
  lacks, lacks-append, lacks-trim_space, trim_space-ink, trim_space-trim_left,
  trim_space-trim_right, lacks-trim_left, trim_space-starts,
}
use dia.Callauth.Flags.{push}
use dia.Settings.{
  split_lines, cut_at, named, read_entry, my_phone, phone_or, find_phone, extract_self_phone,
}

-- A line: `other` has no `=`, as an empty one; `comment` has white space, `#` and any text; `entry` has
-- a key and a value, each of which may have white space around it.
pub data Line : Type 0 where
  other : Bytes → Line
  comment entry : Bytes → Bytes → Line

abbrev pub line_text : Line → Bytes
line_text (other s) = s
line_text (comment pad s) = pad ++ b'#' ∷ s
line_text (entry k v) = k ++ b'=' ∷ v

-- The lines, each with its line feed, and a last one without.
unfoldable pub env_text : List Line → Line → Bytes
env_text [] last = line_text last
env_text (l ∷ ls) last = line_text l ++ b'\n' ∷ env_text ls last

abbrev pub IsLine : Line → Type 0
IsLine (other s) = (lacks b'\n' s ≡ true) × (lacks b'=' s ≡ true)
IsLine (comment pad s) = (lacks b'\n' pad ≡ true) × (lacks b'\n' s ≡ true) × (trim_left pad ≡ [])
IsLine (entry k v) =
    (lacks b'\n' k ≡ true)
    × (lacks b'\n' v ≡ true)
    × (lacks b'=' k ≡ true)
    × (is_empty (trim_space k) ≡ false)
    × (starts_with (codes "#") (trim_space k) ≡ false)

-- The trimmed value of the first entry whose trimmed key is MY_PHONE, empty without one.
unfoldable pub phone_of : List Line → Bytes
phone_of [] = []
phone_of (other s ∷ ls) = phone_of ls
phone_of (comment pad s ∷ ls) = phone_of ls
phone_of (entry k v ∷ ls) = if str_eq (trim_space k) my_phone then trim_space v else phone_of ls

cut_at-lacks : (b : ℕ) (s : Bytes) → lacks b s ≡ true → cut_at b s ≡ none
unfolding cut_at lacks
cut_at-lacks b [] h = refl
cut_at-lacks b (c ∷ s) h = ground (arith, cut_at-lacks b s)

cut_at-append : (b : ℕ) (k v : Bytes) → lacks b k ≡ true → cut_at b (k ++ b ∷ v) ≡ some (k, v)
unfolding cut_at lacks
cut_at-append b [] v h = ground arith
cut_at-append b (c ∷ k) v h = ground (arith, cut_at-append b k v)

split_lines-plain : (s : Bytes) → lacks b'\n' s ≡ true → split_lines s ≡ s ∷ []
unfolding split_lines lacks push
split_lines-plain [] h = refl
split_lines-plain (c ∷ s) h = ground (arith, split_lines-plain s)

split_lines-append :
    (s t : Bytes) → lacks b'\n' s ≡ true → split_lines (s ++ b'\n' ∷ t) ≡ s ∷ split_lines t
unfolding split_lines lacks push
split_lines-append [] t h = refl
split_lines-append (c ∷ s) t h = ground (arith, split_lines-append s t)

around :
    (b d : ℕ) (s t : Bytes)
    → lacks b s ≡ true
    → lacks b t ≡ true
    → (d == b) ≡ false
    → lacks b (s ++ d ∷ t) ≡ true
unfolding lacks
around b d s t p q e = ground (arith, lacks-append b s (d ∷ t))

line_text-lacks : (l : Line) → IsLine l → lacks b'\n' (line_text l) ≡ true
line_text-lacks (other s) (p, _) = p
line_text-lacks (comment pad s) (p, q, _) = around b'\n' b'#' pad s p q refl
line_text-lacks (entry k v) (p, q, _, _, _) = around b'\n' b'=' k v p q refl

named_entry :
    (k v x : Bytes)
    → is_empty (trim_left k) ≡ false
    → (trim_space x ≡ v)
    → named (some (trim_left k, x)) ≡ some (trim_space k, v)
named_entry k v x h e = rw (h, e, trim_space-trim_left k) refl

-- What the reader makes of a line.
abbrev read_line : Line → Option (Bytes × Bytes)
read_line (other s) = none
read_line (comment pad s) = none
read_line (entry k v) = some (trim_space k, trim_space v)

read_other : (s : Bytes) → lacks b'=' s ≡ true → read_entry s ≡ none
unfolding read_entry
read_other s h = rw (cut_at-lacks b'=' s h) (ground arith)

read_comment : (s : Bytes) → read_entry (b'#' ∷ s) ≡ none
unfolding read_entry starts_with
read_comment s = refl

read_keyed :
    (k v : Bytes)
    → IsLine (entry k v)
    → read_entry (trim_left k ++ b'=' ∷ trim_right v) ≡ some (trim_space k, trim_space v)
unfolding read_entry starts_with
read_keyed k v (_, _, p, q, r) =
    let (d, u, t, e, f) = trim_space-starts k q in
    let full : is_empty (trim_left k) ≡ false = rw e refl in
    let begins : is_empty (trim_left k ++ b'=' ∷ trim_right v) ≡ false = rw e refl in
    let other_first : starts_with (codes "#") (trim_left k ++ b'=' ∷ trim_right v) ≡ false =
      rw e (rw f at r) in
    rw
      (
        begins,
        other_first,
        cut_at-append b'=' (trim_left k) (trim_right v) (lacks-trim_left b'=' k p),
        full,
        trim_space-trim_left k,
        trim_space-trim_right v,
      )
      refl

read_entry-trim_space : (l : Line) → IsLine l → read_entry (trim_space (line_text l)) ≡ read_line l
read_entry-trim_space (other s) (p, q) = read_other (trim_space s) (lacks-trim_space b'=' s q)
read_entry-trim_space (comment pad s) (p, q, e) =
    ap read_entry (trim_space-ink pad b'#' s refl ∙ ap (λ x. x ++ b'#' ∷ trim_right s) e)
    ∙ read_comment (trim_right s)
read_entry-trim_space (entry k v) l =
    ap read_entry (trim_space-ink k b'=' v refl) ∙ read_keyed k v l

phone_of-cons :
    (l : Line) (ls : List Line) → phone_of (l ∷ ls) ≡ phone_or (phone_of ls) (read_line l)
unfolding phone_of
phone_of-cons (other s) ls = refl
phone_of-cons (comment pad s) ls = refl
phone_of-cons (entry k v) ls = refl

find_phone-cons :
    (l : Line) (rest : List Bytes)
    → IsLine l
    → find_phone (line_text l ∷ rest) ≡ phone_or (find_phone rest) (read_line l)
unfolding find_phone
find_phone-cons l rest h = ap (phone_or (find_phone rest)) (read_entry-trim_space l h)

find_phone-nil : find_phone [] ≡ phone_of []
unfolding find_phone phone_of
find_phone-nil = refl

-- In a file of empty lines, comments, lines without `=`, and entries, each with white space wherever a
-- line may have it, the own phone is the trimmed value of the first entry whose trimmed key is
-- MY_PHONE, and it is empty if there is none.
pub extract_self_phone-env_text :
    (ls : List Line) (last : Line)
    → All IsLine ls
    → IsLine last
    → extract_self_phone (env_text ls last) ≡ phone_of (ls ++ last ∷ [])
unfolding extract_self_phone env_text
extract_self_phone-env_text [] last h g =
    ap find_phone (split_lines-plain (line_text last) (line_text-lacks last g))
    ∙ find_phone-cons last [] g
    ∙ ap (λ p. phone_or p (read_line last)) find_phone-nil
    ∙ sym (phone_of-cons last [])
extract_self_phone-env_text (l ∷ ls) last (i, h) g =
    ap find_phone (split_lines-append (line_text l) (env_text ls last) (line_text-lacks l i))
    ∙ find_phone-cons l (split_lines (env_text ls last)) i
    ∙ ap (λ p. phone_or p (read_line l)) (extract_self_phone-env_text ls last h g)
    ∙ sym (phone_of-cons l (ls ++ last ∷ []))
