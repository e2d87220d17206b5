-- ===== src/Netstring/Prefix.antt =====
-- What `tryParse` makes of a prefix of a stream that begins with a frame.
use dia.Prelude.{
  suc, ◌+◌, ◌-◌, ◌%◌, ◌≤◌, ◌<◌, ◌≡◌, ap, sym, ◌∙◌, inl, inr, true, [], ◌∷◌, ◌++◌, none, some, arith,
  append_assoc, Bytes, ltb, length, length-append, take-append, drop_past, get_elem?-append,
  get_elem?, ge→ltb, Bool-cases,
}
use dia.Decimal.{int_mod, int_half, format}
use dia.Decimal.RoundTrip.{format-IsDigit, format-ne-nil, atoi-format}
use dia.Netstring.{
  encode, index_byte, parsed, need_more, try_parse, with_length, check_comma, extract,
}
use dia.Netstring.Cuts.{inside, past, cut, split_prefix, digits_no_colon}

module _ (payload : Bytes) (fits : length (encode payload) < int_half) where
  abbrev header : Bytes
  header = format (length payload)

  length-encode : length (encode payload) ≡ length header + length payload + 2
  unfolding encode
  length-encode = omega (
    arith,
    length-append header (b':' ∷ (payload ++ b',' ∷ [])),
    length-append payload (b',' ∷ []),
  )

  header_pos : 0 < length header
  header_pos = ground (arith, format-ne-nil (length payload))

  -- The header read, and too few bytes behind it.
  parse_short :
      (t : Bytes)
      → length t < length payload + 1
      → with_length (header ++ (b':' ∷ t)) (length header) (some (length payload)) ≡ need_more
  unfolding with_length
  parse_short t h = ground (arith, length-append header (b':' ∷ t), length-encode, fits)

  frame : Bytes
  frame = header ++ (b':' ∷ payload)

  frame_append : (t : Bytes) → header ++ (b':' ∷ (payload ++ (b',' ∷ t))) ≡ frame ++ (b',' ∷ t)
  unfolding frame
  frame_append t = sym (append_assoc header (b':' ∷ payload) (b',' ∷ t))

  length-frame : length header + 1 + length payload ≡ length frame
  unfolding frame
  length-frame = omega (arith, length-append header (b':' ∷ payload))

  total_lem : (length header + 1 + length payload + 1) % int_mod ≡ suc (length frame)
  total_lem = omega (arith, length-frame, length-encode, fits)

  comma_at :
      (t : Bytes)
      → get_elem? (header ++ (b':' ∷ (payload ++ (b',' ∷ t)))) (suc (length frame) - 1) ≡ some b','
  comma_at t =
      rw (frame_append t)
        (ap (get_elem? (frame ++ (b',' ∷ t))) (omega arith) ∙ get_elem?-append frame b',' t)

  extract_whole :
      (t : Bytes)
      → extract
          (header ++ (b':' ∷ (payload ++ (b',' ∷ t))))
          (length header)
          (length payload)
          (suc (length frame))
        ≡ parsed payload t
  unfolding extract
  extract_whole t = ground (
    arith,
    length-encode,
    fits,
    drop_past header b':' (payload ++ (b',' ∷ t)),
    take-append payload (b',' ∷ t),
    frame_append t,
    drop_past frame b',' t,
  )

  parse_whole :
      (t : Bytes)
      → with_length
          (header ++ (b':' ∷ (payload ++ (b',' ∷ t))))
          (length header)
          (some (length payload))
        ≡ parsed payload t
  unfolding with_length check_comma
  parse_whole t = rw total_lem (
      ground (
        arith,
        comma_at t,
        extract_whole t,
        frame_append t,
        length-append frame (b',' ∷ t),
        length-frame,
        length-encode,
        fits,
      ))

  -- A prefix of the stream: the frame is not all there yet, or it is there and is taken off.
  pub data Progress (rest s x : Bytes) : Type 0 where
    short : try_parse s ≡ need_more → length s < length (encode payload) → Progress rest s x
    whole : (t : Bytes) → try_parse s ≡ parsed payload t → t ++ x ≡ rest → Progress rest s x

  try_parse-colon :
      (s t : Bytes)
      → s ≡ header ++ (b':' ∷ t)
      → 3 ≤ length s
      → index_byte s b':' ≡ some (length header)
      → try_parse s ≡ with_length (header ++ (b':' ∷ t)) (length header) (some (length payload))
  unfolding try_parse
  try_parse-colon s t e l i =
      rw (ge→ltb (length s) 3 l, i)
        (rw e (
          rw (
            take-append header (b':' ∷ t),
            atoi-format (length payload) (omega (arith, length-encode, fits)),
          )))

  try_parse-tiny : (s : Bytes) → ltb (length s) 3 ≡ true → try_parse s ≡ need_more
  unfolding try_parse
  try_parse-tiny s h = rw h

  Progress-short :
      (rest s x t : Bytes)
      → s ≡ header ++ (b':' ∷ t)
      → length t < length payload + 1
      → index_byte s b':' ≡ some (length header)
      → Progress rest s x
  Progress-short rest s x t e l i = short parse smaller
    where
      length_s : length s ≡ length header + suc (length t)
      length_s = rw e (length-append header (b':' ∷ t))

      smaller : length s < length (encode payload)
      smaller = omega (arith, length_s, length-encode)

      parse : try_parse s ≡ need_more
      parse = elim (Bool-cases (ltb (length s) 3)) [
        | inl tiny ↦ try_parse-tiny s tiny
        | inr big ↦ try_parse-colon s t e (ground arith) i ∙ parse_short t l
      ]

  Progress-whole :
      (rest s x u : Bytes)
      → s ≡ header ++ (b':' ∷ (payload ++ (b',' ∷ u)))
      → u ++ x ≡ rest
      → index_byte s b':' ≡ some (length header)
      → Progress rest s x
  Progress-whole rest s x u e k i =
      whole u (try_parse-colon s (payload ++ (b',' ∷ u)) e big i ∙ parse_whole u) k
    where
      big : 3 ≤ length s
      big = rw e (
          omega (
            arith,
            length-append header (b':' ∷ (payload ++ (b',' ∷ u))),
            length-append payload (b',' ∷ u),
            header_pos,
          ))

  Progress-past :
      (rest s x t : Bytes)
      → s ≡ header ++ (b':' ∷ t)
      → t ++ x ≡ payload ++ (b',' ∷ rest)
      → index_byte s b':' ≡ some (length header)
      → Progress rest s x
  Progress-past rest s x t e f i =
      elim (split_prefix (payload ++ b',' ∷ []) rest t x
        (f ∙ sym (append_assoc payload (b',' ∷ []) rest))) [
          | inl l ↦ Progress-short rest s x t e (omega (arith, length-append payload (b',' ∷ []))) i
          | inr (u, g, k) ↦
              Progress-whole rest s x u
                (e ∙ ap (λ v. header ++ (b':' ∷ v)) (g ∙ append_assoc payload (b',' ∷ []) u)) k i
        ]

  try_parse-no_colon : (s : Bytes) → index_byte s b':' ≡ none → try_parse s ≡ need_more
  unfolding try_parse
  try_parse-no_colon s e = rw e (ground arith)

  encode_append :
      (rest : Bytes) → encode payload ++ rest ≡ header ++ (b':' ∷ (payload ++ (b',' ∷ rest)))
  unfolding encode
  encode_append rest = simp append_assoc

  pub progress : (rest s x : Bytes) → s ++ x ≡ encode payload ++ rest → Progress rest s x
  progress rest s x e =
      elim (cut b':' header (payload ++ (b',' ∷ rest)) s x
        (digits_no_colon header (format-IsDigit (length payload))) (e ∙ encode_append rest)) [
          | inside i l ↦ short (try_parse-no_colon s i) (omega (arith, length-encode))
          | past t f g i ↦ Progress-past rest s x t f g i
        ]
