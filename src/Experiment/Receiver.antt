-- ===== src/Experiment/Receiver.antt =====
-- cmd/sipcontroller/main.go: the rows that a process writes outside of an experiment, such as a
-- receiver's.
use dia.Prelude.{
  inl, inr, Bool-cases, ◌≡◌, refl, ap, ◌∙◌, Bool, true, false, not, ◌&&◌, ◌||◌, List, [], ◌∷◌, ◌++◌,
  arith, Bytes, str_eq, is_empty, if◌then◌else◌,
}
use dia.CallManager.{Outcome, answered, call_closed, call_error, oda_ended}
use dia.Controller.State.{CallResult}
use dia.Experiment.Loop.{is_oda}

abbrev pub is_close : Outcome → Bool
is_close o = elim o [ call_closed ↦ true | _ ↦ false ]

unfoldable pub has_id : Bytes → List Bytes → Bool
has_id k [] = false
has_id k (j ∷ js) = str_eq j k || has_id k js

-- `seenProtocolOutcome` after a result.
unfoldable pub noted : List Bytes → CallResult → List Bytes
noted seen res =
    if not (is_empty res.attempt_id) && is_oda res.outcome then res.attempt_id ∷ seen else seen

-- Whether the result is passed over. `incoming` is whether an incoming mode is set.
unfoldable pub suppressed : Bool → List Bytes → CallResult → Bool
unfolding has_id
suppressed incoming seen res =
    not (is_empty res.attempt_id) && incoming && is_close res.outcome && has_id res.attempt_id seen

-- The loop over the results, with the rows that it writes.
unfoldable pub write_results : Bool → List Bytes → List CallResult → List CallResult
unfolding noted suppressed
write_results incoming seen [] = []
write_results incoming seen (res ∷ more) =
    let rest = write_results incoming (noted seen res) more in
    if suppressed incoming (noted seen res) res then rest else res ∷ rest

-- Whether one of the results is an ODA's end of the attempt.
unfoldable pub has_end : Bytes → List CallResult → Bool
has_end k [] = false
has_end k (res ∷ more) = is_oda res.outcome && str_eq res.attempt_id k || has_end k more

-- What the loop has noted after some results.
noted_all : List Bytes → List CallResult → List Bytes
noted_all seen [] = seen
noted_all seen (res ∷ more) = noted_all (noted seen res) more

write_results-append :
    (incoming : Bool) (seen : List Bytes) (xs ys : List CallResult)
    → write_results incoming seen (xs ++ ys)
      ≡ write_results incoming seen xs ++ write_results incoming (noted_all seen xs) ys
unfolding write_results noted_all
write_results-append incoming seen [] ys = refl
write_results-append incoming seen (x ∷ xs) ys =
    ground (arith, write_results-append incoming (noted seen x) xs ys)

empty_differs : (a k : Bytes) → is_empty a ≡ true → is_empty k ≡ false → str_eq a k ≡ false
unfolding str_eq
empty_differs [] [] e h = cc
empty_differs [] (c ∷ k) e h = refl
empty_differs (d ∷ a) k e h = cc

has_id-noted :
    (k : Bytes) (seen : List Bytes) (res : CallResult)
    → is_empty k ≡ false
    → has_id k (noted seen res) ≡ (is_oda res.outcome && str_eq res.attempt_id k || has_id k seen)
unfolding noted has_id
has_id-noted k seen res h =
    noted_or (is_empty res.attempt_id) (is_oda res.outcome) res.attempt_id
      (λ e. empty_differs res.attempt_id k e h)
  where
    noted_or :
        (e o : Bool) (id : Bytes)
        → (e ≡ true → str_eq id k ≡ false)
        → has_id k (if not e && o then id ∷ seen else seen) ≡ (o && str_eq id k || has_id k seen)
    noted_or true true id f = rw (f refl) refl
    noted_or true false id f = refl
    noted_or false true id f = refl
    noted_or false false id f = refl

has_id-noted_all :
    (k : Bytes) (seen : List Bytes) (xs : List CallResult)
    → is_empty k ≡ false
    → has_id k (noted_all seen xs) ≡ (has_end k xs || has_id k seen)
unfolding noted_all has_end
has_id-noted_all k seen [] h = refl
has_id-noted_all k seen (x ∷ xs) h =
    ground (arith, has_id-noted_all k (noted seen x) xs, has_id-noted k seen x)

close_not_oda : (o : Outcome) → is_close o ≡ true → is_oda o ≡ false
close_not_oda call_closed h = refl
close_not_oda answered h = refl
close_not_oda call_error h = refl
close_not_oda (oda_ended e) h = cc

or_false : (b : Bool) → (b || false) ≡ b
or_false true = refl
or_false false = refl

same_test :
    (e inc c a b : Bool)
    → e ≡ false
    → (c ≡ true → a ≡ b)
    → (not e && inc && c && a) ≡ (inc && c && b)
same_test true inc c a b h f = cc
same_test false true true a b h f = f refl
same_test false true false a b h f = refl
same_test false false c a b h f = refl

named_lem :
    (incoming : Bool) (before : List CallResult) (res : CallResult)
    → is_empty res.attempt_id ≡ false
    → suppressed incoming (noted (noted_all [] before) res) res
      ≡ (incoming && is_close res.outcome && has_end res.attempt_id before)
unfolding suppressed has_id
named_lem incoming before res h =
    same_test (is_empty res.attempt_id) incoming (is_close res.outcome) _ _ h λ closed.
      has_id-noted res.attempt_id (noted_all [] before) res h
      ∙ ap
          (λ b.
            b && str_eq res.attempt_id res.attempt_id
            || has_id res.attempt_id (noted_all [] before))
          (close_not_oda res.outcome closed)
      ∙ has_id-noted_all res.attempt_id [] before h
      ∙ or_false (has_end res.attempt_id before)

-- A result with no attempt id is never passed over.
suppressed_lem :
    (incoming : Bool) (before : List CallResult) (res : CallResult)
    → suppressed incoming (noted (noted_all [] before) res) res ≡ (
        not (is_empty res.attempt_id)
        && (incoming && is_close res.outcome && has_end res.attempt_id before))
unfolding suppressed
suppressed_lem incoming before res = elim (Bool-cases (is_empty res.attempt_id)) [
  | inl bare ↦ rw bare refl
  | inr full ↦ named_lem incoming before res full ∙ rw full refl
]

-- Every result gives a row, in order, but the close of an attempt with an id, with an incoming mode,
-- whose ODA ended before. A result with no attempt id always gives one.
pub write_results-snoc :
    (incoming : Bool) (before : List CallResult) (res : CallResult)
    → write_results incoming [] (before ++ res ∷ [])
      ≡ write_results incoming [] before
        ++ (if not (is_empty res.attempt_id)
              && (incoming && is_close res.outcome && has_end res.attempt_id before)
            then []
            else res ∷ [])
unfolding write_results
write_results-snoc incoming before res =
    write_results-append incoming [] before (res ∷ [])
    ∙ ap (λ (ys : List CallResult). write_results incoming [] before ++ ys)
        (ap (λ b. if b then [] else res ∷ []) (suppressed_lem incoming before res))
