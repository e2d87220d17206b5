-- ===== src/Experiment/Pipeline.antt =====
-- The pipeline of the experiment: how many attempts are in flight at any time, and when it ends.
use dia.Prelude.{
  ℕ, suc, ◌+◌, ◌≤◌, ◌<◌, ◌≡◌, refl, ap, ◌∙◌, ◌⊎◌, inl, inr, Bool, true, false, [], ◌∷◌, some, arith,
  Bytes, str_eq, str_eq_iff, if◌then◌else◌, length, Bool-cases,
}
use dia.CallManager.{Entries, lookup, delete, store}
use dia.Experiment.{Plan, Attempt, new_attempt, Runner, World}

module _ {V : Type 0} where
  -- How many entries a key has.
  unfoldable pub occurs : Bytes → Entries V → ℕ
  occurs k [] = 0
  occurs k ((j, v) ∷ m) = (if str_eq j k then 1 else 0) + occurs k m

  length-delete : (k : Bytes) (m : Entries V) → length (delete k m) + occurs k m ≡ length m
  unfolding delete occurs
  length-delete k [] = refl
  length-delete k ((j, v) ∷ m) = ground (arith, length-delete k m)

  occurs-delete :
      (k j : Bytes) (m : Entries V) → occurs j (delete k m) ≡ (if str_eq k j then 0 else occurs j m)
  unfolding delete occurs
  occurs-delete k j [] = ground arith
  occurs-delete k j ((i, v) ∷ m) =
      ground (arith, occurs-delete k j m, str_eq_iff i k, str_eq_iff i j, str_eq_iff k j)

  occurs-store :
      (k j : Bytes) (v : V) (m : Entries V)
      → occurs j (store k v m) ≡ (if str_eq k j then 1 else occurs j m)
  unfolding store occurs
  occurs-store k j v m = ground (arith, occurs-delete k j m)

  length-store :
      (k : Bytes) (v : V) (m : Entries V) → length (store k v m) + occurs k m ≡ suc (length m)
  unfolding store
  length-store k v m = omega (arith, length-delete k m)

  pub occurs_of_lookup : (k : Bytes) (v : V) (m : Entries V) → lookup k m ≡ some v → 1 ≤ occurs k m
  unfolding lookup occurs
  occurs_of_lookup k v [] e = cc
  occurs_of_lookup k v ((j, x) ∷ m) e = ground (arith, occurs_of_lookup k v m)

-- The controller gives each call an id of its own.
pub record HasFreshIds (w : World) : Type 0 where
  pub differ : (m n : ℕ) (id : Bytes) → w.start m ≡ some id → w.start n ≡ some id → m ≡ n

module _ (w : World) (plan : Plan) (ids : HasFreshIds w) (one : 1 ≤ plan.concurrency) where
  -- What holds of the counters and the map at any time.
  pub record IsFlowing (r : Runner) : Type 0 where
    pub within : r.started ≤ plan.runs
    pub counted : length r.in_flight + r.completed ≡ r.started
    pub bounded : length r.in_flight ≤ plan.concurrency
    pub distinct : (k : Bytes) → occurs k r.in_flight ≤ 1
    pub fresh :
        (n : ℕ) (id : Bytes) → r.started ≤ n → w.start n ≡ some id → occurs id r.in_flight ≡ 0

  -- No call is held back: all are started, or the pipeline is full.
  abbrev pub IsFull : Runner → Type 0
  IsFull r = (r.started ≡ plan.runs) ⊎ (length r.in_flight ≡ plan.concurrency)

  abbrev pub More : ℕ → Runner → Runner → Type 0
  More n r r' =
      IsFlowing r' × (length r'.in_flight ≡ n + length r.in_flight) × (r'.started ≡ suc r.started)

  abbrev pub added : Bytes → Runner → Runner
  added id r = record r { started = r.started + 1; in_flight = store id new_attempt r.in_flight }

  added-fresh :
      (r : Runner) (id : Bytes)
      → IsFlowing r
      → w.start r.started ≡ some id
      → (n : ℕ) (id' : Bytes) → r.started + 1 ≤ n
      → w.start n ≡ some id'
      → occurs id' (store id new_attempt r.in_flight) ≡ 0
  added-fresh r id f s n id' le s' = elim (Bool-cases (str_eq id id')) [
    | inl same ↦
        absurd
          (omega (arith, ids.differ r.started n id' (s ∙ ap some ((str_eq_iff id id').0 same)) s'))
    | inr other ↦
        occurs-store id id' new_attempt r.in_flight ∙ rw other (f.fresh n id' (omega arith) s')
  ]

  one_of : (b : Bool) (n : ℕ) → n ≤ 1 → (if b then 1 else n) ≤ 1
  one_of true n h = omega arith
  one_of false n h = h

  zero_of : (b : Bool) (n : ℕ) → n ≤ 1 → (if b then 0 else n) ≤ 1
  zero_of true n h = omega arith
  zero_of false n h = h

  pub added-IsFlowing :
      (r : Runner) (id : Bytes)
      → IsFlowing r
      → r.started < plan.runs
      → length r.in_flight < plan.concurrency
      → w.start r.started ≡ some id
      → More 1 r (added id r)
  added-IsFlowing r id f lt room s =
      let none_yet = f.fresh r.started id (omega arith) s in
      let longer = length-store id new_attempt r.in_flight in
      (
        record {
          within = omega arith;
          counted = omega (arith, longer, none_yet, f.counted);
          bounded = omega (arith, longer, none_yet, room);
          distinct = λ k.
              rw (occurs-store id k new_attempt r.in_flight)
                (one_of (str_eq id k) (occurs k r.in_flight) (f.distinct k));
          fresh = added-fresh r id f s;
        },
        omega (arith, longer, none_yet),
        omega arith,
      )

  -- A completed attempt out of the pipeline.
  abbrev pub dropped : Bytes → Runner → Runner
  dropped id r = record r { in_flight = delete id r.in_flight; completed = r.completed + 1 }

  pub dropped-IsFlowing :
      (r : Runner) (id : Bytes) (st : Attempt)
      → IsFlowing r
      → lookup id r.in_flight ≡ some st
      → IsFlowing (dropped id r) × (suc (length (delete id r.in_flight)) ≡ length r.in_flight)
  dropped-IsFlowing r id st f e =
      let there = occurs_of_lookup id st r.in_flight e in
      let shorter = length-delete id r.in_flight in
      let once = f.distinct id in
      (
        record {
          within = f.within;
          counted = omega (arith, there, shorter, once, f.counted);
          bounded = omega (arith, shorter, f.bounded);
          distinct = λ k.
              rw (occurs-delete id k r.in_flight)
                (zero_of (str_eq id k) (occurs k r.in_flight) (f.distinct k));
          fresh = λ n id' le s.
              occurs-delete id id' r.in_flight
              ∙ gone (str_eq id id') (occurs id' r.in_flight) (f.fresh n id' le s);
        },
        omega (arith, there, shorter, once),
      )
    where
      gone : (b : Bool) (n : ℕ) → n ≡ 0 → (if b then 0 else n) ≡ 0
      gone true n h = refl
      gone false n h = h

  -- An attempt in flight with other notes.
  pub stored-IsFlowing :
      (r : Runner) (id : Bytes) (st st' : Attempt)
      → IsFlowing r
      → lookup id r.in_flight ≡ some st
      → IsFlowing (record r { in_flight = store id st' r.in_flight })
        × (length (store id st' r.in_flight) ≡ length r.in_flight)
  stored-IsFlowing r id st st' f e =
      let there = occurs_of_lookup id st r.in_flight e in
      let longer = length-store id st' r.in_flight in
      let once = f.distinct id in
      (
        record {
          within = f.within;
          counted = omega (arith, there, longer, once, f.counted);
          bounded = omega (arith, longer, there, f.bounded);
          distinct = λ k.
              rw (occurs-store id k st' r.in_flight)
                (one_of (str_eq id k) (occurs k r.in_flight) (f.distinct k));
          fresh = λ n id' le s.
              occurs-store id id' st' r.in_flight
              ∙ kept id' (Bool-cases (str_eq id id')) (f.fresh n id' le s) there;
        },
        omega (arith, there, longer, once),
      )
    where
      kept :
          (id' : Bytes)
          → ((str_eq id id' ≡ true) ⊎ (str_eq id id' ≡ false))
          → occurs id' r.in_flight ≡ 0
          → 1 ≤ occurs id r.in_flight
          → (if str_eq id id' then 1 else occurs id' r.in_flight) ≡ 0
      kept id' (inl same) n h =
          absurd (omega (arith, n, h, ap (λ k. occurs k r.in_flight) ((str_eq_iff id id').0 same)))
      kept id' (inr other) n h = rw other n
