-- ===== src/CallManager/Maps.antt =====
-- The laws of the maps and of the peers' queues.
use dia.Prelude.{
  ℕ, zero, suc, ◌≡◌, Bool, false, not, ◌&&◌, ◌||◌, List, [], ◌∷◌, none, some, arith, Bytes, str_eq,
  str_eq_iff, ◌==◌, if◌then◌else◌, get_elem?,
}
use dia.CallManager.{
  Entries, lookup, delete, store, queue_of, set_queue, drop_ref, CallSession, update_at,
}

module _ {V : Type 0} where
  pub lookup-delete :
      (k j : Bytes) (m : Entries V)
      → lookup j (delete k m) ≡ (if str_eq k j then none else lookup j m)
  unfolding lookup delete
  lookup-delete k j [] = ground arith
  lookup-delete k j ((i, v) ∷ m) =
      ground (arith, lookup-delete k j m, str_eq_iff i k, str_eq_iff i j, str_eq_iff k j)

  pub lookup-store :
      (k j : Bytes) (v : V) (m : Entries V)
      → lookup j (store k v m) ≡ (if str_eq k j then some v else lookup j m)
  unfolding lookup store
  lookup-store k j v m = ground (arith, lookup-delete k j m)

pub queue_of-store :
    (k j : Bytes) (q : List ℕ) (m : Entries (List ℕ))
    → queue_of j (store k q m) ≡ (if str_eq k j then q else queue_of j m)
unfolding queue_of
queue_of-store k j q m = ground (arith, lookup-store k j q m)

pub queue_of-set_queue :
    (k j : Bytes) (q : List ℕ) (m : Entries (List ℕ))
    → queue_of j (set_queue k q m) ≡ (if str_eq k j then q else queue_of j m)
unfolding queue_of set_queue
queue_of-set_queue k j [] m = ground (arith, lookup-delete k j m)
queue_of-set_queue k j (r ∷ q) m = queue_of-store k j (r ∷ q) m

unfoldable pub holds : ℕ → List ℕ → Bool
holds r [] = false
holds r (q ∷ qs) = q == r || holds r qs

pub holds-drop_ref : (r s : ℕ) (q : List ℕ) → holds s (drop_ref r q) ≡ (not (r == s) && holds s q)
unfolding holds drop_ref
holds-drop_ref r s [] = ground arith
holds-drop_ref r s (x ∷ q) = ground (arith, holds-drop_ref r s q)

module _ {D : Type 0} where
  pub get_elem?-update_at :
      (i : ℕ) (f : CallSession D → CallSession D) (ss : List (CallSession D)) {s : CallSession D}
      → get_elem? ss i ≡ some s
      → get_elem? (update_at i f ss) i ≡ some (f s)
  unfolding update_at
  get_elem?-update_at i f [] e = cc
  get_elem?-update_at zero f (x ∷ ss) e = ground arith
  get_elem?-update_at (suc i) f (x ∷ ss) e = get_elem?-update_at i f ss e
