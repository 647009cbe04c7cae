-- ===== src/Transport/Pending.antt =====
-- The ids of the entries of `pending` of src/transport/transport.ts.
use errorcore.Common.{
  ℕ, ◌+◌, ◌<◌, ◌≡◌, refl, ap, inl, inr, false, none, List, [], ◌∷◌, ◌++◌, ◌==◌, Bool-cases, is_some,
  arith, true_ne_false,
}
use errorcore.Transport.{PendingRequest, find_id, delete_id, set_pending}

-- No entry has an id beyond `n`.
abbrev pub IsBelow : ℕ → List PendingRequest → Type 0
IsBelow n rs = (i : ℕ) → n < i → find_id i rs ≡ none

-- Under an id that no entry bears, `set` adds the entry at the end.
pub set_pending-append :
    (r : PendingRequest) (rs : List PendingRequest)
    → find_id r.id rs ≡ none
    → set_pending r rs ≡ rs ++ r ∷ []
set_pending-append r [] h = refl
set_pending-append r (x ∷ rs) h = elim (Bool-cases (r.id == x.id)) [
  | inl e ↦ absurd (true_ne_false (ap is_some (rw e at (h))))
  | inr e ↦ rw e (ap (λ ys. x ∷ ys) (set_pending-append r rs (rw e at (h))))
]

-- And a `delete` takes it out again.
pub delete_id-set_pending :
    (r : PendingRequest) (rs : List PendingRequest)
    → find_id r.id rs ≡ none
    → delete_id r.id (set_pending r rs) ≡ rs
delete_id-set_pending r [] h = ground arith
delete_id-set_pending r (x ∷ rs) h = elim (Bool-cases (r.id == x.id)) [
  | inl e ↦ absurd (true_ne_false (ap is_some (rw e at (h))))
  | inr e ↦ rw (e, e) (ap (λ ys. x ∷ ys) (delete_id-set_pending r rs (rw e at (h))))
]

-- An id that is not there is not there after a deletion.
delete_id-find_id :
    (i id : ℕ) (rs : List PendingRequest) → find_id i rs ≡ none → find_id i (delete_id id rs) ≡ none
delete_id-find_id i id [] h = refl
delete_id-find_id i id (x ∷ rs) h = elim (Bool-cases (i == x.id)) [
  | inl e ↦ absurd (true_ne_false (ap is_some (rw e at (h))))
  | inr e ↦
      let h' : find_id i rs ≡ none = rw e at (h) in
      elim (Bool-cases (id == x.id)) [
        | inl f ↦ rw f h'
        | inr f ↦ rw (f, e) (delete_id-find_id i id rs h')
      ]
]

pub delete_id-IsBelow :
    (n id : ℕ) (rs : List PendingRequest) → IsBelow n rs → IsBelow n (delete_id id rs)
delete_id-IsBelow n id rs h i lt = delete_id-find_id i id rs (h i lt)

append-find_id :
    (i : ℕ) (rs : List PendingRequest) (r : PendingRequest)
    → find_id i rs ≡ none
    → (i == r.id) ≡ false
    → find_id i (rs ++ r ∷ []) ≡ none
append-find_id i [] r h ne = rw ne refl
append-find_id i (x ∷ rs) r h ne = elim (Bool-cases (i == x.id)) [
  | inl e ↦ absurd (true_ne_false (ap is_some (rw e at (h))))
  | inr e ↦ rw e (append-find_id i rs r (rw e at (h)) ne)
]

-- An entry under the next id.
pub append-IsBelow :
    (n : ℕ) (rs : List PendingRequest) (r : PendingRequest)
    → IsBelow n rs
    → r.id ≡ n + 1
    → IsBelow (n + 1) (rs ++ r ∷ [])
append-IsBelow n rs r h is i lt =
    append-find_id i rs r (h i (omega (arith, lt))) (ground (arith, lt, is))
