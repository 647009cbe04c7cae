-- ===== src/Assembly/Ids.antt =====
-- The ids of the requests of src/capture/package-assembly-dispatcher.ts.
use errorcore.Common.{
  ℕ, zero, suc, ◌+◌, ◌≤◌, ◌≡◌, ap, subst, inl, inr, false, some, List, [], ◌∷◌, ◌++◌, ◌==◌, refl,
  true_ne_false, length, or_else, Bool-cases, arith,
}
use errorcore.Assembly.{
  PackageAssemblyDispatcher, PendingRequest, has_id, delete_id, set_pending, next_id, probe_ids,
  next_request_id, request_id_max,
}

probe_ids-fresh :
    (probes n : ℕ) (pending : List PendingRequest) (id : ℕ)
    → (probe_ids probes n pending).1 ≡ some id
    → (has_id id pending ≡ false) × ((1 ≤ id) × (id ≤ request_id_max))
unfolding probe_ids
probe_ids-fresh zero n pending id h = ground (arith, h)
probe_ids-fresh (suc probes) n pending id h = elim (Bool-cases (has_id (next_id n) pending)) [
  | inl e ↦ probe_ids-fresh probes (next_id n) pending id (rw e at (h))
  | inr e ↦
      let same : next_id n ≡ id = ap (λ o. or_else o id) (rw e at (h)) in
      let low : 1 ≤ next_id n = ground arith in
      let high : next_id n ≤ request_id_max = ground arith in
      subst (λ i. (has_id i pending ≡ false) × ((1 ≤ i) × (i ≤ request_id_max))) same
        (e, (low, high))
]

-- An id that `nextRequestId` issues is not that of a pending request, and lies from 1 to 2 ^ 31 - 1,
-- across the wrap of the counter as well.
pub next_request_id-fresh :
    (d : PackageAssemblyDispatcher) (id : ℕ)
    → (next_request_id d).1 ≡ some id
    → (has_id id d.pending ≡ false) × ((1 ≤ id) × (id ≤ request_id_max))
unfolding next_request_id
next_request_id-fresh d id h = probe_ids-fresh (length d.pending + 1) d.request_id d.pending id h

-- Under an id that no entry bears, `set` adds the entry at the end.
pub set_pending-append :
    (r : PendingRequest) (rs : List PendingRequest)
    → has_id r.id rs ≡ false
    → set_pending r rs ≡ rs ++ r ∷ []
set_pending-append r [] h = refl
set_pending-append r (x ∷ rs) h = elim (Bool-cases (r.id == x.id)) [
  | inl e ↦ absurd (true_ne_false (rw e at (h)))
  | inr e ↦ rw e (ap (λ ys. x ∷ ys) (set_pending-append r rs (rw e at (h))))
]

-- And a `delete` takes it out again.
pub delete_id-set_pending :
    (r : PendingRequest) (rs : List PendingRequest)
    → has_id r.id rs ≡ false
    → delete_id r.id (set_pending r rs) ≡ rs
delete_id-set_pending r [] h = ground arith
delete_id-set_pending r (x ∷ rs) h = elim (Bool-cases (r.id == x.id)) [
  | inl e ↦ absurd (true_ne_false (rw e at (h)))
  | inr e ↦ rw (e, e) (ap (λ ys. x ∷ ys) (delete_id-set_pending r rs (rw e at (h))))
]
