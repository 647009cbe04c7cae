-- ===== src/Assembly/Settlement.antt =====
-- How the operations of src/capture/package-assembly-dispatcher.ts settle promises.
use errorcore.Common.{
  ℕ, ◌+◌, ◌≡◌, refl, sym, ap, inl, inr, Bool, none, some, List, [], ◌∷◌, ◌++◌, append-nil, ltb,
  ◌==◌, if◌then◌else◌, subst, or_else, Bool-cases, Option-cases, arith,
}
use errorcore.Assembly.{
  PackageAssemblyDispatcher, PendingRequest, Settled, Effects, Outcome, find_id, delete_id,
  set_pending, new_request, next_request_id, settle_now, open_request, settle_pending, fail_pending,
  on_worker_end,
}
use errorcore.Assembly.Ids.{next_request_id-fresh, set_pending-append}

-- How often a promise is settled by a list of calls, and how often it waits.
abbrev pub settlements : ℕ → List Settled → ℕ
settlements p [] = 0
settlements p (s ∷ ss) = (if p == s.promise then 1 else 0) + settlements p ss

abbrev pub waits : ℕ → List PendingRequest → ℕ
waits p [] = 0
waits p (r ∷ rs) = (if p == r.promise then 1 else 0) + waits p rs

pub settlements-append :
    (p : ℕ) (xs ys : List Settled) → settlements p (xs ++ ys) ≡ settlements p xs + settlements p ys
settlements-append p [] ys = omega arith
settlements-append p (x ∷ xs) ys = omega (arith, settlements-append p xs ys)

waits-append : (p : ℕ) (xs ys : List PendingRequest) → waits p (xs ++ ys) ≡ waits p xs + waits p ys
waits-append p [] ys = omega arith
waits-append p (x ∷ xs) ys = omega (arith, waits-append p xs ys)

waits-delete_id :
    (p id : ℕ) (rs : List PendingRequest) (r : PendingRequest)
    → find_id id rs ≡ some r
    → waits p rs ≡ (if p == r.promise then 1 else 0) + waits p (delete_id id rs)
waits-delete_id p id [] r h = ground (arith, h)
waits-delete_id p id (x ∷ rs) r h = elim (Bool-cases (id == x.id)) [
  | inl e ↦
      let same : some x ≡ some r = rw e at (h) in
      let q : x ≡ r = ap (λ o. or_else o x) same in
      rw e (ap (λ y. (if p == y.promise then 1 else 0) + waits p rs) q)
  | inr e ↦
      let h' : find_id id rs ≡ some r = rw e at (h) in
      rw e (omega (arith, waits-delete_id p id rs r h'))
]

pub settlements-fail_pending :
    (p : ℕ) (rs : List PendingRequest) → settlements p (fail_pending rs) ≡ waits p rs
settlements-fail_pending p [] = refl
settlements-fail_pending p (r ∷ rs) = omega (arith, settlements-fail_pending p rs)

-- Each promise made so far waits or was settled by `done`, in all once, and no other.
abbrev pub IsSettledOnce : List Settled → PackageAssemblyDispatcher → Type 0
IsSettledOnce done d =
    (p : ℕ) → settlements p done + waits p d.pending ≡ (if ltb p d.next_promise then 1 else 0)

-- After the effects of one more call.
abbrev pub StaysSettledOnce : List Settled → Effects → Type 0
StaysSettledOnce done e = IsSettledOnce (done ++ e.settled) e.after

pub settle_now-StaysSettledOnce :
    (o : Outcome) (done : List Settled) (d : PackageAssemblyDispatcher)
    → IsSettledOnce done d
    → StaysSettledOnce done (settle_now o d)
settle_now-StaysSettledOnce o done d h p =
    ground (arith, h p, settlements-append p done (settle_now o d).settled)

-- Nothing is settled, and the entries and the promises are as before.
pub idle :
    (done : List Settled) (d d' : PackageAssemblyDispatcher)
    → d'.pending ≡ d.pending
    → d'.next_promise ≡ d.next_promise
    → IsSettledOnce done d
    → IsSettledOnce (done ++ []) d'
idle done d d' same next h p = rw (append-nil done, same, next) (h p)

entered :
    (done : List Settled) (d d' : PackageAssemblyDispatcher) (r : PendingRequest)
    → d'.pending ≡ d.pending ++ r ∷ []
    → r.promise ≡ d.next_promise
    → d'.next_promise ≡ d.next_promise + 1
    → IsSettledOnce done d
    → IsSettledOnce (done ++ []) d'
entered done d d' r more own next h p =
    rw (append-nil done, more, next, waits-append p d.pending (r ∷ [])) (ground (arith, h p, own))

open_none :
    (x : Bool) (d : PackageAssemblyDispatcher)
    → (next_request_id d).1 ≡ none
    → open_request x d
      ≡ record { after = record d { request_id = (next_request_id d).0 }; settled = [] }
unfolding open_request
open_none x d e = rw (e, open_request) refl

open_some :
    (x : Bool) (d : PackageAssemblyDispatcher) (id : ℕ)
    → (next_request_id d).1 ≡ some id
    → open_request x d ≡ record {
      after = record d {
        request_id = (next_request_id d).0;
        pending = set_pending (new_request id x d) d.pending;
        next_promise = d.next_promise + 1;
      };
      settled = [];
    }
unfolding open_request
open_some x d id e = rw (e, open_request) refl

pub open_request-StaysSettledOnce :
    (x : Bool) (done : List Settled) (d : PackageAssemblyDispatcher)
    → IsSettledOnce done d
    → StaysSettledOnce done (open_request x d)
open_request-StaysSettledOnce x done d h = elim (Option-cases (next_request_id d).1) [
  | inl e ↦
      subst (StaysSettledOnce done) (sym (open_none x d e))
        (idle done d (record d { request_id = (next_request_id d).0 }) refl refl h)
  | inr (id, e) ↦ subst (StaysSettledOnce done) (sym (open_some x d id e)) (
      entered done d
        (record d {
          request_id = (next_request_id d).0;
          pending = set_pending (new_request id x d) d.pending;
          next_promise = d.next_promise + 1;
        })
        (new_request id x d)
        (set_pending-append (new_request id x d) d.pending (next_request_id-fresh d id e).0) refl
        refl h)
]

settle_some :
    (id : ℕ) (o : PendingRequest → Outcome) (d : PackageAssemblyDispatcher) (r : PendingRequest)
    → find_id id d.pending ≡ some r
    → settle_pending id o d ≡ record {
      after = record d { pending = delete_id id d.pending };
      settled = record { promise = r.promise; outcome = o r } ∷ [];
    }
settle_some id o d r e = rw (e, settle_pending) refl

settle_none :
    (id : ℕ) (o : PendingRequest → Outcome) (d : PackageAssemblyDispatcher)
    → find_id id d.pending ≡ none
    → settle_pending id o d ≡ record { after = d; settled = [] }
settle_none id o d e = rw (e, settle_pending) refl

pub settle_pending-StaysSettledOnce :
    (id : ℕ) (o : PendingRequest → Outcome) (done : List Settled) (d : PackageAssemblyDispatcher)
    → IsSettledOnce done d
    → StaysSettledOnce done (settle_pending id o d)
settle_pending-StaysSettledOnce id o done d h = elim (Option-cases (find_id id d.pending)) [
  | inl e ↦ subst (StaysSettledOnce done) (sym (settle_none id o d e)) (idle done d d refl refl h)
  | inr (r, e) ↦ subst (StaysSettledOnce done) (sym (settle_some id o d r e)) (λ p. omega (
    arith,
    h p,
    settlements-append p done (record { promise = r.promise; outcome = o r } ∷ []),
    waits-delete_id p id d.pending r e,
  ))
]

pub on_worker_end-StaysSettledOnce :
    (done : List Settled) (d : PackageAssemblyDispatcher)
    → IsSettledOnce done d
    → StaysSettledOnce done (on_worker_end d)
unfolding on_worker_end
on_worker_end-StaysSettledOnce done d h p = omega (
  arith,
  h p,
  settlements-append p done (fail_pending d.pending),
  settlements-fail_pending p d.pending,
)
