-- ===== src/Transport/Counts.antt =====
-- How often a promise stands in the places of a TransportDispatcher of src/transport/transport.ts.
use errorcore.Common.{
  ℕ, ◌+◌, ◌≡◌, refl, sym, ap, inl, inr, true, Option, none, some, List, [], ◌∷◌, ◌++◌, leb, ◌==◌,
  if◌then◌else◌, or_else, length, Bool-cases, arith,
}
use errorcore.Transport.{
  Operation, sends, flushes, PendingRequest, QueueItem, FlushResolver, TransportDispatcher, Settled,
  evict, max_fallback_queue_size, resolved_by, going_on, has_promise, without_promise, find_id,
  delete_id, reject_pending, items_of, resolvers_of,
}

abbrev pub one : ℕ → ℕ → ℕ
one p q = if p == q then 1 else 0

-- How often promise `p` is settled, waits for the worker, in the queue, among the resolvers, or for
-- a flush.
abbrev pub settlements : ℕ → List Settled → ℕ
settlements p [] = 0
settlements p (s ∷ ss) = one p s.promise + settlements p ss

abbrev pub pends : ℕ → List PendingRequest → ℕ
pends p [] = 0
pends p (r ∷ rs) = one p r.promise + pends p rs

abbrev pub queues : ℕ → List QueueItem → ℕ
queues p [] = 0
queues p (i ∷ is) = one p i.promise + queues p is

abbrev pub waits : ℕ → List FlushResolver → ℕ
waits p [] = 0
waits p (w ∷ ws) = one p w.promise + waits p ws

abbrev pub times : ℕ → List ℕ → ℕ
times p [] = 0
times p (q ∷ qs) = one p q + times p qs

abbrev pub sending_times : ℕ → Option QueueItem → ℕ
sending_times p none = 0
sending_times p (some item) = one p item.promise

abbrev pub held : ℕ → TransportDispatcher → ℕ
held p d =
    pends p d.pending
    + queues p d.fallback_queue
    + waits p d.fallback_flush_resolvers
    + sending_times p d.sending
    + times p d.flushing

pub settlements-append :
    (p : ℕ) (xs ys : List Settled) → settlements p (xs ++ ys) ≡ settlements p xs + settlements p ys
settlements-append p [] ys = omega arith
settlements-append p (x ∷ xs) ys = omega (arith, settlements-append p xs ys)

pub pends-append :
    (p : ℕ) (xs ys : List PendingRequest) → pends p (xs ++ ys) ≡ pends p xs + pends p ys
pends-append p [] ys = omega arith
pends-append p (x ∷ xs) ys = omega (arith, pends-append p xs ys)

pub queues-append :
    (p : ℕ) (xs ys : List QueueItem) → queues p (xs ++ ys) ≡ queues p xs + queues p ys
queues-append p [] ys = omega arith
queues-append p (x ∷ xs) ys = omega (arith, queues-append p xs ys)

pub waits-append :
    (p : ℕ) (xs ys : List FlushResolver) → waits p (xs ++ ys) ≡ waits p xs + waits p ys
waits-append p [] ys = omega arith
waits-append p (x ∷ xs) ys = omega (arith, waits-append p xs ys)

pub times-append : (p : ℕ) (xs ys : List ℕ) → times p (xs ++ ys) ≡ times p xs + times p ys
times-append p [] ys = omega arith
times-append p (x ∷ xs) ys = omega (arith, times-append p xs ys)

pub evict-queues :
    (p : ℕ) (q : List QueueItem) → settlements p (evict q).1 + queues p (evict q).0 ≡ queues p q
evict-queues p [] = refl
evict-queues p (item ∷ rest) =
    elim (Bool-cases (leb max_fallback_queue_size (length (item ∷ rest)))) [
      | inl e ↦ rw e (omega arith)
      | inr e ↦ rw e (omega arith)
    ]

pub resolved_by-waits :
    (p : ℕ) (ws : List FlushResolver)
    → settlements p (resolved_by ws) + times p (going_on ws) ≡ waits p ws
resolved_by-waits p [] = refl
resolved_by-waits p (w ∷ ws) = elim (Bool-cases w.goes_on) [
  | inl e ↦ rw e (omega (arith, resolved_by-waits p ws))
  | inr e ↦ rw e (omega (arith, resolved_by-waits p ws))
]

pub without_promise-times :
    (p q : ℕ) (qs : List ℕ)
    → has_promise q qs ≡ true
    → times p qs ≡ one p q + times p (without_promise q qs)
without_promise-times p q [] h = ground (arith, h)
without_promise-times p q (x ∷ qs) h = elim (Bool-cases (q == x)) [
  | inl e ↦ let same : q ≡ x = ground (arith, e) in rw e (ap (λ y. one p y + times p qs) (sym same))
  | inr e ↦ rw e (omega (arith, without_promise-times p q qs (rw e at (h))))
]

pub delete_id-pends :
    (p id : ℕ) (rs : List PendingRequest) (r : PendingRequest)
    → find_id id rs ≡ some r
    → pends p rs ≡ one p r.promise + pends p (delete_id id rs)
delete_id-pends p id [] r h = ground (arith, h)
delete_id-pends p id (x ∷ rs) r h = elim (Bool-cases (id == x.id)) [
  | inl e ↦
      let same : some x ≡ some r = rw e at (h) in
      let q : x ≡ r = ap (λ o. or_else o x) same in rw e (ap (λ y. one p y.promise + pends p rs) q)
  | inr e ↦
      let h' : find_id id rs ≡ some r = rw e at (h) in
      rw e (omega (arith, delete_id-pends p id rs r h'))
]

pub reject_pending-pends :
    (p : ℕ) (rs : List PendingRequest) → settlements p (reject_pending rs) ≡ pends p rs
reject_pending-pends p [] = refl
reject_pending-pends p (r ∷ rs) = omega (arith, reject_pending-pends p rs)

pub items_of-pends :
    (p : ℕ) (rs : List PendingRequest)
    → queues p (items_of rs) + waits p (resolvers_of rs) ≡ pends p rs
items_of-pends p [] = refl
items_of-pends p (r ∷ rs) = placed (items_of-pends p rs) r.operation
  where
    at : Operation → PendingRequest
    at o = record { id = r.id; operation = o; promise = r.promise }

    placed :
        queues p (items_of rs) + waits p (resolvers_of rs) ≡ pends p rs
        → (o : Operation)
        → queues p (items_of (at o ∷ rs)) + waits p (resolvers_of (at o ∷ rs))
          ≡ one p r.promise + pends p rs
    placed before (sends payload) = omega (arith, before)
    placed before flushes = omega (arith, before)
