-- ===== src/Transport/Settlement.antt =====
-- How the operations of src/transport/transport.ts move and settle promises.
use Prim.Native.String.{String}
use errorcore.Common.{
  ℕ, ◌+◌, ◌≡◌, refl, sym, ap, ◌∙◌, inl, inr, Bool, true, false, ◌||◌, Option, none, some, List, [],
  ◌∷◌, ◌++◌, ltb, is_some, if◌then◌else◌, Bool-cases, arith, true_ne_false,
}
use errorcore.Transport.{
  Operation, PendingRequest, set_pending, delete_id, QueueItem, TransportDispatcher, Settled,
  Effects, settle_now, dispatch_to_worker, schedule, evict, enqueue_fallback, is_fallback_idle,
  going_on, resolve_waiters_if_idle, take_next,
}
use errorcore.Transport.Pending.{IsBelow, set_pending-append, delete_id-set_pending, append-IsBelow}
use errorcore.Transport.Counts.{
  settlements, queues, sending_times, held, pends-append, queues-append, times-append, evict-queues,
  resolved_by-waits,
}

-- Each promise made so far is held in one place or was settled by `done`, in all once, and no other;
-- no loop is asked for while one is at a send; and no pending id is beyond the counter of ids.
pub record IsSettledOnce (done : List Settled) (d : TransportDispatcher) : Type 0 where
  pub once : (p : ℕ) → settlements p done + held p d ≡ (if ltb p d.next_promise then 1 else 0)
  pub alone : d.fallback_scheduled ≡ true → d.sending ≡ none
  pub below : IsBelow d.request_id d.pending

pub record Stays (done : List Settled) (e : Effects) : Type 0 where
  pub once :
      (p : ℕ)
      → settlements p done + (settlements p e.settled + held p e.after)
        ≡ (if ltb p e.after.next_promise then 1 else 0)
  pub alone : e.after.fallback_scheduled ≡ true → e.after.sending ≡ none
  pub below : IsBelow e.after.request_id e.after.pending

pub settle_now-Stays :
    (b : Bool) (done : List Settled) (d : TransportDispatcher)
    → IsSettledOnce done d
    → Stays done (settle_now b d)
settle_now-Stays b done d h = record {
  once = λ p. ground (arith, h.once p);
  alone = h.alone;
  below = h.below;
}

pub dispatch_to_worker-Stays :
    (o : Operation) (posts : Bool) (done : List Settled) (d : TransportDispatcher)
    → IsSettledOnce done d
    → Stays done (dispatch_to_worker o posts d)
unfolding dispatch_to_worker
dispatch_to_worker-Stays o true done d h =
    let new : PendingRequest = record {
      id = d.request_id + 1;
      operation = o;
      promise = d.next_promise;
    } in
    let added : set_pending new d.pending ≡ d.pending ++ new ∷ [] =
      set_pending-append new d.pending (h.below (d.request_id + 1) (omega arith)) in
    record {
      once = λ p. rw added (ground (arith, h.once p, pends-append p d.pending (new ∷ [])));
      alone = h.alone;
      below = rw added (append-IsBelow d.request_id d.pending new h.below refl);
    }
dispatch_to_worker-Stays o false done d h =
    let new : PendingRequest = record {
      id = d.request_id + 1;
      operation = o;
      promise = d.next_promise;
    } in
    let gone : delete_id (d.request_id + 1) (set_pending new d.pending) ≡ d.pending =
      delete_id-set_pending new d.pending (h.below (d.request_id + 1) (omega arith)) in
    settle_now-Stays false done
      (record d {
        request_id = d.request_id + 1;
        pending = delete_id (d.request_id + 1) (set_pending new d.pending);
      })
      (record {
        once = λ p. rw gone (h.once p);
        alone = h.alone;
        below = rw gone (λ i lt. h.below i (omega (arith, lt)));
      })

-- What waits or runs is moved or settled, with no new promise, and no loop is asked for.
pub record Moves (d : TransportDispatcher) (e : Effects) : Type 0 where
  pub once : (p : ℕ) → settlements p e.settled + held p e.after ≡ held p d
  pub next : e.after.next_promise ≡ d.next_promise
  pub scheduled : e.after.fallback_scheduled ≡ d.fallback_scheduled
  pub ids : e.after.request_id ≡ d.request_id
  pub entries : e.after.pending ≡ d.pending

pub Moves-Stays :
    (done : List Settled) (d : TransportDispatcher) (e : Effects)
    → IsSettledOnce done d
    → Moves d e
    → (e.after.fallback_scheduled ≡ true → e.after.sending ≡ none)
    → Stays done e
Moves-Stays done d e h m alone = record {
  once = λ p. rw m.next (omega (arith, h.once p, m.once p));
  alone = alone;
  below = rw (m.ids, m.entries) h.below;
}

pub resolve_waiters-Moves : (d : TransportDispatcher) → Moves d (resolve_waiters_if_idle d)
unfolding resolve_waiters_if_idle
resolve_waiters-Moves d = elim (Bool-cases (is_fallback_idle d)) [
  | inl e ↦
      rw (e, resolve_waiters_if_idle)
        (record {
          once = λ p. omega (
            arith,
            resolved_by-waits p d.fallback_flush_resolvers,
            times-append p d.flushing (going_on d.fallback_flush_resolvers),
          );
          next = refl;
          scheduled = refl;
          ids = refl;
          entries = refl;
        })
  | inr e ↦
      rw (e, resolve_waiters_if_idle)
        (record {
          once = λ p. omega arith;
          next = refl;
          scheduled = refl;
          ids = refl;
          entries = refl;
        })
]

pub resolve_waiters-sending :
    (d : TransportDispatcher) → (resolve_waiters_if_idle d).after.sending ≡ d.sending
unfolding resolve_waiters_if_idle
resolve_waiters-sending d = elim (Bool-cases (is_fallback_idle d)) [
  | inl e ↦ rw (e, resolve_waiters_if_idle) refl
  | inr e ↦ rw (e, resolve_waiters_if_idle) refl
]

-- `take_next` with the queue for itself.
abbrev took : List QueueItem → TransportDispatcher → Effects
took q d = elim q [
  | [] ↦ resolve_waiters_if_idle d
  | item ∷ rest ↦ record {
    after = record d { fallback_queue = rest; sending = some item };
    settled = [];
  }
]

took-Moves :
    (q : List QueueItem) (d : TransportDispatcher)
    → d.fallback_queue ≡ q
    → d.sending ≡ none
    → Moves d (took q d)
took-Moves [] d is free = resolve_waiters-Moves d
took-Moves (item ∷ rest) d is free = record {
  once = λ p. omega (arith, ap (queues p) is, ap (sending_times p) free);
  next = refl;
  scheduled = refl;
  ids = refl;
  entries = refl;
}

pub take_next-Moves : (d : TransportDispatcher) → d.sending ≡ none → Moves d (take_next d)
unfolding take_next
take_next-Moves d free = took-Moves d.fallback_queue d refl free

pub schedule-Moves :
    (d : TransportDispatcher) (p : ℕ)
    → (held p (schedule d) ≡ held p d) × ((schedule d).next_promise ≡ d.next_promise)
schedule-Moves d p = elim (Bool-cases (d.fallback_scheduled || is_some d.sending)) [
  | inl e ↦ rw e (refl, refl)
  | inr e ↦ rw e (refl, refl)
]

pub schedule-IsBelow :
    (d : TransportDispatcher)
    → IsBelow d.request_id d.pending
    → IsBelow (schedule d).request_id (schedule d).pending
schedule-IsBelow d h = elim (Bool-cases (d.fallback_scheduled || is_some d.sending)) [
  | inl e ↦ rw e h
  | inr e ↦ rw e h
]

pub schedule-alone :
    (d : TransportDispatcher)
    → (d.fallback_scheduled ≡ true → d.sending ≡ none)
    → (schedule d).fallback_scheduled ≡ true
    → (schedule d).sending ≡ none
schedule-alone d alone on = elim (Bool-cases (d.fallback_scheduled || is_some d.sending)) [
  | inl e ↦
      same e
      ∙ kept d.fallback_scheduled d.sending e alone
          (sym (ap (λ x. x.fallback_scheduled) (unchanged e)) ∙ on)
  | inr e ↦ changed e ∙ free d.fallback_scheduled d.sending e
]
  where
    unchanged : (d.fallback_scheduled || is_some d.sending) ≡ true → schedule d ≡ d
    unchanged e = rw e refl

    same : (d.fallback_scheduled || is_some d.sending) ≡ true → (schedule d).sending ≡ d.sending
    same e = rw e refl

    changed : (d.fallback_scheduled || is_some d.sending) ≡ false → (schedule d).sending ≡ d.sending
    changed e = rw e refl

    kept :
        (b : Bool) (s : Option QueueItem)
        → (b || is_some s) ≡ true
        → (b ≡ true → s ≡ none)
        → b ≡ true
        → s ≡ none
    kept b s e alone on = alone on

    free : (b : Bool) (s : Option QueueItem) → (b || is_some s) ≡ false → s ≡ none
    free true s e = absurd (true_ne_false e)
    free false none e = refl
    free false (some item) e = absurd (true_ne_false e)

pub enqueue_fallback-Stays :
    (payload : String) (creates : Bool) (done : List Settled) (d : TransportDispatcher)
    → IsSettledOnce done d
    → Stays done (enqueue_fallback payload creates d)
unfolding enqueue_fallback
enqueue_fallback-Stays payload creates done d h = elim (Bool-cases (d.has_fallback || creates)) [
  | inr e ↦ rw (e, enqueue_fallback) (settle_now-Stays false done d h)
  | inl e ↦
      rw (e, enqueue_fallback)
        (record {
          once = λ p.
              rw ((schedule-Moves entered p).0, (schedule-Moves entered p).1)
                (ground (
                  arith,
                  h.once p,
                  evict-queues p d.fallback_queue,
                  queues-append p (evict d.fallback_queue).0 (item ∷ []),
                ));
          alone = schedule-alone entered h.alone;
          below = schedule-IsBelow entered h.below;
        })
]
  where
    item : QueueItem
    item = record { payload = payload; promise = d.next_promise }

    entered : TransportDispatcher
    entered = record d {
      has_fallback = true;
      fallback_queue = (evict d.fallback_queue).0 ++ item ∷ [];
      next_promise = d.next_promise + 1;
    }
