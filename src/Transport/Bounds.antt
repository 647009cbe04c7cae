-- ===== src/Transport/Bounds.antt =====
-- The bounds of the queue and of the resolvers of src/transport/transport.ts.
use Prim.Native.String.{String}
use errorcore.Common.{
  ℕ, ◌+◌, ◌≤◌, ◌≡◌, refl, sym, ap, inl, inr, Bool, true, false, ◌||◌, Option, none, some, List, [],
  ◌∷◌, ◌++◌, length-append, leb, is_some, if◌then◌else◌, length, Bool-cases, arith, true_ne_false,
}
use errorcore.Transport.{
  QueueItem, PendingRequest, TransportDispatcher, Settled, Effects, new_dispatcher, settle_now,
  schedule, evict, max_fallback_queue_size, max_fallback_flush_resolvers, enqueue_fallback, send,
  is_nil, is_fallback_idle, flush_fallback, flush, dispatch_to_worker, flushes, sends,
  resolve_waiters_if_idle, take_next, process_fallback_queue, go_on, on_send_end, on_flush_end,
  has_promise, without_promise, find_id, delete_id, on_message, move_pending, reject_pending,
  fallback_to_main_thread,
}
use errorcore.Transport.Runs.{
  Event, calls_send, calls_flush, messages, ends_worker, processes, ends_send, ends_flush, step,
  run,
}

-- Nothing is left to the worker, and the two lists are within their bounds.
pub record IsBounded (d : TransportDispatcher) : Type 0 where
  pub no_worker : d.has_worker ≡ false
  pub none_pending : d.pending ≡ []
  pub queue : length d.fallback_queue ≤ max_fallback_queue_size
  pub resolvers : length d.fallback_flush_resolvers ≤ max_fallback_flush_resolvers

evict-length :
    (q : List QueueItem)
    → length q ≤ max_fallback_queue_size
    → length (evict q).0 + 1 ≤ max_fallback_queue_size
evict-length [] h = omega arith
evict-length (item ∷ rest) h =
    elim (Bool-cases (leb max_fallback_queue_size (length (item ∷ rest)))) [
      | inl e ↦ rw e (omega (arith, h))
      | inr e ↦ rw e (ground (arith, e))
    ]

schedule-IsBounded : (d : TransportDispatcher) → IsBounded d → IsBounded (schedule d)
schedule-IsBounded d h = elim (Bool-cases (d.fallback_scheduled || is_some d.sending)) [
  | inl e ↦ rw e h
  | inr e ↦ rw e (record {
    no_worker = h.no_worker;
    none_pending = h.none_pending;
    queue = h.queue;
    resolvers = h.resolvers;
  })
]

enqueue-IsBounded :
    (payload : String) (creates : Bool) (d : TransportDispatcher)
    → IsBounded d
    → IsBounded (enqueue_fallback payload creates d).after
unfolding enqueue_fallback
enqueue-IsBounded payload creates d h = elim (Bool-cases (d.has_fallback || creates)) [
  | inl e ↦
      rw (e, enqueue_fallback)
        (schedule-IsBounded entered (record {
          no_worker = h.no_worker;
          none_pending = h.none_pending;
          queue = omega (
            arith,
            length-append (evict d.fallback_queue).0 (item ∷ []),
            evict-length d.fallback_queue h.queue,
          );
          resolvers = h.resolvers;
        }))
  | inr e ↦
      rw (e, enqueue_fallback)
        (record {
          no_worker = h.no_worker;
          none_pending = h.none_pending;
          queue = h.queue;
          resolvers = h.resolvers;
        })
]
  where
    item : QueueItem
    item = record { payload = payload; promise = d.next_promise }

    entered : TransportDispatcher
    entered = record d {
      has_fallback = true;
      fallback_queue = (evict d.fallback_queue).0 ++ item ∷ [];
      next_promise = d.next_promise + 1;
    }

send-IsBounded :
    (payload : String) (posts creates : Bool) (d : TransportDispatcher)
    → IsBounded d
    → IsBounded (send payload posts creates d).after
unfolding send
send-IsBounded payload posts creates d h = by_worker d.has_worker h.no_worker
  where
    by_worker :
        (b : Bool)
        → b ≡ false
        → IsBounded
            (if b
              then dispatch_to_worker (sends payload) posts d
              else enqueue_fallback payload creates d).after
    by_worker true e = absurd (true_ne_false e)
    by_worker false e = enqueue-IsBounded payload creates d h

waits-IsBounded :
    (d : TransportDispatcher) (full : Bool)
    → leb max_fallback_flush_resolvers (length d.fallback_flush_resolvers) ≡ full
    → IsBounded d
    → IsBounded
        (if full then settle_now false d else record {
          after = record d {
            fallback_flush_resolvers =
                d.fallback_flush_resolvers
                ++ record { promise = d.next_promise; goes_on = true } ∷ [];
            next_promise = d.next_promise + 1;
          };
          settled = [];
        }).after
waits-IsBounded d true e h = record {
  no_worker = h.no_worker;
  none_pending = h.none_pending;
  queue = h.queue;
  resolvers = h.resolvers;
}
waits-IsBounded d false e h = record {
  no_worker = h.no_worker;
  none_pending = h.none_pending;
  queue = h.queue;
  resolvers = ground (
    arith,
    e,
    length-append d.fallback_flush_resolvers
        (record { promise = d.next_promise; goes_on = true } ∷ []),
  );
}

-- Nothing but the promises and the flushes changes.
flushed :
    (d : TransportDispatcher) (l : List ℕ) (n : ℕ)
    → IsBounded d
    → IsBounded (record d { flushing = l; next_promise = n })
flushed d l n h = record {
  no_worker = h.no_worker;
  none_pending = h.none_pending;
  queue = h.queue;
  resolvers = h.resolvers;
}

flush-IsBounded :
    (posts : Bool) (d : TransportDispatcher) → IsBounded d → IsBounded (flush posts d).after
unfolding flush
flush-IsBounded posts d h = by_worker d.has_worker h.no_worker
  where
    full : Bool
    full = leb max_fallback_flush_resolvers (length d.fallback_flush_resolvers)

    by_tests :
        (idle has : Bool)
        → IsBounded
            (if idle
              then (if has
                  then record {
                    after = record d {
                      flushing = d.flushing ++ d.next_promise ∷ [];
                      next_promise = d.next_promise + 1;
                    };
                    settled = [];
                  }
                  else settle_now true d)
              else (if full then settle_now false d else record {
                after = record d {
                  fallback_flush_resolvers =
                      d.fallback_flush_resolvers
                      ++ record { promise = d.next_promise; goes_on = true } ∷ [];
                  next_promise = d.next_promise + 1;
                };
                settled = [];
              })).after
    by_tests true true = flushed d (d.flushing ++ d.next_promise ∷ []) (d.next_promise + 1) h
    by_tests true false = flushed d d.flushing (d.next_promise + 1) h
    by_tests false has = waits-IsBounded d full refl h

    by_worker :
        (b : Bool)
        → b ≡ false
        → IsBounded (if b then dispatch_to_worker flushes posts d else flush_fallback d).after
    by_worker true e = absurd (true_ne_false e)
    by_worker false e = by_tests (is_fallback_idle d) d.has_fallback

resolve_waiters-IsBounded :
    (d : TransportDispatcher) → IsBounded d → IsBounded (resolve_waiters_if_idle d).after
unfolding resolve_waiters_if_idle
resolve_waiters-IsBounded d h = elim (Bool-cases (is_fallback_idle d)) [
  | inl e ↦
      rw (e, resolve_waiters_if_idle)
        (record {
          no_worker = h.no_worker;
          none_pending = h.none_pending;
          queue = h.queue;
          resolvers = omega arith;
        })
  | inr e ↦ rw (e, resolve_waiters_if_idle) h
]

take_next-IsBounded : (d : TransportDispatcher) → IsBounded d → IsBounded (take_next d).after
unfolding take_next
take_next-IsBounded d h = by_queue d.fallback_queue h.queue
  where
    by_queue :
        (q : List QueueItem)
        → length q ≤ max_fallback_queue_size
        → IsBounded (
            let e : Effects = elim q [
              | [] ↦ resolve_waiters_if_idle d
              | item ∷ rest ↦ record {
                after = record d { fallback_queue = rest; sending = some item };
                settled = [];
              }
            ] in
            e.after)
    by_queue [] le = resolve_waiters-IsBounded d h
    by_queue (item ∷ rest) le = record {
      no_worker = h.no_worker;
      none_pending = h.none_pending;
      queue = omega (arith, le);
      resolvers = h.resolvers;
    }

process-IsBounded :
    (d : TransportDispatcher) → IsBounded d → IsBounded (process_fallback_queue d).after
unfolding process_fallback_queue
process-IsBounded d h = by_flag d.fallback_scheduled
  where
    begun : TransportDispatcher
    begun = record d { fallback_scheduled = false }

    begun-IsBounded : IsBounded begun
    begun-IsBounded = record {
      no_worker = h.no_worker;
      none_pending = h.none_pending;
      queue = h.queue;
      resolvers = h.resolvers;
    }

    by_flag :
        (b : Bool)
        → IsBounded (if b then take_next begun else record { after = d; settled = [] }).after
    by_flag true = take_next-IsBounded begun begun-IsBounded
    by_flag false = h

go_on-IsBounded :
    (b : Bool) (s : Option QueueItem) (d : TransportDispatcher)
    → IsBounded d
    → IsBounded (go_on b s d).after
unfolding go_on
go_on-IsBounded b none d h = h
go_on-IsBounded b (some item) d h =
    let free : IsBounded (record d { sending = none }) = record {
      no_worker = h.no_worker;
      none_pending = h.none_pending;
      queue = h.queue;
      resolvers = h.resolvers;
    } in
    take_next-IsBounded (record d { sending = none }) free

on_flush_end-IsBounded :
    (p : ℕ) (b : Bool) (d : TransportDispatcher)
    → IsBounded d
    → IsBounded (on_flush_end p b d).after
unfolding on_flush_end
on_flush_end-IsBounded p b d h = elim (Bool-cases (has_promise p d.flushing)) [
  | inl e ↦ rw (e, on_flush_end) (flushed d (without_promise p d.flushing) d.next_promise h)
  | inr e ↦ rw (e, on_flush_end) h
]

on_message-IsBounded :
    (id : Option ℕ) (b : Bool) (d : TransportDispatcher)
    → IsBounded d
    → IsBounded (on_message id b d).after
unfolding on_message
on_message-IsBounded none b d h = h
on_message-IsBounded (some id) b d h = by_pending d.pending h.none_pending
  where
    by_pending :
        (rs : List PendingRequest)
        → rs ≡ []
        → IsBounded (
            let e : Effects = elim (find_id id rs) [
              | none ↦ record { after = d; settled = [] }
              | some r ↦ record {
                after = record d { pending = delete_id id rs };
                settled = record { promise = r.promise; is_resolved = b } ∷ [];
              }
            ] in
            e.after)
    by_pending rs none_left = rw none_left h

fallback-IsBounded :
    (creates : Bool) (d : TransportDispatcher)
    → IsBounded d
    → IsBounded (fallback_to_main_thread creates d).after
unfolding fallback_to_main_thread
fallback-IsBounded creates d h =
    by_tests (d.has_fallback || creates) (is_nil d.pending) (ap is_nil h.none_pending)
  where
    ready : TransportDispatcher
    ready = record d { has_worker = false; has_fallback = true }

    by_tests :
        (has empty : Bool)
        → empty ≡ true
        → IsBounded
            (if has
              then (if empty
                  then record { after = ready; settled = [] }
                  else (if is_nil (move_pending ready).fallback_queue
                      then resolve_waiters_if_idle (move_pending ready)
                      else record { after = schedule (move_pending ready); settled = [] }))
              else record {
                after = record d { has_worker = false; pending = [] };
                settled = reject_pending d.pending;
              }).after
    by_tests true true e = record {
      no_worker = refl;
      none_pending = h.none_pending;
      queue = h.queue;
      resolvers = h.resolvers;
    }
    by_tests true false e = absurd (true_ne_false (sym e))
    by_tests false empty e = record {
      no_worker = refl;
      none_pending = refl;
      queue = h.queue;
      resolvers = h.resolvers;
    }

step-IsBounded : (e : Event) (d : TransportDispatcher) → IsBounded d → IsBounded (step e d).after
unfolding on_send_end
step-IsBounded (calls_send payload posts creates) d h = send-IsBounded payload posts creates d h
step-IsBounded (calls_flush posts) d h = flush-IsBounded posts d h
step-IsBounded (messages id b) d h = on_message-IsBounded id b d h
step-IsBounded (ends_worker creates) d h = fallback-IsBounded creates d h
step-IsBounded processes d h = process-IsBounded d h
step-IsBounded (ends_send b) d h = go_on-IsBounded b d.sending d h
step-IsBounded (ends_flush p b) d h = on_flush_end-IsBounded p b d h

run-IsBounded :
    (es : List Event) (done : List Settled) (d : TransportDispatcher)
    → IsBounded d
    → IsBounded (run es done d).after
unfolding run
run-IsBounded [] done d h = h
run-IsBounded (e ∷ es) done d h =
    run-IsBounded es (done ++ (step e d).settled) (step e d).after (step-IsBounded e d h)

-- A dispatcher whose worker could not be created never has one, and after any calls of send and
-- flush and any events its queue holds at most 1000 items and at most 100 flushes wait.
pub run_without_worker-IsBounded :
    (creates : Bool) (es : List Event) → IsBounded (run es [] (new_dispatcher false creates)).after
run_without_worker-IsBounded creates es =
    run-IsBounded es [] (new_dispatcher false creates) (record {
      no_worker = refl;
      none_pending = refl;
      queue = omega arith;
      resolvers = omega arith;
    })
