-- ===== src/Transport/Runs.antt =====
-- Any history of calls and events of src/transport/transport.ts.
use Prim.Native.String.{String}
use errorcore.Common.{
  ℕ, ◌+◌, ◌≡◌, refl, sym, ap, subst, ◌∙◌, inl, inr, Bool, true, false, ◌||◌, Option, none, some,
  List, [], ◌∷◌, ◌++◌, leb, is_some, if◌then◌else◌, length, Bool-cases, arith, true_ne_false,
  false_ne_true,
}
use errorcore.Transport.{
  sends, flushes, PendingRequest, QueueItem, TransportDispatcher, Settled, Effects, new_dispatcher,
  settle_now, dispatch_to_worker, schedule, max_fallback_flush_resolvers, send, is_nil,
  is_fallback_idle, flush_fallback, flush, resolve_waiters_if_idle, take_next,
  process_fallback_queue, go_on, on_send_end, has_promise, without_promise, on_flush_end, find_id,
  delete_id, on_message, reject_pending, items_of, resolvers_of, move_pending,
  fallback_to_main_thread,
}
use errorcore.Transport.Pending.{delete_id-IsBelow}
use errorcore.Transport.Counts.{
  sending_times, held, settlements-append, queues-append, waits-append, times-append,
  without_promise-times, delete_id-pends, reject_pending-pends, items_of-pends,
}
use errorcore.Transport.Settlement.{
  IsSettledOnce, Stays, settle_now-Stays, dispatch_to_worker-Stays, Moves, Moves-Stays,
  resolve_waiters-Moves, resolve_waiters-sending, take_next-Moves, schedule-Moves, schedule-alone,
  schedule-IsBelow, enqueue_fallback-Stays,
}

-- A call, or an event: the worker's message and end, the callback of `setImmediate`, and the end of
-- a send or of a flush of the fallback transport.
pub data Event : Type 0 where
  calls_send : String → Bool → Bool → Event
  calls_flush : Bool → Event
  messages : Option ℕ → Bool → Event
  ends_worker : Bool → Event
  processes : Event
  ends_send : Bool → Event
  ends_flush : ℕ → Bool → Event

abbrev pub step : Event → TransportDispatcher → Effects
step (calls_send payload posts creates) d = send payload posts creates d
step (calls_flush posts) d = flush posts d
step (messages id b) d = on_message id b d
step (ends_worker creates) d = fallback_to_main_thread creates d
step processes d = process_fallback_queue d
step (ends_send b) d = on_send_end b d
step (ends_flush p b) d = on_flush_end p b d

unfoldable pub run : List Event → List Settled → TransportDispatcher → Effects
run [] done d = record { after = d; settled = done }
run (e ∷ es) done d = run es (done ++ (step e d).settled) (step e d).after

-- Nothing is settled and nothing changes.
unchanged :
    (done : List Settled) (d : TransportDispatcher)
    → IsSettledOnce done d
    → Stays done (record { after = d; settled = [] })
unchanged done d h = record {
  once = λ p. omega (arith, h.once p);
  alone = h.alone;
  below = h.below;
}

send-Stays :
    (payload : String) (posts creates : Bool) (done : List Settled) (d : TransportDispatcher)
    → IsSettledOnce done d
    → Stays done (send payload posts creates d)
unfolding send
send-Stays payload posts creates done d h = elim (Bool-cases d.has_worker) [
  | inl e ↦
      subst (Stays done) (sym (rw e refl)) (dispatch_to_worker-Stays (sends payload) posts done d h)
  | inr e ↦ subst (Stays done) (sym (rw e refl)) (enqueue_fallback-Stays payload creates done d h)
]

flush_fallback-Stays :
    (done : List Settled) (d : TransportDispatcher)
    → IsSettledOnce done d
    → Stays done (flush_fallback d)
flush_fallback-Stays done d h =
    by_tests (is_fallback_idle d) d.has_fallback
      (leb max_fallback_flush_resolvers (length d.fallback_flush_resolvers))
  where
    by_tests :
        (idle has full : Bool)
        → Stays done (
            if idle
            then (if has
                then record {
                  after = record d {
                    flushing = d.flushing ++ d.next_promise ∷ [];
                    next_promise = d.next_promise + 1;
                  };
                  settled = [];
                }
                else settle_now true d)
            else (if full then settle_now false d else record {
              after = record d {
                fallback_flush_resolvers =
                    d.fallback_flush_resolvers
                    ++ record { promise = d.next_promise; goes_on = true } ∷ [];
                next_promise = d.next_promise + 1;
              };
              settled = [];
            }))
    by_tests true true full = record {
      once = λ p. ground (arith, h.once p, times-append p d.flushing (d.next_promise ∷ []));
      alone = h.alone;
      below = h.below;
    }
    by_tests true false full = settle_now-Stays true done d h
    by_tests false has true = settle_now-Stays false done d h
    by_tests false has false = record {
      once = λ p. ground (
        arith,
        h.once p,
        waits-append p d.fallback_flush_resolvers
            (record { promise = d.next_promise; goes_on = true } ∷ []),
      );
      alone = h.alone;
      below = h.below;
    }

flush-Stays :
    (posts : Bool) (done : List Settled) (d : TransportDispatcher)
    → IsSettledOnce done d
    → Stays done (flush posts d)
unfolding flush
flush-Stays posts done d h = by_worker d.has_worker
  where
    by_worker :
        (b : Bool) → Stays done (if b then dispatch_to_worker flushes posts d else flush_fallback d)
    by_worker true = dispatch_to_worker-Stays flushes posts done d h
    by_worker false = flush_fallback-Stays done d h

process-Stays :
    (done : List Settled) (d : TransportDispatcher)
    → IsSettledOnce done d
    → Stays done (process_fallback_queue d)
unfolding process_fallback_queue
process-Stays done d h = by_flag d.fallback_scheduled refl
  where
    begun : TransportDispatcher
    begun = record d { fallback_scheduled = false }

    by_flag :
        (b : Bool)
        → d.fallback_scheduled ≡ b
        → Stays done (if b then take_next begun else record { after = d; settled = [] })
    by_flag true e =
        let m : Moves begun (take_next begun) = take_next-Moves begun (h.alone e) in
        Moves-Stays done begun (take_next begun)
          (record { once = h.once; alone = λ on. absurd (false_ne_true on); below = h.below }) m
          (λ on. absurd (false_ne_true (sym m.scheduled ∙ on)))
    by_flag false e = unchanged done d h

go_on-Stays :
    (b : Bool) (s : Option QueueItem) (done : List Settled) (d : TransportDispatcher)
    → d.sending ≡ s
    → IsSettledOnce done d
    → Stays done (go_on b s d)
unfolding go_on
go_on-Stays b none done d is h = unchanged done d h
go_on-Stays b (some item) done d is h =
    let free = record d { sending = none } in
    let m : Moves free (take_next free) = take_next-Moves free refl in
    record {
      once = λ p. rw m.next (omega (arith, h.once p, m.once p, ap (sending_times p) is));
      alone = λ on. absurd (some_ne_none (sym is ∙ h.alone (sym m.scheduled ∙ on)));
      below = rw (m.ids, m.entries) h.below;
    }
  where
    some_ne_none : ¬ (◌≡◌ {A = Option QueueItem} (some item) none)
    some_ne_none e = true_ne_false (ap is_some e)

on_send_end-Stays :
    (b : Bool) (done : List Settled) (d : TransportDispatcher)
    → IsSettledOnce done d
    → Stays done (on_send_end b d)
unfolding on_send_end
on_send_end-Stays b done d h = go_on-Stays b d.sending done d refl h

on_flush_end-Stays :
    (q : ℕ) (b : Bool) (done : List Settled) (d : TransportDispatcher)
    → IsSettledOnce done d
    → Stays done (on_flush_end q b d)
unfolding on_flush_end
on_flush_end-Stays q b done d h = by_flag (has_promise q d.flushing) refl
  where
    by_flag :
        (f : Bool)
        → has_promise q d.flushing ≡ f
        → Stays done (
            if f
            then record {
              after = record d { flushing = without_promise q d.flushing };
              settled = record { promise = q; is_resolved = b } ∷ [];
            }
            else record { after = d; settled = [] })
    by_flag true e = record {
      once = λ p. omega (arith, h.once p, without_promise-times p q d.flushing e);
      alone = h.alone;
      below = h.below;
    }
    by_flag false e = unchanged done d h

on_message-Stays :
    (id : Option ℕ) (b : Bool) (done : List Settled) (d : TransportDispatcher)
    → IsSettledOnce done d
    → Stays done (on_message id b d)
unfolding on_message
on_message-Stays none b done d h = unchanged done d h
on_message-Stays (some id) b done d h = found (find_id id d.pending) refl
  where
    found :
        (o : Option PendingRequest)
        → find_id id d.pending ≡ o
        → Stays done (elim o [
          | none ↦ record { after = d; settled = [] }
          | some r ↦ record {
            after = record d { pending = delete_id id d.pending };
            settled = record { promise = r.promise; is_resolved = b } ∷ [];
          }
        ])
    found none e = unchanged done d h
    found (some r) e = record {
      once = λ p. omega (arith, h.once p, delete_id-pends p id d.pending r e);
      alone = h.alone;
      below = delete_id-IsBelow d.request_id id d.pending h.below;
    }

moves : (p : ℕ) (d : TransportDispatcher) → held p (move_pending d) ≡ held p d
moves p d = omega (
  arith,
  queues-append p d.fallback_queue (items_of d.pending),
  waits-append p d.fallback_flush_resolvers (resolvers_of d.pending),
  items_of-pends p d.pending,
)

fallback_to_main_thread-Stays :
    (creates : Bool) (done : List Settled) (d : TransportDispatcher)
    → IsSettledOnce done d
    → Stays done (fallback_to_main_thread creates d)
unfolding fallback_to_main_thread
fallback_to_main_thread-Stays creates done d h =
    by_tests (d.has_fallback || creates) (is_nil d.pending) (is_nil moved.fallback_queue)
  where
    ready : TransportDispatcher
    ready = record d { has_worker = false; has_fallback = true }

    moved : TransportDispatcher
    moved = move_pending ready

    moved-IsSettledOnce : IsSettledOnce done moved
    moved-IsSettledOnce = record {
      once = λ p. rw (moves p ready) (h.once p);
      alone = h.alone;
      below = λ i lt. refl;
    }

    by_tests :
        (has empty idle : Bool)
        → Stays done (
            if has
            then (if empty
                then record { after = ready; settled = [] }
                else (if idle
                    then resolve_waiters_if_idle moved
                    else record { after = schedule moved; settled = [] }))
            else record {
              after = record d { has_worker = false; pending = [] };
              settled = reject_pending d.pending;
            })
    by_tests true true idle =
        unchanged done ready (record { once = h.once; alone = h.alone; below = h.below })
    by_tests true false true =
        let m : Moves moved (resolve_waiters_if_idle moved) = resolve_waiters-Moves moved in
        Moves-Stays done moved (resolve_waiters_if_idle moved) moved-IsSettledOnce m
          (λ on. resolve_waiters-sending moved ∙ h.alone (sym m.scheduled ∙ on))
    by_tests true false false = record {
      once = λ p.
          rw ((schedule-Moves moved p).0, (schedule-Moves moved p).1)
            (omega (arith, moved-IsSettledOnce.once p));
      alone = schedule-alone moved h.alone;
      below = schedule-IsBelow moved moved-IsSettledOnce.below;
    }
    by_tests false empty idle = record {
      once = λ p. omega (arith, h.once p, reject_pending-pends p d.pending);
      alone = h.alone;
      below = λ i lt. refl;
    }

step-Stays :
    (e : Event) (done : List Settled) (d : TransportDispatcher)
    → IsSettledOnce done d
    → Stays done (step e d)
step-Stays (calls_send payload posts creates) done d h = send-Stays payload posts creates done d h
step-Stays (calls_flush posts) done d h = flush-Stays posts done d h
step-Stays (messages id b) done d h = on_message-Stays id b done d h
step-Stays (ends_worker creates) done d h = fallback_to_main_thread-Stays creates done d h
step-Stays processes done d h = process-Stays done d h
step-Stays (ends_send b) done d h = on_send_end-Stays b done d h
step-Stays (ends_flush p b) done d h = on_flush_end-Stays p b done d h

run-IsSettledOnce :
    (es : List Event) (done : List Settled) (d : TransportDispatcher)
    → IsSettledOnce done d
    → IsSettledOnce (run es done d).settled (run es done d).after
unfolding run
run-IsSettledOnce [] done d h = h
run-IsSettledOnce (e ∷ es) done d h =
    let s : Stays done (step e d) = step-Stays e done d h in
    run-IsSettledOnce es (done ++ (step e d).settled) (step e d).after (record {
      once = λ p. omega (arith, s.once p, settlements-append p done (step e d).settled);
      alone = s.alone;
      below = s.below;
    })

-- From a new dispatcher, after any calls of send and flush and any events in any order, the worker's
-- end and what throws included, each promise handed out waits in one place (for the worker, in the
-- queue, at the send, among the resolvers or for the flush) or was resolved or rejected, once, and
-- no other promise was; no loop over the queue is asked for while one is at a send, and no pending
-- id is beyond the counter, so that `set` never replaces an entry.
pub run_from_start-IsSettledOnce :
    (started creates : Bool) (es : List Event)
    → IsSettledOnce
        (run es [] (new_dispatcher started creates)).settled
        (run es [] (new_dispatcher started creates)).after
run_from_start-IsSettledOnce started creates es =
    run-IsSettledOnce es [] (new_dispatcher started creates)
      (record { once = λ p. ground arith; alone = λ on. refl; below = λ i lt. refl })
