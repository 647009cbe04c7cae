-- ===== src/Transport/Queue.antt =====
-- Runs of the loop of `processFallbackQueue` of src/transport/transport.ts.
use errorcore.Common.{
  ◌+◌, ◌≡◌, refl, ◌∙◌, Bool, true, false, none, some, List, [], ◌∷◌, ◌++◌, append_assoc, length,
  arith,
}
use errorcore.Transport.{
  QueueItem, TransportDispatcher, Settled, Effects, is_fallback_idle, resolved_by, going_on,
  resolve_waiters_if_idle, take_next, process_fallback_queue, go_on, on_send_end,
}
use errorcore.Transport.Runs.{Event, processes, ends_send, run}

-- The events of a loop whose sends end as `bs` says, and what the items get.
abbrev pub ends : List Bool → List Event
ends [] = []
ends (b ∷ bs) = ends_send b ∷ ends bs

abbrev pub answers : List QueueItem → List Bool → List Settled
answers [] bs = []
answers (item ∷ items) [] = []
answers (item ∷ items) (b ∷ bs) =
    record { promise = item.promise; is_resolved = b } ∷ answers items bs

-- The dispatcher is idle, the resolvers are done and the rest waits for the flush.
pub record IsDrained (d : TransportDispatcher) (e : Effects) (settled : List Settled) : Type 0 where
  pub all : e.settled ≡ settled
  pub idle : is_fallback_idle e.after ≡ true
  pub no_resolvers : e.after.fallback_flush_resolvers ≡ []
  pub flushing : e.after.flushing ≡ d.flushing ++ going_on d.fallback_flush_resolvers

abbrev at_send : QueueItem → List QueueItem → TransportDispatcher → TransportDispatcher
at_send item q d = record d { fallback_queue = q; fallback_scheduled = false; sending = some item }

ends-IsDrained :
    (item : QueueItem) (q : List QueueItem) (bs : List Bool) (done : List Settled)
    (d : TransportDispatcher)
    → length bs ≡ length q + 1
    → IsDrained d
        (run (ends bs) done (at_send item q d))
        (done ++ (answers (item ∷ q) bs ++ resolved_by d.fallback_flush_resolvers))
unfolding run on_send_end go_on take_next resolve_waiters_if_idle
ends-IsDrained item q [] done d h = absurd (omega (arith, h))
ends-IsDrained item [] (b ∷ []) done d h = record {
  all = refl;
  idle = refl;
  no_resolvers = refl;
  flushing = refl;
}
ends-IsDrained item [] (b ∷ (b' ∷ bs)) done d h = absurd (omega (arith, h))
ends-IsDrained item (i ∷ q) (b ∷ bs) done d h =
    let one = record { promise = item.promise; is_resolved = b } ∷ [] in
    let later = ends-IsDrained i q bs (done ++ one) d (shorter h) in
    record {
      all =
          later.all
          ∙ append_assoc done one (answers (i ∷ q) bs ++ resolved_by d.fallback_flush_resolvers);
      idle = later.idle;
      no_resolvers = later.no_resolvers;
      flushing = later.flushing;
    }
  where
    shorter : length (b ∷ bs) ≡ length (i ∷ q) + 1 → length bs ≡ length q + 1
    shorter e = omega (arith, e)

-- Once a loop is asked for, it ends after as many sends as the queue has items, if no call comes in
-- between: the promises of the items are settled in the order of the queue, each as its send ends,
-- then the resolvers run; the dispatcher is idle, no resolver is left, and the flushes that waited
-- go on.
pub process_fallback_queue-IsDrained :
    (q : List QueueItem) (bs : List Bool) (d : TransportDispatcher)
    → length bs ≡ length q
    → IsDrained d
        (run
          (processes ∷ ends bs)
          []
          (record d { fallback_queue = q; fallback_scheduled = true; sending = none }))
        (answers q bs ++ resolved_by d.fallback_flush_resolvers)
unfolding run process_fallback_queue take_next resolve_waiters_if_idle
process_fallback_queue-IsDrained [] [] d h = record {
  all = refl;
  idle = refl;
  no_resolvers = refl;
  flushing = refl;
}
process_fallback_queue-IsDrained [] (b ∷ bs) d h = absurd (omega (arith, h))
process_fallback_queue-IsDrained (item ∷ q) bs d h =
    ends-IsDrained item q bs [] d (omega (arith, h))
