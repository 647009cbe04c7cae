-- ===== src/Transport/Tests.antt =====
-- Runs of the dispatcher of src/transport/transport.ts on small inputs.
use errorcore.Common.{◌≡◌, refl, true, false, none, some, List, [], ◌∷◌, ◌++◌, length}
use errorcore.Transport.{
  QueueItem, TransportDispatcher, new_dispatcher, dispatch_to_worker, enqueue_fallback, send, flush,
  on_message, fallback_to_main_thread, process_fallback_queue, take_next, resolve_waiters_if_idle,
  on_send_end, go_on, on_flush_end,
}
use errorcore.Transport.Queue.{IsDrained, ends, answers, process_fallback_queue-IsDrained}
use errorcore.Transport.Bounds.{IsBounded, run_without_worker-IsBounded}
use errorcore.Transport.Settlement.{IsSettledOnce}
use errorcore.Transport.Runs.{
  Event, calls_send, calls_flush, messages, ends_worker, processes, ends_send, ends_flush, run,
  run_from_start-IsSettledOnce,
}

-- One send is answered, and the worker ends with a send and a flush pending; both go on in the main
-- thread.
abbrev events : List Event
events =
    calls_send "a" true true
    ∷ calls_send "b" true true
    ∷ calls_flush true
    ∷ messages (some 1) true
    ∷ ends_worker true
    ∷ calls_flush true
    ∷ processes
    ∷ ends_send false
    ∷ ends_flush 3 true
    ∷ []

run_from_start-IsSettledOnce_example :
    IsSettledOnce
      (run events [] (new_dispatcher true false)).settled
      (run events [] (new_dispatcher true false)).after
run_from_start-IsSettledOnce_example = run_from_start-IsSettledOnce true false events

all_settled : length (run events [] (new_dispatcher true false)).settled ≡ 4
unfolding run send flush dispatch_to_worker enqueue_fallback on_message fallback_to_main_thread
    process_fallback_queue take_next resolve_waiters_if_idle on_send_end go_on on_flush_end
all_settled = refl

-- Two items in the queue, the first of which fails, and a flush that waits.
abbrev items : List QueueItem
items = record { payload = "a"; promise = 0 } ∷ record { payload = "b"; promise = 1 } ∷ []

abbrev waiting : TransportDispatcher
waiting = record (new_dispatcher false true) {
  fallback_flush_resolvers = record { promise = 2; goes_on = true } ∷ [];
  next_promise = 3;
}

process_fallback_queue-IsDrained_example :
    IsDrained waiting
      (run
        (processes ∷ ends (false ∷ true ∷ []))
        []
        (record waiting { fallback_queue = items; fallback_scheduled = true; sending = none }))
      (answers items (false ∷ true ∷ []) ++ [])
process_fallback_queue-IsDrained_example =
    process_fallback_queue-IsDrained items (false ∷ true ∷ []) waiting refl

run_without_worker-IsBounded_example : IsBounded (run events [] (new_dispatcher false true)).after
run_without_worker-IsBounded_example = run_without_worker-IsBounded true events
