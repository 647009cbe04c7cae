-- ===== src/RequestTracker/Tests.antt =====
-- Runs of the tracker of src/context/request-tracker.ts on small inputs.
use Prim.Native.String.{String}
use errorcore.Common.{ℕ, List, ◌≡◌, refl, none, some, true, false, [], ◌∷◌, map, keep_if, length}
use errorcore.RequestTracker.{
  RequestContext, RequestTracker, new_request_tracker, add, remove, sweep_expired, get_count,
  sweep_entries, reset_capacity_warning_if_available,
}
use errorcore.RequestTracker.Invariant.{
  Tracks, Call, adds, removes, sweeps, shuts_down, run, run-new_request_tracker-Tracks,
}
use errorcore.RequestTracker.Sweep.{is_old, is_young, sweep_expired-Tracks_split}
use errorcore.RequestTracker.Conservation.{IsConserved, fates, no_fates, run-IsConserved}
use errorcore.RequestTracker.Cleanup.{
  emitter, request_close, response_finish, response_close, on_events, on_events-ending, ending,
}

abbrev context_of : String → ℕ → RequestContext ℕ
context_of id start = record {
  request_id = id;
  start_time = start;
  method = "GET";
  url = "/";
  remainder = 0;
}

abbrev calls : List (Call ℕ)
calls = adds (context_of "a" 0) ∷ adds (context_of "b" 5000000) ∷ adds (context_of "c" 7) ∷ []

-- A tracker of two requests that live two milliseconds.
abbrev tracker : RequestTracker ℕ
tracker = run calls (new_request_tracker 2 (some 2))

tracker-Tracks : Tracks tracker
tracker-Tracks = run-new_request_tracker-Tracks 2 (some 2) calls

run-new_request_tracker-Tracks_example :
    Tracks (run (removes "b" ∷ sweeps 9 ∷ []) (new_request_tracker {R = ℕ} 2 none))
run-new_request_tracker-Tracks_example =
    run-new_request_tracker-Tracks 2 none (removes "b" ∷ sweeps 9 ∷ [])

full : get_count tracker ≡ 2
unfolding run add new_request_tracker
full = refl

sweep_expired-Tracks_split_example :
    ((sweep_expired 3000000 tracker).0.contexts
      ≡ keep_if (is_young tracker.ttl_ms 3000000) tracker.contexts)
    × ((sweep_expired 3000000 tracker).1
        ≡ map (λ e. e.1) (keep_if (is_old tracker.ttl_ms 3000000) tracker.contexts))
sweep_expired-Tracks_split_example = sweep_expired-Tracks_split 3000000 tracker tracker-Tracks

-- A request is replaced, one is removed, one is swept and one is cleared.
abbrev history : List (Call ℕ)
history =
    adds (context_of "a" 0)
    ∷ adds (context_of "b" 7)
    ∷ adds (context_of "a" 9)
    ∷ removes "a"
    ∷ sweeps 3000000
    ∷ adds (context_of "c" 8)
    ∷ shuts_down
    ∷ []

run-IsConserved_example :
    IsConserved
      (run history (new_request_tracker 2 (some 2)))
      (fates history (new_request_tracker 2 (some 2)) no_fates)
run-IsConserved_example = run-IsConserved 2 (some 2) history

handed_two : length (fates history (new_request_tracker 2 (some 2)) no_fates).handed ≡ 2
unfolding run add new_request_tracker fates remove sweep_expired sweep_entries
    reset_capacity_warning_if_available
handed_two = refl

on_events-ending_example :
    on_events
      (emitter true true)
      (emitter false true)
      (request_close ∷ response_finish ∷ response_close ∷ [])
      (record { cleaned = false; response_completed = false })
    ≡ ending
        (emitter true true)
        (emitter false true)
        (request_close ∷ response_finish ∷ response_close ∷ [])
on_events-ending_example =
    on_events-ending (emitter true true) (emitter false true)
      (request_close ∷ response_finish ∷ response_close ∷ [])
