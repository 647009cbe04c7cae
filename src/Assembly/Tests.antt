-- ===== src/Assembly/Tests.antt =====
-- Runs of the dispatcher of src/capture/package-assembly-dispatcher.ts on small inputs.
use errorcore.Common.{◌≤◌, ◌≡◌, refl, true, false, some, List, [], ◌∷◌, ◌++◌, arith}
use errorcore.Assembly.{
  PackageAssemblyDispatcher, new_dispatcher, has_id, next_request_id, probe_ids, request_id_max,
  result, on_worker_end, assemble, open_request, on_message, on_timeout, update_config,
}
use errorcore.Assembly.Settlement.{IsSettledOnce, settlements}
use errorcore.Assembly.Ids.{next_request_id-fresh}
use errorcore.Assembly.Runs.{
  Event, assembles, messages, times_out, updates_config, run, run-new_dispatcher-IsSettledOnce,
  worker_end-settlements,
}

-- The second request is answered, then the first times out, and a late answer to it is dropped.
abbrev events : List Event
events =
    assembles
    ∷ updates_config true
    ∷ messages (some 2) result
    ∷ times_out 1
    ∷ messages (some 1) result
    ∷ assembles
    ∷ []

run-new_dispatcher-IsSettledOnce_example :
    IsSettledOnce
      (run events [] (new_dispatcher true)).settled
      (run events [] (new_dispatcher true)).after
run-new_dispatcher-IsSettledOnce_example = run-new_dispatcher-IsSettledOnce true events

three_promises : (run events [] (new_dispatcher true)).after.next_promise ≡ 3
unfolding run assemble open_request on_message on_timeout update_config next_request_id probe_ids
three_promises = refl

worker_end-settlements_example :
    settlements 2 (
      (run events [] (new_dispatcher true)).settled
      ++ (on_worker_end (run events [] (new_dispatcher true)).after).settled)
    ≡ 1
worker_end-settlements_example =
    worker_end-settlements true events 2 (omega (arith, three_promises))

-- The counter stands at its end, and the id after the wrap is taken.
abbrev wrapped : PackageAssemblyDispatcher
wrapped = record {
  has_worker = true;
  available = true;
  shutting_down = false;
  request_id = request_id_max;
  pending = record { id = 1; promise = 0; expects_result = true } ∷ [];
  next_promise = 1;
}

next_request_id-wrapped : (next_request_id wrapped).1 ≡ some 2
unfolding next_request_id probe_ids
next_request_id-wrapped = refl

next_request_id-fresh_example :
    (has_id 2 wrapped.pending ≡ false) × ((1 ≤ 2) × (2 ≤ request_id_max))
next_request_id-fresh_example = next_request_id-fresh wrapped 2 next_request_id-wrapped
