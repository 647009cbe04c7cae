-- ===== src/Buffer/Tests.antt =====
-- Runs of the ring buffer of src/buffer/io-event-buffer.ts on small inputs.
use Prim.Native.String.{String}
use errorcore.Common.{
  ℕ, ◌+◌, ◌≡◌, refl, inl, true, false, none, some, [], ◌∷◌, map, pos, keep_if, arith, ◌+ℤ◌, ◌-ℤ◌,
}
use errorcore.Clock.{new_clock, tick}
use errorcore.Buffer.Slot.{done, http_client, outbound, IoEvent, IoEventSlot}
use errorcore.Buffer.Compact.{estimate_bytes, is_successful, compact_successful_slot}
use errorcore.Buffer.Accounting.Slots.{live}
use errorcore.Buffer.Queue.{Holds, objects}
use errorcore.Buffer.Store.{new_buffer-Holds}
use errorcore.Buffer.Push.{push-Holds, pushed_queue}
use errorcore.Buffer.Queries.{
  drain-Holds, get_recent-Holds, filter_by_request_id-Holds, last, IsCoherent,
}
use errorcore.Buffer.Log.{Logs, new_buffer-Logs, get_eviction_log-Logs, evict_index-Logs}
use errorcore.Buffer.Writes.{push, release_completed_request, update_payload_bytes, clear}
use errorcore.Buffer.Reads.{
  drain, collect, collect_chronological, get_recent, filter_by_request_id, get_eviction_log,
}
use errorcore.Buffer.Accounting.{Counts}
use errorcore.Buffer.Accounting.Methods.{new_buffer-Counts}
use errorcore.Buffer.Accounting.Budget.{
  push-IsWithinBudget, IsWithinBudget, push-Counts, assign_estimated_bytes,
  update_payload_bytes-Counts,
}
use errorcore.Buffer.Accounting.Clear.{clear-Counts}
use errorcore.Buffer.Accounting.Runs.{pushes, releases, clears, run, run-new_buffer-Counts}
use errorcore.Buffer.{
  IoEventBuffer, new_buffer, evict_index, has_request_id, enforce_byte_budget, evict_while_over,
  over_budget,
}

abbrev hrtime : ℕ → ℕ
hrtime n = 1000 + n

-- A finished request of the given id, with no body.
abbrev event_of : String → IoEvent
event_of id = record {
  phase = done;
  start_time = 0;
  end_time = some 5;
  duration_ms = some 5;
  type = http_client;
  direction = outbound;
  request_id = some id;
  context_lost = true;
  target = "api";
  method = none;
  url = none;
  status_code = some 200;
  fd = none;
  request_headers = none;
  response_headers = none;
  request_body = none;
  response_body = none;
  request_body_digest = none;
  response_body_digest = none;
  request_payload_ref = none;
  response_payload_ref = none;
  request_body_truncated = false;
  response_body_truncated = false;
  request_body_original_size = none;
  response_body_original_size = none;
  error = none;
  aborted = false;
  db_meta = none;
}

-- A ring of three, its budget large enough for each run below.
abbrev ring : IoEventBuffer
ring = new_buffer 3 10000 none

abbrev pushed : IoEventBuffer → String → IoEventBuffer
pushed b id = (push hrtime 7 (event_of id) new_clock b).buffer

abbrev ring_two : IoEventBuffer
ring_two = pushed (pushed ring "a") "b"

ring-Holds : Holds ring []
ring-Holds = new_buffer-Holds 3 10000 none (omega arith)

ring-Counts : Counts ring
ring-Counts = new_buffer-Counts 3 10000 none (omega arith)

abbrev first_slot : IoEventSlot
first_slot = (push hrtime 7 (event_of "a") new_clock ring).slot

one-Holds : Holds (pushed ring "a") (pushed_queue ring (event_of "a") first_slot [])
one-Holds = push-Holds hrtime 7 (event_of "a") new_clock ring [] ring-Holds

push-Holds_example : Holds (push hrtime 7 (event_of "b") new_clock (pushed ring "a")).buffer (
    pushed_queue
      (pushed ring "a")
      (event_of "b")
      (push hrtime 7 (event_of "b") new_clock (pushed ring "a")).slot
      (pushed_queue ring (event_of "a") first_slot []))
push-Holds_example =
    push-Holds hrtime 7 (event_of "b") new_clock (pushed ring "a")
      (pushed_queue ring (event_of "a") first_slot []) one-Holds

-- The newest three of four events are kept.
overwrites :
    map (λ s. s.request_id) (drain (pushed (pushed ring_two "c") "d"))
    ≡ some "b" ∷ some "c" ∷ some "d" ∷ []
unfolding push collect_chronological collect new_buffer evict_index enforce_byte_budget
    evict_while_over over_budget estimate_bytes tick ◌+ℤ◌ ◌-ℤ◌
overwrites = refl

-- A released slot in the middle leaves a hole that the write head later fills while the read head
-- still stands on it: the newest slot then stands in the window twice, first and last.
released_hole :
    map
      (λ s. s.request_id)
      (drain (
        pushed
          (pushed (release_completed_request hrtime "b" none (pushed ring_two "c")).0 "d")
          "e"))
    ≡ some "e" ∷ some "c" ∷ some "d" ∷ some "e" ∷ []
unfolding push collect_chronological collect new_buffer evict_index enforce_byte_budget
    evict_while_over over_budget estimate_bytes tick ◌+ℤ◌ ◌-ℤ◌ release_completed_request
    is_successful compact_successful_slot
released_hole = refl

-- `clear` forgets the slots and not their objects: a late report moves the counter of an empty ring.
cleared_report :
    (update_payload_bytes hrtime 256 300 (some 0) (clear ring_two)).payload_bytes ≡ pos 44
unfolding push new_buffer evict_index enforce_byte_budget evict_while_over over_budget
    estimate_bytes tick ◌+ℤ◌ ◌-ℤ◌ clear update_payload_bytes
cleared_report = refl

drain-Holds_example : drain (pushed ring "a") ≡ pushed_queue ring (event_of "a") first_slot []
drain-Holds_example =
    drain-Holds (pushed ring "a") (pushed_queue ring (event_of "a") first_slot []) one-Holds

get_recent-Holds_example :
    get_recent 5 (pushed ring "a") ≡ last 5 (pushed_queue ring (event_of "a") first_slot [])
get_recent-Holds_example =
    get_recent-Holds (pushed ring "a") (pushed_queue ring (event_of "a") first_slot []) 5 one-Holds

filter_by_request_id-Holds_example :
    ((filter_by_request_id "a" ring).1 ≡ objects (keep_if (has_request_id "a") []))
    × IsCoherent (filter_by_request_id "a" ring).0
filter_by_request_id-Holds_example =
    filter_by_request_id-Holds "a" ring [] ring-Holds (unfold new_buffer in inl refl)

get_eviction_log-Logs_example : get_eviction_log ring ≡ []
get_eviction_log-Logs_example = get_eviction_log-Logs ring [] (new_buffer-Logs 3 10000 none)

push-IsWithinBudget_example :
    IsWithinBudget hrtime (push hrtime 7 (event_of "a") new_clock ring).buffer
unfolding new_buffer
push-IsWithinBudget_example =
    push-IsWithinBudget hrtime 7 (event_of "a") new_clock ring ring-Counts refl

clear-Counts_example : Counts (clear ring_two) × (live (clear ring_two).slots ≡ 0)
clear-Counts_example = clear-Counts ring_two (
    push-Counts hrtime 7 (event_of "b") new_clock (pushed ring "a")
      (push-Counts hrtime 7 (event_of "a") new_clock ring ring-Counts))

run-new_buffer-Counts_example :
    Counts
      (run hrtime
        (pushes 7 (event_of "a") ∷ pushes 8 (event_of "b") ∷ releases "a" none ∷ clears ∷ [])
        (record { buffer = ring; clock = new_clock })).buffer
run-new_buffer-Counts_example =
    run-new_buffer-Counts hrtime 3 10000 none new_clock
      (pushes 7 (event_of "a") ∷ pushes 8 (event_of "b") ∷ releases "a" none ∷ clears ∷ [])
      (omega arith)

one-Counts : Counts (pushed ring "a")
one-Counts = push-Counts hrtime 7 (event_of "a") new_clock ring ring-Counts

update_payload_bytes-Counts_example : Counts (
    update_payload_bytes hrtime 256 300
      (some 0)
      (assign_estimated_bytes hrtime 0 first_slot 300 (pushed ring "a")))
unfolding push new_buffer evict_index enforce_byte_budget evict_while_over over_budget
    estimate_bytes tick
update_payload_bytes-Counts_example =
    (update_payload_bytes-Counts hrtime 0 first_slot 300 (pushed ring "a") one-Counts refl refl).0

-- A ring with one slot and an empty log.
abbrev one_slot : IoEventBuffer
one_slot = record ring {
  slots = some first_slot ∷ none ∷ none ∷ [];
  slot_count = 1;
  write_head = 1;
}

one_slot-Logs : Logs one_slot []
one_slot-Logs =
    let l = new_buffer-Logs 3 10000 none in
    record { size = l.size; heads = l.heads; kept = l.kept; layout = l.layout }

evict_index-Logs_example :
    (evict_index hrtime 0 true one_slot).overflow_count ≡ one_slot.overflow_count + 1
evict_index-Logs_example = (evict_index-Logs hrtime 0 one_slot first_slot [] refl one_slot-Logs).1
