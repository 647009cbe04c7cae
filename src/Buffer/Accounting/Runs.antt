-- ===== src/Buffer/Accounting/Runs.antt =====
-- The counters of src/buffer/io-event-buffer.ts over any history of calls.
use Prim.Native.String.{String}
use errorcore.Common.{ℕ, ◌<◌, Bool, Option, List, [], ◌∷◌}
use errorcore.Clock.{EventClock}
use errorcore.Buffer.Slot.{IoEvent, IoEventSlot}
use errorcore.Buffer.Writes.{
  push, compact_completed_request, release_completed_request, clear, Pushed,
}
use errorcore.Buffer.Reads.{filter_by_request_id}
use errorcore.Buffer.Accounting.{Counts}
use errorcore.Buffer.Accounting.Methods.{
  announced-Counts, new_buffer-Counts, compact_completed_request-Counts,
  release_completed_request-Counts,
}
use errorcore.Buffer.Accounting.Budget.{push-Counts}
use errorcore.Buffer.Accounting.Clear.{clear-Counts}
use errorcore.Buffer.{IoEventBuffer, new_buffer}

-- A call of a method that changes the buffer, but for `updatePayloadBytes`, whose effect hangs on
-- what its caller did to the slot.
pub data Call : Type 0 where
  pushes : ℕ → IoEvent → Call
  compacts : String → Option (IoEventSlot → IoEventSlot) → Call
  releases : String → Option (IoEventSlot → IoEventSlot) → Call
  filters : String → Call
  clears : Call

-- The clock ticks in `push` alone here; other components may move it too, which the buffer reads
-- only as the number of the new slot.
pub record State : Type 0 where
  pub buffer : IoEventBuffer
  pub clock : EventClock

abbrev after_push : Pushed → State
after_push p = record { buffer = p.buffer; clock = p.clock }

module _ (hrtime : ℕ → ℕ) where
  pub step : Call → State → State
  step (pushes at event) s = after_push (push hrtime at event s.clock s.buffer)
  step (compacts id f) s = record s { buffer = (compact_completed_request id f s.buffer).0 }
  step (releases id f) s = record s { buffer = (release_completed_request hrtime id f s.buffer).0 }
  step (filters id) s = record s { buffer = (filter_by_request_id id s.buffer).0 }
  step clears s = record s { buffer = clear s.buffer }

  pub run : List Call → State → State
  run [] s = s
  run (c ∷ cs) s = run cs (step c s)

  step-Counts : (c : Call) (s : State) → Counts s.buffer → Counts (step c s).buffer
  unfolding step filter_by_request_id
  step-Counts (pushes at event) s v = push-Counts hrtime at event s.clock s.buffer v
  step-Counts (compacts id f) s v = compact_completed_request-Counts id f s.buffer v
  step-Counts (releases id f) s v = release_completed_request-Counts hrtime id f s.buffer v
  step-Counts (filters id) s v = announced-Counts s.buffer _ s.buffer.next_object v
  step-Counts clears s v = (clear-Counts s.buffer v).0

  run-Counts : (cs : List Call) (s : State) → Counts s.buffer → Counts (run cs s).buffer
  unfolding run
  run-Counts [] s v = v
  run-Counts (c ∷ cs) s v = run-Counts cs (step c s) (step-Counts c s v)

  -- From a new buffer of a positive capacity, after any calls of `push`, `compactCompletedRequest`,
  -- `releaseCompletedRequest`, `filterByRequestId` and `clear`: `slotCount` is the number of slots in
  -- the array, `payloadBytes` the sum of their sizes, and every slot stands under a cursor between
  -- the read head and the write head.
  pub run-new_buffer-Counts :
      (capacity max_bytes : ℕ) (stores : Option Bool) (clock : EventClock) (cs : List Call)
      → 0 < capacity
      → Counts
          (run cs (record { buffer = new_buffer capacity max_bytes stores; clock = clock })).buffer
  run-new_buffer-Counts capacity max_bytes stores clock cs h =
      run-Counts cs _ (new_buffer-Counts capacity max_bytes stores h)
