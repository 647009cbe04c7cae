-- ===== src/Buffer/Writes.antt =====
-- src/buffer/io-event-buffer.ts: the methods that change the buffer.
use Prim.Native.String.{String}
use errorcore.Common.{
  ℕ, zero, suc, ◌+◌, ◌-◌, ◌%◌, Bool, true, false, not, ◌&&◌, Option, none, some, ◌∷◌, if◌then◌else◌,
  is_some, set, pos, ◌+ℤ◌, ◌-ℤ◌,
}
use errorcore.Clock.{EventClock, tick, current}
use errorcore.Buffer.Slot.{IoEvent, IoEventSlot}
use errorcore.Buffer.Compact.{estimate_bytes, compacted, is_successful}
use errorcore.Buffer.{
  IoEventBuffer, slot_at, assign_slot, has_object, has_request_id, evict_index, enforce_byte_budget,
}

-- The slot that `push` hands out, whose `seq` is its second result, and the states after the call.
pub record Pushed : Type 0 where
  pub slot : IoEventSlot
  pub clock : EventClock
  pub buffer : IoEventBuffer

-- `!this.storeContextEvents && event.requestId !== null && event.contextLost === false`.
abbrev pub is_kept_out : IoEventBuffer → IoEvent → Bool
is_kept_out b event =
    not b.store_context_events && is_some event.request_id && not event.context_lost

-- The writes of `push` once there is room.
unfoldable pub store_slot : ℕ → IoEventSlot → IoEventBuffer → IoEventBuffer
store_slot index slot b = record b {
  slots = set b.slots index (some slot);
  stored_slots = slot.object ∷ b.stored_slots;
  payload_bytes = b.payload_bytes +ℤ pos slot.estimated_bytes;
  slot_count = b.slot_count + 1;
  write_head = b.write_head + 1;
}

abbrev pub is_releasable : String → IoEventSlot → Bool
is_releasable request_id slot = has_request_id request_id slot && is_successful slot

-- The body of the loop of `compactCompletedRequest` for a slot that passes its guard.
unfoldable pub compact_at :
    Option (IoEventSlot → IoEventSlot) → ℕ → IoEventSlot → IoEventBuffer → IoEventBuffer
compact_at compact_slot index slot b =
    let slot' = compacted compact_slot slot in
    record b {
      slots = set b.slots index (some slot');
      payload_bytes = b.payload_bytes +ℤ (pos slot'.estimated_bytes -ℤ pos slot.estimated_bytes);
    }

module _ (request_id : String) (compact_slot : Option (IoEventSlot → IoEventSlot)) where
  unfoldable pub compact_slot_at : ℕ → IoEventBuffer × ℕ → IoEventBuffer × ℕ
  compact_slot_at cursor (b, count) = elim (slot_at b.slots (cursor % b.capacity)) [
    | none ↦ (b, count)
    | some slot ↦
        if is_releasable request_id slot
        then (compact_at compact_slot (cursor % b.capacity) slot b, count + 1)
        else (b, count)
  ]

  -- The loop, from a cursor over the rounds that are left.
  unfoldable pub compact_from : ℕ → ℕ → IoEventBuffer × ℕ → IoEventBuffer × ℕ
  compact_from zero cursor s = s
  compact_from (suc rounds) cursor s = compact_from rounds (cursor + 1) (compact_slot_at cursor s)

  unfoldable pub compact_completed_request : IoEventBuffer → IoEventBuffer × ℕ
  unfolding compact_from compact_slot_at compact_at
  compact_completed_request b = compact_from (b.write_head - b.read_head) b.read_head (b, 0)

module _ (hrtime : ℕ → ℕ) where
  -- `at` is the reading of the clock for the new slot.
  unfoldable pub push : ℕ → IoEvent → EventClock → IoEventBuffer → Pushed
  unfolding store_slot assign_slot
  push at event clock b =
      let clock' = tick clock in
      let estimated_bytes = estimate_bytes event in
      let slot = assign_slot b.next_object event (current clock') at estimated_bytes in
      let b' = record b { request_id_index = none; next_object = b.next_object + 1 } in
      let index = b'.write_head % b'.capacity in
      if is_kept_out b event then record { slot = slot; clock = clock'; buffer = b' } else record {
        slot = slot;
        clock = clock';
        buffer =
            store_slot index slot
              (enforce_byte_budget hrtime estimated_bytes (evict_index hrtime index true b'));
      }

  unfoldable pub adjust_payload_bytes : ℕ → ℕ → IoEventBuffer → IoEventBuffer
  adjust_payload_bytes old_bytes new_bytes b = enforce_byte_budget hrtime 0 (record b {
    request_id_index = none;
    payload_bytes = b.payload_bytes +ℤ (pos new_bytes -ℤ pos old_bytes);
  })

  -- The optional slot is given by its identity.
  unfoldable pub update_payload_bytes : ℕ → ℕ → Option ℕ → IoEventBuffer → IoEventBuffer
  unfolding adjust_payload_bytes
  update_payload_bytes old_bytes new_bytes none b = adjust_payload_bytes old_bytes new_bytes b
  update_payload_bytes old_bytes new_bytes (some object) b =
      if has_object object b.stored_slots then adjust_payload_bytes old_bytes new_bytes b else b

  module _ (request_id : String) (compact_slot : Option (IoEventSlot → IoEventSlot)) where
    unfoldable pub release_slot_at : ℕ → IoEventBuffer × ℕ → IoEventBuffer × ℕ
    release_slot_at cursor (b, count) = elim (slot_at b.slots (cursor % b.capacity)) [
      | none ↦ (b, count)
      | some slot ↦
          if is_releasable request_id slot
          then (
            evict_index hrtime (cursor % b.capacity) false
                (compact_at compact_slot (cursor % b.capacity) slot b),
            count + 1,
          )
          else (b, count)
    ]

    unfoldable pub release_from : ℕ → ℕ → IoEventBuffer × ℕ → IoEventBuffer × ℕ
    release_from zero cursor s = s
    release_from (suc rounds) cursor s = release_from rounds (cursor + 1) (release_slot_at cursor s)

    unfoldable pub release_completed_request : IoEventBuffer → IoEventBuffer × ℕ
    unfolding release_from release_slot_at compact_at
    release_completed_request b =
        release_from (b.write_head - b.read_head) b.read_head
          (record b { request_id_index = none }, 0)

-- The changed slot and the result.
unfoldable pub compact_detached_slot :
    Option (IoEventSlot → IoEventSlot) → IoEventSlot → IoEventSlot × Bool
compact_detached_slot compact_slot slot =
    if is_successful slot then (compacted compact_slot slot, true) else (slot, false)

-- The loop of `clear` over the array.
unfoldable pub clear_from : ℕ → ℕ → IoEventBuffer → IoEventBuffer
clear_from zero cursor b = b
clear_from (suc rounds) cursor b =
    clear_from rounds (cursor + 1) (record b { slots = set b.slots (cursor % b.capacity) none })

-- `storedSlots` is left as it is.
unfoldable pub clear : IoEventBuffer → IoEventBuffer
unfolding clear_from
clear b =
    let b' = clear_from (b.write_head - b.read_head) b.read_head b in
    record b' {
      request_id_index = none;
      payload_bytes = pos 0;
      slot_count = 0;
      read_head = b'.write_head;
    }
