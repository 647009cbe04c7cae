-- ===== src/Buffer/Compact.antt =====
-- src/buffer/io-event-buffer.ts: the size of a slot, and what is left of one whose request is done.
use errorcore.Common.{
  ℕ, ◌+◌, ◌≡◌, refl, Bool, true, false, not, ◌&&◌, Option, none, some, length, is_none,
  if◌then◌else◌,
}
use errorcore.Buffer.Slot.{Phase, active, done, Body, text, bytes, DbMeta, IoEvent, IoEventSlot}

abbrev pub metadata_overhead : ℕ
metadata_overhead = 256

abbrev pub body_length : Option Body → ℕ
body_length none = 0
body_length (some (text units)) = length units
body_length (some (bytes octets)) = length octets

unfoldable pub estimate_bytes : IoEvent → ℕ
estimate_bytes event =
    metadata_overhead + body_length event.request_body + body_length event.response_body

-- `Object.keys(compactedDbMeta).length === 0 ? undefined : compactedDbMeta`.
compact_db_meta : DbMeta → Option DbMeta
compact_db_meta meta =
    if is_none meta.row_count && is_none meta.collection
    then none
    else some (record meta { query = none; params = none })

compact_event : IoEvent → IoEvent
unfolding compact_db_meta
compact_event event = record event {
  request_headers = none;
  response_headers = none;
  request_body = none;
  response_body = none;
  request_body_digest = none;
  response_body_digest = none;
  request_payload_ref = none;
  response_payload_ref = none;
  request_body_truncated = false;
  response_body_truncated = false;
  request_body_original_size = none;
  response_body_original_size = none;
  db_meta = elim event.db_meta [ none ↦ none | some meta ↦ compact_db_meta meta ];
}

unfoldable pub compact_successful_slot : IoEventSlot → IoEventSlot
unfolding compact_event estimate_bytes
compact_successful_slot slot =
    let event = compact_event slot.event in
    record slot { event = event; estimated_bytes = estimate_bytes event }

-- `compactSlot?.(slot); this.compactSuccessfulSlot(slot)`.
abbrev pub compacted : Option (IoEventSlot → IoEventSlot) → IoEventSlot → IoEventSlot
compacted none slot = compact_successful_slot slot
compacted (some compact_slot) slot = compact_successful_slot (compact_slot slot)

abbrev pub is_done : Phase → Bool
is_done active = false
is_done done = true

-- `slot.phase === 'done' && slot.error === null && !slot.aborted`.
unfoldable pub is_successful : IoEventSlot → Bool
is_successful slot = is_done slot.phase && is_none slot.error && not slot.aborted

-- What compaction leaves is the fixed overhead.
pub estimated_bytes-compacted :
    (f : Option (IoEventSlot → IoEventSlot)) (slot : IoEventSlot)
    → (compacted f slot).estimated_bytes ≡ metadata_overhead
unfolding compact_successful_slot
estimated_bytes-compacted none slot = refl
estimated_bytes-compacted (some f) slot = refl
