-- ===== src/Buffer.antt =====
-- src/buffer/io-event-buffer.ts: the ring buffer of I/O events, its byte budget and its log of
-- evictions. The counters never fall below zero but for `payload_bytes`, which clients drive.
-- `hrtime n` is the reading of `process.hrtime.bigint()` at the n-th eviction.
pub mod Slot
pub mod Compact
pub mod Writes
pub mod Reads
pub mod Cells
pub mod Queue
mod Frame
mod Evict
mod Store
mod Push
mod Queries
pub mod Accounting
mod Log
mod Tests
use Prim.Native.String.{String}
use errorcore.Common.{
  ℕ, zero, suc, ◌+◌, ◌-◌, ◌%◌, min, Bool, true, false, not, ◌&&◌, ◌||◌, Option, none, some, List,
  [], ◌∷◌, ltb, leb, ◌==◌, if◌then◌else◌, is_none, or_else, length, set, get_or, replicate, keep_if,
  ℤ, pos, ◌+ℤ◌, ◌-ℤ◌, ltb_ℤ, str_eq,
}
use mathlib.Core.List.{reverse}
use errorcore.Clock.{EventClock, tick, current}
use Slot.{Phase, active, done, Body, text, bytes, DbMeta, IoEvent, IoEventSlot, EvictionRecord}

abbrev pub eviction_log_capacity : ℕ
eviction_log_capacity = 100

pub record IoEventBuffer : Type 0 where
  pub slots : List (Option IoEventSlot)
  pub capacity : ℕ
  pub max_bytes : ℕ
  pub write_head : ℕ
  pub read_head : ℕ
  pub slot_count : ℕ
  pub payload_bytes : ℤ
  pub overflow_count : ℕ
  pub store_context_events : Bool
  pub stored_slots : List ℕ
  pub request_id_index : Option (List (String × List ℕ))
  pub eviction_slots : List (Option EvictionRecord)
  pub eviction_write_head : ℕ
  pub eviction_count : ℕ
  pub next_object : ℕ

-- `null` and out of range are one `none`.
abbrev pub slot_at {ℓ} : {A : Type ℓ} → List (Option A) → ℕ → Option A
slot_at slots i = get_or slots i none

-- `storeContextEvents ?? true`.
pub new_buffer : ℕ → ℕ → Option Bool → IoEventBuffer
new_buffer capacity max_bytes store_context_events = record {
  slots = replicate capacity none;
  capacity = capacity;
  max_bytes = max_bytes;
  write_head = 0;
  read_head = 0;
  slot_count = 0;
  payload_bytes = pos 0;
  overflow_count = 0;
  store_context_events = or_else store_context_events true;
  stored_slots = [];
  request_id_index = none;
  eviction_slots = replicate eviction_log_capacity none;
  eviction_write_head = 0;
  eviction_count = 0;
  next_object = 0;
}

-- A new object with the event's fields.
pub assign_slot : ℕ → IoEvent → ℕ → ℕ → ℕ → IoEventSlot
assign_slot object event seq hrtime_ns estimated_bytes = record {
  object = object;
  seq = seq;
  hrtime_ns = hrtime_ns;
  event = event;
  estimated_bytes = estimated_bytes;
}

-- `set.delete` and `set.has` on object identities.
abbrev pub delete_object : ℕ → List ℕ → List ℕ
delete_object object = keep_if λ other. not (other == object)

abbrev pub has_object : ℕ → List ℕ → Bool
has_object object [] = false
has_object object (other ∷ rest) = other == object || has_object object rest

pub eviction_record : IoEventSlot → ℕ → EvictionRecord
eviction_record slot evicted_at = record {
  seq = slot.seq;
  type = slot.type;
  direction = slot.direction;
  target = slot.target;
  request_id = slot.request_id;
  start_time = slot.start_time;
  evicted_at = evicted_at;
}

abbrev pub has_request_id : String → IoEventSlot → Bool
has_request_id request_id slot = elim slot.request_id [
  | none ↦ false
  | some own ↦ str_eq own request_id
]

remove_slot : ℕ → IoEventSlot → IoEventBuffer → IoEventBuffer
remove_slot index slot b = record b {
  slots = set b.slots index none;
  stored_slots = delete_object slot.object b.stored_slots;
  payload_bytes = b.payload_bytes -ℤ pos slot.estimated_bytes;
  slot_count = b.slot_count - 1;
}

advance_read_head : ℕ → IoEventBuffer → IoEventBuffer
advance_read_head index b =
    if b.slot_count == 0
    then record b { read_head = b.write_head }
    else if index == b.read_head % b.capacity
    then record b { read_head = b.read_head + 1 }
    else b

module _ (hrtime : ℕ → ℕ) where
  log_eviction : IoEventSlot → IoEventBuffer → IoEventBuffer
  log_eviction slot b = record b {
    eviction_slots =
        set b.eviction_slots (b.eviction_write_head % eviction_log_capacity)
          (some (eviction_record slot (hrtime b.eviction_count)));
    eviction_write_head = b.eviction_write_head + 1;
    eviction_count = b.eviction_count + 1;
  }

  -- `countOverflow`, both of its uses.
  count_eviction : Bool → IoEventSlot → IoEventBuffer → IoEventBuffer
  unfolding log_eviction
  count_eviction true slot b =
      let logged = log_eviction slot b in
      record logged { overflow_count = logged.overflow_count + 1 }
  count_eviction false slot b = b

  pub evict_index : ℕ → Bool → IoEventBuffer → IoEventBuffer
  unfolding count_eviction remove_slot advance_read_head
  evict_index index count_overflow b = elim (slot_at b.slots index) [
    | none ↦ b
    | some slot ↦
        advance_read_head index (remove_slot index slot (count_eviction count_overflow slot b))
  ]

  -- The loop of `evictOldest`, over the cursors that are left.
  evict_oldest_from : ℕ → IoEventBuffer → IoEventBuffer
  evict_oldest_from zero b = b
  evict_oldest_from (suc rounds) b = elim (slot_at b.slots (b.read_head % b.capacity)) [
    | some slot ↦ evict_index (b.read_head % b.capacity) true b
    | none ↦ evict_oldest_from rounds (record b { read_head = b.read_head + 1 })
  ]

  pub evict_oldest : IoEventBuffer → IoEventBuffer
  evict_oldest b = evict_oldest_from (b.write_head - b.read_head) b

  pub over_budget : ℕ → IoEventBuffer → Bool
  over_budget incoming_bytes b =
      ltb_ℤ (pos b.max_bytes) (b.payload_bytes +ℤ pos incoming_bytes) && ltb 0 b.slot_count

  -- The loop of `enforceByteBudget`, on fuel.
  pub evict_while_over : ℕ → ℕ → IoEventBuffer → IoEventBuffer
  evict_while_over zero incoming_bytes b = b
  evict_while_over (suc fuel) incoming_bytes b = elim (over_budget incoming_bytes b) [
    | true ↦ evict_while_over fuel incoming_bytes (evict_oldest b)
    | false ↦ b
  ]

  -- Each round evicts a slot: the slots that there are suffice as fuel.
  pub enforce_byte_budget : ℕ → IoEventBuffer → IoEventBuffer
  enforce_byte_budget incoming_bytes b = evict_while_over b.slot_count incoming_bytes b
