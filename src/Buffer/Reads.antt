-- ===== src/Buffer/Reads.antt =====
-- src/buffer/io-event-buffer.ts: the methods that read the buffer.
use Prim.Native.String.{String}
use mathlib.Core.List.{reverse}
use errorcore.Common.{
  ℕ, zero, suc, ◌+◌, ◌-◌, ◌%◌, min, Bool, false, ◌||◌, Option, none, some, List, [], ◌∷◌, ◌++◌, leb,
  ◌==◌, if◌then◌else◌, length, ℤ, pos, ◌+ℤ◌, ◌-ℤ◌, str_eq,
}
use errorcore.Buffer.Slot.{IoEventSlot, EvictionRecord}
use errorcore.Buffer.{IoEventBuffer, slot_at, eviction_log_capacity}

-- AmbientEventContext, src/types.ts.
pub record AmbientEventContext : Type 0 where
  pub total_buffer_events_at_capture : ℕ
  pub seq_range : Option (ℕ × ℕ)
  pub seq_gaps : ℤ
  pub distinct_request_ids : List String
  pub retrieved_count : ℕ

pub record IoEventBufferStats : Type 0 where
  pub slot_count : ℕ
  pub payload_bytes : ℤ
  pub overflow_count : ℕ
  pub capacity : ℕ
  pub max_bytes : ℕ

-- The entries at the cursors from `start`, without the nulls.
unfoldable pub collect {ℓ} : {A : Type ℓ} → List (Option A) → ℕ → ℕ → ℕ → List A
collect slots cap zero start = []
collect slots cap (suc rounds) start = elim (slot_at slots (start % cap)) [
  | none ↦ collect slots cap rounds (start + 1)
  | some a ↦ a ∷ collect slots cap rounds (start + 1)
]

unfoldable pub collect_chronological : IoEventBuffer → List IoEventSlot
collect_chronological b = collect b.slots b.capacity (b.write_head - b.read_head) b.read_head

abbrev pub drain : IoEventBuffer → List IoEventSlot
drain b = collect_chronological b

pub get_overflow_count : IoEventBuffer → ℕ
get_overflow_count b = b.overflow_count

pub get_stats : IoEventBuffer → IoEventBufferStats
get_stats b = record {
  slot_count = b.slot_count;
  payload_bytes = b.payload_bytes;
  overflow_count = b.overflow_count;
  capacity = b.capacity;
  max_bytes = b.max_bytes;
}

-- `indexedSlots.push(slot)`, or a new entry of the `Map` at its end.
unfoldable pub add_to_index : String → ℕ → List (String × List ℕ) → List (String × List ℕ)
add_to_index request_id object [] = (request_id, object ∷ []) ∷ []
add_to_index request_id object ((key, objects) ∷ index) =
    if str_eq key request_id
    then (key, objects ++ object ∷ []) ∷ index
    else (key, objects) ∷ add_to_index request_id object index

unfoldable pub lookup_index : String → List (String × List ℕ) → List ℕ
lookup_index request_id [] = []
lookup_index request_id ((key, objects) ∷ index) =
    if str_eq key request_id then objects else lookup_index request_id index

unfoldable pub index_slot : Option IoEventSlot → List (String × List ℕ) → List (String × List ℕ)
index_slot none index = index
index_slot (some slot) index = elim slot.request_id [
  | none ↦ index
  | some request_id ↦ add_to_index request_id slot.object index
]

-- The loop that builds `requestIdIndex`. Slots stand in it by their identities.
unfoldable pub build_index :
    List (Option IoEventSlot) → ℕ → ℕ → ℕ → List (String × List ℕ) → List (String × List ℕ)
build_index slots cap zero cursor index = index
build_index slots cap (suc rounds) cursor index =
    build_index slots cap rounds (cursor + 1) (index_slot (slot_at slots (cursor % cap)) index)

unfoldable pub request_index : IoEventBuffer → List (String × List ℕ)
request_index b = elim b.request_id_index [
  | some index ↦ index
  | none ↦ build_index b.slots b.capacity (b.write_head - b.read_head) b.read_head []
]

-- The new state, with the index kept, and the slots found.
unfoldable pub filter_by_request_id : String → IoEventBuffer → IoEventBuffer × List ℕ
unfolding request_index
filter_by_request_id request_id b =
    let index = request_index b in
    (record b { request_id_index = some index }, lookup_index request_id index)

abbrev pub push_some {ℓ} : {A : Type ℓ} → Option A → List A → List A
push_some none recent = recent
push_some (some a) recent = a ∷ recent

-- The loop of `getRecent`, downwards over the cursors below `read_head + rounds`. The array
-- `recent` is kept with its last element first, as `reverse` leaves it.
unfoldable pub recent_from {ℓ} : {A : Type ℓ} → List (Option A) → ℕ → ℕ → ℕ → ℕ → List A → List A
recent_from slots cap read_head n zero recent = recent
recent_from slots cap read_head n (suc rounds) recent =
    let recent' = push_some (slot_at slots ((read_head + rounds) % cap)) recent in
    let rest = recent_from slots cap read_head n rounds recent' in
    if leb n (length recent') then recent' else rest

unfoldable pub get_recent : ℕ → IoEventBuffer → List IoEventSlot
get_recent n b =
    if n == 0 || b.slot_count == 0
    then []
    else recent_from b.slots b.capacity b.read_head n (b.write_head - b.read_head) []

pub has_string : String → List String → Bool
has_string s [] = false
has_string s (t ∷ ts) = str_eq t s || has_string s ts

-- `requestIdSet.add`, which keeps the order of the first additions.
pub add_request_id : IoEventSlot → List String → List String
add_request_id slot ids = elim slot.request_id [
  | none ↦ ids
  | some request_id ↦ if has_string request_id ids then ids else ids ++ request_id ∷ []
]

-- Over the slots from the newest, as the loop meets them.
pub distinct_request_ids : List IoEventSlot → List String → List String
distinct_request_ids [] ids = ids
distinct_request_ids (slot ∷ slots) ids = distinct_request_ids slots (add_request_id slot ids)

abbrev pub last_seq : ℕ → List IoEventSlot → ℕ
last_seq seq [] = seq
last_seq seq (slot ∷ slots) = last_seq slot.seq slots

-- `{ min, max }` of the sequence numbers at the two ends.
abbrev pub seq_range : List IoEventSlot → Option (ℕ × ℕ)
seq_range [] = none
seq_range (slot ∷ slots) = some (slot.seq, last_seq slot.seq slots)

-- `maxSeq - minSeq + 1 - recent.length`.
abbrev pub seq_gaps : ℕ → Option (ℕ × ℕ) → ℤ
seq_gaps retrieved none = pos 0
seq_gaps retrieved (some (low, high)) = pos high -ℤ pos low +ℤ pos 1 -ℤ pos retrieved

pub ambient_context : IoEventBuffer → List IoEventSlot → AmbientEventContext
unfolding distinct_request_ids add_request_id has_string
ambient_context b recent = record {
  total_buffer_events_at_capture = b.slot_count;
  seq_range = seq_range recent;
  seq_gaps = seq_gaps (length recent) (seq_range recent);
  distinct_request_ids = distinct_request_ids (reverse recent) [];
  retrieved_count = length recent;
}

-- `getRecentWithContext`, whose loop is that of `getRecent`.
unfoldable pub get_recent_with_context : ℕ → IoEventBuffer → List IoEventSlot × AmbientEventContext
unfolding ambient_context get_recent
get_recent_with_context n b = let recent = get_recent n b in (recent, ambient_context b recent)

unfoldable pub get_eviction_log : IoEventBuffer → List EvictionRecord
get_eviction_log b =
    let count = min b.eviction_count eviction_log_capacity in
    let start = if leb b.eviction_count eviction_log_capacity then 0 else b.eviction_write_head in
    collect b.eviction_slots eviction_log_capacity count start
