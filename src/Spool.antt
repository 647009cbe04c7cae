-- ===== src/Spool.antt =====
-- src/spool/payload-spool.ts: captured bodies kept in memory under three caps.
pub mod Store
pub mod Entries
pub mod Accounts
pub mod Bounds
pub mod Stored
pub mod ReadBack
pub mod Runs
mod Tests
use Prim.Native.String.{String}
use errorcore.Common.{
  ℕ, zero, suc, ◌+◌, ◌-◌, ◌*◌, min, Bool, true, false, not, ◌&&◌, ◌||◌, Option, none, some, List,
  [], ◌∷◌, ◌++◌, map, ltb, leb, ◌==◌, if◌then◌else◌, or_else, length, take, map_get, map_set,
  map_delete, str_eq,
}
use errorcore.Buffer.Slot.{
  PayloadBlobRef, PayloadPreviewReason, PayloadStorageMode, spool, preview, per_blob_cap,
  per_request_cap, global_cap, pressure, incomplete,
}

pub data PayloadPressureLevel : Type 0 where
  normal degraded critical : PayloadPressureLevel

-- `active`, or `sweepable` since `completedAtMs`.
pub data EntryState : Type 0 where
  active : EntryState
  sweepable : ℕ → EntryState

-- A buffer is the list of its bytes. The blob id `blob_<n>` is the number `n`.
pub record PayloadSpoolEntry : Type 0 where
  pub ref : PayloadBlobRef
  pub bytes : List ℕ
  pub created_at_ms : ℕ
  pub state : EntryState

pub record PayloadSpoolStoreInput : Type 0 where
  pub request_id : Option String
  pub lineage_id : Option String
  pub mime_type : Option String
  pub bytes : List ℕ
  pub original_size : ℕ
  pub sha256 : String
  pub complete : Option Bool

-- What a call reads of the world: the clock for its sweep and for its entry, the heap, and the
-- depth of the transport's queue.
pub record Readings : Type 0 where
  pub swept_at : ℕ
  pub now : ℕ
  pub heap_used : ℕ
  pub heap_total : ℕ
  pub transport_queue_depth : ℕ

abbrev pub degraded_transport_queue_depth : ℕ
degraded_transport_queue_depth = 500

abbrev pub degraded_per_request_bytes : ℕ
degraded_per_request_bytes = 512 * 1024

-- The map of entries by blob id, which every entry bears in its `ref`, is the list of the entries.
pub record PayloadSpool : Type 0 where
  pub global_max_bytes : ℕ
  pub per_request_max_bytes : ℕ
  pub per_blob_max_bytes : ℕ
  pub preview_bytes : ℕ
  pub completed_ttl_ms : ℕ
  pub entries : List PayloadSpoolEntry
  pub request_bytes : List (String × ℕ)
  pub used_bytes : ℕ
  pub next_blob_id : ℕ
  pub preview_only_count : ℕ

abbrev pub new_payload_spool : ℕ → ℕ → ℕ → ℕ → ℕ → PayloadSpool
new_payload_spool global per_request per_blob preview_length ttl = record {
  global_max_bytes = global;
  per_request_max_bytes = per_request;
  per_blob_max_bytes = per_blob;
  preview_bytes = preview_length;
  completed_ttl_ms = ttl;
  entries = [];
  request_bytes = [];
  used_bytes = 0;
  next_blob_id = 1;
  preview_only_count = 0;
}

abbrev pub request_key : Option String → String
request_key request_id = or_else request_id "__ambient__"

abbrev pub blob_of : PayloadSpoolEntry → ℕ
blob_of e = e.ref.blob_id

abbrev pub delete_blob : ℕ → List PayloadSpoolEntry → List PayloadSpoolEntry
delete_blob id [] = []
delete_blob id (e ∷ es) = if id == blob_of e then es else e ∷ delete_blob id es

unfoldable pub find_blob : ℕ → List PayloadSpoolEntry → Option PayloadSpoolEntry
find_blob id [] = none
find_blob id (e ∷ es) = if id == blob_of e then some e else find_blob id es

abbrev pub get : ℕ → PayloadSpool → Option PayloadSpoolEntry
get id s = find_blob id s.entries

-- The update of `requestBytes` in `deleteEntry`.
abbrev pub lower_request_bytes : String → ℕ → List (String × ℕ) → List (String × ℕ)
lower_request_bytes key n m =
    if or_else (map_get key m) 0 - n == 0
    then map_delete key m
    else map_set key (or_else (map_get key m) 0 - n) m

-- The subtraction from `usedBytes` stops at 0 here, which no entry's size makes it reach early.
unfoldable pub delete_entry : PayloadSpoolEntry → PayloadSpool → PayloadSpool
delete_entry e s = record s {
  entries = delete_blob (blob_of e) s.entries;
  used_bytes = s.used_bytes - length e.bytes;
  request_bytes =
      lower_request_bytes (request_key e.ref.request_id) (length e.bytes) s.request_bytes;
}

-- `now - entry.completedAtMs > this.completedTtlMs`, whose difference may be negative.
abbrev pub is_over : ℕ → ℕ → EntryState → Bool
is_over now ttl active = false
is_over now ttl (sweepable completed_at) = ltb (completed_at + ttl) now

-- The loop of `sweep`.
unfoldable pub sweep_entries : ℕ → List PayloadSpoolEntry → PayloadSpool → PayloadSpool
sweep_entries now [] s = s
sweep_entries now (e ∷ es) s =
    let kept = sweep_entries now es s in
    let swept = sweep_entries now es (delete_entry e s) in
    if is_over now s.completed_ttl_ms e.state then swept else kept

abbrev pub sweep : ℕ → PayloadSpool → PayloadSpool
sweep now s = sweep_entries now s.entries s

-- A ratio reaches a percentage: the quotients are compared as products.
abbrev pub heap_reaches : ℕ → Readings → Bool
heap_reaches percent r = ltb 0 r.heap_total && leb (percent * r.heap_total) (100 * r.heap_used)

abbrev pub spool_reaches : ℕ → PayloadSpool → Bool
spool_reaches percent s =
    s.global_max_bytes == 0 || leb (percent * s.global_max_bytes) (100 * s.used_bytes)

unfoldable pub get_pressure_level : Readings → PayloadSpool → PayloadPressureLevel
get_pressure_level r s =
    if heap_reaches 85 r || spool_reaches 95 s
    then critical
    else (if heap_reaches 70 r
          || (spool_reaches 80 s || leb degraded_transport_queue_depth r.transport_queue_depth)
        then degraded
        else normal)

abbrev pub is_of_request : String → PayloadSpoolEntry → Bool
is_of_request request_id e = elim e.ref.request_id [ none ↦ false | some id ↦ str_eq id request_id ]

abbrev pub completed : ℕ → String → PayloadSpoolEntry → PayloadSpoolEntry
completed now request_id e =
    if is_of_request request_id e then record e { state = sweepable now } else e

unfoldable pub mark_request_complete : ℕ → String → PayloadSpool → PayloadSpool
mark_request_complete now request_id s = record s {
  entries = map (completed now request_id) s.entries;
}

pub record PayloadSpoolStats : Type 0 where
  pub blob_count : ℕ
  pub used_bytes : ℕ
  pub global_max_bytes : ℕ
  pub preview_only_count : ℕ
  pub pressure : PayloadPressureLevel

unfoldable pub get_stats : Readings → PayloadSpool → PayloadSpoolStats
get_stats r s = record {
  blob_count = length s.entries;
  used_bytes = s.used_bytes;
  global_max_bytes = s.global_max_bytes;
  preview_only_count = s.preview_only_count;
  pressure = get_pressure_level r s;
}

-- The fields of an envelope that are not constant; `blob_id` as in the entries.
pub record PayloadBlobEnvelope : Type 0 where
  pub event_id : String
  pub blob_id : ℕ
  pub request_id : Option String
  pub lineage_id : Option String
  pub mime_type : Option String
  pub size : ℕ
  pub captured_size : ℕ
  pub sha256 : String
  pub body : String
  pub created_at : String

-- `toString('base64')` and `toISOString` are the runtime's.
unfoldable pub build_envelope :
    (List ℕ → String) → (ℕ → String) → String → ℕ → PayloadSpool → Option PayloadBlobEnvelope
build_envelope to_base64 to_iso event_id blob_id s = elim (get blob_id s) [
  | none ↦ none
  | some e ↦ some (record {
    event_id = event_id;
    blob_id = blob_id;
    request_id = e.ref.request_id;
    lineage_id = e.ref.lineage_id;
    mime_type = e.ref.mime_type;
    size = e.ref.size;
    captured_size = e.ref.captured_size;
    sha256 = e.ref.sha256;
    body = to_base64 e.bytes;
    created_at = to_iso e.created_at_ms;
  })
]
