-- ===== src/Buffer/Slot.antt =====
-- src/types.ts: the I/O events of the ring buffer (IOEventSlot, PayloadBlobRef, EvictionRecord).
-- Text that the buffer only measures is a list of its units; times and sizes are whole numbers.
use Prim.Native.String.{String}
use errorcore.Common.{ℕ, Bool, List, Option}

pub data Phase : Type 0 where
  active done : Phase

pub data IoEventType : Type 0 where
  http_server http_client undici db_query dns tcp cache_read : IoEventType

pub data IoDirection : Type 0 where
  inbound outbound : IoDirection

pub data PayloadStorageMode : Type 0 where
  spool preview : PayloadStorageMode

pub data PayloadPreviewReason : Type 0 where
  per_blob_cap per_request_cap global_cap pressure incomplete : PayloadPreviewReason

pub record PayloadBlobRef : Type 0 where
  pub blob_id : ℕ
  pub storage : PayloadStorageMode
  pub request_id : Option String
  pub lineage_id : Option String
  pub mime_type : Option String
  pub size : ℕ
  pub captured_size : ℕ
  pub sha256 : String
  pub preview_bytes : ℕ
  pub preview_truncated : Bool
  pub reason : Option PayloadPreviewReason

-- `string | Buffer`: UTF-16 units, or bytes.
pub data Body : Type 0 where
  text bytes : List ℕ → Body

pub record EventError : Type 0 where
  pub error_type : String
  pub message : String

-- An absent property is `none`; `row_count` may also be present and null.
pub record DbMeta : Type 0 where
  pub query : Option String
  pub params : Option String
  pub row_count : Option (Option ℕ)
  pub collection : Option String

-- PushableIOEvent: a slot without `seq`, `hrtimeNs` and `estimatedBytes`. `undefined` and `null`
-- in the digests and payload references are one `none`, as `assignSlot` makes them.
pub record IoEvent : Type 0 where
  pub phase : Phase
  pub start_time : ℕ
  pub end_time : Option ℕ
  pub duration_ms : Option ℕ
  pub type : IoEventType
  pub direction : IoDirection
  pub request_id : Option String
  pub context_lost : Bool
  pub target : String
  pub method : Option String
  pub url : Option String
  pub status_code : Option ℕ
  pub fd : Option ℕ
  pub request_headers : Option (List (String × String))
  pub response_headers : Option (List (String × String))
  pub request_body : Option Body
  pub response_body : Option Body
  pub request_body_digest : Option String
  pub response_body_digest : Option String
  pub request_payload_ref : Option PayloadBlobRef
  pub response_payload_ref : Option PayloadBlobRef
  pub request_body_truncated : Bool
  pub response_body_truncated : Bool
  pub request_body_original_size : Option ℕ
  pub response_body_original_size : Option ℕ
  pub error : Option EventError
  pub aborted : Bool
  pub db_meta : Option DbMeta

-- IOEventSlot. `object` is the identity of the JavaScript object, which the `WeakSet` of the
-- buffer and the callers of `updatePayloadBytes` compare.
pub record IoEventSlot : Type 0 where
  pub object : ℕ
  pub seq : ℕ
  pub hrtime_ns : ℕ
  pub event : IoEvent
  pub open event use *
  pub estimated_bytes : ℕ

pub record EvictionRecord : Type 0 where
  pub seq : ℕ
  pub type : IoEventType
  pub direction : IoDirection
  pub target : String
  pub request_id : Option String
  pub start_time : ℕ
  pub evicted_at : ℕ
