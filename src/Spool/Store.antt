-- ===== src/Spool/Store.antt =====
-- `store` of src/spool/payload-spool.ts: a body kept whole, or as a preview with the reason.
use errorcore.Common.{
  ℕ, ◌+◌, min, Bool, false, not, Option, none, some, List, [], ◌∷◌, ◌++◌, ltb, if◌then◌else◌,
  or_else, length, take, map_get, map_set,
}
use errorcore.Buffer.Slot.{
  PayloadBlobRef, PayloadPreviewReason, PayloadStorageMode, spool, preview, per_blob_cap,
  per_request_cap, global_cap, pressure, incomplete,
}
use errorcore.Spool.{
  PayloadSpool, PayloadSpoolStoreInput, PayloadPressureLevel, normal, degraded, critical, Readings,
  active, degraded_per_request_bytes, request_key, sweep, get_pressure_level,
}

unfoldable pub effective_per_request_cap : PayloadPressureLevel → PayloadSpool → ℕ
effective_per_request_cap degraded s = min s.per_request_max_bytes degraded_per_request_bytes
effective_per_request_cap normal s = s.per_request_max_bytes
effective_per_request_cap critical s = s.per_request_max_bytes

abbrev pub is_incomplete : Option Bool → Bool
is_incomplete none = false
is_incomplete (some complete) = not complete

abbrev pub request_used : PayloadSpoolStoreInput → PayloadSpool → ℕ
request_used input s = or_else (map_get (request_key input.request_id) s.request_bytes) 0

-- The choice of `previewReason` out of critical pressure.
abbrev pub cap_reason :
    PayloadPressureLevel → PayloadSpoolStoreInput → PayloadSpool → Option PayloadPreviewReason
cap_reason level input s =
    if ltb s.per_blob_max_bytes input.original_size
    then some per_blob_cap
    else (if is_incomplete input.complete
        then some incomplete
        else (if ltb (effective_per_request_cap level s)
              (request_used input s + input.original_size)
            then some per_request_cap
            else (if ltb s.global_max_bytes (s.used_bytes + input.original_size)
                then some global_cap
                else none)))

unfoldable pub preview_reason :
    PayloadPressureLevel → PayloadSpoolStoreInput → PayloadSpool → Option PayloadPreviewReason
preview_reason critical input s = some pressure
preview_reason degraded input s = cap_reason degraded input s
preview_reason normal input s = cap_reason normal input s

abbrev pub captured_size : PayloadStorageMode → PayloadSpoolStoreInput → ℕ → ℕ
captured_size spool input preview_length = length input.bytes
captured_size preview input preview_length = preview_length

unfoldable pub build_ref :
    PayloadSpoolStoreInput
    → ℕ
    → PayloadStorageMode
    → ℕ
    → Option PayloadPreviewReason
    → PayloadBlobRef
build_ref input blob_id storage preview_length reason = record {
  blob_id = blob_id;
  storage = storage;
  request_id = input.request_id;
  lineage_id = input.lineage_id;
  mime_type = input.mime_type;
  size = input.original_size;
  captured_size = captured_size storage input preview_length;
  sha256 = input.sha256;
  preview_bytes = preview_length;
  preview_truncated = ltb preview_length input.original_size;
  reason = reason;
}

-- A call of `emitWarning`: degraded pressure, or a preview with its reason.
pub data Warning : Type 0 where
  degraded_pressure : Warning
  preview_only : PayloadPreviewReason → Warning

abbrev pub pressure_warnings : PayloadPressureLevel → List Warning
pressure_warnings degraded = degraded_pressure ∷ []
pressure_warnings normal = []
pressure_warnings critical = []

-- The result of `store`, the new state and the warnings.
pub record StoreResult : Type 0 where
  pub ref : PayloadBlobRef
  pub preview : List ℕ
  pub after : PayloadSpool
  pub warnings : List Warning

unfoldable pub keep_preview :
    PayloadPressureLevel
    → PayloadPreviewReason
    → PayloadSpoolStoreInput
    → List ℕ
    → PayloadSpool
    → StoreResult
keep_preview level reason input shown s = record {
  ref = build_ref input s.next_blob_id preview (length shown) (some reason);
  preview = shown;
  after = record s {
    next_blob_id = s.next_blob_id + 1;
    preview_only_count = s.preview_only_count + 1;
  };
  warnings = pressure_warnings level ++ preview_only reason ∷ [];
}

unfoldable pub keep_whole :
    PayloadPressureLevel → ℕ → PayloadSpoolStoreInput → List ℕ → PayloadSpool → StoreResult
keep_whole level now input shown s =
    let ref = build_ref input s.next_blob_id spool (length shown) none in
    record {
      ref = ref;
      preview = shown;
      after = record s {
        next_blob_id = s.next_blob_id + 1;
        entries =
            s.entries
            ++ record { ref = ref; bytes = input.bytes; created_at_ms = now; state = active } ∷ [];
        used_bytes = s.used_bytes + length input.bytes;
        request_bytes =
            map_set (request_key input.request_id) (request_used input s + length input.bytes)
              s.request_bytes;
      };
      warnings = pressure_warnings level;
    }

unfoldable pub store : Readings → PayloadSpoolStoreInput → PayloadSpool → StoreResult
store r input s =
    let swept = sweep r.swept_at s in
    let level = get_pressure_level r swept in
    let shown = take (min (length input.bytes) swept.preview_bytes) input.bytes in
    elim (preview_reason level input swept) [
      | some reason ↦ keep_preview level reason input shown swept
      | none ↦ keep_whole level r.now input shown swept
    ]
