-- ===== src/CaptureMode.antt =====
-- src/capture-mode.ts: the settings that a capture mode and the user's configuration resolve to.
pub mod Resolve
pub mod Resources
pub mod Diff
pub mod Controller
pub mod Intent
mod Tests
use errorcore.Common.{
  ℕ, Bool, true, false, not, ◌&&◌, ◌||◌, Option, none, some, ltb, ◌==◌, if◌then◌else◌, or_else,
  is_some, Result, thrown, returned, and_then,
}

pub data CaptureMode : Type 0 where
  safe balanced forensic fast : CaptureMode

-- What the user gives as a mode at run time.
pub data GivenMode : Type 0 where
  known : CaptureMode → GivenMode
  unknown : GivenMode

-- What the user gives as a number: a natural number, or anything else (a negative number, a
-- fraction, NaN).
pub data GivenNumber : Type 0 where
  whole : ℕ → GivenNumber
  other : GivenNumber

-- The errors that are thrown.
pub data ModeError : Type 0 where
  not_a_mode not_positive flush_too_short same_modes not_boolean : ModeError

pub record RecorderSettings : Type 0 where
  pub http_server : Bool
  pub http_client : Bool
  pub undici : Bool
  pub fetch : Bool
  pub net_dns : Bool
  pub database : Bool
  pub process_handlers : Bool
  pub transport : Bool

pub record ModeDefaults : Type 0 where
  pub capture_local_variables : Bool
  pub capture_db_bind_params : Bool
  pub capture_request_bodies : Bool
  pub capture_response_bodies : Bool
  pub capture_body_digest : Bool
  pub resolve_source_maps : Bool
  pub payload_spool_enabled : Bool
  pub use_worker_assembly : Bool
  pub flush_interval_ms : ℕ
  pub recorders : RecorderSettings

abbrev pub all_recorders : RecorderSettings
all_recorders = record {
  http_server = true;
  http_client = true;
  undici = true;
  fetch = true;
  net_dns = true;
  database = true;
  process_handlers = true;
  transport = true;
}

-- The transport, and the process handlers where they are asked for.
abbrev pub few_recorders : Bool → RecorderSettings
few_recorders process_handlers = record {
  http_server = false;
  http_client = false;
  undici = false;
  fetch = false;
  net_dns = false;
  database = false;
  process_handlers = process_handlers;
  transport = true;
}

abbrev pub mode_defaults : CaptureMode → ModeDefaults
mode_defaults safe = record {
  capture_local_variables = true;
  capture_db_bind_params = false;
  capture_request_bodies = false;
  capture_response_bodies = false;
  capture_body_digest = false;
  resolve_source_maps = true;
  payload_spool_enabled = false;
  use_worker_assembly = false;
  flush_interval_ms = 5000;
  recorders = few_recorders true;
}
mode_defaults balanced = record {
  capture_local_variables = true;
  capture_db_bind_params = false;
  capture_request_bodies = false;
  capture_response_bodies = false;
  capture_body_digest = false;
  resolve_source_maps = true;
  payload_spool_enabled = true;
  use_worker_assembly = true;
  flush_interval_ms = 5000;
  recorders = all_recorders;
}
mode_defaults forensic = record {
  capture_local_variables = true;
  capture_db_bind_params = true;
  capture_request_bodies = true;
  capture_response_bodies = true;
  capture_body_digest = true;
  resolve_source_maps = true;
  payload_spool_enabled = true;
  use_worker_assembly = true;
  flush_interval_ms = 5000;
  recorders = all_recorders;
}
mode_defaults fast = record {
  capture_local_variables = false;
  capture_db_bind_params = false;
  capture_request_bodies = false;
  capture_response_bodies = false;
  capture_body_digest = false;
  resolve_source_maps = false;
  payload_spool_enabled = false;
  use_worker_assembly = false;
  flush_interval_ms = 0;
  recorders = few_recorders false;
}

-- `'off'`, or an object with two optional limits.
pub data LocalsGuardInput : Type 0 where
  off : LocalsGuardInput
  limits : Option GivenNumber → Option GivenNumber → LocalsGuardInput

-- `payload_spool_enabled` is the field `enabled` of `payloadSpool`, where both are there.
pub record ModeRelevantUserConfig : Type 0 where
  pub capture_local_variables : Option Bool
  pub capture_db_bind_params : Option Bool
  pub capture_request_bodies : Option Bool
  pub capture_response_bodies : Option Bool
  pub capture_body : Option Bool
  pub capture_body_digest : Option Bool
  pub payload_spool_enabled : Option Bool
  pub use_worker_assembly : Option Bool
  pub flush_interval_ms : Option GivenNumber
  pub resolve_source_maps : Option Bool
  pub max_locals_collections_per_second : Option GivenNumber
  pub max_cached_locals : Option GivenNumber
  pub max_locals_frames : Option GivenNumber
  pub locals_guard : Option LocalsGuardInput

pub record PayloadSpoolSettings : Type 0 where
  pub enabled : Bool
  pub global_max_bytes : ℕ
  pub per_request_max_bytes : ℕ
  pub per_blob_max_bytes : ℕ
  pub preview_bytes : ℕ
  pub completed_ttl_ms : ℕ

pub record ModeResolutionBaseConfig : Type 0 where
  pub serverless : Bool
  pub payload_spool : PayloadSpoolSettings
  pub max_locals_collections_per_second : ℕ
  pub max_cached_locals : ℕ

pub record CaptureCapabilities : Type 0 where
  pub deferred_delivery : Bool
  pub materialize_bodies : Bool
  pub synthetic_inbound_fallback : Bool
  pub event_loop_lag_monitor : Bool

pub data LocalVariablesMode : Type 0 where
  no_locals shallow deep : LocalVariablesMode

pub record LocalsGuard : Type 0 where
  pub enabled : Bool
  pub max_pauses_per_second : ℕ
  pub max_pause_ms_per_minute : ℕ

pub record ModeState : Type 0 where
  pub capture_mode : CaptureMode
  pub local_variables_mode : LocalVariablesMode
  pub capabilities : CaptureCapabilities
  pub recorders : RecorderSettings
  pub capture_local_variables : Bool
  pub locals_guard : LocalsGuard
  pub capture_db_bind_params : Bool
  pub capture_request_bodies : Bool
  pub capture_response_bodies : Bool
  pub capture_body : Bool
  pub capture_body_digest : Bool
  pub payload_spool : PayloadSpoolSettings
  pub use_worker_assembly : Bool
  pub flush_interval_ms : ℕ
  pub resolve_source_maps : Bool
  pub max_locals_collections_per_second : ℕ
  pub max_cached_locals : ℕ
  pub max_locals_frames : ℕ
  pub max_locals_object_properties : ℕ

abbrev pub resolve_capture_mode : Option GivenMode → Result ModeError CaptureMode
resolve_capture_mode none = returned safe
resolve_capture_mode (some (known mode)) = returned mode
resolve_capture_mode (some unknown) = thrown not_a_mode

-- `assertPositiveInteger`: the number, or the error.
abbrev pub assert_positive_integer : GivenNumber → Result ModeError ℕ
assert_positive_integer (whole n) = if ltb 0 n then returned n else thrown not_positive
assert_positive_integer other = thrown not_positive

-- The test of an optional field, which is only passed on where it is there.
abbrev pub assert_optional : Option GivenNumber → Result ModeError (Option ℕ)
assert_optional none = returned none
assert_optional (some value) = and_then (assert_positive_integer value) (λ n. returned (some n))
