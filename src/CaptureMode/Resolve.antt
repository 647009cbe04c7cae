-- ===== src/CaptureMode/Resolve.antt =====
-- `resolveModeState` and the adaptive settings of src/capture-mode.ts.
pub mod Laws
use errorcore.Common.{
  ℕ, Bool, true, false, not, ◌&&◌, ◌||◌, Option, none, some, ltb, ◌==◌, if◌then◌else◌, or_else,
  is_some, Result, thrown, returned, and_then,
}
use errorcore.CaptureMode.{
  CaptureMode, safe, forensic, fast, balanced, GivenMode, known, unknown, GivenNumber, whole, other,
  ModeError, not_positive, flush_too_short, same_modes, LocalsGuardInput, off, limits,
  ModeRelevantUserConfig, ModeResolutionBaseConfig, CaptureCapabilities, LocalVariablesMode,
  no_locals, shallow, deep, LocalsGuard, ModeState, ModeDefaults, mode_defaults,
  resolve_capture_mode, assert_positive_integer, assert_optional,
}

-- The numbers of the user's configuration that `validateModeUserConfig` has tested.
pub record ValidLimits : Type 0 where
  pub max_locals_collections_per_second : Option ℕ
  pub max_cached_locals : Option ℕ
  pub max_locals_frames : Option ℕ
  pub max_pauses_per_second : Option ℕ
  pub max_pause_ms_per_minute : Option ℕ

abbrev pub pauses_input : Option LocalsGuardInput → Option GivenNumber
pauses_input (some (limits pauses pause_ms)) = pauses
pauses_input (some off) = none
pauses_input none = none

abbrev pub pause_ms_input : Option LocalsGuardInput → Option GivenNumber
pause_ms_input (some (limits pauses pause_ms)) = pause_ms
pause_ms_input (some off) = none
pause_ms_input none = none

unfoldable pub validate_mode_user_config : ModeRelevantUserConfig → Result ModeError ValidLimits
validate_mode_user_config user =
    and_then (assert_optional user.max_locals_collections_per_second) λ collections.
      and_then (assert_optional user.max_cached_locals) λ cached.
        and_then (assert_optional user.max_locals_frames) λ frames.
          and_then (assert_optional (pauses_input user.locals_guard)) λ pauses.
            and_then (assert_optional (pause_ms_input user.locals_guard)) λ pause_ms.
              returned (record {
                max_locals_collections_per_second = collections;
                max_cached_locals = cached;
                max_locals_frames = frames;
                max_pauses_per_second = pauses;
                max_pause_ms_per_minute = pause_ms;
              })

abbrev pub is_fast : CaptureMode → Bool
is_fast fast = true
is_fast safe = false
is_fast balanced = false
is_fast forensic = false

abbrev pub is_forensic : CaptureMode → Bool
is_forensic forensic = true
is_forensic fast = false
is_forensic safe = false
is_forensic balanced = false

abbrev pub is_low_overhead : CaptureMode → Bool
is_low_overhead fast = true
is_low_overhead safe = true
is_low_overhead balanced = false
is_low_overhead forensic = false

unfoldable pub derive_capabilities : CaptureMode → Bool → Bool → Bool → Bool → CaptureCapabilities
derive_capabilities mode use_worker request_bodies response_bodies body_digest = record {
  deferred_delivery = is_low_overhead mode && not use_worker;
  materialize_bodies = request_bodies || (response_bodies || body_digest);
  synthetic_inbound_fallback = is_low_overhead mode;
  event_loop_lag_monitor = not (is_fast mode);
}

-- The test of a flush interval.
abbrev pub check_flush : GivenNumber → Result ModeError ℕ
check_flush (whole n) =
    if n == 0 then returned 0 else (if ltb n 1000 then thrown flush_too_short else returned n)
check_flush other = thrown not_positive

abbrev pub flush_input : CaptureMode → ModeRelevantUserConfig → Bool → GivenNumber
flush_input mode user serverless =
    if is_fast mode
    then whole 0
    else or_else user.flush_interval_ms
        (whole (if serverless then 0 else (mode_defaults mode).flush_interval_ms))

-- An explicit setting for requests or responses silences `captureBody` for both.
abbrev pub body_setting : ModeRelevantUserConfig → Option Bool → Bool → Bool
body_setting user explicit default =
    if is_some user.capture_request_bodies || is_some user.capture_response_bodies
    then or_else explicit default
    else or_else user.capture_body default

abbrev pub unless_fast : CaptureMode → Bool → Bool
unless_fast mode setting = if is_fast mode then false else setting

abbrev pub local_variables_mode_of : CaptureMode → Bool → LocalVariablesMode
local_variables_mode_of mode capture =
    if not capture then no_locals else (if is_forensic mode then deep else shallow)

abbrev pub guard_is_off : Option LocalsGuardInput → Bool
guard_is_off (some off) = true
guard_is_off (some (limits pauses pause_ms)) = false
guard_is_off none = false

-- The state, once the numbers are valid.
unfoldable pub build_mode_state :
    ModeRelevantUserConfig → ModeResolutionBaseConfig → CaptureMode → ValidLimits → ℕ → ModeState
unfolding derive_capabilities
build_mode_state user base mode valid flush_interval_ms =
    let defaults = mode_defaults mode in
    let use_worker = unless_fast mode (
      or_else user.use_worker_assembly
        (if base.serverless then false else defaults.use_worker_assembly)) in
    let request_bodies =
      unless_fast mode
        (body_setting user user.capture_request_bodies defaults.capture_request_bodies) in
    let response_bodies =
      unless_fast mode
        (body_setting user user.capture_response_bodies defaults.capture_response_bodies) in
    let local_variables =
      unless_fast mode (or_else user.capture_local_variables defaults.capture_local_variables) in
    let body_digest =
      unless_fast mode (or_else user.capture_body_digest defaults.capture_body_digest) in
    record {
      capture_mode = mode;
      local_variables_mode = local_variables_mode_of mode local_variables;
      capabilities = derive_capabilities mode use_worker request_bodies response_bodies body_digest;
      recorders = defaults.recorders;
      capture_local_variables = local_variables;
      locals_guard = record {
        enabled = local_variables && not (guard_is_off user.locals_guard);
        max_pauses_per_second = or_else valid.max_pauses_per_second 50;
        max_pause_ms_per_minute = or_else valid.max_pause_ms_per_minute 250;
      };
      capture_db_bind_params =
          unless_fast mode (or_else user.capture_db_bind_params defaults.capture_db_bind_params);
      capture_request_bodies = request_bodies;
      capture_response_bodies = response_bodies;
      capture_body = request_bodies && response_bodies;
      capture_body_digest = body_digest;
      payload_spool = record base.payload_spool {
        enabled =
            unless_fast mode (or_else user.payload_spool_enabled defaults.payload_spool_enabled);
      };
      use_worker_assembly = use_worker;
      flush_interval_ms = flush_interval_ms;
      resolve_source_maps =
          unless_fast mode (or_else user.resolve_source_maps defaults.resolve_source_maps);
      max_locals_collections_per_second =
          or_else valid.max_locals_collections_per_second base.max_locals_collections_per_second;
      max_cached_locals = or_else valid.max_cached_locals base.max_cached_locals;
      max_locals_frames = or_else valid.max_locals_frames (if is_forensic mode then 10 else 5);
      max_locals_object_properties = if is_forensic mode then 20 else 8;
    }

unfoldable pub resolve_mode_state :
    ModeRelevantUserConfig → ModeResolutionBaseConfig → CaptureMode → Result ModeError ModeState
unfolding validate_mode_user_config build_mode_state
resolve_mode_state user base mode = and_then (validate_mode_user_config user) λ valid.
    and_then (check_flush (flush_input mode user base.serverless))
      λ flush_interval_ms. returned (build_mode_state user base mode valid flush_interval_ms)

pub record AdaptiveCaptureConfig : Type 0 where
  pub enabled : Option Bool
  pub base : Option GivenMode
  pub escalated : Option GivenMode
  pub deescalate_after_ms : Option GivenNumber
  pub min_dwell_ms : Option GivenNumber
  pub max_switches_per_hour : Option GivenNumber

pub record ResolvedAdaptiveCaptureConfig : Type 0 where
  pub enabled : Bool
  pub base : CaptureMode
  pub escalated : CaptureMode
  pub deescalate_after_ms : ℕ
  pub min_dwell_ms : ℕ
  pub max_switches_per_hour : ℕ

abbrev pub default_adaptive_capture : ResolvedAdaptiveCaptureConfig
default_adaptive_capture = record {
  enabled = false;
  base = safe;
  escalated = forensic;
  deescalate_after_ms = 120000;
  min_dwell_ms = 10000;
  max_switches_per_hour = 60;
}

abbrev pub mode_eq : CaptureMode → CaptureMode → Bool
mode_eq safe safe = true
mode_eq balanced balanced = true
mode_eq forensic forensic = true
mode_eq fast fast = true
mode_eq _ _ = false

-- A mode that is given, or the default.
abbrev pub mode_or : Option GivenMode → CaptureMode → Result ModeError CaptureMode
mode_or given default = resolve_capture_mode (some (or_else given (known default)))

-- `undefined` is an input none of whose fields are there. Base and escalated mode are tested first,
-- the numbers in their order, and the two modes against each other last.
unfoldable pub resolve_adaptive_capture_config :
    AdaptiveCaptureConfig → Result ModeError ResolvedAdaptiveCaptureConfig
resolve_adaptive_capture_config input =
    let default = default_adaptive_capture in
    and_then (mode_or input.base default.base) λ base.
      and_then (mode_or input.escalated default.escalated) λ escalated.
        and_then (assert_optional input.deescalate_after_ms) λ deescalate_after_ms.
          and_then (assert_optional input.min_dwell_ms) λ min_dwell_ms.
            and_then (assert_optional input.max_switches_per_hour) λ max_switches_per_hour.
              (let enabled = or_else input.enabled false in
                if enabled && mode_eq base escalated
                then thrown same_modes
                else returned (record {
                  enabled = enabled;
                  base = base;
                  escalated = escalated;
                  deescalate_after_ms = or_else deescalate_after_ms default.deescalate_after_ms;
                  min_dwell_ms = or_else min_dwell_ms default.min_dwell_ms;
                  max_switches_per_hour =
                      or_else max_switches_per_hour default.max_switches_per_hour;
                }))

pub record CaptureModeSelection : Type 0 where
  pub adaptive_capture : ResolvedAdaptiveCaptureConfig
  pub capture_mode : CaptureMode

unfoldable pub resolve_capture_mode_selection :
    AdaptiveCaptureConfig → Option GivenMode → Result ModeError CaptureModeSelection
unfolding resolve_adaptive_capture_config
resolve_capture_mode_selection adaptive mode =
    and_then (resolve_adaptive_capture_config adaptive) λ resolved.
      if resolved.enabled
      then returned (record { adaptive_capture = resolved; capture_mode = resolved.base })
      else and_then (resolve_capture_mode mode)
          λ chosen. returned (record { adaptive_capture = resolved; capture_mode = chosen })
