-- ===== src/CaptureMode/Tests.antt =====
-- Runs of src/capture-mode.ts and src/capture-mode-controller.ts on small inputs.
use errorcore.Common.{◌≡◌, ◌↔◌, refl, List, true, false, none, some, [], ◌∷◌, returned}
use errorcore.CaptureMode.{
  ModeRelevantUserConfig, ModeResolutionBaseConfig, ModeState, safe, forensic, fast, whole, off,
}
use errorcore.CaptureMode.Diff.{diff_mode_states}
use errorcore.CaptureMode.Diff.Complete.{diff_mode_states-nil}
use errorcore.CaptureMode.Resolve.{
  ValidLimits, build_mode_state, derive_capabilities, validate_mode_user_config, resolve_mode_state,
  default_adaptive_capture,
}
use errorcore.CaptureMode.Resolve.Laws.{
  IsCoherent, IsQuiet, resolve_mode_state-IsCoherent, resolve_mode_state-IsQuiet,
}
use errorcore.CaptureMode.Resources.Effects.{
  Host, Resources, body_settings, inspector_settings, subscriptions_of,
}
use errorcore.CaptureMode.Resources.Reflects.{Reflects}
use errorcore.CaptureMode.Controller.{
  CaptureModeController, ControllerConfig, Event, captures, runs_microtask, chooses, active,
  adaptive, by_hand, new_controller,
}
use errorcore.CaptureMode.Controller.Steps.{
  handle_admitted_capture, run_microtask, set_capture_mode, begin_next, run,
}
use errorcore.CaptureMode.Intent.{run-manual_wins}

-- The user asks for bodies and bind parameters, without the guard.
abbrev user_config : ModeRelevantUserConfig
user_config = record {
  capture_local_variables = none;
  capture_db_bind_params = some true;
  capture_request_bodies = some true;
  capture_response_bodies = none;
  capture_body = some true;
  capture_body_digest = none;
  payload_spool_enabled = some true;
  use_worker_assembly = none;
  flush_interval_ms = some (whole 2000);
  resolve_source_maps = some true;
  max_locals_collections_per_second = some (whole 7);
  max_cached_locals = none;
  max_locals_frames = none;
  locals_guard = some off;
}

abbrev base_config : ModeResolutionBaseConfig
base_config = record {
  serverless = false;
  payload_spool = record {
    enabled = false;
    global_max_bytes = 1000;
    per_request_max_bytes = 500;
    per_blob_max_bytes = 100;
    preview_bytes = 10;
    completed_ttl_ms = 60;
  };
  max_locals_collections_per_second = 20;
  max_cached_locals = 50;
}

abbrev valid_limits : ValidLimits
valid_limits = record {
  max_locals_collections_per_second = some 7;
  max_cached_locals = none;
  max_locals_frames = none;
  max_pauses_per_second = none;
  max_pause_ms_per_minute = none;
}

abbrev safe_state : ModeState
safe_state = build_mode_state user_config base_config safe valid_limits 2000

abbrev forensic_state : ModeState
forensic_state = build_mode_state user_config base_config forensic valid_limits 2000

abbrev fast_state : ModeState
fast_state = build_mode_state user_config base_config fast valid_limits 0

safe_is_resolved : resolve_mode_state user_config base_config safe ≡ returned safe_state
unfolding resolve_mode_state validate_mode_user_config build_mode_state derive_capabilities
safe_is_resolved = refl

fast_is_resolved : resolve_mode_state user_config base_config fast ≡ returned fast_state
unfolding resolve_mode_state validate_mode_user_config build_mode_state derive_capabilities
fast_is_resolved = refl

resolve_mode_state-IsCoherent_example : IsCoherent safe safe_state
resolve_mode_state-IsCoherent_example =
    resolve_mode_state-IsCoherent user_config base_config safe safe_state safe_is_resolved

resolve_mode_state-IsQuiet_example : IsQuiet fast_state
resolve_mode_state-IsQuiet_example =
    resolve_mode_state-IsQuiet user_config base_config fast_state fast_is_resolved

abbrev host : Host
host = record { worker_allowed = true; worker_updates = true; has_session = true }

abbrev safe_resources : Resources
safe_resources = record {
  http_server = false;
  subscriptions = subscriptions_of safe_state.recorders;
  fetch = false;
  fetch_bodies = false;
  net_dns = false;
  database = false;
  process_handlers = true;
  lag_monitor = true;
  config = safe_state;
  has_spool = true;
  has_resolver = true;
  has_dispatcher = false;
  idle_timer = false;
  capturer_spool = true;
  capturer_resolver = true;
  capturer_dispatcher = false;
  server_spool = true;
  body = body_settings safe_state;
  inspector = inspector_settings safe_state;
  is_available = true;
  guard_tripped = false;
  is_armed = true;
  flush_timer = some 2000;
  flushes = [];
}

abbrev config : ControllerConfig
config = record {
  user_config = user_config;
  base_config = base_config;
  adaptive_capture = record default_adaptive_capture { enabled = true };
}

-- An error asks for an escalation, and the user chooses a mode before it begins.
abbrev events : List Event
events = captures 100 safe ∷ runs_microtask active ∷ chooses safe active ∷ []

abbrev chosen : CaptureModeController
chosen = run config events (new_controller true safe_state)

chosen-queue : chosen.queue ≡ adaptive forensic 0 ∷ by_hand safe ∷ []
unfolding run new_controller handle_admitted_capture run_microtask set_capture_mode
chosen-queue = refl

chosen-idle : chosen.running ≡ none
unfolding run new_controller handle_admitted_capture run_microtask set_capture_mode
chosen-idle = refl

run-manual_wins_example :
    begin_next config 101 active chosen ≡ (record chosen { queue = by_hand safe ∷ [] }, [])
run-manual_wins_example =
    run-manual_wins config refl safe_state events forensic 0 (by_hand safe ∷ []) 101 active
      chosen-idle chosen-queue refl

diff_mode_states-nil_example :
    (diff_mode_states safe_state forensic_state ≡ []) ↔ (safe_state ≡ forensic_state)
diff_mode_states-nil_example = diff_mode_states-nil safe_state forensic_state
