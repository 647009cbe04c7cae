-- ===== src/CaptureMode/Resources/Effects.antt =====
-- What the calls of `applyModeState` do: the callbacks that src/sdk.ts gives to the controller, and
-- the methods they run in src/recording/body-capture.ts, src/capture/inspector-manager.ts and
-- src/capture/package-assembly-controller.ts. The recorders are installed as they are told to be.
use errorcore.Common.{
  ℕ, Bool, true, false, not, ◌&&◌, ◌||◌, Option, none, some, List, [], ◌∷◌, ◌++◌, ◌==◌,
  if◌then◌else◌,
}
use errorcore.CaptureMode.{ModeState, RecorderSettings, LocalVariablesMode, LocalsGuard}
use errorcore.CaptureMode.Resources.{
  ResourceCall, set_http_server_recorder, update_channel_subscriptions, set_fetch_recorder,
  set_net_dns_recorder, set_database_recorders, set_process_handlers, set_event_loop_lag_monitor,
  apply_resolved_config, apply_runtime_resources, apply_inspector_mode_state,
  set_local_variables_capture, flush_before_timer_restart, restart_flush_timer, has_locals,
}

-- What the host allows: a worker for the assembly of packages, whether it takes a new configuration,
-- and a session of the inspector.
pub record Host : Type 0 where
  pub worker_allowed : Bool
  pub worker_updates : Bool
  pub has_session : Bool

-- What `subscribeAll` is given.
pub record Subscriptions : Type 0 where
  pub http_server : Bool
  pub http_client : Bool
  pub undici : Bool
  pub net_dns : Bool

abbrev pub subscriptions_of : RecorderSettings → Subscriptions
subscriptions_of s = record {
  http_server = s.http_server;
  http_client = s.http_client;
  undici = s.undici;
  net_dns = s.net_dns;
}

-- The settings of a BodyCapture, and whether it has the spool.
pub record BodySettings : Type 0 where
  pub request_bodies : Bool
  pub response_bodies : Bool
  pub digest : Bool
  pub has_spool : Bool

abbrev pub body_settings : ModeState → BodySettings
body_settings s = record {
  request_bodies = s.capture_request_bodies;
  response_bodies = s.capture_response_bodies;
  digest = s.capture_body_digest;
  has_spool = s.payload_spool.enabled;
}

-- The settings of an InspectorManager.
pub record InspectorSettings : Type 0 where
  pub capture_local_variables : Bool
  pub local_variables_mode : LocalVariablesMode
  pub max_collections_per_second : ℕ
  pub max_cached_locals : ℕ
  pub max_locals_frames : ℕ
  pub max_locals_object_properties : ℕ
  pub locals_guard : LocalsGuard

abbrev pub captures_locals : ModeState → Bool
captures_locals s = s.capture_local_variables && has_locals s.local_variables_mode

abbrev pub inspector_settings : ModeState → InspectorSettings
inspector_settings s = record {
  capture_local_variables = captures_locals s;
  local_variables_mode = s.local_variables_mode;
  max_collections_per_second = s.max_locals_collections_per_second;
  max_cached_locals = s.max_cached_locals;
  max_locals_frames = s.max_locals_frames;
  max_locals_object_properties = s.max_locals_object_properties;
  locals_guard = s.locals_guard;
}

-- `config` is the state that the controller and the configuration hold, which are replaced together.
-- `has_spool`, `has_resolver` and `has_dispatcher` say what has been created, `capturer_...` what the
-- ErrorCapturer is given, and `idle_timer` that the dispatcher's shutdown is scheduled.
-- `is_available`, `guard_tripped` and `is_armed` are flags of the InspectorManager. `flushes` holds
-- the state in force at each flush, in order.
pub record Resources : Type 0 where
  pub http_server : Bool
  pub subscriptions : Subscriptions
  pub fetch : Bool
  pub fetch_bodies : Bool
  pub net_dns : Bool
  pub database : Bool
  pub process_handlers : Bool
  pub lag_monitor : Bool
  pub config : ModeState
  pub has_spool : Bool
  pub has_resolver : Bool
  pub has_dispatcher : Bool
  pub idle_timer : Bool
  pub capturer_spool : Bool
  pub capturer_resolver : Bool
  pub capturer_dispatcher : Bool
  pub server_spool : Bool
  pub body : BodySettings
  pub inspector : InspectorSettings
  pub is_available : Bool
  pub guard_tripped : Bool
  pub is_armed : Bool
  pub flush_timer : Option ℕ
  pub flushes : List ModeState

-- `restartFlushTimer`: the new interval, if there is one.
abbrev pub timer_of : ModeState → Option ℕ
timer_of s =
    if not s.recorders.transport || s.flush_interval_ms == 0 then none else some s.flush_interval_ms

module _ (host : Host) where
  -- `ensureDebuggerActive`, with the flags it reads; what a host with a session answers.
  abbrev pub armed : Bool → Bool → Bool → Bool
  armed guard_tripped is_available is_armed =
      if guard_tripped || (not is_available || not host.has_session) then is_armed else true

  -- `applyModeState` of the PackageAssemblyController.
  unfoldable pub apply_assembly : ModeState → Resources → Resources
  apply_assembly s r = record r {
    idle_timer = if s.use_worker_assembly then false else r.has_dispatcher || r.idle_timer;
    has_dispatcher =
        if s.use_worker_assembly && host.worker_allowed
        then host.worker_updates
        else r.has_dispatcher;
    capturer_dispatcher =
        if s.use_worker_assembly
        then host.worker_allowed && host.worker_updates
        else r.capturer_dispatcher;
  }

  -- `applyRuntimeResources`.
  unfoldable pub apply_runtime : ModeState → Resources → Resources
  unfolding apply_assembly
  apply_runtime s r = record (apply_assembly s r) {
    has_spool = s.payload_spool.enabled || r.has_spool;
    has_resolver = s.resolve_source_maps || r.has_resolver;
    body = body_settings s;
    server_spool = s.payload_spool.enabled;
    capturer_spool = s.payload_spool.enabled || r.has_spool;
    capturer_resolver = s.resolve_source_maps || r.has_resolver;
  }

  -- `applyModeState` of the InspectorManager.
  unfoldable pub apply_inspector : ModeState → Resources → Resources
  apply_inspector s r =
      let resets = captures_locals s && (not s.locals_guard.enabled && r.guard_tripped) in
      record r {
        inspector = inspector_settings s;
        is_available = captures_locals s;
        guard_tripped = if resets then false else r.guard_tripped;
        is_armed =
            if captures_locals s
            then (if resets then armed false true r.is_armed else r.is_armed)
            else false;
      }

  unfoldable pub call : ResourceCall → Resources → Resources
  unfolding apply_runtime apply_inspector
  call (set_http_server_recorder b) r = record r { http_server = b }
  call (update_channel_subscriptions s) r = record r { subscriptions = subscriptions_of s }
  call (set_fetch_recorder b s) r = record r {
    fetch = b;
    fetch_bodies = if b then s.capture_response_bodies else r.fetch_bodies;
  }
  call (set_net_dns_recorder b) r = record r { net_dns = b }
  call (set_database_recorders b) r = record r { database = b }
  call (set_process_handlers b) r = record r { process_handlers = b }
  call (set_event_loop_lag_monitor b) r = record r { lag_monitor = b }
  call (apply_resolved_config s) r = record r { config = s }
  call (apply_runtime_resources s) r = apply_runtime s r
  call (apply_inspector_mode_state s) r = apply_inspector s r
  call (set_local_variables_capture b) r = record r {
    is_armed = if b then armed r.guard_tripped r.is_available r.is_armed else false;
  }
  call flush_before_timer_restart r = record r { flushes = r.flushes ++ r.config ∷ [] }
  call restart_flush_timer r = record r { flush_timer = timer_of r.config }

  unfoldable pub call_all : List ResourceCall → Resources → Resources
  unfolding call
  call_all [] r = r
  call_all (c ∷ cs) r = call_all cs (call c r)
