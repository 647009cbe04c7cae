-- ===== src/CaptureMode/Controller.antt =====
-- src/capture-mode-controller.ts: switches of the capture mode, by hand and after errors.
pub mod Steps
use Prim.Native.String.{String}
use errorcore.Common.{
  ℕ, ◌+◌, ◌*◌, Bool, true, false, not, ◌&&◌, ◌||◌, Option, none, some, List, [], ◌∷◌, ◌++◌, ltb,
  leb, ◌==◌, if◌then◌else◌, is_none, length, keep_if, thrown, returned,
}
use errorcore.CaptureMode.{CaptureMode, ModeState, ModeRelevantUserConfig, ModeResolutionBaseConfig}
use errorcore.CaptureMode.Resolve.{ResolvedAdaptiveCaptureConfig, mode_eq, resolve_mode_state}
use errorcore.CaptureMode.Diff.{diff_mode_states}

pub data SdkLifecycleState : Type 0 where
  created active shutting_down shut_down : SdkLifecycleState

pub data AdaptiveCapturePhase : Type 0 where
  inactive base escalated manual pinned : AdaptiveCapturePhase

-- What stands in the chain of `modeSwitchTail`: a choice of the user, or an adaptive switch with the
-- generation it was admitted under.
pub data Transition : Type 0 where
  by_hand : CaptureMode → Transition
  adaptive : CaptureMode → ℕ → Transition

-- How far a transition is: it calls the resources before the state is replaced, or after, or it has
-- found nothing to change.
pub data Stage : Type 0 where
  applying applied unchanged : Stage

pub record Running : Type 0 where
  pub transition : Transition
  pub next : ModeState
  pub began_at : ℕ
  pub previous_phase : AdaptiveCapturePhase
  pub stage : Stage

-- `microtasks` are the escalations that wait for a microtask, with their generations; `queue` and
-- `running` are the chain of `modeSwitchTail`.
pub record CaptureModeController : Type 0 where
  pub mode_state : ModeState
  pub switch_count : ℕ
  pub adaptive_timer : Bool
  pub adaptive_phase : AdaptiveCapturePhase
  pub adaptive_last_escalation_at : Option ℕ
  pub adaptive_last_capture_at : Option ℕ
  pub adaptive_switch_timestamps : List ℕ
  pub adaptive_escalation_generation : Option ℕ
  pub adaptive_intent_generation : ℕ
  pub adaptive_switch_rate_warning_emitted : Bool
  pub microtasks : List ℕ
  pub queue : List Transition
  pub running : Option Running

pub record ControllerConfig : Type 0 where
  pub user_config : ModeRelevantUserConfig
  pub base_config : ModeResolutionBaseConfig
  pub adaptive_capture : ResolvedAdaptiveCaptureConfig

-- What a call sends out: the lifecycle error, the warning about the rate, and the call that rearms
-- the inspector's guard.
pub data Signal : Type 0 where
  lifecycle_error rate_warning rearm : Signal

abbrev pub can_switch_mode : SdkLifecycleState → Bool
can_switch_mode created = true
can_switch_mode active = true
can_switch_mode shutting_down = false
can_switch_mode shut_down = false

abbrev pub is_active : SdkLifecycleState → Bool
is_active active = true
is_active created = false
is_active shutting_down = false
is_active shut_down = false

abbrev pub is_base : AdaptiveCapturePhase → Bool
is_base base = true
is_base inactive = false
is_base escalated = false
is_base manual = false
is_base pinned = false

abbrev pub is_escalated : AdaptiveCapturePhase → Bool
is_escalated escalated = true
is_escalated base = false
is_escalated inactive = false
is_escalated manual = false
is_escalated pinned = false

abbrev pub is_pinned : AdaptiveCapturePhase → Bool
is_pinned pinned = true
is_pinned escalated = false
is_pinned base = false
is_pinned inactive = false
is_pinned manual = false

-- `modeState` of the configuration is the state of the mode it starts in.
unfoldable pub new_controller : Bool → ModeState → CaptureModeController
new_controller enabled mode_state = record {
  mode_state = mode_state;
  switch_count = 0;
  adaptive_timer = false;
  adaptive_phase = if enabled then base else inactive;
  adaptive_last_escalation_at = none;
  adaptive_last_capture_at = none;
  adaptive_switch_timestamps = [];
  adaptive_escalation_generation = none;
  adaptive_intent_generation = 0;
  adaptive_switch_rate_warning_emitted = false;
  microtasks = [];
  queue = [];
  running = none;
}

abbrev pub is_generation : ℕ → Option ℕ → Bool
is_generation g none = false
is_generation g (some h) = g == h

-- One hour.
abbrev pub switch_window_ms : ℕ
switch_window_ms = 60 * 60 * 1000

abbrev pub enqueue : Transition → CaptureModeController → CaptureModeController
enqueue t c = record c { queue = c.queue ++ t ∷ [] }

abbrev pub run_stage : List String → Stage
run_stage [] = unchanged
run_stage (name ∷ names) = applying

abbrev pub shutdown : CaptureModeController → CaptureModeController
shutdown c = record c { adaptive_timer = false }

-- `switchAdaptiveMode` up to its wait.
abbrev pub switch_adaptive_mode :
    CaptureMode → ℕ → SdkLifecycleState → CaptureModeController → CaptureModeController
switch_adaptive_mode target generation lifecycle c =
    if is_active lifecycle then enqueue (adaptive target generation) c else c

-- `now - since >= ms`, whose difference may be negative.
abbrev pub has_passed : ℕ → ℕ → Option ℕ → Bool
has_passed ms now none = false
has_passed ms now (some since) = leb (since + ms) now

-- Recent switches: `now - timestamp < 60 * 60 * 1000`, whose difference may be negative.
abbrev pub recent_switches : ℕ → CaptureModeController → List ℕ
recent_switches now c = keep_if (λ t. ltb now (t + switch_window_ms)) c.adaptive_switch_timestamps

-- At the limit an adaptive switch pins the phase, and goes on only if it escalates.
abbrev pub pin_switches : CaptureModeController → CaptureModeController
pin_switches c = record c { adaptive_switch_rate_warning_emitted = true; adaptive_phase = pinned }

-- `this.modeState = next`.
abbrev pub commit_run : Running → CaptureModeController → CaptureModeController
commit_run r c = elim r.stage [
  | applying ↦ record c { mode_state = r.next; running = some (record r { stage = applied }) }
  | applied ↦ c
  | unchanged ↦ c
]

unfoldable pub commit_mode_state : CaptureModeController → CaptureModeController
commit_mode_state c = elim c.running [ none ↦ c | some r ↦ commit_run r c ]

-- A resource callback throws: the run is rejected where it stands.
abbrev pub fail_transition : CaptureModeController → CaptureModeController
fail_transition c = record c { running = none }

-- A call of the SDK, or a step of the runtime: a microtask, the timer, the head of the queue that
-- begins, the replacement of the state, the end of a transition, and its failure.
pub data Event : Type 0 where
  activates : Event
  captures : ℕ → CaptureMode → Event
  runs_microtask : SdkLifecycleState → Event
  chooses : CaptureMode → SdkLifecycleState → Event
  ticks : ℕ → SdkLifecycleState → Event
  begins : ℕ → SdkLifecycleState → Event
  commits : Event
  finishes : ℕ → SdkLifecycleState → Event
  fails : Event
  shuts_down : Event
