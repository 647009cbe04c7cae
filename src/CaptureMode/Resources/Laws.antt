-- ===== src/CaptureMode/Resources/Laws.antt =====
-- The transitions that `applyModeState` of src/capture-mode-controller.ts makes.
use errorcore.Common.{Bool, List, [], ◌∷◌, ◌++◌}
use errorcore.CaptureMode.{ModeState}
use errorcore.CaptureMode.Resources.{
  restart_flush_timer, set_local_variables_capture, drains_first, flushes_again, calls_with,
}
use errorcore.CaptureMode.Resources.Effects.{Host, Resources, captures_locals, call_all}
use errorcore.CaptureMode.Resources.Reflects.{Reflects}
use errorcore.CaptureMode.Resources.Steps.{logs}

-- The flushes after a transition in an active SDK.
abbrev pub flushed : ModeState → ModeState → List ModeState → List ModeState
flushed previous next old =
    (old ++ logs (drains_first previous next) previous) ++ logs (flushes_again previous next) next

module _ (host : Host) where
  -- What the calls with the new state, the timer and the debugger's switch make of the resources.
  abbrev pub settled : Bool → ModeState → ModeState → List ModeState → Resources → Resources
  settled serverless previous next fs r =
      call_all host (restart_flush_timer ∷ set_local_variables_capture (captures_locals next) ∷ [])
        (record (call_all host (calls_with serverless previous next) r) { flushes = fs })
