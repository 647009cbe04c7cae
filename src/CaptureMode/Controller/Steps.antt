-- ===== src/CaptureMode/Controller/Steps.antt =====
-- The operations of src/capture-mode-controller.ts that read the configuration, and any sequence of
-- them.
use errorcore.Common.{
  ℕ, ◌+◌, Bool, true, not, ◌&&◌, ◌||◌, none, some, List, [], ◌∷◌, ◌++◌, leb, ◌==◌, if◌then◌else◌,
  is_none, length, thrown, returned,
}
use errorcore.CaptureMode.{CaptureMode}
use errorcore.CaptureMode.Resolve.{mode_eq, resolve_mode_state}
use errorcore.CaptureMode.Diff.{diff_mode_states}
use errorcore.CaptureMode.Controller.{
  AdaptiveCapturePhase, CaptureModeController, ControllerConfig, Event, Running, SdkLifecycleState,
  Signal, Transition, activates, adaptive, applied, applying, base, begins, by_hand,
  can_switch_mode, captures, chooses, commit_mode_state, commits, enqueue, escalated,
  fail_transition, fails, finishes, has_passed, is_active, is_base, is_escalated, is_generation,
  is_pinned, lifecycle_error, manual, pin_switches, pinned, rate_warning, rearm, recent_switches,
  run_stage, runs_microtask, shutdown, shuts_down, switch_adaptive_mode, ticks, unchanged,
}

module _ (config : ControllerConfig) where
  unfoldable pub activate : CaptureModeController → CaptureModeController
  activate c =
      if not config.adaptive_capture.enabled || c.adaptive_timer
      then c
      else record c { adaptive_timer = true }

  unfoldable pub handle_admitted_capture :
      ℕ → CaptureMode → CaptureModeController → CaptureModeController
  handle_admitted_capture now mode_at_capture c =
      if not config.adaptive_capture.enabled
      then c
      else (let c' = record c { adaptive_last_capture_at = some now } in
          if is_base c.adaptive_phase
            && (mode_eq mode_at_capture config.adaptive_capture.base
                && is_none c.adaptive_escalation_generation)
          then record c' {
            adaptive_escalation_generation = some c.adaptive_intent_generation;
            microtasks = c.microtasks ++ c.adaptive_intent_generation ∷ [];
          }
          else c')

  -- The callback of the resolved promise in `handleAdmittedCapture`.
  abbrev pub escalate_one : ℕ → SdkLifecycleState → CaptureModeController → CaptureModeController
  escalate_one generation lifecycle c =
      switch_adaptive_mode config.adaptive_capture.escalated generation lifecycle (
        if is_generation generation c.adaptive_escalation_generation
        then record c { adaptive_escalation_generation = none }
        else c)

  unfoldable pub run_microtask : SdkLifecycleState → CaptureModeController → CaptureModeController
  run_microtask lifecycle c = elim c.microtasks [
    | [] ↦ c
    | generation ∷ rest ↦ escalate_one generation lifecycle (record c { microtasks = rest })
  ]

  unfoldable pub set_capture_mode :
      CaptureMode → SdkLifecycleState → CaptureModeController → CaptureModeController × List Signal
  set_capture_mode mode lifecycle c =
      if can_switch_mode lifecycle
      then (
        enqueue (by_hand mode) (
            if config.adaptive_capture.enabled
            then record c {
              adaptive_intent_generation = c.adaptive_intent_generation + 1;
              adaptive_escalation_generation = none;
            }
            else c),
        [],
      )
      else (c, lifecycle_error ∷ [])

  unfoldable pub evaluate_adaptive_deescalation :
      ℕ → SdkLifecycleState → CaptureModeController → CaptureModeController
  evaluate_adaptive_deescalation now lifecycle c =
      if config.adaptive_capture.enabled
        && (is_escalated c.adaptive_phase
            && (has_passed config.adaptive_capture.deescalate_after_ms now
                  c.adaptive_last_capture_at
                && has_passed config.adaptive_capture.min_dwell_ms now
                    c.adaptive_last_escalation_at))
      then switch_adaptive_mode config.adaptive_capture.base c.adaptive_intent_generation lifecycle
          c
      else c

  unfoldable pub is_current_adaptive_transition : CaptureMode → CaptureModeController → Bool
  is_current_adaptive_transition target c =
      if mode_eq target config.adaptive_capture.escalated
      then is_base c.adaptive_phase
        && mode_eq c.mode_state.capture_mode config.adaptive_capture.base
      else (mode_eq target config.adaptive_capture.base
          && (is_escalated c.adaptive_phase
              && mode_eq c.mode_state.capture_mode config.adaptive_capture.escalated))

  -- `applyCaptureMode` up to its first wait: the transition runs, or is rejected.
  abbrev pub start_switch :
      Transition
      → CaptureMode
      → ℕ
      → AdaptiveCapturePhase
      → SdkLifecycleState
      → CaptureModeController
      → CaptureModeController
  start_switch transition mode now previous_phase lifecycle c =
      if can_switch_mode lifecycle
      then elim (resolve_mode_state config.user_config config.base_config mode) [
        | thrown e ↦ c
        | returned next ↦ record c {
          running = some (record {
            transition = transition;
            next = next;
            began_at = now;
            previous_phase = previous_phase;
            stage = run_stage (diff_mode_states c.mode_state next);
          });
        }
      ]
      else c

  unfoldable pub begin_adaptive :
      CaptureMode
      → ℕ
      → ℕ
      → SdkLifecycleState
      → CaptureModeController
      → CaptureModeController × List Signal
  unfolding is_current_adaptive_transition
  begin_adaptive target generation now lifecycle c =
      let start = λ (c' : CaptureModeController).
        start_switch (adaptive target generation) target now c'.adaptive_phase lifecycle c' in
      let trimmed = record c { adaptive_switch_timestamps = recent_switches now c } in
      if generation == c.adaptive_intent_generation
        && (is_active lifecycle && is_current_adaptive_transition target c)
      then (if leb config.adaptive_capture.max_switches_per_hour
            (length trimmed.adaptive_switch_timestamps)
          then (
            (if mode_eq target config.adaptive_capture.escalated
                then start (pin_switches trimmed)
                else pin_switches trimmed),
            (if c.adaptive_switch_rate_warning_emitted then [] else rate_warning ∷ []),
          )
          else (start trimmed, []))
      else (c, [])

  -- The head of the queue begins, once nothing runs.
  abbrev pub begin_transition :
      Transition
      → ℕ
      → SdkLifecycleState
      → CaptureModeController
      → CaptureModeController × List Signal
  begin_transition (by_hand mode) now lifecycle c =
      (start_switch (by_hand mode) mode now c.adaptive_phase lifecycle c, [])
  begin_transition (adaptive target generation) now lifecycle c =
      begin_adaptive target generation now lifecycle c

  unfoldable pub begin_next :
      ℕ → SdkLifecycleState → CaptureModeController → CaptureModeController × List Signal
  unfolding begin_adaptive
  begin_next now lifecycle c = elim c.running [
    | some running ↦ (c, [])
    | none ↦ elim c.queue [
      | [] ↦ (c, [])
      | transition ∷ rest ↦ begin_transition transition now lifecycle (record c { queue = rest })
    ]
  ]

  -- `reconcileManualAdaptiveState`.
  unfoldable pub reconcile_manual_adaptive_state :
      CaptureMode
      → AdaptiveCapturePhase
      → ℕ
      → SdkLifecycleState
      → CaptureModeController
      → CaptureModeController × List Signal
  reconcile_manual_adaptive_state target previous_phase now lifecycle c =
      if not config.adaptive_capture.enabled
      then (c, [])
      else (if mode_eq target config.adaptive_capture.base
          then (record c { adaptive_phase = base }, [])
          else (if mode_eq target config.adaptive_capture.escalated
              then (
                record c {
                  adaptive_phase = escalated;
                  adaptive_last_escalation_at = some now;
                  adaptive_last_capture_at = some now;
                },
                (if not (is_escalated previous_phase) && is_active lifecycle
                    then rearm ∷ []
                    else []),
              )
              else (record c { adaptive_phase = manual }, [])))

  -- What follows a switch that changed something, in `applyAdaptiveCaptureMode`.
  abbrev pub settle_adaptive :
      CaptureMode → ℕ → CaptureModeController → CaptureModeController × List Signal
  settle_adaptive target began_at c =
      let stamped = record c {
        adaptive_switch_timestamps = c.adaptive_switch_timestamps ++ began_at ∷ [];
      } in
      if mode_eq target config.adaptive_capture.escalated
      then (
        record stamped {
          adaptive_phase = if is_pinned c.adaptive_phase then pinned else escalated;
          adaptive_last_escalation_at = some began_at;
        },
        rearm ∷ [],
      )
      else (record stamped { adaptive_phase = base }, [])

  abbrev pub settle :
      Running → ℕ → SdkLifecycleState → CaptureModeController → CaptureModeController × List Signal
  settle r now lifecycle c = elim r.transition [
    | by_hand mode ↦ reconcile_manual_adaptive_state mode r.previous_phase now lifecycle c
    | adaptive target generation ↦ elim r.stage [
      | applied ↦ settle_adaptive target r.began_at c
      | applying ↦ (c, [])
      | unchanged ↦ (c, [])
    ]
  ]

  abbrev pub finish_run :
      Running → ℕ → SdkLifecycleState → CaptureModeController → CaptureModeController × List Signal
  finish_run r now lifecycle c = elim r.stage [
    | applying ↦ (c, [])
    | applied ↦
        settle r now lifecycle (record c { running = none; switch_count = c.switch_count + 1 })
    | unchanged ↦ settle r now lifecycle (record c { running = none })
  ]

  unfoldable pub finish_transition :
      ℕ → SdkLifecycleState → CaptureModeController → CaptureModeController × List Signal
  unfolding reconcile_manual_adaptive_state
  finish_transition now lifecycle c = elim c.running [
    | none ↦ (c, [])
    | some r ↦ finish_run r now lifecycle c
  ]

  abbrev pub step : Event → CaptureModeController → CaptureModeController
  step activates c = activate c
  step (captures now mode) c = handle_admitted_capture now mode c
  step (runs_microtask lifecycle) c = run_microtask lifecycle c
  step (chooses mode lifecycle) c = (set_capture_mode mode lifecycle c).0
  step (ticks now lifecycle) c = evaluate_adaptive_deescalation now lifecycle c
  step (begins now lifecycle) c = (begin_next now lifecycle c).0
  step commits c = commit_mode_state c
  step (finishes now lifecycle) c = (finish_transition now lifecycle c).0
  step fails c = fail_transition c
  step shuts_down c = shutdown c

  unfoldable pub run : List Event → CaptureModeController → CaptureModeController
  run [] c = c
  run (e ∷ es) c = run es (step e c)
