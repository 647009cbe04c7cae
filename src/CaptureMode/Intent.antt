-- ===== src/CaptureMode/Intent.antt =====
-- Choices of the user and adaptive switches in the chain of src/capture-mode-controller.ts.
pub mod Order
use errorcore.Common.{
  ℕ, ◌+◌, ◌≤◌, ◌≡◌, refl, sym, subst, inl, inr, Bool, true, false, ◌&&◌, Option, none, some, List,
  [], ◌∷◌, ◌++◌, ◌==◌, Bool-cases, arith, is_none,
}
use errorcore.CaptureMode.{CaptureMode, ModeState}
use errorcore.CaptureMode.Resolve.{mode_eq}
use errorcore.CaptureMode.Controller.{
  Signal, CaptureModeController, ControllerConfig, by_hand, adaptive, AdaptiveCapturePhase,
  SdkLifecycleState, Event, activates, captures, runs_microtask, chooses, ticks, begins, commits,
  finishes, fails, shuts_down, is_active, is_base, is_escalated, has_passed, is_generation,
  can_switch_mode, commit_mode_state, new_controller,
}
use errorcore.CaptureMode.Controller.Steps.{
  escalate_one, begin_transition, activate, handle_admitted_capture, run_microtask,
  set_capture_mode, evaluate_adaptive_deescalation, start_switch, begin_adaptive, begin_next,
  finish_transition, reconcile_manual_adaptive_state, step, run,
}
use errorcore.CaptureMode.Controller.{Transition, Running, switch_adaptive_mode}
use errorcore.CaptureMode.Intent.Order.{
  AtMost, AtMost-append, AtMost-suc, Intends, IsOrdered, IsOrdered-append_adaptive,
  IsOrdered-append_manual, has_manual, has_manual-append_adaptive,
}

-- A step that moves neither the generation nor the two lists.
record Still (c d : CaptureModeController) : Type 0 where
  generation : d.adaptive_intent_generation ≡ c.adaptive_intent_generation
  microtasks : d.microtasks ≡ c.microtasks
  queue : d.queue ≡ c.queue

Still-Intends : (c d : CaptureModeController) → Still c d → Intends c → Intends d
Still-Intends c d s h = record {
  waiting =
      subst (λ g. AtMost g d.microtasks) (sym s.generation)
        (subst (AtMost c.adaptive_intent_generation) (sym s.microtasks) h.waiting);
  ordered =
      subst (λ g. IsOrdered g d.queue) (sym s.generation)
        (subst (IsOrdered c.adaptive_intent_generation) (sym s.queue) h.ordered);
}

module _ (config : ControllerConfig) (enabled : config.adaptive_capture.enabled ≡ true) where
  activate-Still : (c : CaptureModeController) → Still c (activate config c)
  unfolding activate
  activate-Still c = ground arith

  commit-Still : (c : CaptureModeController) → Still c (commit_mode_state c)
  unfolding commit_mode_state
  commit-Still c = ground arith

  start_switch-Still :
      (t : Transition) (m : CaptureMode) (now : ℕ) (p : AdaptiveCapturePhase)
      (l : SdkLifecycleState) (c : CaptureModeController)
      → Still c (start_switch config t m now p l c)
  start_switch-Still t m now p l c = ground arith

  finish-Still :
      (now : ℕ) (l : SdkLifecycleState) (c : CaptureModeController)
      → Still c (finish_transition config now l c).0
  unfolding finish_transition reconcile_manual_adaptive_state
  finish-Still now l c = ground arith

  begin_adaptive-Still :
      (t : CaptureMode) (g now : ℕ) (l : SdkLifecycleState) (c : CaptureModeController)
      → Still c (begin_adaptive config t g now l c).0
  unfolding begin_adaptive
  begin_adaptive-Still t g now l c = ground arith

  captures-Intends :
      (now : ℕ) (m : CaptureMode) (c : CaptureModeController)
      → Intends c
      → Intends (handle_admitted_capture config now m c)
  unfolding handle_admitted_capture
  captures-Intends now m c h =
      rw enabled
        (elim (Bool-cases (
          is_base c.adaptive_phase
          && (mode_eq m config.adaptive_capture.base
              && is_none c.adaptive_escalation_generation))) [
                | inl e ↦ rw e (record {
                  waiting = AtMost-append c.adaptive_intent_generation c.microtasks h.waiting;
                  ordered = h.ordered;
                })
                | inr e ↦ rw e (record { waiting = h.waiting; ordered = h.ordered })
              ])

  switch-Intends :
      (t : CaptureMode) (g : ℕ) (l : SdkLifecycleState) (c : CaptureModeController)
      → g ≤ c.adaptive_intent_generation
      → Intends c
      → Intends (switch_adaptive_mode t g l c)
  switch-Intends t g l c le h = elim (Bool-cases (is_active l)) [
    | inl e ↦ rw e (record {
      waiting = h.waiting;
      ordered = IsOrdered-append_adaptive c.adaptive_intent_generation c.queue t g le h.ordered;
    })
    | inr e ↦ rw e h
  ]

  escalates-Intends :
      (g : ℕ) (l : SdkLifecycleState) (c : CaptureModeController)
      → g ≤ c.adaptive_intent_generation
      → Intends c
      → Intends (escalate_one config g l c)
  escalates-Intends g l c le h =
      elim (Bool-cases (is_generation g c.adaptive_escalation_generation)) [
        | inl e ↦ rw e (
            let cleared : Intends (record c { adaptive_escalation_generation = none }) = record {
              waiting = h.waiting;
              ordered = h.ordered;
            } in
            switch-Intends config.adaptive_capture.escalated g l
              (record c { adaptive_escalation_generation = none }) le cleared)
        | inr e ↦ rw e (switch-Intends config.adaptive_capture.escalated g l c le h)
      ]

  microtask-Intends :
      (l : SdkLifecycleState) (c : CaptureModeController)
      → Intends c
      → Intends (run_microtask config l c)
  unfolding run_microtask
  microtask-Intends l c h = taken c.microtasks h.waiting
    where
      taken :
          (gs : List ℕ)
          → AtMost c.adaptive_intent_generation gs
          → Intends (elim gs [
            | [] ↦ c
            | g ∷ rest ↦ escalate_one config g l (record c { microtasks = rest })
          ])
      taken [] w = h
      taken (g ∷ rest) (le, w) =
          let popped : Intends (record c { microtasks = rest }) = record {
            waiting = w;
            ordered = h.ordered;
          } in
          escalates-Intends g l (record c { microtasks = rest }) le popped

  chooses-Intends :
      (m : CaptureMode) (l : SdkLifecycleState) (c : CaptureModeController)
      → Intends c
      → Intends (set_capture_mode config m l c).0
  unfolding set_capture_mode
  chooses-Intends m l c h = elim (Bool-cases (can_switch_mode l)) [
    | inl e ↦
        rw (e, enabled)
          (record {
            waiting = AtMost-suc c.adaptive_intent_generation c.microtasks h.waiting;
            ordered = IsOrdered-append_manual c.adaptive_intent_generation c.queue m h.ordered;
          })
    | inr e ↦ rw e h
  ]

  ticks-Intends :
      (now : ℕ) (l : SdkLifecycleState) (c : CaptureModeController)
      → Intends c
      → Intends (evaluate_adaptive_deescalation config now l c)
  unfolding evaluate_adaptive_deescalation
  ticks-Intends now l c h =
      elim (Bool-cases (
        config.adaptive_capture.enabled
        && (is_escalated c.adaptive_phase
            && (has_passed config.adaptive_capture.deescalate_after_ms now
                  c.adaptive_last_capture_at
                && has_passed config.adaptive_capture.min_dwell_ms now
                    c.adaptive_last_escalation_at)))) [
                      | inl e ↦ rw e (
                          switch-Intends config.adaptive_capture.base c.adaptive_intent_generation l
                            c (omega arith) h)
                      | inr e ↦ rw e h
                    ]

  -- `begin_next` with what runs and the queue for themselves.
  abbrev began :
      ℕ
      → SdkLifecycleState
      → CaptureModeController
      → Option Running
      → List Transition
      → CaptureModeController × List Signal
  began now l c r q = elim r [
    | some running ↦ (c, [])
    | none ↦ elim q [
      | [] ↦ (c, [])
      | t ∷ rest ↦ begin_transition config t now l (record c { queue = rest })
    ]
  ]

  begins_with-Intends :
      (t : Transition) (q : List Transition) (now : ℕ) (l : SdkLifecycleState)
      (c : CaptureModeController)
      → Intends c
      → IsOrdered c.adaptive_intent_generation (t ∷ q)
      → Intends (begin_transition config t now l (record c { queue = q })).0
  begins_with-Intends (by_hand mode) q now l c h o =
      let popped : Intends (record c { queue = q }) = record { waiting = h.waiting; ordered = o } in
      Still-Intends (record c { queue = q })
        (begin_transition config (by_hand mode) now l (record c { queue = q })).0
        (start_switch-Still (by_hand mode) mode now c.adaptive_phase l (record c { queue = q }))
        popped
  begins_with-Intends (adaptive target g) q now l c h (le, (last, o)) =
      let popped : Intends (record c { queue = q }) = record { waiting = h.waiting; ordered = o } in
      Still-Intends (record c { queue = q })
        (begin_adaptive config target g now l (record c { queue = q })).0
        (begin_adaptive-Still target g now l (record c { queue = q })) popped

  begins-Intends :
      (now : ℕ) (l : SdkLifecycleState) (c : CaptureModeController)
      → Intends c
      → Intends (begin_next config now l c).0
  unfolding begin_next
  begins-Intends now l c h = decided c.running
    where
      headed :
          (q : List Transition)
          → IsOrdered c.adaptive_intent_generation q
          → Intends (began now l c none q).0
      headed [] o = h
      headed (t ∷ rest) o = begins_with-Intends t rest now l c h o

      decided : (r : Option Running) → Intends (began now l c r c.queue).0
      decided none = headed c.queue h.ordered
      decided (some r) = h

  step-Intends : (e : Event) (c : CaptureModeController) → Intends c → Intends (step config e c)
  step-Intends activates c h = Still-Intends c (activate config c) (activate-Still c) h
  step-Intends (captures now mode) c h = captures-Intends now mode c h
  step-Intends (runs_microtask lifecycle) c h = microtask-Intends lifecycle c h
  step-Intends (chooses mode lifecycle) c h = chooses-Intends mode lifecycle c h
  step-Intends (ticks now lifecycle) c h = ticks-Intends now lifecycle c h
  step-Intends (begins now lifecycle) c h = begins-Intends now lifecycle c h
  step-Intends commits c h = Still-Intends c (commit_mode_state c) (commit-Still c) h
  step-Intends (finishes now lifecycle) c h =
      Still-Intends c (finish_transition config now lifecycle c).0 (finish-Still now lifecycle c) h
  step-Intends fails c h = record { waiting = h.waiting; ordered = h.ordered }
  step-Intends shuts_down c h = record { waiting = h.waiting; ordered = h.ordered }

  run-Intends :
      (es : List Event) (c : CaptureModeController) → Intends c → Intends (run config es c)
  unfolding run
  run-Intends [] c h = h
  run-Intends (e ∷ es) c h = run-Intends es (step config e c) (step-Intends e c h)

  drops_stale :
      (target : CaptureMode) (g : ℕ) (rest : List Transition) (now : ℕ) (l : SdkLifecycleState)
      (c : CaptureModeController)
      → IsOrdered c.adaptive_intent_generation (adaptive target g ∷ rest)
      → has_manual rest ≡ true
      → begin_adaptive config target g now l (record c { queue = rest })
        ≡ (record c { queue = rest }, [])
  unfolding begin_adaptive
  drops_stale target g rest now l c (le, (last, o)) waits = rw stale refl
    where
      stale : (g == c.adaptive_intent_generation) ≡ false
      stale = ground arith

  begin_next-drops :
      (target : CaptureMode) (g : ℕ) (rest : List Transition) (now : ℕ) (l : SdkLifecycleState)
      (c : CaptureModeController)
      → Intends c
      → c.running ≡ none
      → c.queue ≡ adaptive target g ∷ rest
      → has_manual rest ≡ true
      → begin_next config now l c ≡ (record c { queue = rest }, [])
  unfolding begin_next
  begin_next-drops target g rest now l c h idle head waits =
      subst (λ r. began now l c r c.queue ≡ (record c { queue = rest }, [])) (sym idle)
        (subst (λ q. began now l c none q ≡ (record c { queue = rest }, [])) (sym head)
          (drops_stale target g rest now l c
            (subst (IsOrdered c.adaptive_intent_generation) head h.ordered) waits))

  -- Whatever has happened since the start, while a choice of the user waits in the queue an
  -- adaptive switch in front of it is taken from the queue and changes nothing else: no mode, no
  -- phase, no timestamp, and nothing runs or is signalled.
  pub run-manual_wins :
      (mode_state : ModeState) (es : List Event) (target : CaptureMode) (g : ℕ)
      (rest : List Transition) (now : ℕ) (l : SdkLifecycleState)
      → (run config es (new_controller true mode_state)).running ≡ none
      → (run config es (new_controller true mode_state)).queue ≡ adaptive target g ∷ rest
      → has_manual rest ≡ true
      → begin_next config now l (run config es (new_controller true mode_state))
        ≡ (record (run config es (new_controller true mode_state)) { queue = rest }, [])
  unfolding new_controller
  run-manual_wins mode_state es target g rest now l idle head waits =
      begin_next-drops target g rest now l (run config es (new_controller true mode_state))
        (run-Intends es (new_controller true mode_state) started) idle head waits
    where
      started : Intends (new_controller true mode_state)
      started = record { waiting = tt; ordered = tt }
