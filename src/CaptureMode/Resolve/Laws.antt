-- ===== src/CaptureMode/Resolve/Laws.antt =====
-- The settings that `resolveModeState` of src/capture-mode.ts returns, and how they depend on each
-- other.
use errorcore.Common.{
  ℕ, ◌≤◌, ◌≡◌, ◌⊎◌, refl, sym, subst, inl, inr, Bool, true, false, not, ◌&&◌, ◌||◌, ltb, ◌==◌,
  returned, arith, Result-cases, value_of, no_value, Bool-cases,
}
use errorcore.CaptureMode.{
  CaptureMode, safe, balanced, forensic, fast, GivenNumber, whole, other, mode_defaults,
  ModeRelevantUserConfig, ModeResolutionBaseConfig, ModeState, no_locals, few_recorders,
}
use errorcore.CaptureMode.Resolve.{
  ValidLimits, is_low_overhead, local_variables_mode_of, derive_capabilities, check_flush,
  flush_input, build_mode_state, validate_mode_user_config, resolve_mode_state,
}

-- The fields agree with one another.
pub record IsCoherent (mode : CaptureMode) (s : ModeState) : Type 0 where
  pub mode_of : s.capture_mode ≡ mode
  pub bodies :
      s.capabilities.materialize_bodies
      ≡ (s.capture_request_bodies || (s.capture_response_bodies || s.capture_body_digest))
  pub both : s.capture_body ≡ (s.capture_request_bodies && s.capture_response_bodies)
  pub locals : s.capture_local_variables ≡ false → s.local_variables_mode ≡ no_locals
  pub guard : s.locals_guard.enabled ≡ true → s.capture_local_variables ≡ true
  pub deferred : s.capabilities.deferred_delivery ≡ true → s.use_worker_assembly ≡ false
  pub flush : (s.flush_interval_ms ≡ 0) ⊎ (1000 ≤ s.flush_interval_ms)
  pub transport : s.recorders.transport ≡ true

no_locals_of :
    (mode : CaptureMode) (capture : Bool)
    → capture ≡ false
    → local_variables_mode_of mode capture ≡ no_locals
no_locals_of mode capture h = rw h refl

left_of : (a b : Bool) → (a && b) ≡ true → a ≡ true
left_of a b h = ground arith

right_of : (a b : Bool) → (a && not b) ≡ true → b ≡ false
right_of a b h = ground arith

has_transport : (mode : CaptureMode) → (mode_defaults mode).recorders.transport ≡ true
has_transport safe = refl
has_transport balanced = refl
has_transport forensic = refl
has_transport fast = refl

build-IsCoherent :
    (user : ModeRelevantUserConfig) (base : ModeResolutionBaseConfig) (mode : CaptureMode)
    (valid : ValidLimits) (n : ℕ)
    → (n ≡ 0) ⊎ (1000 ≤ n)
    → IsCoherent mode (build_mode_state user base mode valid n)
unfolding build_mode_state derive_capabilities
build-IsCoherent user base mode valid n h = record {
  mode_of = refl;
  bodies = refl;
  both = refl;
  locals = no_locals_of mode _;
  guard = λ e. left_of _ _ e;
  deferred = λ e. right_of (is_low_overhead mode) _ e;
  flush = h;
  transport = has_transport mode;
}

-- A flush interval that passes its test.
check_flush-range :
    (given : GivenNumber) (n : ℕ) → check_flush given ≡ returned n → (n ≡ 0) ⊎ (1000 ≤ n)
check_flush-range (whole k) n h = elim (Bool-cases (k == 0)) [
  | inl e ↦ inl (sym (value_of (rw e at (h))))
  | inr e ↦ elim (Bool-cases (ltb k 1000)) [
    | inl f ↦ absurd (no_value (rw f at (rw e at (h))))
    | inr f ↦ let same : k ≡ n = value_of (rw f at (rw e at (h))) in inr (ground (arith, f, same))
  ]
]
check_flush-range other n h = absurd (no_value h)

-- A state that is returned was built, from numbers that passed.
resolve_mode_state-build :
    (user : ModeRelevantUserConfig) (base : ModeResolutionBaseConfig) (mode : CaptureMode)
    (s : ModeState)
    → resolve_mode_state user base mode ≡ returned s
    → (valid : ValidLimits) × ((n : ℕ) × ((check_flush (flush_input mode user base.serverless)
            ≡ returned n)
          × (build_mode_state user base mode valid n ≡ s)))
unfolding resolve_mode_state
resolve_mode_state-build user base mode s h = elim (Result-cases (validate_mode_user_config user)) [
  | inl (err, e) ↦ absurd (no_value (rw e at (h)))
  | inr (valid, e) ↦ elim (Result-cases (check_flush (flush_input mode user base.serverless))) [
    | inl (err, f) ↦ absurd (no_value (rw f at (rw e at (h))))
    | inr (n, f) ↦ (valid, (n, (f, value_of (rw f at (rw e at (h))))))
  ]
]

-- Whatever the user's configuration, the settings that `resolveModeState` returns for a mode agree
-- with one another: bodies are materialized if one of their captures is on, there is no mode of
-- locals and no guard without the capture of locals, delivery is deferred only without the worker,
-- the flush interval is 0 or at least a second, and the transport's recorder is on.
pub resolve_mode_state-IsCoherent :
    (user : ModeRelevantUserConfig) (base : ModeResolutionBaseConfig) (mode : CaptureMode)
    (s : ModeState)
    → resolve_mode_state user base mode ≡ returned s
    → IsCoherent mode s
resolve_mode_state-IsCoherent user base mode s h =
    let (valid, (n, (f, built))) = resolve_mode_state-build user base mode s h in
    subst (IsCoherent mode) built (
      build-IsCoherent user base mode valid n
        (check_flush-range (flush_input mode user base.serverless) n f))

-- Nothing is captured beyond the error itself.
pub record IsQuiet (s : ModeState) : Type 0 where
  pub locals : s.capture_local_variables ≡ false
  pub locals_mode : s.local_variables_mode ≡ no_locals
  pub guard : s.locals_guard.enabled ≡ false
  pub bind_params : s.capture_db_bind_params ≡ false
  pub request_bodies : s.capture_request_bodies ≡ false
  pub response_bodies : s.capture_response_bodies ≡ false
  pub body_digest : s.capture_body_digest ≡ false
  pub materialize : s.capabilities.materialize_bodies ≡ false
  pub lag_monitor : s.capabilities.event_loop_lag_monitor ≡ false
  pub spool : s.payload_spool.enabled ≡ false
  pub worker : s.use_worker_assembly ≡ false
  pub source_maps : s.resolve_source_maps ≡ false
  pub flush : s.flush_interval_ms ≡ 0
  pub recorders : s.recorders ≡ few_recorders false

build_fast-IsQuiet :
    (user : ModeRelevantUserConfig) (base : ModeResolutionBaseConfig) (valid : ValidLimits)
    → IsQuiet (build_mode_state user base fast valid 0)
unfolding build_mode_state derive_capabilities
build_fast-IsQuiet user base valid = record {
  locals = refl;
  locals_mode = refl;
  guard = refl;
  bind_params = refl;
  request_bodies = refl;
  response_bodies = refl;
  body_digest = refl;
  materialize = refl;
  lag_monitor = refl;
  spool = refl;
  worker = refl;
  source_maps = refl;
  flush = refl;
  recorders = refl;
}

-- In fast mode no setting of the user turns anything on: no locals, bodies, digests, bind
-- parameters, source maps, spool, worker or lag monitor, no flush interval, and no recorder but the
-- transport's.
pub resolve_mode_state-IsQuiet :
    (user : ModeRelevantUserConfig) (base : ModeResolutionBaseConfig) (s : ModeState)
    → resolve_mode_state user base fast ≡ returned s
    → IsQuiet s
resolve_mode_state-IsQuiet user base s h =
    let (valid, (n, (f, built))) = resolve_mode_state-build user base fast s h in
    let zero_ms : 0 ≡ n = value_of f in
    subst IsQuiet built (
      subst (λ k. IsQuiet (build_mode_state user base fast valid k)) zero_ms
        (build_fast-IsQuiet user base valid))
