-- ===== src/CaptureMode/Resources.antt =====
-- `applyModeState` of src/capture-mode-controller.ts: the calls that carry one state over to another.
pub mod Effects
pub mod Reflects
pub mod Steps
pub mod Laws
use errorcore.Common.{
  ℕ, Bool, true, false, not, ◌&&◌, ◌||◌, List, [], ◌∷◌, ◌++◌, ltb, ◌==◌, if◌then◌else◌,
}
use errorcore.CaptureMode.{
  ModeState, RecorderSettings, LocalVariablesMode, no_locals, shallow, deep,
}
use errorcore.CaptureMode.Resolve.{is_fast}

-- The callbacks of `CaptureModeResourceCallbacks`, less the two that read.
pub data ResourceCall : Type 0 where
  set_http_server_recorder : Bool → ResourceCall
  update_channel_subscriptions : RecorderSettings → ResourceCall
  set_fetch_recorder : Bool → ModeState → ResourceCall
  set_net_dns_recorder : Bool → ResourceCall
  set_database_recorders : Bool → ResourceCall
  set_process_handlers : Bool → ResourceCall
  set_event_loop_lag_monitor : Bool → ResourceCall
  apply_resolved_config : ModeState → ResourceCall
  apply_runtime_resources : ModeState → ResourceCall
  apply_inspector_mode_state : ModeState → ResourceCall
  set_local_variables_capture : Bool → ResourceCall
  flush_before_timer_restart : ResourceCall
  restart_flush_timer : ResourceCall

abbrev pub bool_eq : Bool → Bool → Bool
bool_eq true b = b
bool_eq false b = not b

abbrev pub has_locals : LocalVariablesMode → Bool
has_locals no_locals = false
has_locals shallow = true
has_locals deep = true

abbrev pub emit : Bool → ResourceCall → List ResourceCall
emit b c = if b then c ∷ [] else []

-- Buffered captures are delivered before a transition takes the timer away.
abbrev pub drains_first : ModeState → ModeState → Bool
drains_first previous next = ltb 0 previous.flush_interval_ms && next.flush_interval_ms == 0

abbrev pub flushes_again : ModeState → ModeState → Bool
flushes_again previous next =
    (previous.flush_interval_ms == 0 && not (next.flush_interval_ms == 0))
    || not (bool_eq (is_fast previous.capture_mode) (is_fast next.capture_mode))

module _ (serverless : Bool) (previous next : ModeState) where
  abbrev pub http_server_calls : List ResourceCall
  http_server_calls =
      emit (not (bool_eq previous.recorders.http_server next.recorders.http_server))
        (set_http_server_recorder next.recorders.http_server)

  -- The fetch recorder depends on the capture of response bodies as well.
  abbrev pub refetches : Bool
  refetches =
      not (bool_eq previous.recorders.fetch next.recorders.fetch)
      || (next.recorders.fetch
          && not (bool_eq previous.capture_response_bodies next.capture_response_bodies))

  abbrev pub fetch_calls : List ResourceCall
  fetch_calls = emit refetches (set_fetch_recorder next.recorders.fetch next)

  abbrev pub net_dns_calls : List ResourceCall
  net_dns_calls =
      emit (not (bool_eq previous.recorders.net_dns next.recorders.net_dns))
        (set_net_dns_recorder next.recorders.net_dns)

  abbrev pub database_calls : List ResourceCall
  database_calls =
      emit (not (bool_eq previous.recorders.database next.recorders.database))
        (set_database_recorders next.recorders.database)

  abbrev pub process_calls : List ResourceCall
  process_calls =
      emit (not (bool_eq previous.recorders.process_handlers next.recorders.process_handlers))
        (set_process_handlers next.recorders.process_handlers)

  abbrev pub lag_calls : List ResourceCall
  lag_calls =
      emit
        (not serverless
          && not (
              bool_eq previous.capabilities.event_loop_lag_monitor
                next.capabilities.event_loop_lag_monitor))
        (set_event_loop_lag_monitor next.capabilities.event_loop_lag_monitor)

  -- Before the state is replaced, in an active SDK.
  abbrev pub calls_before : List ResourceCall
  calls_before =
      http_server_calls
      ++ update_channel_subscriptions next.recorders
        ∷ (fetch_calls ++ (net_dns_calls ++ (database_calls ++ (process_calls ++ lag_calls))))

  -- With the state, whether active or not.
  abbrev pub calls_with : List ResourceCall
  calls_with =
      apply_resolved_config next
      ∷ apply_runtime_resources next
      ∷ apply_inspector_mode_state next
      ∷ []

  -- After it, in an active SDK.
  unfoldable pub calls_after : List ResourceCall
  calls_after =
      emit (flushes_again previous next) flush_before_timer_restart
      ++ restart_flush_timer
        ∷ set_local_variables_capture
            (next.capture_local_variables && has_locals next.local_variables_mode)
        ∷ []

  unfoldable pub apply_mode_state : Bool → List ResourceCall
  unfolding calls_after
  apply_mode_state was_active =
      if was_active
      then emit (drains_first previous next) flush_before_timer_restart
        ++ (calls_before ++ (calls_with ++ calls_after))
      else calls_with
