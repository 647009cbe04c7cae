-- ===== src/CaptureMode/Resources/Reflects.antt =====
-- What `applyModeState` of src/capture-mode-controller.ts is to bring about.
use errorcore.Common.{◌<◌, ◌≡◌, Bool, true, false, ◌&&◌, none, some, List, [], ◌∷◌, ◌++◌}
use errorcore.CaptureMode.{ModeState}
use errorcore.CaptureMode.Resolve.{is_fast}
use errorcore.CaptureMode.Resources.Effects.{
  Host, Resources, subscriptions_of, body_settings, inspector_settings, captures_locals,
}

-- The resources stand as the state asks; a serverless SDK has no lag monitor to ask for. A spool, a
-- resolver and a dispatcher outlive the state that asked for them, the last until its timer fires.
pub record Reflects (host : Host) (serverless : Bool) (s : ModeState) (r : Resources) : Type 0 where
  pub http_server : r.http_server ≡ s.recorders.http_server
  pub subscriptions : r.subscriptions ≡ subscriptions_of s.recorders
  pub fetch : r.fetch ≡ s.recorders.fetch
  pub fetch_bodies : r.fetch ≡ true → r.fetch_bodies ≡ s.capture_response_bodies
  pub net_dns : r.net_dns ≡ s.recorders.net_dns
  pub database : r.database ≡ s.recorders.database
  pub process_handlers : r.process_handlers ≡ s.recorders.process_handlers
  pub lag_monitor : serverless ≡ false → r.lag_monitor ≡ s.capabilities.event_loop_lag_monitor
  pub config : r.config ≡ s
  pub body : r.body ≡ body_settings s
  pub server_spool : r.server_spool ≡ s.payload_spool.enabled
  pub spool : s.payload_spool.enabled ≡ true → (r.has_spool ≡ true) × (r.capturer_spool ≡ true)
  pub resolver :
      s.resolve_source_maps ≡ true → (r.has_resolver ≡ true) × (r.capturer_resolver ≡ true)
  pub assembly :
      s.use_worker_assembly ≡ true
      → (r.idle_timer ≡ false)
        × (r.capturer_dispatcher ≡ (host.worker_allowed && host.worker_updates))
  pub no_assembly : s.use_worker_assembly ≡ false → r.has_dispatcher ≡ true → r.idle_timer ≡ true
  pub inspector : r.inspector ≡ inspector_settings s
  pub is_available : r.is_available ≡ captures_locals s
  pub disarmed : captures_locals s ≡ false → r.is_armed ≡ false
  pub armed :
      captures_locals s ≡ true
      → r.guard_tripped ≡ false
      → host.has_session ≡ true
      → r.is_armed ≡ true
  pub guard : captures_locals s ≡ true → s.locals_guard.enabled ≡ false → r.guard_tripped ≡ false
  pub timer :
      s.recorders.transport ≡ true
      → 0 < s.flush_interval_ms
      → r.flush_timer ≡ some s.flush_interval_ms
  pub no_transport : s.recorders.transport ≡ false → r.flush_timer ≡ none
  pub no_interval : s.flush_interval_ms ≡ 0 → r.flush_timer ≡ none

-- The flushes up to now, `new`, end with one under the state `s`.
abbrev pub EndsWith : ModeState → List ModeState → List ModeState → Type 0
EndsWith s old new = (rest : List ModeState) × (new ≡ (old ++ rest) ++ s ∷ [])

-- What is buffered is delivered: before an interval goes away under the previous state, and once one
-- comes, or where fast mode is entered or left, under the next state.
pub record Delivers (previous next : ModeState) (old new : List ModeState) : Type 0 where
  pub drained :
      0 < previous.flush_interval_ms
      → next.flush_interval_ms ≡ 0
      → ((rest : List ModeState) × (new ≡ (old ++ previous ∷ []) ++ rest))
  pub restarted :
      previous.flush_interval_ms ≡ 0 → 0 < next.flush_interval_ms → EndsWith next old new
  pub left_fast :
      is_fast previous.capture_mode ≡ true
      → is_fast next.capture_mode ≡ false
      → EndsWith next old new
  pub entered_fast :
      is_fast previous.capture_mode ≡ false
      → is_fast next.capture_mode ≡ true
      → EndsWith next old new
