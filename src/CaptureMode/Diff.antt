-- ===== src/CaptureMode/Diff.antt =====
-- `diffModeStates` of src/capture-mode-controller.ts: the settings that differ.
pub mod Complete
use Prim.Native.String.{String}
use errorcore.Common.{
  ℕ, ◌≡◌, refl, Bool, true, false, ◌&&◌, List, [], ◌∷◌, ◌==◌, if◌then◌else◌, arith,
}
use errorcore.CaptureMode.{
  ModeState, LocalVariablesMode, LocalsGuard, no_locals, shallow, deep, CaptureMode, safe, balanced,
  forensic, fast,
}
use errorcore.CaptureMode.Resolve.{mode_eq}
use errorcore.CaptureMode.Resources.{bool_eq}

abbrev pub locals_mode_eq : LocalVariablesMode → LocalVariablesMode → Bool
locals_mode_eq no_locals no_locals = true
locals_mode_eq shallow shallow = true
locals_mode_eq deep deep = true
locals_mode_eq _ _ = false

-- The comparison of the two texts that `JSON.stringify` makes of a guard's three fields.
abbrev pub guard_eq : LocalsGuard → LocalsGuard → Bool
guard_eq a b =
    bool_eq a.enabled b.enabled
    && (a.max_pauses_per_second == b.max_pauses_per_second
        && a.max_pause_ms_per_minute == b.max_pause_ms_per_minute)

-- Each setting's name with the test that it is the same.
abbrev pub comparisons : ModeState → ModeState → List (String × Bool)
comparisons a b =
    ("captureMode", mode_eq a.capture_mode b.capture_mode)
    ∷ ("localVariablesMode", locals_mode_eq a.local_variables_mode b.local_variables_mode)
    ∷ ("captureLocalVariables", bool_eq a.capture_local_variables b.capture_local_variables)
    ∷ ("captureDbBindParams", bool_eq a.capture_db_bind_params b.capture_db_bind_params)
    ∷ ("captureRequestBodies", bool_eq a.capture_request_bodies b.capture_request_bodies)
    ∷ ("captureResponseBodies", bool_eq a.capture_response_bodies b.capture_response_bodies)
    ∷ ("captureBody", bool_eq a.capture_body b.capture_body)
    ∷ ("captureBodyDigest", bool_eq a.capture_body_digest b.capture_body_digest)
    ∷ ("useWorkerAssembly", bool_eq a.use_worker_assembly b.use_worker_assembly)
    ∷ ("flushIntervalMs", a.flush_interval_ms == b.flush_interval_ms)
    ∷ ("resolveSourceMaps", bool_eq a.resolve_source_maps b.resolve_source_maps)
    ∷ (
      "maxLocalsCollectionsPerSecond",
      a.max_locals_collections_per_second == b.max_locals_collections_per_second,
    )
    ∷ ("maxCachedLocals", a.max_cached_locals == b.max_cached_locals)
    ∷ ("maxLocalsFrames", a.max_locals_frames == b.max_locals_frames)
    ∷ (
      "maxLocalsObjectProperties",
      a.max_locals_object_properties == b.max_locals_object_properties,
    )
    ∷ ("recorders.httpServer", bool_eq a.recorders.http_server b.recorders.http_server)
    ∷ ("recorders.httpClient", bool_eq a.recorders.http_client b.recorders.http_client)
    ∷ ("recorders.undici", bool_eq a.recorders.undici b.recorders.undici)
    ∷ ("recorders.fetch", bool_eq a.recorders.fetch b.recorders.fetch)
    ∷ ("recorders.netDns", bool_eq a.recorders.net_dns b.recorders.net_dns)
    ∷ ("recorders.database", bool_eq a.recorders.database b.recorders.database)
    ∷ (
      "recorders.processHandlers",
      bool_eq a.recorders.process_handlers b.recorders.process_handlers,
    )
    ∷ ("recorders.transport", bool_eq a.recorders.transport b.recorders.transport)
    ∷ (
      "capabilities.deferredDelivery",
      bool_eq a.capabilities.deferred_delivery b.capabilities.deferred_delivery,
    )
    ∷ (
      "capabilities.materializeBodies",
      bool_eq a.capabilities.materialize_bodies b.capabilities.materialize_bodies,
    )
    ∷ (
      "capabilities.syntheticInboundFallback",
      bool_eq a.capabilities.synthetic_inbound_fallback b.capabilities.synthetic_inbound_fallback,
    )
    ∷ (
      "capabilities.eventLoopLagMonitor",
      bool_eq a.capabilities.event_loop_lag_monitor b.capabilities.event_loop_lag_monitor,
    )
    ∷ ("payloadSpool.enabled", bool_eq a.payload_spool.enabled b.payload_spool.enabled)
    ∷ (
      "payloadSpool.globalMaxBytes",
      a.payload_spool.global_max_bytes == b.payload_spool.global_max_bytes,
    )
    ∷ (
      "payloadSpool.perRequestMaxBytes",
      a.payload_spool.per_request_max_bytes == b.payload_spool.per_request_max_bytes,
    )
    ∷ (
      "payloadSpool.perBlobMaxBytes",
      a.payload_spool.per_blob_max_bytes == b.payload_spool.per_blob_max_bytes,
    )
    ∷ ("payloadSpool.previewBytes", a.payload_spool.preview_bytes == b.payload_spool.preview_bytes)
    ∷ (
      "payloadSpool.completedTtlMs",
      a.payload_spool.completed_ttl_ms == b.payload_spool.completed_ttl_ms,
    )
    ∷ ("localsGuard", guard_eq a.locals_guard b.locals_guard)
    ∷ []

abbrev pub names_of_false : List (String × Bool) → List String
names_of_false [] = []
names_of_false ((name, same) ∷ rest) =
    if same then names_of_false rest else name ∷ names_of_false rest

unfoldable pub diff_mode_states : ModeState → ModeState → List String
diff_mode_states previous next = names_of_false (comparisons previous next)

AllSame : List (String × Bool) → Type 0
AllSame [] = Unit {0}
AllSame ((name, same) ∷ rest) = (same ≡ true) × AllSame rest

names_of_false-nil : (cs : List (String × Bool)) → AllSame cs → names_of_false cs ≡ []
unfolding AllSame
names_of_false-nil [] h = refl
names_of_false-nil ((name, same) ∷ rest) (e, h) = rw e (names_of_false-nil rest h)

bool : (b : Bool) → bool_eq b b ≡ true
bool true = refl
bool false = refl

number : (n : ℕ) → (n == n) ≡ true
number n = ground arith

mode : (m : CaptureMode) → mode_eq m m ≡ true
mode safe = refl
mode balanced = refl
mode forensic = refl
mode fast = refl

locals_mode : (m : LocalVariablesMode) → locals_mode_eq m m ≡ true
locals_mode no_locals = refl
locals_mode shallow = refl
locals_mode deep = refl

guard : (g : LocalsGuard) → guard_eq g g ≡ true
guard g = rw (bool g.enabled, number g.max_pauses_per_second, number g.max_pause_ms_per_minute) refl

comparisons-AllSame : (s : ModeState) → AllSame (comparisons s s)
unfolding AllSame
comparisons-AllSame s = (
  mode s.capture_mode,
  (
    locals_mode s.local_variables_mode,
    (
      bool s.capture_local_variables,
      (
        bool s.capture_db_bind_params,
        (
          bool s.capture_request_bodies,
          (
            bool s.capture_response_bodies,
            (
              bool s.capture_body,
              (
                bool s.capture_body_digest,
                (
                  bool s.use_worker_assembly,
                  (
                    number s.flush_interval_ms,
                    (
                      bool s.resolve_source_maps,
                      (
                        number s.max_locals_collections_per_second,
                        (
                          number s.max_cached_locals,
                          (
                            number s.max_locals_frames,
                            (
                              number s.max_locals_object_properties,
                              (
                                bool s.recorders.http_server,
                                (
                                  bool s.recorders.http_client,
                                  (
                                    bool s.recorders.undici,
                                    (
                                      bool s.recorders.fetch,
                                      (
                                        bool s.recorders.net_dns,
                                        (
                                          bool s.recorders.database,
                                          (
                                            bool s.recorders.process_handlers,
                                            (
                                              bool s.recorders.transport,
                                              (
                                                bool s.capabilities.deferred_delivery,
                                                (
                                                  bool s.capabilities.materialize_bodies,
                                                  (
                                                    bool s.capabilities.synthetic_inbound_fallback,
                                                    (
                                                      bool s.capabilities.event_loop_lag_monitor,
                                                      (
                                                        bool s.payload_spool.enabled,
                                                        (
                                                          number s.payload_spool.global_max_bytes,
                                                          (
                                                            number
                                                            s.payload_spool.per_request_max_bytes,
                                                            (
                                                            number
                                                            s.payload_spool.per_blob_max_bytes,
                                                            (
                                                            number s.payload_spool.preview_bytes,
                                                            (
                                                            number s.payload_spool.completed_ttl_ms,
                                                            (guard s.locals_guard, tt),
                                                            ),
                                                            ),
                                                            ),
                                                          ),
                                                        ),
                                                      ),
                                                    ),
                                                  ),
                                                ),
                                              ),
                                            ),
                                          ),
                                        ),
                                      ),
                                    ),
                                  ),
                                ),
                              ),
                            ),
                          ),
                        ),
                      ),
                    ),
                  ),
                ),
              ),
            ),
          ),
        ),
      ),
    ),
  ),
)

pub diff_mode_states_self : (s : ModeState) → diff_mode_states s s ≡ []
unfolding diff_mode_states
diff_mode_states_self s = names_of_false-nil (comparisons s s) (comparisons-AllSame s)
