-- ===== src/CaptureMode/Diff/Complete.antt =====
-- `diffModeStates` of src/capture-mode-controller.ts against the equality of states.
use Prim.Native.String.{String}
use errorcore.Common.{
  ℕ, ◌≡◌, ◌↔◌, refl, sym, ap, subst, Bool, true, false, ◌&&◌, List, [], ◌∷◌, ◌==◌, arith,
  false_ne_true,
}
use errorcore.CaptureMode.{ModeState, LocalVariablesMode, LocalsGuard, CaptureMode}
use errorcore.CaptureMode.Resolve.{mode_eq}
use errorcore.CaptureMode.Resources.{bool_eq}
use errorcore.CaptureMode.Diff.{
  locals_mode_eq, guard_eq, comparisons, names_of_false, diff_mode_states, AllSame,
  diff_mode_states_self,
}

is_empty : List String → Bool
is_empty [] = true
is_empty (x ∷ xs) = false

cons_ne_nil : (x : String) (xs : List String) → ¬ (◌≡◌ {A = List String} (x ∷ xs) [])
unfolding is_empty
cons_ne_nil x xs h = false_ne_true (ap is_empty h)

names_of_false-AllSame : (cs : List (String × Bool)) → names_of_false cs ≡ [] → AllSame cs
unfolding AllSame
names_of_false-AllSame [] h = tt
names_of_false-AllSame ((name, true) ∷ rest) h = (refl, names_of_false-AllSame rest h)
names_of_false-AllSame ((name, false) ∷ rest) h = absurd (cons_ne_nil name (names_of_false rest) h)

same_bool : (a b : Bool) → bool_eq a b ≡ true → a ≡ b
same_bool true b h = sym h
same_bool false true h = absurd (false_ne_true h)
same_bool false false h = refl

same_number : (a b : ℕ) → (a == b) ≡ true → a ≡ b
same_number a b h = ground (arith, h)

same_mode : (a b : CaptureMode) → mode_eq a b ≡ true → a ≡ b
same_mode a b h = ground (arith, h)

same_locals_mode : (a b : LocalVariablesMode) → locals_mode_eq a b ≡ true → a ≡ b
same_locals_mode a b h = ground (arith, h)

first_of : (a b : Bool) → (a && b) ≡ true → a ≡ true
first_of a b h = ground (arith, h)

second_of : (a b : Bool) → (a && b) ≡ true → b ≡ true
second_of a b h = ground (arith, h)

same_guard : (a b : LocalsGuard) → guard_eq a b ≡ true → a ≡ b
same_guard a b h =
    let rest = second_of (bool_eq a.enabled b.enabled) _ h in
    λ i. record {
      enabled = same_bool a.enabled b.enabled (first_of _ _ h) i;
      max_pauses_per_second =
          same_number a.max_pauses_per_second b.max_pauses_per_second (first_of _ _ rest) i;
      max_pause_ms_per_minute =
          same_number a.max_pause_ms_per_minute b.max_pause_ms_per_minute
            (second_of (a.max_pauses_per_second == b.max_pauses_per_second) _ rest) i;
    }

AllSame-agree : (a b : ModeState) → AllSame (comparisons a b) → a ≡ b
unfolding AllSame
AllSame-agree a b
      (
        h1,
        (
          h2,
          (
            h3,
            (
              h4,
              (
                h5,
                (
                  h6,
                  (
                    h7,
                    (
                      h8,
                      (
                        h9,
                        (
                          h10,
                          (
                            h11,
                            (
                              h12,
                              (
                                h13,
                                (
                                  h14,
                                  (
                                    h15,
                                    (
                                      h16,
                                      (
                                        h17,
                                        (
                                          h18,
                                          (
                                            h19,
                                            (
                                              h20,
                                              (
                                                h21,
                                                (
                                                  h22,
                                                  (
                                                    h23,
                                                    (
                                                      h24,
                                                      (
                                                        h25,
                                                        (
                                                          h26,
                                                          (
                                                            h27,
                                                            (
                                                            h28,
                                                            (
                                                            h29,
                                                            (h30, (h31, (h32, (h33, (h34, u))))),
                                                            ),
                                                            ),
                                                          ),
                                                        ),
                                                      ),
                                                    ),
                                                  ),
                                                ),
                                              ),
                                            ),
                                          ),
                                        ),
                                      ),
                                    ),
                                  ),
                                ),
                              ),
                            ),
                          ),
                        ),
                      ),
                    ),
                  ),
                ),
              ),
            ),
          ),
        ),
      ) =
    λ i. record {
      capture_mode = same_mode a.capture_mode b.capture_mode h1 i;
      local_variables_mode = same_locals_mode a.local_variables_mode b.local_variables_mode h2 i;
      capture_local_variables = same_bool a.capture_local_variables b.capture_local_variables h3 i;
      capture_db_bind_params = same_bool a.capture_db_bind_params b.capture_db_bind_params h4 i;
      capture_request_bodies = same_bool a.capture_request_bodies b.capture_request_bodies h5 i;
      capture_response_bodies = same_bool a.capture_response_bodies b.capture_response_bodies h6 i;
      capture_body = same_bool a.capture_body b.capture_body h7 i;
      capture_body_digest = same_bool a.capture_body_digest b.capture_body_digest h8 i;
      use_worker_assembly = same_bool a.use_worker_assembly b.use_worker_assembly h9 i;
      flush_interval_ms = same_number a.flush_interval_ms b.flush_interval_ms h10 i;
      resolve_source_maps = same_bool a.resolve_source_maps b.resolve_source_maps h11 i;
      max_locals_collections_per_second =
          same_number a.max_locals_collections_per_second b.max_locals_collections_per_second h12 i;
      max_cached_locals = same_number a.max_cached_locals b.max_cached_locals h13 i;
      max_locals_frames = same_number a.max_locals_frames b.max_locals_frames h14 i;
      max_locals_object_properties =
          same_number a.max_locals_object_properties b.max_locals_object_properties h15 i;
      recorders = record {
        http_server = same_bool a.recorders.http_server b.recorders.http_server h16 i;
        http_client = same_bool a.recorders.http_client b.recorders.http_client h17 i;
        undici = same_bool a.recorders.undici b.recorders.undici h18 i;
        fetch = same_bool a.recorders.fetch b.recorders.fetch h19 i;
        net_dns = same_bool a.recorders.net_dns b.recorders.net_dns h20 i;
        database = same_bool a.recorders.database b.recorders.database h21 i;
        process_handlers =
            same_bool a.recorders.process_handlers b.recorders.process_handlers h22 i;
        transport = same_bool a.recorders.transport b.recorders.transport h23 i;
      };
      capabilities = record {
        deferred_delivery =
            same_bool a.capabilities.deferred_delivery b.capabilities.deferred_delivery h24 i;
        materialize_bodies =
            same_bool a.capabilities.materialize_bodies b.capabilities.materialize_bodies h25 i;
        synthetic_inbound_fallback =
            same_bool a.capabilities.synthetic_inbound_fallback
              b.capabilities.synthetic_inbound_fallback h26 i;
        event_loop_lag_monitor =
            same_bool a.capabilities.event_loop_lag_monitor b.capabilities.event_loop_lag_monitor
              h27 i;
      };
      payload_spool = record {
        enabled = same_bool a.payload_spool.enabled b.payload_spool.enabled h28 i;
        global_max_bytes =
            same_number a.payload_spool.global_max_bytes b.payload_spool.global_max_bytes h29 i;
        per_request_max_bytes =
            same_number a.payload_spool.per_request_max_bytes b.payload_spool.per_request_max_bytes
              h30 i;
        per_blob_max_bytes =
            same_number a.payload_spool.per_blob_max_bytes b.payload_spool.per_blob_max_bytes h31 i;
        preview_bytes =
            same_number a.payload_spool.preview_bytes b.payload_spool.preview_bytes h32 i;
        completed_ttl_ms =
            same_number a.payload_spool.completed_ttl_ms b.payload_spool.completed_ttl_ms h33 i;
      };
      locals_guard = same_guard a.locals_guard b.locals_guard h34 i;
    }

-- The list of changed settings is empty exactly if the two states agree in every setting.
pub diff_mode_states-nil : (a b : ModeState) → (diff_mode_states a b ≡ []) ↔ (a ≡ b)
unfolding diff_mode_states
diff_mode_states-nil a b = (
  λ h. AllSame-agree a b (names_of_false-AllSame (comparisons a b) h),
  λ e. subst (λ c. diff_mode_states a c ≡ []) e (diff_mode_states_self a),
)
