-- ===== src/RequestTracker/Invariant.antt =====
-- What the calls of src/context/request-tracker.ts keep.
use Prim.Native.String.{String}
use errorcore.Common.{
  ℕ, ◌≤◌, ◌≡◌, inl, inr, true, Option, List, [], ◌∷◌, ltb, leb, length, map_delete, HasDistinctKeys,
  length-map_set, length-map_delete, map_set-HasDistinctKeys, map_delete-HasDistinctKeys,
  Bool-cases, arith, ◌<◌, false_ne_true, leb→le, not_leb→lt,
}
use errorcore.RequestTracker.{
  RequestContext, RequestTracker, new_request_tracker, reset_capacity_warning_if_available, add,
  remove, shutdown, sweep_entries, sweep_expired, is_expired,
}

-- A call that changes the tracker.
pub data Call {ℓ} (R : Type ℓ) : Type ℓ where
  adds : RequestContext R → Call R
  removes : String → Call R
  sweeps : ℕ → Call R
  shuts_down : Call R

module _ {ℓ} {R : Type ℓ} where
  -- The keys differ, the map is within its capacity, and the warning is on only at capacity.
  pub record Tracks (t : RequestTracker R) : Type ℓ where
    pub distinct : HasDistinctKeys t.contexts
    pub capacity : length t.contexts ≤ t.max_concurrent
    pub warning : t.capacity_warning_active ≡ true → t.max_concurrent ≤ length t.contexts

  pub new_request_tracker-Tracks : (m : ℕ) (ttl : Option ℕ) → Tracks (new_request_tracker m ttl)
  unfolding new_request_tracker
  new_request_tracker-Tracks m ttl = record {
    distinct = tt;
    capacity = omega arith;
    warning = λ h. absurd (false_ne_true h);
  }

  -- The reset of the warning, whatever shrank the map.
  pub reset-Tracks :
      (t : RequestTracker R)
      → HasDistinctKeys t.contexts
      → length t.contexts ≤ t.max_concurrent
      → Tracks (reset_capacity_warning_if_available t)
  unfolding reset_capacity_warning_if_available
  reset-Tracks t d c = elim (Bool-cases (ltb (length t.contexts) t.max_concurrent)) [
    | inl e ↦ rw e (record { distinct = d; capacity = c; warning = λ h. absurd (false_ne_true h) })
    | inr e ↦ rw e (record { distinct = d; capacity = c; warning = λ h. ground arith })
  ]

  add-Tracks : (ctx : RequestContext R) (t : RequestTracker R) → Tracks t → Tracks (add ctx t).0
  unfolding add
  add-Tracks ctx t v = elim (Bool-cases (leb t.max_concurrent (length t.contexts))) [
    | inl e ↦
        rw e (record { distinct = v.distinct; capacity = v.capacity; warning = λ h. leb→le _ _ e })
    | inr e ↦
        let room : length t.contexts < t.max_concurrent = not_leb→lt _ _ e in
        rw e (record {
          distinct = map_set-HasDistinctKeys ctx.request_id ctx t.contexts v.distinct;
          capacity = omega (arith, length-map_set ctx.request_id ctx t.contexts);
          warning = λ h. absurd (lt_irrefl _ _ room (v.warning h));
        })
  ]
    where
      lt_irrefl : (a b : ℕ) → a < b → b ≤ a → ⊥
      lt_irrefl a b h k = omega arith

  remove-Tracks : (id : String) (t : RequestTracker R) → Tracks t → Tracks (remove id t).0
  unfolding remove
  remove-Tracks id t v =
      reset-Tracks _ (map_delete-HasDistinctKeys id t.contexts v.distinct)
        (omega (arith, length-map_delete id t.contexts, v.capacity))

  shutdown-Tracks : (t : RequestTracker R) → Tracks (shutdown t)
  unfolding shutdown
  shutdown-Tracks t = record {
    distinct = tt;
    capacity = omega arith;
    warning = λ h. absurd (false_ne_true h);
  }

  sweep_entries-HasDistinctKeys :
      (ttl now : ℕ) (es m : List (String × RequestContext R))
      → HasDistinctKeys m
      → HasDistinctKeys (sweep_entries ttl now es m).0
  unfolding sweep_entries
  sweep_entries-HasDistinctKeys ttl now [] m d = d
  sweep_entries-HasDistinctKeys ttl now ((id, ctx) ∷ es) m d =
      elim (Bool-cases (is_expired ttl now ctx)) [
        | inl e ↦ rw e (
            sweep_entries-HasDistinctKeys ttl now es (map_delete id m)
              (map_delete-HasDistinctKeys id m d))
        | inr e ↦ rw e (sweep_entries-HasDistinctKeys ttl now es m d)
      ]

  length-sweep_entries :
      (ttl now : ℕ) (es m : List (String × RequestContext R))
      → length (sweep_entries ttl now es m).0 ≤ length m
  unfolding sweep_entries
  length-sweep_entries ttl now [] m = omega arith
  length-sweep_entries ttl now ((id, ctx) ∷ es) m = elim (Bool-cases (is_expired ttl now ctx)) [
    | inl e ↦
        rw e
          (omega (arith, length-sweep_entries ttl now es (map_delete id m), length-map_delete id m))
    | inr e ↦ rw e (length-sweep_entries ttl now es m)
  ]

  sweep_expired-Tracks :
      (now : ℕ) (t : RequestTracker R) → Tracks t → Tracks (sweep_expired now t).0
  unfolding sweep_expired
  sweep_expired-Tracks now t v =
      reset-Tracks _ (sweep_entries-HasDistinctKeys t.ttl_ms now t.contexts t.contexts v.distinct)
        (omega (arith, length-sweep_entries t.ttl_ms now t.contexts t.contexts, v.capacity))

  abbrev pub step : Call R → RequestTracker R → RequestTracker R
  step (adds ctx) t = (add ctx t).0
  step (removes id) t = (remove id t).0
  step (sweeps now) t = (sweep_expired now t).0
  step shuts_down t = shutdown t

  unfoldable pub run : List (Call R) → RequestTracker R → RequestTracker R
  run [] t = t
  run (c ∷ cs) t = run cs (step c t)

  pub step-Tracks : (c : Call R) (t : RequestTracker R) → Tracks t → Tracks (step c t)
  step-Tracks (adds ctx) t v = add-Tracks ctx t v
  step-Tracks (removes id) t v = remove-Tracks id t v
  step-Tracks (sweeps now) t v = sweep_expired-Tracks now t v
  step-Tracks shuts_down t v = shutdown-Tracks t

  run-Tracks : (cs : List (Call R)) (t : RequestTracker R) → Tracks t → Tracks (run cs t)
  unfolding run
  run-Tracks [] t v = v
  run-Tracks (c ∷ cs) t v = run-Tracks cs (step c t) (step-Tracks c t v)

  -- From a new tracker, after any calls of `add`, `remove`, `sweepExpired` and `shutdown`: the
  -- tracked requests have distinct ids and are at most `maxConcurrent`, and the capacity warning is
  -- on only while the tracker is at capacity.
  pub run-new_request_tracker-Tracks :
      (m : ℕ) (ttl : Option ℕ) (cs : List (Call R)) → Tracks (run cs (new_request_tracker m ttl))
  run-new_request_tracker-Tracks m ttl cs = run-Tracks cs _ (new_request_tracker-Tracks m ttl)
