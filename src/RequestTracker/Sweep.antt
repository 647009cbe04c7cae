-- ===== src/RequestTracker/Sweep.antt =====
-- What `sweepExpired` of src/context/request-tracker.ts takes away.
use Prim.Native.String.{String}
use errorcore.Common.{
  ℕ, ◌≡◌, refl, sym, ap, subst, ◌∙◌, inl, inr, Bool, not, List, [], ◌∷◌, ◌++◌, append_assoc, map,
  ltb, length, keep_if, map_delete, HasDistinctKeys, map_delete-append, has_key-before,
  map_delete-HasDistinctKeys, Bool-cases,
}
use errorcore.RequestTracker.{
  RequestContext, RequestTracker, reset_capacity_warning_if_available, sweep_entries, sweep_expired,
  is_expired,
}
use errorcore.RequestTracker.Invariant.{Tracks}

module _ {ℓ} {R : Type ℓ} where
  pub reset-contexts :
      (t : RequestTracker R) → (reset_capacity_warning_if_available t).contexts ≡ t.contexts
  unfolding reset_capacity_warning_if_available
  reset-contexts t = elim (Bool-cases (ltb (length t.contexts) t.max_concurrent)) [
    | inl e ↦ rw e refl
    | inr e ↦ rw e refl
  ]

  abbrev pub is_old : ℕ → ℕ → String × RequestContext R → Bool
  is_old ttl now e = is_expired ttl now e.1

  abbrev pub is_young : ℕ → ℕ → String × RequestContext R → Bool
  is_young ttl now e = not (is_expired ttl now e.1)

  sweep_entries-kept :
      (ttl now : ℕ) (pre es : List (String × RequestContext R))
      → HasDistinctKeys (pre ++ es)
      → (sweep_entries ttl now es (pre ++ es)).0 ≡ pre ++ keep_if (is_young ttl now) es
  unfolding sweep_entries
  sweep_entries-kept ttl now pre [] d = refl
  sweep_entries-kept ttl now pre ((id, ctx) ∷ es) d = elim (Bool-cases (is_expired ttl now ctx)) [
    | inl e ↦
        let gone = map_delete-append id ctx pre es (has_key-before id ctx pre es d) in
        let d' = subst HasDistinctKeys gone (map_delete-HasDistinctKeys id _ d) in
        rw (e, gone) (sweep_entries-kept ttl now pre es d')
    | inr e ↦
        let same : (pre ++ (id, ctx) ∷ []) ++ es ≡ pre ++ (id, ctx) ∷ es =
          append_assoc pre ((id, ctx) ∷ []) es in
        let ih =
          sweep_entries-kept ttl now (pre ++ (id, ctx) ∷ []) es
            (subst HasDistinctKeys (sym same) d) in
        rw e (
          ap (λ m. (sweep_entries ttl now es m).0) (sym same)
          ∙ ih
          ∙ append_assoc pre ((id, ctx) ∷ []) (keep_if (is_young ttl now) es))
  ]

  sweep_entries-swept :
      (ttl now : ℕ) (es m : List (String × RequestContext R))
      → (sweep_entries ttl now es m).1 ≡ map (λ e. e.1) (keep_if (is_old ttl now) es)
  unfolding sweep_entries
  sweep_entries-swept ttl now [] m = refl
  sweep_entries-swept ttl now ((id, ctx) ∷ es) m = elim (Bool-cases (is_expired ttl now ctx)) [
    | inl e ↦ rw e (ap (λ xs. ctx ∷ xs) (sweep_entries-swept ttl now es (map_delete id m)))
    | inr e ↦ rw e (sweep_entries-swept ttl now es m)
  ]

  -- A sweep of a tracker with distinct ids keeps the entries that have not expired, in their order,
  -- and hands the others to `onRemove`, each once and in their order.
  pub sweep_expired-Tracks_split :
      (now : ℕ) (t : RequestTracker R)
      → Tracks t
      → ((sweep_expired now t).0.contexts ≡ keep_if (is_young t.ttl_ms now) t.contexts)
        × ((sweep_expired now t).1 ≡ map (λ e. e.1) (keep_if (is_old t.ttl_ms now) t.contexts))
  unfolding sweep_expired
  sweep_expired-Tracks_split now t v = (
    reset-contexts _ ∙ sweep_entries-kept t.ttl_ms now [] t.contexts v.distinct,
    sweep_entries-swept t.ttl_ms now t.contexts t.contexts,
  )
