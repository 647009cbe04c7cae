-- ===== src/RequestTracker/Conservation.antt =====
-- Where the contexts that `add` of src/context/request-tracker.ts takes in end up.
use Prim.Native.String.{String}
use errorcore.Common.{
  ℕ, ◌+◌, ◌≡◌, ap, inl, inr, Bool, Option, List, [], ◌∷◌, ◌++◌, map, leb, keep_if, map_get, map_set,
  map_delete, str_eq, if◌then◌else◌, Bool-cases, arith,
}
use errorcore.RequestTracker.{
  RequestContext, RequestTracker, new_request_tracker, add, remove, shutdown, sweep_expired, listed,
  get_all, get_count,
}
use errorcore.RequestTracker.Invariant.{
  Call, Tracks, adds, removes, sweeps, shuts_down, run, step, new_request_tracker-Tracks,
  step-Tracks,
}
use errorcore.RequestTracker.Sweep.{reset-contexts, is_old, is_young, sweep_expired-Tracks_split}

-- What has become of the contexts so far: taken in by `add`, handed to `onRemove`, replaced by a
-- context of the same id, or cleared by `shutdown`.
pub record Fates {ℓ} (R : Type ℓ) : Type ℓ where
  pub taken : List (RequestContext R)
  pub handed : List (RequestContext R)
  pub replaced : List (RequestContext R)
  pub cleared : List (RequestContext R)

module _ {ℓ} {R : Type ℓ} where
  abbrev pub no_fates : Fates R
  no_fates = record { taken = []; handed = []; replaced = []; cleared = [] }

  abbrev pub is_full : RequestTracker R → Bool
  is_full t = leb t.max_concurrent (get_count t)

  -- A call in the tracker `t`.
  abbrev pub note : Call R → RequestTracker R → Fates R → Fates R
  note (adds ctx) t f = if is_full t then f else record f {
    taken = ctx ∷ f.taken;
    replaced = listed (map_get ctx.request_id t.contexts) ++ f.replaced;
  }
  note (removes id) t f = record f { handed = (remove id t).1 ++ f.handed }
  note (sweeps now) t f = record f { handed = (sweep_expired now t).1 ++ f.handed }
  note shuts_down t f = record f { cleared = get_all t ++ f.cleared }

  unfoldable pub fates : List (Call R) → RequestTracker R → Fates R → Fates R
  fates [] t f = f
  fates (c ∷ cs) t f = fates cs (step c t) (note c t f)

  -- How many contexts have a quality.
  abbrev pub count : (RequestContext R → Bool) → List (RequestContext R) → ℕ
  count p [] = 0
  count p (ctx ∷ rest) = (if p ctx then 1 else 0) + count p rest

  abbrev entries : List (String × RequestContext R) → List (RequestContext R)
  entries m = map (λ e. e.1) m

  count-append :
      (p : RequestContext R → Bool) (xs ys : List (RequestContext R))
      → count p (xs ++ ys) ≡ count p xs + count p ys
  count-append p [] ys = omega arith
  count-append p (x ∷ xs) ys = omega (arith, count-append p xs ys)

  count-map_set :
      (p : RequestContext R → Bool) (id : String) (ctx : RequestContext R)
      (m : List (String × RequestContext R))
      → count p (entries (map_set id ctx m)) + count p (listed (map_get id m))
        ≡ (if p ctx then 1 else 0) + count p (entries m)
  count-map_set p id ctx [] = omega arith
  count-map_set p id ctx ((k, v) ∷ m) = elim (Bool-cases (str_eq id k)) [
    | inl e ↦ rw e (omega arith)
    | inr e ↦ rw e (omega (arith, count-map_set p id ctx m))
  ]

  count-map_delete :
      (p : RequestContext R → Bool) (id : String) (m : List (String × RequestContext R))
      → count p (entries (map_delete id m)) + count p (listed (map_get id m)) ≡ count p (entries m)
  count-map_delete p id [] = omega arith
  count-map_delete p id ((k, v) ∷ m) = elim (Bool-cases (str_eq id k)) [
    | inl e ↦ rw e (omega arith)
    | inr e ↦ rw e (omega (arith, count-map_delete p id m))
  ]

  count-split :
      (p : RequestContext R → Bool) (ttl now : ℕ) (m : List (String × RequestContext R))
      → count p (entries (keep_if (is_young ttl now) m))
          + count p (entries (keep_if (is_old ttl now) m))
        ≡ count p (entries m)
  count-split p ttl now [] = omega arith
  count-split p ttl now (e ∷ m) = elim (Bool-cases (is_old ttl now e)) [
    | inl old ↦ rw old (omega (arith, count-split p ttl now m))
    | inr young ↦ rw young (omega (arith, count-split p ttl now m))
  ]

  -- Of each quality, as many contexts were taken in as are tracked, were handed to `onRemove`, were
  -- replaced and were cleared.
  abbrev pub IsConserved : RequestTracker R → Fates R → Type ℓ
  IsConserved t f =
      (p : RequestContext R → Bool)
      → count p f.taken
        ≡ count p (get_all t) + count p f.handed + count p f.replaced + count p f.cleared

  add-IsConserved :
      (ctx : RequestContext R) (t : RequestTracker R) (f : Fates R)
      → IsConserved t f
      → IsConserved (add ctx t).0 (note (adds ctx) t f)
  unfolding add
  add-IsConserved ctx t f h = elim (Bool-cases (is_full t)) [
    | inl e ↦ rw e h
    | inr e ↦ rw e (λ p. omega (
      arith,
      h p,
      count-append p (listed (map_get ctx.request_id t.contexts)) f.replaced,
      count-map_set p ctx.request_id ctx t.contexts,
    ))
  ]

  step-IsConserved :
      (c : Call R) (t : RequestTracker R) (f : Fates R)
      → Tracks t
      → IsConserved t f
      → IsConserved (step c t) (note c t f)
  unfolding remove shutdown
  step-IsConserved (adds ctx) t f v h p = add-IsConserved ctx t f h p
  step-IsConserved (removes id) t f v h p = omega (
    arith,
    h p,
    ap (λ m. count p (entries m))
        (reset-contexts (record t { contexts = map_delete id t.contexts })),
    count-append p (listed (map_get id t.contexts)) f.handed,
    count-map_delete p id t.contexts,
  )
  step-IsConserved (sweeps now) t f v h p =
      let (kept, swept) = sweep_expired-Tracks_split now t v in
      omega (
        arith,
        h p,
        ap (λ m. count p (entries m)) kept,
        ap (count p) swept,
        count-append p (sweep_expired now t).1 f.handed,
        count-split p t.ttl_ms now t.contexts,
      )
  step-IsConserved shuts_down t f v h p = omega (arith, h p, count-append p (get_all t) f.cleared)

  fates-IsConserved :
      (cs : List (Call R)) (t : RequestTracker R) (f : Fates R)
      → Tracks t
      → IsConserved t f
      → IsConserved (run cs t) (fates cs t f)
  unfolding run fates
  fates-IsConserved [] t f v h = h
  fates-IsConserved (c ∷ cs) t f v h =
      fates-IsConserved cs (step c t) (note c t f) (step-Tracks c t v) (step-IsConserved c t f v h)

  -- From a new tracker, after any calls of `add`, `remove`, `sweepExpired` and `shutdown`, no context
  -- is lost or handed on twice: for every choice of contexts, as many of them as `add` took in are
  -- tracked, were handed to `onRemove` by `remove` or a sweep, were replaced by a later context of
  -- the same id, or were cleared by `shutdown`, taken together.
  pub run-IsConserved :
      (m : ℕ) (ttl : Option ℕ) (cs : List (Call R))
      → IsConserved
          (run cs (new_request_tracker m ttl))
          (fates cs (new_request_tracker m ttl) no_fates)
  run-IsConserved m ttl cs =
      fates-IsConserved cs (new_request_tracker m ttl) no_fates (new_request_tracker-Tracks m ttl)
        (unfold new_request_tracker in λ p. omega arith)
