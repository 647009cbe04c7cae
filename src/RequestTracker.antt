-- ===== src/RequestTracker.antt =====
-- src/context/request-tracker.ts: the requests in flight, bounded in number and in age, and the
-- clean-up that ends one.
pub mod Invariant
pub mod Sweep
pub mod Conservation
pub mod Cleanup
mod Tests
use Prim.Native.String.{String}
use errorcore.Common.{
  ℕ, ◌+◌, ◌*◌, Bool, true, false, not, ◌&&◌, Option, none, some, List, [], ◌∷◌, map, ltb, leb,
  if◌then◌else◌, or_else, length, map_get, map_set, map_delete,
}

-- What the tracker reads of a `RequestContext`, and the rest of it.
pub record RequestContext {ℓ} (R : Type ℓ) : Type ℓ where
  pub request_id : String
  pub start_time : ℕ
  pub method : String
  pub url : String
  pub remainder : R

-- `startTime` is printed in decimal by its reader here.
pub record RequestSummary : Type 0 where
  pub request_id : String
  pub method : String
  pub url : String
  pub start_time : ℕ

-- The default of `ttlMs`, and nanoseconds per millisecond.
abbrev pub default_ttl_ms : ℕ
default_ttl_ms = 300000

pub record RequestTracker {ℓ} (R : Type ℓ) : Type ℓ where
  pub max_concurrent : ℕ
  pub ttl_ms : ℕ
  pub contexts : List (String × RequestContext R)
  pub capacity_warning_active : Bool

module _ {ℓ} {R : Type ℓ} where
  unfoldable pub new_request_tracker : ℕ → Option ℕ → RequestTracker R
  new_request_tracker max_concurrent ttl_ms = record {
    max_concurrent = max_concurrent;
    ttl_ms = or_else ttl_ms default_ttl_ms;
    contexts = [];
    capacity_warning_active = false;
  }

  unfoldable pub reset_capacity_warning_if_available : RequestTracker R → RequestTracker R
  reset_capacity_warning_if_available t =
      if ltb (length t.contexts) t.max_concurrent
      then record t { capacity_warning_active = false }
      else t

  -- The new state, and whether the warning is printed.
  unfoldable pub add : RequestContext R → RequestTracker R → RequestTracker R × Bool
  add ctx t =
      if leb t.max_concurrent (length t.contexts)
      then (record t { capacity_warning_active = true }, not t.capacity_warning_active)
      else (record t { contexts = map_set ctx.request_id ctx t.contexts }, false)

  abbrev pub listed : Option (RequestContext R) → List (RequestContext R)
  listed none = []
  listed (some ctx) = ctx ∷ []

  -- The new state, and the contexts handed to `onRemove`, which does not call the tracker.
  unfoldable pub remove : String → RequestTracker R → RequestTracker R × List (RequestContext R)
  unfolding reset_capacity_warning_if_available
  remove request_id t = (
    reset_capacity_warning_if_available (record t { contexts = map_delete request_id t.contexts }),
    listed (map_get request_id t.contexts),
  )

  abbrev pub get_all : RequestTracker R → List (RequestContext R)
  get_all t = map (λ e. e.1) t.contexts

  unfoldable pub get_summaries : RequestTracker R → List RequestSummary
  get_summaries t =
      map
        (λ e. record {
          request_id = e.1.request_id;
          method = e.1.method;
          url = e.1.url;
          start_time = e.1.start_time;
        })
        t.contexts

  abbrev pub get_count : RequestTracker R → ℕ
  get_count t = length t.contexts

  unfoldable pub shutdown : RequestTracker R → RequestTracker R
  shutdown t = record t { contexts = []; capacity_warning_active = false }

  -- `now - context.startTime > ttlNs`, whose difference may be negative.
  abbrev pub is_expired : ℕ → ℕ → RequestContext R → Bool
  is_expired ttl_ms now ctx = ltb (ctx.start_time + ttl_ms * 1000000) now

  -- The loop of `sweepExpired` over the entries, each deleted from the map by its key; the contexts
  -- handed to `onRemove` come with it.
  unfoldable pub sweep_entries :
      ℕ
      → ℕ
      → List (String × RequestContext R)
      → List (String × RequestContext R)
      → List (String × RequestContext R) × List (RequestContext R)
  sweep_entries ttl_ms now [] contexts = (contexts, [])
  sweep_entries ttl_ms now ((request_id, ctx) ∷ entries) contexts =
      let kept = sweep_entries ttl_ms now entries contexts in
      let swept = sweep_entries ttl_ms now entries (map_delete request_id contexts) in
      if is_expired ttl_ms now ctx then (swept.0, ctx ∷ swept.1) else kept

  unfoldable pub sweep_expired : ℕ → RequestTracker R → RequestTracker R × List (RequestContext R)
  unfolding sweep_entries reset_capacity_warning_if_available
  sweep_expired now t =
      let swept = sweep_entries t.ttl_ms now t.contexts t.contexts in
      (reset_capacity_warning_if_available (record t { contexts = swept.0 }), swept.1)
