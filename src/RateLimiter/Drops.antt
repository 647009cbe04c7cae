-- ===== src/RateLimiter/Drops.antt =====
-- What src/security/rate-limiter.ts reports of the captures it refused.
use errorcore.Common.{
  ℕ, ◌≡◌, refl, sym, inl, inr, Bool, true, false, Option, none, some, List, [], ◌∷◌, ◌++◌,
  append_assoc, append-nil, ltb, ◌==◌, min, length, length-append, keep_if, Bool-cases, arith,
}
use errorcore.Clock.{max_safe_integer}
use errorcore.RateLimiter.{
  RateLimiter, RateLimiterDropSummary, try_acquire, get_and_reset_drop_summary, drop_capture,
  is_recent, new_rate_limiter,
}

abbrev pub first_of : List ℕ → Option ℕ
first_of [] = none
first_of (x ∷ xs) = some x

abbrev pub last_of : List ℕ → Option ℕ
last_of [] = none
last_of (x ∷ []) = some x
last_of (x ∷ y ∷ xs) = last_of (y ∷ xs)

-- The limiter has refused the calls at the times `ds` since the last summary.
pub record Drops (ds : List ℕ) (r : RateLimiter) : Type 0 where
  pub count : r.dropped_since_last_acquire ≡ min max_safe_integer (length ds)
  pub first : r.first_drop_timestamp ≡ first_of ds
  pub last : r.last_drop_timestamp ≡ last_of ds

-- The summary of the calls that were refused.
abbrev pub report : List ℕ → Option RateLimiterDropSummary
report [] = none
report (d ∷ ds) = some (record {
  dropped_count = min max_safe_integer (length (d ∷ ds));
  first_drop_ms = some d;
  last_drop_ms = last_of (d ∷ ds);
})

abbrev refused_now : ℕ → Bool → List ℕ
refused_now now true = []
refused_now now false = now ∷ []

-- The times at which `tryAcquire` says no, of the times at which it is called, and the state after
-- the calls.
unfoldable pub refusals : List ℕ → RateLimiter → List ℕ
refusals [] r = []
refusals (now ∷ nows) r =
    refused_now now (try_acquire now r).1 ++ refusals nows (try_acquire now r).0

unfoldable pub after_calls : List ℕ → RateLimiter → RateLimiter
after_calls [] r = r
after_calls (now ∷ nows) r = after_calls nows (try_acquire now r).0

last_of-append : (ds : List ℕ) (now : ℕ) → last_of (ds ++ now ∷ []) ≡ some now
last_of-append [] now = refl
last_of-append (d ∷ []) now = refl
last_of-append (d ∷ e ∷ ds) now = last_of-append (e ∷ ds) now

drop_capture-Drops :
    (now : ℕ) (ds : List ℕ) (r : RateLimiter)
    → Drops ds r
    → Drops (ds ++ now ∷ []) (drop_capture now r)
drop_capture-Drops now [] r d = record {
  count = ground (arith, d.count);
  first = rw d.first refl;
  last = refl;
}
drop_capture-Drops now (x ∷ ds) r d = record {
  count = ground (arith, d.count, length-append (x ∷ ds) (now ∷ []));
  first = rw d.first refl;
  last = sym (last_of-append (x ∷ ds) now);
}

try_acquire-Drops :
    (now : ℕ) (ds : List ℕ) (r : RateLimiter)
    → Drops ds r
    → Drops (ds ++ refused_now now (try_acquire now r).1) (try_acquire now r).0
unfolding try_acquire
try_acquire-Drops now ds r d =
    let recent = keep_if (is_recent r.window_ms now) r.timestamps in
    elim (Bool-cases (ltb (length recent) r.max_captures)) [
      | inl e ↦ rw (e, append-nil ds) (record { count = d.count; first = d.first; last = d.last })
      | inr e ↦ rw e (
          drop_capture-Drops now ds (record r { timestamps = recent })
            (record { count = d.count; first = d.first; last = d.last }))
    ]

after_calls-Drops :
    (nows ds : List ℕ) (r : RateLimiter)
    → Drops ds r
    → Drops (ds ++ refusals nows r) (after_calls nows r)
unfolding refusals after_calls
after_calls-Drops [] ds r d = rw (append-nil ds) d
after_calls-Drops (now ∷ nows) ds r d =
    rw
      (sym (
        append_assoc ds (refused_now now (try_acquire now r).1)
          (refusals nows (try_acquire now r).0)))
      (after_calls-Drops nows _ _ (try_acquire-Drops now ds r d))

summary-report :
    (ds : List ℕ) (r : RateLimiter)
    → Drops ds r
    → ((get_and_reset_drop_summary r).1 ≡ report ds) × Drops [] (get_and_reset_drop_summary r).0
unfolding get_and_reset_drop_summary
summary-report [] r d =
    let e : (r.dropped_since_last_acquire == 0) ≡ true = ground (arith, d.count) in rw e (refl, d)
summary-report (x ∷ ds) r d =
    let e : (r.dropped_since_last_acquire == 0) ≡ false = ground (arith, d.count) in
    rw (e, d.count, d.first, d.last) (refl, record { count = refl; first = refl; last = refl })

-- When nothing refused is left to report, then after calls of `tryAcquire` at any times
-- `getAndResetDropSummary` returns null if none was refused, and else how many were, up to the largest
-- safe integer, and the times of the first and the last of them; nothing is left to report then.
pub drop_summary-Drops :
    (nows : List ℕ) (r : RateLimiter)
    → Drops [] r
    → ((get_and_reset_drop_summary (after_calls nows r)).1 ≡ report (refusals nows r))
      × Drops [] (get_and_reset_drop_summary (after_calls nows r)).0
drop_summary-Drops nows r d =
    summary-report (refusals nows r) (after_calls nows r) (after_calls-Drops nows [] r d)

pub new_rate_limiter-Drops : (m w : Option ℕ) → Drops [] (new_rate_limiter m w)
unfolding new_rate_limiter
new_rate_limiter-Drops m w = record { count = refl; first = refl; last = refl }
