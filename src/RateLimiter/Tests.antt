-- ===== src/RateLimiter/Tests.antt =====
-- Runs of the limiter of src/security/rate-limiter.ts on small inputs.
use errorcore.Common.{ℕ, ◌≤◌, ◌≡◌, refl, some, [], ◌∷◌, List, length, keep_if, arith}
use errorcore.RateLimiter.{RateLimiter, new_rate_limiter, try_acquire, get_and_reset_drop_summary}
use errorcore.RateLimiter.Window.{grants, grants-limit, in_window}
use errorcore.RateLimiter.Drops.{
  Drops, report, refusals, after_calls, drop_summary-Drops, new_rate_limiter-Drops,
}

abbrev limiter : RateLimiter
limiter = new_rate_limiter (some 2) (some 10)

abbrev call_times : List ℕ
call_times = 1 ∷ 5 ∷ 6 ∷ 11 ∷ 12 ∷ []

granted : grants call_times limiter ≡ 1 ∷ 5 ∷ 11 ∷ []
unfolding grants try_acquire new_rate_limiter
granted = refl

grants-limit_example : length (keep_if (in_window 10 11) (grants call_times limiter)) ≤ 2
grants-limit_example =
    grants-limit 2 10 0 call_times 11
      (omega arith, (omega arith, (omega arith, (omega arith, (omega arith, tt)))))

drop_summary-Drops_example :
    ((get_and_reset_drop_summary (after_calls call_times limiter)).1
      ≡ report (refusals call_times limiter))
    × Drops [] (get_and_reset_drop_summary (after_calls call_times limiter)).0
drop_summary-Drops_example =
    drop_summary-Drops call_times limiter (new_rate_limiter-Drops (some 2) (some 10))
