-- ===== src/Health.antt =====
-- src/health/health-metrics.ts: the counters and latency samples of the SDK itself.
pub mod Latency
pub mod Percentile
mod Tests
use Prim.Native.String.{String}
use errorcore.Common.{
  ℕ, zero, suc, ◌+◌, ◌-◌, ◌*◌, ◌/◌, ◌%◌, Option, none, some, List, [], ◌∷◌, ◌++◌, ltb, leb, ◌==◌,
  if◌then◌else◌, length, set, get_or,
}

abbrev pub latency_capacity : ℕ
latency_capacity = 512

-- `slice` to `FAILURE_REASON_MAX_LENGTH` UTF-16 units is the parameter `slice`.
abbrev pub failure_reason_max_length : ℕ
failure_reason_max_length = 200

pub record HealthMetrics : Type 0 where
  pub captured : ℕ
  pub dropped_rate_limited : ℕ
  pub dropped_deduplicated : ℕ
  pub dropped_capture_failed : ℕ
  pub dropped_dlq_write_failed : ℕ
  pub transport_failures : ℕ
  pub payload_spool_pressure_warnings : ℕ
  pub payload_spool_preview_fallbacks : ℕ
  pub payload_spool_drops : ℕ
  pub latency_samples : List ℕ
  pub latency_write_idx : ℕ
  pub last_failure_reason : Option String
  pub last_failure_at : Option ℕ

abbrev pub new_health_metrics : HealthMetrics
new_health_metrics = record {
  captured = 0;
  dropped_rate_limited = 0;
  dropped_deduplicated = 0;
  dropped_capture_failed = 0;
  dropped_dlq_write_failed = 0;
  transport_failures = 0;
  payload_spool_pressure_warnings = 0;
  payload_spool_preview_fallbacks = 0;
  payload_spool_drops = 0;
  latency_samples = [];
  latency_write_idx = 0;
  last_failure_reason = none;
  last_failure_at = none;
}

-- The methods that change the metrics, with their arguments.
pub data Recording : Type 0 where
  captured dropped_rate_limited dropped_deduplicated dropped_capture_failed : Recording
  dropped_dlq_write_failed : Recording
  transport_failure : String → ℕ → Recording
  payload_spool_pressure payload_spool_preview_fallback payload_spool_drop : Recording
  flush_latency : ℕ → Recording

unfoldable pub record_flush_latency : ℕ → HealthMetrics → HealthMetrics
record_flush_latency ms m =
    if ltb (length m.latency_samples) latency_capacity
    then record m {
      latency_samples = m.latency_samples ++ ms ∷ [];
      latency_write_idx = (length m.latency_samples + 1) % latency_capacity;
    }
    else record m {
      latency_samples = set m.latency_samples m.latency_write_idx ms;
      latency_write_idx = (m.latency_write_idx + 1) % latency_capacity;
    }

module _ (slice : ℕ → String → String) where
  unfoldable pub record_one : Recording → HealthMetrics → HealthMetrics
  unfolding record_flush_latency
  record_one captured m = record m { captured = m.captured + 1 }
  record_one dropped_rate_limited m = record m { dropped_rate_limited = m.dropped_rate_limited + 1 }
  record_one dropped_deduplicated m = record m { dropped_deduplicated = m.dropped_deduplicated + 1 }
  record_one dropped_capture_failed m = record m {
    dropped_capture_failed = m.dropped_capture_failed + 1;
  }
  record_one dropped_dlq_write_failed m = record m {
    dropped_dlq_write_failed = m.dropped_dlq_write_failed + 1;
  }
  record_one (transport_failure reason at) m = record m {
    transport_failures = m.transport_failures + 1;
    last_failure_reason = some (slice failure_reason_max_length reason);
    last_failure_at = some at;
  }
  record_one payload_spool_pressure m = record m {
    payload_spool_pressure_warnings = m.payload_spool_pressure_warnings + 1;
  }
  record_one payload_spool_preview_fallback m = record m {
    payload_spool_preview_fallbacks = m.payload_spool_preview_fallbacks + 1;
  }
  record_one payload_spool_drop m = record m { payload_spool_drops = m.payload_spool_drops + 1 }
  record_one (flush_latency ms) m = record_flush_latency ms m

-- `sort` by increasing value, as an insertion.
unfoldable pub insert_sorted : ℕ → List ℕ → List ℕ
insert_sorted x [] = x ∷ []
insert_sorted x (y ∷ ys) = if leb x y then x ∷ y ∷ ys else y ∷ insert_sorted x ys

unfoldable pub sort : List ℕ → List ℕ
sort [] = []
sort (x ∷ xs) = insert_sorted x (sort xs)

-- The fraction `p` is `numerator / denominator`.
unfoldable pub get_latency_percentile : ℕ → ℕ → HealthMetrics → ℕ
get_latency_percentile numerator denominator m =
    if length m.latency_samples == 0
    then 0
    else get_or (sort m.latency_samples) (numerator * (length m.latency_samples - 1) / denominator)
        0

pub record DroppedBreakdown : Type 0 where
  pub rate_limited : ℕ
  pub deduplicated : ℕ
  pub capture_failed : ℕ
  pub dead_letter_write_failed : ℕ

unfoldable pub get_dropped_breakdown : HealthMetrics → DroppedBreakdown
get_dropped_breakdown m = record {
  rate_limited = m.dropped_rate_limited;
  deduplicated = m.dropped_deduplicated;
  capture_failed = m.dropped_capture_failed;
  dead_letter_write_failed = m.dropped_dlq_write_failed;
}

pub record PayloadSpoolBreakdown : Type 0 where
  pub pressure_warnings : ℕ
  pub preview_fallbacks : ℕ
  pub drops : ℕ

unfoldable pub get_payload_spool_breakdown : HealthMetrics → PayloadSpoolBreakdown
get_payload_spool_breakdown m = record {
  pressure_warnings = m.payload_spool_pressure_warnings;
  preview_fallbacks = m.payload_spool_preview_fallbacks;
  drops = m.payload_spool_drops;
}

pub record LastFailureSample : Type 0 where
  pub reason : Option String
  pub at : Option ℕ

unfoldable pub get_last_failure : HealthMetrics → LastFailureSample
get_last_failure m = record { reason = m.last_failure_reason; at = m.last_failure_at }
