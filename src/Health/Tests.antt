-- ===== src/Health/Tests.antt =====
-- Runs of the metrics of src/health/health-metrics.ts on small inputs.
use errorcore.Common.{◌+◌, ◌≤◌, ◌≡◌, refl, [], ◌∷◌, length, arith}
use errorcore.Health.{
  HealthMetrics, new_health_metrics, get_latency_percentile, sort, insert_sorted,
  record_flush_latency,
}
use errorcore.Health.Latency.{Keeps, record_latencies, record_latencies-Keeps}
use errorcore.Health.Percentile.{rank_of, count_if, at_most, at_least, get_latency_percentile-rank}

record_latencies-Keeps_example :
    Keeps (9 ∷ 4 ∷ 6 ∷ []) (record_latencies (9 ∷ 4 ∷ 6 ∷ []) new_health_metrics)
record_latencies-Keeps_example = record_latencies-Keeps (9 ∷ 4 ∷ 6 ∷ [])

median : get_latency_percentile 50 100 (record_latencies (9 ∷ 4 ∷ 6 ∷ []) new_health_metrics) ≡ 6
unfolding get_latency_percentile record_latencies record_flush_latency sort insert_sorted
median = refl

abbrev metrics : HealthMetrics
metrics = record_latencies (9 ∷ 4 ∷ 6 ∷ []) new_health_metrics

get_latency_percentile-rank_example :
    (rank_of 50 100 metrics + 1
      ≤ count_if (at_most (get_latency_percentile 50 100 metrics)) metrics.latency_samples)
    × (length metrics.latency_samples
        ≤ rank_of 50 100 metrics
          + count_if (at_least (get_latency_percentile 50 100 metrics)) metrics.latency_samples)
get_latency_percentile-rank_example =
    get_latency_percentile-rank 50 100 metrics (omega arith) (omega arith)
      (unfold record_latencies record_flush_latency in omega arith)
