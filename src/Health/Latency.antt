-- ===== src/Health/Latency.antt =====
-- The latency samples that src/health/health-metrics.ts keeps.
use errorcore.Common.{
  ℕ, zero, suc, ◌+◌, ◌%◌, ◌<◌, ◌≡◌, refl, sym, ◌∙◌, ap, ap₂, false_ne_true, lt→ltb, inl, inr, ◌⊎◌,
  List, [], ◌∷◌, ◌++◌, append_assoc, append-nil, length, length-append, length-set, take, drop, set,
  ltb, min, Bool-cases, arith, ltb→lt,
}
use errorcore.Health.{HealthMetrics, new_health_metrics, record_flush_latency, latency_capacity}

-- The samples in the order of their recording: from the write index on, then those before it.
abbrev pub chronological : HealthMetrics → List ℕ
chronological m =
    drop m.latency_write_idx m.latency_samples ++ take m.latency_write_idx m.latency_samples

drop-all : (xs : List ℕ) → drop (length xs) xs ≡ []
drop-all [] = refl
drop-all (x ∷ xs) = drop-all xs

take-all : (xs : List ℕ) → take (length xs) xs ≡ xs
take-all [] = refl
take-all (x ∷ xs) = ap (λ ys. x ∷ ys) (take-all xs)

drop-set : (i v : ℕ) (xs : List ℕ) → drop (suc i) (set xs i v) ≡ drop (suc i) xs
drop-set i v [] = refl
drop-set zero v (x ∷ xs) = refl
drop-set (suc i) v (x ∷ xs) = drop-set i v xs

take-set : (i v : ℕ) (xs : List ℕ) → i < length xs → take (suc i) (set xs i v) ≡ take i xs ++ v ∷ []
take-set i v [] h = elim h [ ]
take-set zero v (x ∷ xs) h = refl
take-set (suc i) v (x ∷ xs) h = ap (λ ys. x ∷ ys) (take-set i v xs (omega arith))

drop-split : (i : ℕ) (xs : List ℕ) → i < length xs → (x : ℕ) × (drop i xs ≡ x ∷ drop (suc i) xs)
drop-split i [] h = elim h [ ]
drop-split zero (x ∷ xs) h = (x, refl)
drop-split (suc i) (x ∷ xs) h = drop-split i xs (omega arith)

-- `recorded` is what was recorded; the samples are its end, all of it while there is room.
pub record Keeps (recorded : List ℕ) (m : HealthMetrics) : Type 0 where
  pub size : length m.latency_samples ≡ min latency_capacity (length recorded)
  pub index :
      ((length m.latency_samples < latency_capacity)
        × (m.latency_write_idx ≡ length m.latency_samples))
      ⊎ ((length m.latency_samples ≡ latency_capacity) × (m.latency_write_idx < latency_capacity))
  pub older : List ℕ
  pub split : recorded ≡ older ++ chronological m

-- At an index that is the length, or 0, the order is that of the array.
whole : (xs : List ℕ) (i : ℕ) → (i ≡ length xs) ⊎ (i ≡ 0) → drop i xs ++ take i xs ≡ xs
whole xs i (inl e) = rw (e, drop-all xs, take-all xs) refl
whole xs i (inr e) = rw e (append-nil xs)

-- The next index.
next_index :
    (n : ℕ)
    → n < latency_capacity
    → ((n + 1 < latency_capacity) × ((n + 1) % latency_capacity ≡ n + 1))
      ⊎ ((n + 1 ≡ latency_capacity) × ((n + 1) % latency_capacity ≡ 0))
next_index n h = ground arith

appended-Keeps :
    (ms : ℕ) (recorded : List ℕ) (m : HealthMetrics)
    → length m.latency_samples < latency_capacity
    → Keeps recorded m
    → Keeps (recorded ++ ms ∷ []) (record m {
      latency_samples = m.latency_samples ++ ms ∷ [];
      latency_write_idx = (length m.latency_samples + 1) % latency_capacity;
    })
appended-Keeps ms recorded m room k =
    let n = length m.latency_samples in
    let size' = length-append m.latency_samples (ms ∷ []) in
    let at : m.latency_write_idx ≡ n = elim k.index [ inl (_, e) ↦ e | inr (e, _) ↦ omega arith ] in
    let next = next_index n room in
    record {
      size = omega (arith, k.size, size', length-append recorded (ms ∷ []));
      index = elim next [
        | inl (lt, e) ↦ inl (omega (arith, size'), omega (arith, size', e))
        | inr (eq, e) ↦ inr (omega (arith, size'), omega (arith, e))
      ];
      older = k.older;
      split =
          ap (λ xs. xs ++ ms ∷ []) k.split
          ∙ append_assoc k.older (chronological m) (ms ∷ [])
          ∙ ap (λ xs. k.older ++ xs)
              (ap (λ xs. xs ++ ms ∷ []) (whole m.latency_samples m.latency_write_idx (inl at))
                ∙ sym (
                    whole (m.latency_samples ++ ms ∷ []) ((n + 1) % latency_capacity) (elim next [
                      | inl (lt, e) ↦ inl (omega (arith, size', e))
                      | inr (eq, e) ↦ inr e
                    ])));
    }

overwritten-Keeps :
    (ms : ℕ) (recorded : List ℕ) (m : HealthMetrics)
    → length m.latency_samples ≡ latency_capacity
    → m.latency_write_idx < latency_capacity
    → Keeps recorded m
    → Keeps (recorded ++ ms ∷ []) (record m {
      latency_samples = set m.latency_samples m.latency_write_idx ms;
      latency_write_idx = (m.latency_write_idx + 1) % latency_capacity;
    })
overwritten-Keeps ms recorded m full lt k =
    let i = m.latency_write_idx in
    let xs = m.latency_samples in
    let (x, at) = drop-split i xs (omega (arith, full)) in
    let xs' = set xs i ms in
    let size' = length-set xs i ms in
    let next = next_index i lt in
    let j = (i + 1) % latency_capacity in
    let order : drop j xs' ++ take j xs' ≡ drop (suc i) xs' ++ take (suc i) xs' = elim next [
      | inl (_, e) ↦ let e' : j ≡ suc i = omega (arith, e) in ap (λ n. drop n xs' ++ take n xs') e'
      | inr (eq, e) ↦
          whole xs' j (inr e) ∙ sym (whole xs' (suc i) (inl (omega (arith, size', full, eq))))
    ] in
    let order' : drop j xs' ++ take j xs' ≡ drop (suc i) xs ++ (take i xs ++ ms ∷ []) =
      order ∙ ap₂ (λ a b. a ++ b) (drop-set i ms xs) (take-set i ms xs (omega (arith, full))) in
    let old : chronological m ≡ x ∷ (drop (suc i) xs ++ take i xs) =
      ap (λ ys. ys ++ take i xs) at in
    record {
      size = omega (arith, k.size, size', full, length-append recorded (ms ∷ []));
      index = inr (
        size' ∙ full,
        elim next [ inl (lt', e) ↦ omega (arith, e) | inr (eq, e) ↦ omega (arith, e) ],
      );
      older = k.older ++ x ∷ [];
      split =
          ap (λ ys. ys ++ ms ∷ []) (k.split ∙ ap (λ ys. k.older ++ ys) old)
          ∙ append_assoc k.older (x ∷ (drop (suc i) xs ++ take i xs)) (ms ∷ [])
          ∙ ap (λ ys. k.older ++ x ∷ ys)
              (append_assoc (drop (suc i) xs) (take i xs) (ms ∷ []) ∙ sym order')
          ∙ sym (append_assoc k.older (x ∷ []) (drop j xs' ++ take j xs'));
    }

record_flush_latency-Keeps :
    (ms : ℕ) (recorded : List ℕ) (m : HealthMetrics)
    → Keeps recorded m
    → Keeps (recorded ++ ms ∷ []) (record_flush_latency ms m)
unfolding record_flush_latency
record_flush_latency-Keeps ms recorded m k =
    elim (Bool-cases (ltb (length m.latency_samples) latency_capacity)) [
      | inl e ↦ rw e (appended-Keeps ms recorded m (ltb→lt _ _ e) k)
      | inr e ↦ rw e (elim k.index [
        | inl (lt, _) ↦
            absurd (false_ne_true (sym e ∙ lt→ltb (length m.latency_samples) latency_capacity lt))
        | inr (full, lt) ↦ overwritten-Keeps ms recorded m full lt k
      ])
    ]

unfoldable pub record_latencies : List ℕ → HealthMetrics → HealthMetrics
record_latencies [] m = m
record_latencies (ms ∷ rest) m = record_latencies rest (record_flush_latency ms m)

latencies-Keeps :
    (samples recorded : List ℕ) (m : HealthMetrics)
    → Keeps recorded m
    → Keeps (recorded ++ samples) (record_latencies samples m)
unfolding record_latencies
latencies-Keeps [] recorded m k = rw (append-nil recorded) k
latencies-Keeps (ms ∷ rest) recorded m k = rw (sym (append_assoc recorded (ms ∷ []) rest)) (
    latencies-Keeps rest (recorded ++ ms ∷ []) (record_flush_latency ms m)
      (record_flush_latency-Keeps ms recorded m k))

-- After any calls of `recordFlushLatency` on new metrics, the samples kept, read from the write
-- index on and around, are the end of what was recorded, in its order: the last 512, or all of it
-- while there are fewer.
pub record_latencies-Keeps :
    (samples : List ℕ) → Keeps samples (record_latencies samples new_health_metrics)
record_latencies-Keeps samples =
    latencies-Keeps samples [] new_health_metrics
      (record { size = omega arith; index = inl (omega arith, refl); older = []; split = refl })
