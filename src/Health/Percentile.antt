-- ===== src/Health/Percentile.antt =====
-- The percentiles of src/health/health-metrics.ts against the ranks of the samples.
use errorcore.Common.{
  ℕ, zero, suc, ◌+◌, ◌-◌, ◌*◌, ◌/◌, ◌≤◌, ◌<◌, ◌≡◌, refl, ◌∙◌, ap, inl, inr, Bool, true, false, List,
  [], ◌∷◌, length, keep_if, get_or, leb, ◌==◌, Bool-cases, arith, leb→le, not_leb→lt, le→leb,
}
use native.Mathlib.Nat.{div-le_of_le-mul, mul-le-mul_right}
use errorcore.Health.{HealthMetrics, get_latency_percentile, sort, insert_sorted}

abbrev pub count_if : (ℕ → Bool) → List ℕ → ℕ
count_if p xs = length (keep_if p xs)

abbrev pub at_most : ℕ → ℕ → Bool
at_most v x = leb x v

abbrev pub at_least : ℕ → ℕ → Bool
at_least v x = leb v x

-- Increasing, from `low` on.
abbrev IsSorted : ℕ → List ℕ → Type 0
IsSorted low [] = Unit {0}
IsSorted low (x ∷ xs) = (low ≤ x) × IsSorted x xs

insert_sorted-IsSorted :
    (low x : ℕ) (xs : List ℕ) → low ≤ x → IsSorted low xs → IsSorted low (insert_sorted x xs)
unfolding insert_sorted
insert_sorted-IsSorted low x [] h s = (h, tt)
insert_sorted-IsSorted low x (y ∷ ys) h (le, s) = elim (Bool-cases (leb x y)) [
  | inl e ↦ rw e (h, (leb→le x y e, s))
  | inr e ↦ let lt = not_leb→lt x y e in rw e (le, insert_sorted-IsSorted y x ys (omega arith) s)
]

sort-IsSorted : (xs : List ℕ) → IsSorted 0 (sort xs)
unfolding sort
sort-IsSorted [] = tt
sort-IsSorted (x ∷ xs) = insert_sorted-IsSorted 0 x (sort xs) (omega arith) (sort-IsSorted xs)

count_if-insert_sorted :
    (p : ℕ → Bool) (x : ℕ) (xs : List ℕ) → count_if p (insert_sorted x xs) ≡ count_if p (x ∷ xs)
unfolding insert_sorted
count_if-insert_sorted p x [] = refl
count_if-insert_sorted p x (y ∷ ys) = ground (arith, count_if-insert_sorted p x ys)

count_if-sort : (p : ℕ → Bool) (xs : List ℕ) → count_if p (sort xs) ≡ count_if p xs
unfolding sort
count_if-sort p [] = refl
count_if-sort p (x ∷ xs) = count_if-insert_sorted p x (sort xs) ∙ ground (arith, count_if-sort p xs)

length-insert_sorted : (x : ℕ) (xs : List ℕ) → length (insert_sorted x xs) ≡ suc (length xs)
unfolding insert_sorted
length-insert_sorted x [] = refl
length-insert_sorted x (y ∷ ys) = ground (arith, length-insert_sorted x ys)

length-sort : (xs : List ℕ) → length (sort xs) ≡ length xs
unfolding sort
length-sort [] = refl
length-sort (x ∷ xs) = length-insert_sorted x (sort xs) ∙ ap suc (length-sort xs)

low_bound : (low i : ℕ) (xs : List ℕ) → IsSorted low xs → i < length xs → low ≤ get_or xs i 0
low_bound low i [] s h = elim h [ ]
low_bound low zero (x ∷ xs) (le, s) h = le
low_bound low (suc i) (x ∷ xs) (le, s) h = omega (arith, low_bound x i xs s (omega arith))

rank_below :
    (low i : ℕ) (xs : List ℕ)
    → IsSorted low xs
    → i < length xs
    → i + 1 ≤ count_if (at_most (get_or xs i 0)) xs
rank_below low i [] s h = elim h [ ]
rank_below low zero (x ∷ xs) (le, s) h = let e : leb x x ≡ true = ground arith in rw e (omega arith)
rank_below low (suc i) (x ∷ xs) (le, s) h =
    let e : leb x (get_or xs i 0) ≡ true = le→leb _ _ (low_bound x i xs s (omega arith)) in
    rw e (omega (arith, rank_below x i xs s (omega arith)))

all_above :
    (low v : ℕ) (xs : List ℕ) → IsSorted low xs → v ≤ low → count_if (at_least v) xs ≡ length xs
all_above low v [] s h = refl
all_above low v (x ∷ xs) (le, s) h =
    let e : leb v x ≡ true = le→leb v x (omega arith) in
    rw e (ap suc (all_above x v xs s (omega arith)))

rank_above :
    (low i : ℕ) (xs : List ℕ)
    → IsSorted low xs
    → i < length xs
    → length xs ≤ i + count_if (at_least (get_or xs i 0)) xs
rank_above low i [] s h = elim h [ ]
rank_above low zero (x ∷ xs) (le, s) h =
    let e : leb x x ≡ true = ground arith in rw e (omega (arith, all_above x x xs s (omega arith)))
rank_above low (suc i) (x ∷ xs) (le, s) h = ground (arith, rank_above x i xs s (omega arith))

abbrev pub rank_of : ℕ → ℕ → HealthMetrics → ℕ
rank_of p q m = p * (length m.latency_samples - 1) / q

-- When there is a sample and the fraction `p / q` is at most 1: with `k` the whole part of
-- `p / q * (n - 1)` for `n` samples, at least `k + 1` samples are at most the percentile and at least
-- `n - k` are at least the percentile.
pub get_latency_percentile-rank :
    (p q : ℕ) (m : HealthMetrics)
    → p ≤ q
    → 0 < q
    → 0 < length m.latency_samples
    → (rank_of p q m + 1 ≤ count_if (at_most (get_latency_percentile p q m)) m.latency_samples)
      × (length m.latency_samples
          ≤ rank_of p q m + count_if (at_least (get_latency_percentile p q m)) m.latency_samples)
unfolding get_latency_percentile
get_latency_percentile-rank p q m le pos some_sample =
    let xs = m.latency_samples in
    let e : (length xs == 0) ≡ false = ground arith in
    let k = rank_of p q m in
    let v = get_or (sort xs) k 0 in
    let last : k ≤ length xs - 1 = div-le_of_le-mul q (mul-le-mul_right (length xs - 1) le) in
    let within : k < length (sort xs) = omega (arith, last, length-sort xs) in
    rw e (
      omega
          (arith, rank_below 0 k (sort xs) (sort-IsSorted xs) within, count_if-sort (at_most v) xs),
      omega (
        arith,
        rank_above 0 k (sort xs) (sort-IsSorted xs) within,
        count_if-sort (at_least v) xs,
        length-sort xs,
      ),
    )
