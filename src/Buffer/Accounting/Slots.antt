-- ===== src/Buffer/Accounting/Slots.antt =====
-- Counting the slots of an array, and the sizes that they report.
use errorcore.Common.{
  ℕ, zero, suc, ◌+◌, ◌≤◌, ◌<◌, ◌≡◌, ◌≢◌, refl, Option, none, some, List, [], ◌∷◌, arith, length,
  set, replicate,
}
use errorcore.Buffer.Slot.{IoEventSlot}
use errorcore.Buffer.{slot_at}

abbrev pub live : List (Option IoEventSlot) → ℕ
live [] = 0
live (none ∷ xs) = live xs
live (some s ∷ xs) = suc (live xs)

abbrev pub bytes_in : List (Option IoEventSlot) → ℕ
bytes_in [] = 0
bytes_in (none ∷ xs) = bytes_in xs
bytes_in (some s ∷ xs) = s.estimated_bytes + bytes_in xs

pub slot_at-lt :
    (xs : List (Option IoEventSlot)) (i : ℕ) {s : IoEventSlot}
    → slot_at xs i ≡ some s
    → i < length xs
slot_at-lt [] i e = cc
slot_at-lt (x ∷ xs) zero e = omega arith
slot_at-lt (x ∷ xs) (suc i) e = omega (arith, slot_at-lt xs i e)

pub slot_at-le :
    (xs : List (Option IoEventSlot)) (i : ℕ) {s : IoEventSlot}
    → slot_at xs i ≡ some s
    → (0 < live xs) × (s.estimated_bytes ≤ bytes_in xs)
slot_at-le [] i e = cc
slot_at-le (x ∷ xs) zero e = ground arith
slot_at-le (none ∷ xs) (suc i) e = slot_at-le xs i e
slot_at-le (some t ∷ xs) (suc i) e = ground (arith, slot_at-le xs i e)

pub live-pos :
    (xs : List (Option IoEventSlot))
    → 0 < live xs
    → (i : ℕ) × (s : IoEventSlot) × (slot_at xs i ≡ some s)
live-pos [] h = elim h [ ]
live-pos (some s ∷ xs) h = (0, s, refl)
live-pos (none ∷ xs) h = let (i, s, e) = live-pos xs h in (suc i, s, e)

-- Writing null over a slot.
pub set-none :
    (xs : List (Option IoEventSlot)) (i : ℕ) {s : IoEventSlot}
    → slot_at xs i ≡ some s
    → (suc (live (set xs i none)) ≡ live xs)
      × (bytes_in (set xs i none) + s.estimated_bytes ≡ bytes_in xs)
set-none [] i e = cc
set-none (none ∷ xs) zero e = cc
set-none (some t ∷ xs) zero e = ground arith
set-none (none ∷ xs) (suc i) e = set-none xs i e
set-none (some t ∷ xs) (suc i) e = ground (arith, set-none xs i e)

-- Writing a slot over another.
pub set-some :
    (xs : List (Option IoEventSlot)) (i : ℕ) {s : IoEventSlot} (t : IoEventSlot)
    → slot_at xs i ≡ some s
    → (live (set xs i (some t)) ≡ live xs)
      × (bytes_in (set xs i (some t)) + s.estimated_bytes ≡ bytes_in xs + t.estimated_bytes)
set-some [] i t e = cc
set-some (none ∷ xs) zero t e = cc
set-some (some u ∷ xs) zero t e = ground arith
set-some (none ∷ xs) (suc i) t e = set-some xs i t e
set-some (some u ∷ xs) (suc i) t e = ground (arith, set-some xs i t e)

-- Writing a slot over null.
pub set-free :
    (xs : List (Option IoEventSlot)) (i : ℕ) (t : IoEventSlot)
    → slot_at xs i ≡ none
    → i < length xs
    → (live (set xs i (some t)) ≡ suc (live xs))
      × (bytes_in (set xs i (some t)) ≡ bytes_in xs + t.estimated_bytes)
set-free [] i t e h = elim h [ ]
set-free (none ∷ xs) zero t e h = ground arith
set-free (some u ∷ xs) zero t e h = cc
set-free (none ∷ xs) (suc i) t e h = set-free xs i t e (omega arith)
set-free (some u ∷ xs) (suc i) t e h = ground (arith, set-free xs i t e)

pub live-replicate : (n : ℕ) → live (replicate n none) ≡ 0
live-replicate zero = refl
live-replicate (suc n) = live-replicate n

pub bytes_in-replicate : (n : ℕ) → bytes_in (replicate n none) ≡ 0
bytes_in-replicate zero = refl
bytes_in-replicate (suc n) = bytes_in-replicate n

pub slot_at-replicate : (n i : ℕ) → ◌≡◌ {A = Option IoEventSlot} (slot_at (replicate n none) i) none
slot_at-replicate zero i = refl
slot_at-replicate (suc n) zero = refl
slot_at-replicate (suc n) (suc i) = slot_at-replicate n i

-- An array without a slot counts nothing.
pub bytes_in-empty : (xs : List (Option IoEventSlot)) → live xs ≡ 0 → bytes_in xs ≡ 0
bytes_in-empty [] h = refl
bytes_in-empty (none ∷ xs) h = bytes_in-empty xs h
bytes_in-empty (some s ∷ xs) h = absurd (omega arith)

-- What is left in the array after one entry is nulled stood there before, elsewhere.
pub slot_at-nulled :
    (xs : List (Option IoEventSlot)) (i j : ℕ) {t : IoEventSlot}
    → slot_at (set xs i none) j ≡ some t
    → (j ≢ i) × (slot_at xs j ≡ some t)
slot_at-nulled [] i j e = cc
slot_at-nulled (x ∷ xs) zero zero e = cc
slot_at-nulled (x ∷ xs) zero (suc j) e = (omega arith, e)
slot_at-nulled (x ∷ xs) (suc i) zero e = (omega arith, e)
slot_at-nulled (x ∷ xs) (suc i) (suc j) e = let (n, f) = slot_at-nulled xs i j e in (omega arith, f)
