-- ===== src/Spool/Entries.antt =====
-- The entries of src/spool/payload-spool.ts stand in the order of their blob ids.
use errorcore.Common.{
  ℕ, ◌+◌, ◌≤◌, ◌≡◌, refl, ap, true, false, none, some, List, [], ◌∷◌, ◌++◌, ◌==◌, arith,
}
use errorcore.Spool.{PayloadSpoolEntry, blob_of, delete_blob, find_blob}

-- The ids rise from `low` on and stay below `high`.
abbrev pub Rises : ℕ → List PayloadSpoolEntry → ℕ → Type 0
Rises low [] high = low ≤ high
Rises low (e ∷ es) high = (low ≤ blob_of e) × Rises (blob_of e + 1) es high

pub Rises-lower :
    (low low' high : ℕ) (es : List PayloadSpoolEntry)
    → low' ≤ low
    → Rises low es high
    → Rises low' es high
Rises-lower low low' high [] h r = omega arith
Rises-lower low low' high (e ∷ es) h (le, r) = (omega arith, r)

Rises-low :
    (low high : ℕ) (pre : List PayloadSpoolEntry) (e : PayloadSpoolEntry)
    (es : List PayloadSpoolEntry)
    → Rises low (pre ++ e ∷ es) high
    → low ≤ blob_of e
Rises-low low high [] e es (le, r) = le
Rises-low low high (x ∷ pre) e es (le, r) = omega (arith, Rises-low (blob_of x + 1) high pre e es r)

pub Rises-remove :
    (low high : ℕ) (pre : List PayloadSpoolEntry) (e : PayloadSpoolEntry)
    (es : List PayloadSpoolEntry)
    → Rises low (pre ++ e ∷ es) high
    → Rises low (pre ++ es) high
Rises-remove low high [] e es (le, r) = Rises-lower (blob_of e + 1) low high es (omega arith) r
Rises-remove low high (x ∷ pre) e es (le, r) = (le, Rises-remove (blob_of x + 1) high pre e es r)

pub Rises-append :
    (low high : ℕ) (es : List PayloadSpoolEntry) (e : PayloadSpoolEntry)
    → blob_of e ≡ high
    → Rises low es high
    → Rises low (es ++ e ∷ []) (high + 1)
Rises-append low high [] e h r = (omega arith, omega arith)
Rises-append low high (x ∷ es) e h (le, r) = (le, Rises-append (blob_of x + 1) high es e h r)

Rises-wide : (low high : ℕ) (es : List PayloadSpoolEntry) → Rises low es high → low ≤ high
Rises-wide low high [] r = r
Rises-wide low high (e ∷ es) (le, r) = omega (arith, Rises-wide (blob_of e + 1) high es r)

pub delete_blob-middle :
    (low high : ℕ) (pre : List PayloadSpoolEntry) (e : PayloadSpoolEntry)
    (es : List PayloadSpoolEntry)
    → Rises low (pre ++ e ∷ es) high
    → delete_blob (blob_of e) (pre ++ e ∷ es) ≡ pre ++ es
delete_blob-middle low high [] e es r =
    let same : (blob_of e == blob_of e) ≡ true = ground arith in rw same refl
delete_blob-middle low high (x ∷ pre) e es (le, r) =
    let lt = Rises-low (blob_of x + 1) high pre e es r in
    let other : (blob_of e == blob_of x) ≡ false = ground arith in
    rw other (ap (λ es'. x ∷ es') (delete_blob-middle (blob_of x + 1) high pre e es r))

pub find_blob-append :
    (low high : ℕ) (es : List PayloadSpoolEntry) (e : PayloadSpoolEntry)
    → blob_of e ≡ high
    → Rises low es high
    → find_blob high (es ++ e ∷ []) ≡ some e
unfolding find_blob
find_blob-append low high [] e h r =
    let same : (high == blob_of e) ≡ true = ground arith in rw same refl
find_blob-append low high (x ∷ es) e h (le, r) =
    let lt = Rises-wide (blob_of x + 1) high es r in
    let other : (high == blob_of x) ≡ false = ground arith in
    rw other (find_blob-append (blob_of x + 1) high es e h r)

pub find_blob-high :
    (low high : ℕ) (es : List PayloadSpoolEntry) → Rises low es high → find_blob high es ≡ none
unfolding find_blob
find_blob-high low high [] r = refl
find_blob-high low high (x ∷ es) (le, r) =
    let lt = Rises-wide (blob_of x + 1) high es r in
    let other : (high == blob_of x) ≡ false = ground arith in
    rw other (find_blob-high (blob_of x + 1) high es r)
