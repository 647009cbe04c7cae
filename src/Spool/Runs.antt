-- ===== src/Spool/Runs.antt =====
-- The caps of src/spool/payload-spool.ts over any history of calls.
use Prim.Native.String.{String}
use errorcore.Common.{
  ℕ, ◌+◌, ◌≤◌, ◌≡◌, refl, sym, ap, ap₂, subst, inl, inr, List, [], ◌∷◌, map, length, Bool-cases,
  arith,
}
use errorcore.Spool.{
  PayloadSpool, PayloadSpoolEntry, PayloadSpoolStoreInput, Readings, blob_of, completed,
  is_of_request, mark_request_complete, new_payload_spool, sweep,
}
use errorcore.Spool.Store.{store}
use errorcore.Spool.Entries.{Rises}
use errorcore.Spool.Accounts.{share, bytes_of, total_bytes}
use errorcore.Spool.Bounds.{Bounded, sweep-Bounded}
use errorcore.Spool.Stored.{store-Bounded}

-- Completion changes nothing that the counters or the ids depend on.
record Same (e e' : PayloadSpoolEntry) : Type 0 where
  ref : e'.ref ≡ e.ref
  bytes : e'.bytes ≡ e.bytes

completed-Same : (now : ℕ) (id : String) (e : PayloadSpoolEntry) → Same e (completed now id e)
completed-Same now id e = elim (Bool-cases (is_of_request id e)) [
  | inl h ↦ rw h (record { ref = refl; bytes = refl })
  | inr h ↦ rw h (record { ref = refl; bytes = refl })
]

Rises-completed :
    (now : ℕ) (id : String) (low high : ℕ) (es : List PayloadSpoolEntry)
    → Rises low es high
    → Rises low (map (completed now id) es) high
Rises-completed now id low high [] r = r
Rises-completed now id low high (e ∷ es) (le, r) =
    let same = ap (λ x. x.blob_id) (completed-Same now id e).ref in
    (
      omega (arith, same),
      subst (λ n. Rises (n + 1) (map (completed now id) es) high) (sym same)
          (Rises-completed now id (blob_of e + 1) high es r),
    )

total_bytes-completed :
    (now : ℕ) (id : String) (es : List PayloadSpoolEntry)
    → total_bytes (map (completed now id) es) ≡ total_bytes es
total_bytes-completed now id [] = refl
total_bytes-completed now id (e ∷ es) =
    omega (arith, ap length (completed-Same now id e).bytes, total_bytes-completed now id es)

share-completed :
    (now : ℕ) (id key : String) (e : PayloadSpoolEntry)
    → share key (completed now id e) ≡ share key e
share-completed now id key e = elim (Bool-cases (is_of_request id e)) [
  | inl h ↦ rw h refl
  | inr h ↦ rw h refl
]

bytes_of-completed :
    (now : ℕ) (id key : String) (es : List PayloadSpoolEntry)
    → bytes_of key (map (completed now id) es) ≡ bytes_of key es
bytes_of-completed now id key [] = refl
bytes_of-completed now id key (e ∷ es) =
    ap₂ (λ a b. a + b) (share-completed now id key e) (bytes_of-completed now id key es)

mark-Bounded :
    (now : ℕ) (id : String) (s : PayloadSpool)
    → Bounded s
    → Bounded (mark_request_complete now id s)
unfolding mark_request_complete
mark-Bounded now id s b = record {
  accounts = record {
    ids = Rises-completed now id 0 s.next_blob_id s.entries b.accounts.ids;
    used = omega (arith, total_bytes-completed now id s.entries, b.accounts.used);
    requests =
        λ key. omega (arith, bytes_of-completed now id key s.entries, b.accounts.requests key);
    keys = b.accounts.keys;
  };
  in_all = b.in_all;
  of_request = λ key. omega (arith, bytes_of-completed now id key s.entries, b.of_request key);
}

-- A call that changes the spool.
pub data Call : Type 0 where
  stores : Readings → PayloadSpoolStoreInput → Call
  marks : ℕ → String → Call
  sweeps : ℕ → Call

abbrev pub step : Call → PayloadSpool → PayloadSpool
step (stores r input) s = (store r input s).after
step (marks now id) s = mark_request_complete now id s
step (sweeps now) s = sweep now s

unfoldable pub run : List Call → PayloadSpool → PayloadSpool
run [] s = s
run (c ∷ cs) s = run cs (step c s)

-- A body is not larger than the original of which it is the captured part.
abbrev pub IsSized : Call → Type 0
IsSized (stores r input) = length input.bytes ≤ input.original_size
IsSized (marks now id) = Unit {0}
IsSized (sweeps now) = Unit {0}

abbrev pub AreSized : List Call → Type 0
AreSized [] = Unit {0}
AreSized (c ∷ cs) = IsSized c × AreSized cs

step-Bounded : (c : Call) (s : PayloadSpool) → IsSized c → Bounded s → Bounded (step c s)
step-Bounded (stores r input) s sized b = store-Bounded r input s b sized
step-Bounded (marks now id) s sized b = mark-Bounded now id s b
step-Bounded (sweeps now) s sized b = sweep-Bounded now s b

pub run-Bounded : (cs : List Call) (s : PayloadSpool) → AreSized cs → Bounded s → Bounded (run cs s)
unfolding run
run-Bounded [] s sized b = b
run-Bounded (c ∷ cs) s (sized, rest) b = run-Bounded cs (step c s) rest (step-Bounded c s sized b)

pub new_payload_spool-Bounded :
    (global per_request per_blob shown ttl : ℕ)
    → Bounded (new_payload_spool global per_request per_blob shown ttl)
new_payload_spool-Bounded global per_request per_blob shown ttl = record {
  accounts = record { ids = omega arith; used = refl; requests = λ key. refl; keys = tt };
  in_all = omega arith;
  of_request = λ key. omega arith;
}

-- From a new spool, after any calls of `store`, `markRequestComplete` and `sweep` in which no body is
-- larger than its original: `usedBytes` is the size of the entries and at most `globalMaxBytes`; for
-- each request `requestBytes` is the size of its entries and at most `perRequestMaxBytes`; and the
-- blob ids of the entries differ, and are below the next.
pub run-new_payload_spool-Bounded :
    (global per_request per_blob shown ttl : ℕ) (cs : List Call)
    → AreSized cs
    → Bounded (run cs (new_payload_spool global per_request per_blob shown ttl))
run-new_payload_spool-Bounded global per_request per_blob shown ttl cs sized =
    run-Bounded cs _ sized (new_payload_spool-Bounded global per_request per_blob shown ttl)
