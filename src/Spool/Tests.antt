-- ===== src/Spool/Tests.antt =====
-- Runs of the spool of src/spool/payload-spool.ts on small inputs.
use errorcore.Common.{ℕ, List, ◌≡◌, ◌⊎◌, none, some, [], ◌∷◌, keep_if, length, arith}
use errorcore.Buffer.Slot.{PayloadPreviewReason}
use errorcore.Spool.{
  PayloadSpool, PayloadSpoolStoreInput, Readings, active, new_payload_spool, sweep,
}
use errorcore.Spool.Store.{store}
use errorcore.Spool.Bounds.{Bounded, Sweeps, sweep-Sweeps, stays}
use errorcore.Spool.ReadBack.{read_back, store-get}
use errorcore.Spool.Runs.{
  Call, stores, marks, run, run-Bounded, run-new_payload_spool-Bounded, new_payload_spool-Bounded,
}

abbrev at_time : ℕ → Readings
at_time now = record {
  swept_at = now;
  now = now;
  heap_used = 10;
  heap_total = 100;
  transport_queue_depth = 0;
}

abbrev body : List ℕ → PayloadSpoolStoreInput
body bytes = record {
  request_id = some "a";
  lineage_id = none;
  mime_type = none;
  bytes = bytes;
  original_size = length bytes;
  sha256 = "";
  complete = none;
}

abbrev calls : List Call
calls = stores (at_time 0) (body (1 ∷ 2 ∷ [])) ∷ marks 5 "a" ∷ []

abbrev empty_spool : PayloadSpool
empty_spool = new_payload_spool 100 3 50 1 10

abbrev filled : PayloadSpool
filled = run calls empty_spool

filled-Bounded : Bounded filled
filled-Bounded =
    run-Bounded calls empty_spool (omega arith, (tt, tt)) (new_payload_spool-Bounded 100 3 50 1 10)

run-new_payload_spool-Bounded_example : Bounded (run calls (new_payload_spool 100 3 50 1 10))
run-new_payload_spool-Bounded_example =
    run-new_payload_spool-Bounded 100 3 50 1 10 calls (omega arith, (tt, tt))

sweep-Sweeps_example :
    Sweeps filled (sweep 16 filled) (keep_if (stays 16 filled.completed_ttl_ms) filled.entries)
sweep-Sweeps_example = sweep-Sweeps 16 filled filled-Bounded.accounts

store-get_example :
    ((read_back (store (at_time 1) (body (7 ∷ 8 ∷ [])) filled)
        ≡ some (record {
          ref = (store (at_time 1) (body (7 ∷ 8 ∷ [])) filled).ref;
          bytes = 7 ∷ 8 ∷ [];
          created_at_ms = 1;
          state = active;
        }))
      × ((store (at_time 1) (body (7 ∷ 8 ∷ [])) filled).ref.reason ≡ none))
    ⊎ ((read_back (store (at_time 1) (body (7 ∷ 8 ∷ [])) filled) ≡ none)
        × ((reason : PayloadPreviewReason) × ((store
                (at_time 1)
                (body (7 ∷ 8 ∷ []))
                filled).ref.reason
              ≡ some reason)))
store-get_example = store-get (at_time 1) (body (7 ∷ 8 ∷ [])) filled filled-Bounded.accounts
