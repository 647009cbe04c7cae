-- ===== src/Spool/ReadBack.antt =====
-- What `store` of src/spool/payload-spool.ts keeps can be read back by `get`.
use errorcore.Common.{◌≡◌, refl, inl, inr, ◌⊎◌, Option, none, some, min, length, take, Option-cases}
use errorcore.Spool.{
  PayloadSpool, PayloadSpoolEntry, PayloadSpoolStoreInput, Readings, sweep, active, get,
  get_pressure_level,
}
use errorcore.Buffer.Slot.{PayloadPreviewReason}
use errorcore.Spool.Store.{StoreResult, store, keep_whole, keep_preview, preview_reason, build_ref}
use errorcore.Spool.Entries.{find_blob-append, find_blob-high}
use errorcore.Spool.Accounts.{Accounts}
use errorcore.Spool.Bounds.{sweep-Sweeps}
use errorcore.Spool.Stored.{stored_entry}

-- The entry that a call of `store` leaves under the id of its `ref`.
abbrev pub read_back : StoreResult → Option PayloadSpoolEntry
read_back r = get r.ref.blob_id r.after

-- In a spool whose counters are right, either the body is read back whole under the id of the `ref`
-- that `store` returns, and that `ref` gives no reason for a preview, or nothing stands under that id,
-- and the `ref` gives the reason.
pub store-get :
    (r : Readings) (input : PayloadSpoolStoreInput) (s : PayloadSpool)
    → Accounts s
    → ((read_back (store r input s)
          ≡ some (record {
            ref = (store r input s).ref;
            bytes = input.bytes;
            created_at_ms = r.now;
            state = active;
          }))
        × ((store r input s).ref.reason ≡ none))
      ⊎ ((read_back (store r input s) ≡ none)
          × ((reason : PayloadPreviewReason) × ((store r input s).ref.reason ≡ some reason)))
unfolding store keep_whole keep_preview build_ref
store-get r input s a =
    let swept = sweep r.swept_at s in
    let w = sweep-Sweeps r.swept_at s a in
    let level = get_pressure_level r swept in
    let shown = take (min (length input.bytes) swept.preview_bytes) input.bytes in
    elim (Option-cases (preview_reason level input swept)) [
      | inl e ↦
          rw (e, store)
            (inl (
              find_blob-append 0 swept.next_blob_id swept.entries
                  (stored_entry r.now input (length shown) swept) refl w.accounts.ids,
              refl,
            ))
      | inr (reason, e) ↦
          rw (e, store)
            (inr (find_blob-high 0 swept.next_blob_id swept.entries w.accounts.ids, (reason, refl)))
    ]
