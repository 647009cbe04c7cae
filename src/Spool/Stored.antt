-- ===== src/Spool/Stored.antt =====
-- `store` of src/spool/payload-spool.ts keeps within the caps, and what it keeps can be read back.
use Prim.Native.String.{String}
use errorcore.Common.{
  ℕ, ◌+◌, ◌≤◌, ◌≡◌, refl, sym, subst, ◌∙◌, inl, inr, none, List, [], ◌∷◌, ◌++◌, min, if◌then◌else◌,
  length, take, str_eq, str_eq_iff, map_get-map_set_self, map_get-map_set_ne, map_set,
  map_set-HasDistinctKeys, Bool-cases, Option-cases, arith,
}
use errorcore.Spool.{
  PayloadSpool, PayloadSpoolEntry, PayloadSpoolStoreInput, Readings, PayloadPressureLevel, normal,
  degraded, critical, request_key, sweep, active, get_pressure_level, blob_of,
}
use errorcore.Buffer.Slot.{PayloadPreviewReason, spool}
use errorcore.Spool.Store.{
  store, keep_whole, keep_preview, preview_reason, cap_reason, request_used, build_ref,
  effective_per_request_cap,
}
use errorcore.Spool.Entries.{Rises, Rises-append}
use errorcore.Spool.Accounts.{
  Accounts, share, bytes_of, counted, bytes_of-append, total_bytes-append,
}
use errorcore.Spool.Bounds.{Bounded, sweep-Bounded}

-- The body fits in what the caps leave.
abbrev Fits : PayloadSpoolStoreInput → PayloadSpool → Type 0
Fits input s =
    (request_used input s + input.original_size ≤ s.per_request_max_bytes)
    × (s.used_bytes + input.original_size ≤ s.global_max_bytes)

cap_reason-Fits :
    (level : PayloadPressureLevel) (input : PayloadSpoolStoreInput) (s : PayloadSpool)
    → cap_reason level input s ≡ none
    → effective_per_request_cap level s ≤ s.per_request_max_bytes
    → Fits input s
cap_reason-Fits level input s h cap = ground arith

preview_reason-Fits :
    (level : PayloadPressureLevel) (input : PayloadSpoolStoreInput) (s : PayloadSpool)
    → preview_reason level input s ≡ none
    → Fits input s
unfolding preview_reason effective_per_request_cap
preview_reason-Fits critical input s h = ground arith
preview_reason-Fits degraded input s h = cap_reason-Fits degraded input s h (omega arith)
preview_reason-Fits normal input s h = cap_reason-Fits normal input s h (omega arith)

-- What `store` adds to the entries.
abbrev pub stored_entry : ℕ → PayloadSpoolStoreInput → ℕ → PayloadSpool → PayloadSpoolEntry
stored_entry now input shown s = record {
  ref = build_ref input s.next_blob_id spool shown none;
  bytes = input.bytes;
  created_at_ms = now;
  state = active;
}

share-stored :
    (key : String) (now : ℕ) (input : PayloadSpoolStoreInput) (shown : ℕ) (s : PayloadSpool)
    → share key (stored_entry now input shown s)
      ≡ (if str_eq key (request_key input.request_id) then length input.bytes else 0)
unfolding build_ref
share-stored key now input shown s = refl

requests_raised :
    (key : String) (now : ℕ) (input : PayloadSpoolStoreInput) (shown : ℕ) (s : PayloadSpool)
    → Accounts s
    → counted key (
        map_set
          (request_key input.request_id)
          (request_used input s + length input.bytes)
          s.request_bytes)
      ≡ bytes_of key (s.entries ++ stored_entry now input shown s ∷ [])
requests_raised key now input shown s a =
    let e = stored_entry now input shown s in
    let sum = bytes_of-append key s.entries (e ∷ []) in
    let part = share-stored key now input shown s in
    elim (Bool-cases (str_eq key (request_key input.request_id))) [
      | inl same ↦
          let own = request_key input.request_id in
          let p : key ≡ own = (str_eq_iff key own).0 same in
          let m = map_set own (request_used input s + length input.bytes) s.request_bytes in
          let new : counted key m ≡ request_used input s + length input.bytes =
            subst (λ k. counted k m ≡ request_used input s + length input.bytes) (sym p)
              (rw
                (map_get-map_set_self own (request_used input s + length input.bytes)
                  s.request_bytes)
                refl) in
          let old : bytes_of key s.entries ≡ request_used input s =
            subst (λ k. bytes_of k s.entries ≡ request_used input s) (sym p)
              (sym (a.requests own)) in
          let taken : share key e ≡ length input.bytes = part ∙ rw same refl in
          omega (arith, new, old, taken, sum)
      | inr other ↦
          let taken : share key e ≡ 0 = part ∙ rw other refl in
          rw
            (map_get-map_set_ne key (request_key input.request_id)
              (request_used input s + length input.bytes) s.request_bytes other)
            (omega (arith, a.requests key, taken, sum))
    ]

whole-Accounts :
    (level : PayloadPressureLevel) (now : ℕ) (input : PayloadSpoolStoreInput) (shown : List ℕ)
    (s : PayloadSpool)
    → Accounts s
    → Accounts (keep_whole level now input shown s).after
unfolding keep_whole build_ref
whole-Accounts level now input shown s a =
    let e = stored_entry now input (length shown) s in
    record {
      ids = Rises-append 0 s.next_blob_id s.entries e refl a.ids;
      used = omega (arith, a.used, total_bytes-append s.entries (e ∷ []));
      requests = λ key. requests_raised key now input (length shown) s a;
      keys = map_set-HasDistinctKeys (request_key input.request_id) _ s.request_bytes a.keys;
    }

share-le :
    (key : String) (now : ℕ) (input : PayloadSpoolStoreInput) (shown : ℕ) (s : PayloadSpool)
    → Accounts s
    → Fits input s
    → length input.bytes ≤ input.original_size
    → bytes_of key s.entries ≤ s.per_request_max_bytes
    → bytes_of key s.entries + share key (stored_entry now input shown s) ≤ s.per_request_max_bytes
share-le key now input shown s a (fits, _) sized bound =
    let part = share-stored key now input shown s in
    elim (Bool-cases (str_eq key (request_key input.request_id))) [
      | inl same ↦
          let own = request_key input.request_id in
          let p : key ≡ own = (str_eq_iff key own).0 same in
          let old : bytes_of key s.entries ≡ request_used input s =
            subst (λ k. bytes_of k s.entries ≡ request_used input s) (sym p)
              (sym (a.requests own)) in
          let taken : share key (stored_entry now input shown s) ≡ length input.bytes =
            part ∙ rw same refl in
          omega (arith, old, taken, fits)
      | inr other ↦
          let taken : share key (stored_entry now input shown s) ≡ 0 = part ∙ rw other refl in
          omega (arith, taken, bound)
    ]

whole-Bounded :
    (level : PayloadPressureLevel) (now : ℕ) (input : PayloadSpoolStoreInput) (shown : List ℕ)
    (s : PayloadSpool)
    → Bounded s
    → Fits input s
    → length input.bytes ≤ input.original_size
    → Bounded (keep_whole level now input shown s).after
unfolding keep_whole build_ref
whole-Bounded level now input shown s b fits sized =
    let e = stored_entry now input (length shown) s in
    record {
      accounts = whole-Accounts level now input shown s b.accounts;
      in_all = omega (arith, fits.1);
      of_request = λ key. omega (
        arith,
        bytes_of-append key s.entries (e ∷ []),
        share-le key now input (length shown) s b.accounts fits sized (b.of_request key),
      );
    }

preview-Bounded :
    (level : PayloadPressureLevel) (reason : PayloadPreviewReason) (input : PayloadSpoolStoreInput)
    (shown : List ℕ) (s : PayloadSpool)
    → Bounded s
    → Bounded (keep_preview level reason input shown s).after
unfolding keep_preview
preview-Bounded level reason input shown s b = record {
  accounts = record {
    ids = widen s.entries 0 s.next_blob_id b.accounts.ids;
    used = b.accounts.used;
    requests = b.accounts.requests;
    keys = b.accounts.keys;
  };
  in_all = b.in_all;
  of_request = b.of_request;
}
  where
    widen :
        (es : List PayloadSpoolEntry) (low high : ℕ) → Rises low es high → Rises low es (high + 1)
    widen [] low high r = omega arith
    widen (x ∷ es) low high (le, r) = (le, widen es (blob_of x + 1) high r)

pub store-Bounded :
    (r : Readings) (input : PayloadSpoolStoreInput) (s : PayloadSpool)
    → Bounded s
    → length input.bytes ≤ input.original_size
    → Bounded (store r input s).after
unfolding store
store-Bounded r input s b sized =
    let swept = sweep r.swept_at s in
    let b' = sweep-Bounded r.swept_at s b in
    let level = get_pressure_level r swept in
    let shown = take (min (length input.bytes) swept.preview_bytes) input.bytes in
    elim (Option-cases (preview_reason level input swept)) [
      | inl e ↦
          rw (e, store)
            (whole-Bounded level r.now input shown swept b'
              (preview_reason-Fits level input swept e) sized)
      | inr (reason, e) ↦ rw (e, store) (preview-Bounded level reason input shown swept b')
    ]
