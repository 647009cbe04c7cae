-- ===== src/Spool/Bounds.antt =====
-- What `store` and `sweep` of src/spool/payload-spool.ts do to the entries, and the caps.
use Prim.Native.String.{String}
use errorcore.Common.{
  ℕ, ◌≤◌, ◌≡◌, refl, sym, ap, ◌∙◌, inl, inr, Bool, not, List, [], ◌∷◌, ◌++◌, append_assoc, keep_if,
  Bool-cases, arith,
}
use errorcore.Spool.{PayloadSpool, PayloadSpoolEntry, is_over, sweep, sweep_entries, delete_entry}
use errorcore.Spool.Accounts.{
  Accounts, bytes_of, total_bytes, bytes_of-keep_if, total_bytes-keep_if, delete_entry-Accounts,
}

abbrev pub stays : ℕ → ℕ → PayloadSpoolEntry → Bool
stays now ttl e = not (is_over now ttl e.state)

-- `s'` is `s` with other entries: its configuration and its counters of ids and
-- of previews are those of `s`.
pub record SameLimits (s s' : PayloadSpool) : Type 0 where
  pub global : s'.global_max_bytes ≡ s.global_max_bytes
  pub per_request : s'.per_request_max_bytes ≡ s.per_request_max_bytes
  pub per_blob : s'.per_blob_max_bytes ≡ s.per_blob_max_bytes
  pub preview : s'.preview_bytes ≡ s.preview_bytes
  pub ttl : s'.completed_ttl_ms ≡ s.completed_ttl_ms
  pub next : s'.next_blob_id ≡ s.next_blob_id
  pub previews : s'.preview_only_count ≡ s.preview_only_count

-- A sweep from the state `s`, with the entries `kept` left.
pub record Sweeps (s s' : PayloadSpool) (kept : List PayloadSpoolEntry) : Type 0 where
  pub accounts : Accounts s'
  pub entries : s'.entries ≡ kept
  pub limits : SameLimits s s'

sweep_entries-Sweeps :
    (now : ℕ) (pre es : List PayloadSpoolEntry) (s : PayloadSpool)
    → s.entries ≡ pre ++ es
    → Accounts s
    → Sweeps s (sweep_entries now es s) (pre ++ keep_if (stays now s.completed_ttl_ms) es)
unfolding sweep_entries delete_entry
sweep_entries-Sweeps now pre [] s at a = record {
  accounts = a;
  entries = at;
  limits = record {
    global = refl;
    per_request = refl;
    per_blob = refl;
    preview = refl;
    ttl = refl;
    next = refl;
    previews = refl;
  };
}
sweep_entries-Sweeps now pre (e ∷ es) s at a =
    elim (Bool-cases (is_over now s.completed_ttl_ms e.state)) [
      | inl over ↦
          let (a', at') = delete_entry-Accounts pre e es s at a in
          let w = sweep_entries-Sweeps now pre es (delete_entry e s) at' a' in
          rw over (record {
            accounts = w.accounts;
            entries = w.entries;
            limits = record {
              global = w.limits.global;
              per_request = w.limits.per_request;
              per_blob = w.limits.per_blob;
              preview = w.limits.preview;
              ttl = w.limits.ttl;
              next = w.limits.next;
              previews = w.limits.previews;
            };
          })
      | inr young ↦
          let w =
            sweep_entries-Sweeps now (pre ++ e ∷ []) es s (at ∙ sym (append_assoc pre (e ∷ []) es))
              a in
          rw young (record {
            accounts = w.accounts;
            entries =
                w.entries ∙ append_assoc pre (e ∷ []) (keep_if (stays now s.completed_ttl_ms) es);
            limits = w.limits;
          })
    ]

-- In a spool whose counters are right, a sweep removes the entries of completed requests whose time
-- is over, and no other, in one pass that leaves the others in order, both byte counters right, and
-- the limits (the time to live included) and the counters of ids and of previews as they were.
pub sweep-Sweeps :
    (now : ℕ) (s : PayloadSpool)
    → Accounts s
    → Sweeps s (sweep now s) (keep_if (stays now s.completed_ttl_ms) s.entries)
sweep-Sweeps now s a = sweep_entries-Sweeps now [] s.entries s refl a

-- The bytes of the entries are within the caps, in all and of each request.
pub record Bounded (s : PayloadSpool) : Type 0 where
  pub accounts : Accounts s
  pub in_all : s.used_bytes ≤ s.global_max_bytes
  pub of_request : (key : String) → bytes_of key s.entries ≤ s.per_request_max_bytes

pub sweep-Bounded : (now : ℕ) (s : PayloadSpool) → Bounded s → Bounded (sweep now s)
sweep-Bounded now s b =
    let w = sweep-Sweeps now s b.accounts in
    record {
      accounts = w.accounts;
      in_all = omega (
        arith,
        w.accounts.used,
        ap total_bytes w.entries,
        total_bytes-keep_if (stays now s.completed_ttl_ms) s.entries,
        b.accounts.used,
        b.in_all,
        w.limits.global,
      );
      of_request = λ key. omega (
        arith,
        ap (bytes_of key) w.entries,
        bytes_of-keep_if key (stays now s.completed_ttl_ms) s.entries,
        b.of_request key,
        w.limits.per_request,
      );
    }
