-- ===== src/Spool/Accounts.antt =====
-- The byte counters of src/spool/payload-spool.ts against its entries.
use Prim.Native.String.{String}
use errorcore.Common.{
  ℕ, ◌+◌, ◌-◌, ◌≤◌, ◌≡◌, refl, sym, ap, subst, ◌∙◌, inl, inr, Bool, false, List, [], ◌∷◌, ◌++◌,
  ◌==◌, if◌then◌else◌, or_else, length, keep_if, map_get, HasDistinctKeys, str_eq, str_eq_refl,
  str_eq_iff, map_get-map_set_self, map_get-map_set_ne, map_get-map_delete_self,
  map_get-map_delete_ne, map_set-HasDistinctKeys, map_delete-HasDistinctKeys, Bool-cases, arith,
}
use errorcore.Spool.{
  PayloadSpool, PayloadSpoolEntry, request_key, blob_of, delete_blob, delete_entry,
  lower_request_bytes,
}
use errorcore.Spool.Entries.{Rises, Rises-remove, delete_blob-middle}

abbrev pub key_of : PayloadSpoolEntry → String
key_of e = request_key e.ref.request_id

-- What an entry takes of the budget of a request.
abbrev pub share : String → PayloadSpoolEntry → ℕ
share key e = if str_eq key (key_of e) then length e.bytes else 0

abbrev pub bytes_of : String → List PayloadSpoolEntry → ℕ
bytes_of key [] = 0
bytes_of key (e ∷ es) = share key e + bytes_of key es

abbrev pub total_bytes : List PayloadSpoolEntry → ℕ
total_bytes [] = 0
total_bytes (e ∷ es) = length e.bytes + total_bytes es

abbrev pub counted : String → List (String × ℕ) → ℕ
counted key m = or_else (map_get key m) 0

-- The ids rise and are used up, and both counters count the bytes of the entries.
pub record Accounts (s : PayloadSpool) : Type 0 where
  pub ids : Rises 0 s.entries s.next_blob_id
  pub used : s.used_bytes ≡ total_bytes s.entries
  pub requests : (key : String) → counted key s.request_bytes ≡ bytes_of key s.entries
  pub keys : HasDistinctKeys s.request_bytes

pub bytes_of-append :
    (key : String) (xs ys : List PayloadSpoolEntry)
    → bytes_of key (xs ++ ys) ≡ bytes_of key xs + bytes_of key ys
bytes_of-append key [] ys = omega arith
bytes_of-append key (x ∷ xs) ys = omega (arith, bytes_of-append key xs ys)

pub total_bytes-append :
    (xs ys : List PayloadSpoolEntry) → total_bytes (xs ++ ys) ≡ total_bytes xs + total_bytes ys
total_bytes-append [] ys = omega arith
total_bytes-append (x ∷ xs) ys = omega (arith, total_bytes-append xs ys)

pub bytes_of-keep_if :
    (key : String) (p : PayloadSpoolEntry → Bool) (es : List PayloadSpoolEntry)
    → bytes_of key (keep_if p es) ≤ bytes_of key es
bytes_of-keep_if key p [] = omega arith
bytes_of-keep_if key p (e ∷ es) = elim (Bool-cases (p e)) [
  | inl h ↦ rw h (omega (arith, bytes_of-keep_if key p es))
  | inr h ↦ rw h (omega (arith, bytes_of-keep_if key p es))
]

pub total_bytes-keep_if :
    (p : PayloadSpoolEntry → Bool) (es : List PayloadSpoolEntry)
    → total_bytes (keep_if p es) ≤ total_bytes es
total_bytes-keep_if p [] = omega arith
total_bytes-keep_if p (e ∷ es) = elim (Bool-cases (p e)) [
  | inl h ↦ rw h (omega (arith, total_bytes-keep_if p es))
  | inr h ↦ rw h (omega (arith, total_bytes-keep_if p es))
]

counted-lower_self :
    (key : String) (n : ℕ) (m : List (String × ℕ))
    → HasDistinctKeys m
    → counted key (lower_request_bytes key n m) ≡ counted key m - n
counted-lower_self key n m d = elim (Bool-cases (counted key m - n == 0)) [
  | inl e ↦
      let zero_left : counted key m - n ≡ 0 = ground arith in
      rw (e, map_get-map_delete_self key m d) (sym zero_left)
  | inr e ↦ rw (e, map_get-map_set_self key (counted key m - n) m) refl
]

counted-lower_ne :
    (key other : String) (n : ℕ) (m : List (String × ℕ))
    → str_eq key other ≡ false
    → counted key (lower_request_bytes other n m) ≡ counted key m
counted-lower_ne key other n m ne = elim (Bool-cases (counted other m - n == 0)) [
  | inl e ↦ rw (e, map_get-map_delete_ne key other m ne) refl
  | inr e ↦ rw (e, map_get-map_set_ne key other (counted other m - n) m ne) refl
]

lower-HasDistinctKeys :
    (key : String) (n : ℕ) (m : List (String × ℕ))
    → HasDistinctKeys m
    → HasDistinctKeys (lower_request_bytes key n m)
lower-HasDistinctKeys key n m d = elim (Bool-cases (counted key m - n == 0)) [
  | inl e ↦ rw e (map_delete-HasDistinctKeys key m d)
  | inr e ↦ rw e (map_set-HasDistinctKeys key (counted key m - n) m d)
]

bytes_of-middle :
    (key : String) (pre : List PayloadSpoolEntry) (e : PayloadSpoolEntry)
    (es : List PayloadSpoolEntry)
    → bytes_of key (pre ++ e ∷ es) ≡ share key e + bytes_of key (pre ++ es)
bytes_of-middle key pre e es =
    omega (arith, bytes_of-append key pre (e ∷ es), bytes_of-append key pre es)

requests_lowered :
    (key : String) (pre : List PayloadSpoolEntry) (e : PayloadSpoolEntry)
    (es : List PayloadSpoolEntry) (m : List (String × ℕ))
    → HasDistinctKeys m
    → ((k : String) → counted k m ≡ bytes_of k (pre ++ e ∷ es))
    → counted key (lower_request_bytes (key_of e) (length e.bytes) m) ≡ bytes_of key (pre ++ es)
requests_lowered key pre e es m d count = elim (Bool-cases (str_eq key (key_of e))) [
  | inl same ↦
      let p : key ≡ key_of e = (str_eq_iff key (key_of e)).0 same in
      let own : share (key_of e) e ≡ length e.bytes = rw (str_eq_refl (key_of e)) refl in
      let at_own : counted (key_of e) (lower_request_bytes (key_of e) (length e.bytes) m)
          ≡ bytes_of (key_of e) (pre ++ es) =
        omega (
          arith,
          counted-lower_self (key_of e) (length e.bytes) m d,
          count (key_of e),
          bytes_of-middle (key_of e) pre e es,
          own,
        ) in
      subst
        (λ k.
          counted k (lower_request_bytes (key_of e) (length e.bytes) m) ≡ bytes_of k (pre ++ es))
        (sym p) at_own
  | inr other ↦
      let none_taken : share key e ≡ 0 = rw other refl in
      omega (
        arith,
        counted-lower_ne key (key_of e) (length e.bytes) m other,
        count key,
        bytes_of-middle key pre e es,
        none_taken,
      )
]

pub delete_entry-Accounts :
    (pre : List PayloadSpoolEntry) (e : PayloadSpoolEntry) (es : List PayloadSpoolEntry)
    (s : PayloadSpool)
    → s.entries ≡ pre ++ e ∷ es
    → Accounts s
    → Accounts (delete_entry e s) × ((delete_entry e s).entries ≡ pre ++ es)
unfolding delete_entry
delete_entry-Accounts pre e es s at a =
    let rises = subst (λ xs. Rises 0 xs s.next_blob_id) at a.ids in
    let left : delete_blob (blob_of e) s.entries ≡ pre ++ es =
      ap (delete_blob (blob_of e)) at ∙ delete_blob-middle 0 s.next_blob_id pre e es rises in
    (
      record {
        ids =
            subst (λ xs. Rises 0 xs s.next_blob_id) (sym left)
              (Rises-remove 0 s.next_blob_id pre e es rises);
        used = omega (
          arith,
          a.used,
          ap total_bytes at,
          ap total_bytes left,
          total_bytes-append pre (e ∷ es),
          total_bytes-append pre es,
        );
        requests = λ key.
            requests_lowered key pre e es s.request_bytes a.keys
              (λ k. a.requests k ∙ ap (bytes_of k) at)
            ∙ sym (ap (bytes_of key) left);
        keys = lower-HasDistinctKeys (key_of e) (length e.bytes) s.request_bytes a.keys;
      },
      left,
    )
