-- ===== src/Buffer/Log.antt =====
-- The eviction log of src/buffer/io-event-buffer.ts keeps the last hundred evictions.
use native.Mathlib.Decide.{ℕ_discrete}
use errorcore.Common.{
  ℕ, suc, ◌+◌, ◌-◌, ◌%◌, ◌≤◌, ◌<◌, ◌≡◌, refl, sym, ap, subst, subst₂, ◌∙◌, min, Bool, true, Option,
  none, some, List, [], ◌∷◌, ◌++◌, map, map-append, append_assoc, arith, length, set, replicate,
  leb, length-set, length-drop, length-append, length-replicate, inl, inr, Bool-cases, leb→le,
  not_leb→lt,
}
use errorcore.Buffer.Slot.{IoEventSlot, EvictionRecord}
use errorcore.Buffer.Cells.{
  cells, somes, cells-set, cells_next, cells_round, cells-append, length-cells, collect-somes,
}
use errorcore.Buffer.Queue.{somes-some}
use errorcore.Buffer.Queries.{last}
use errorcore.Buffer.Reads.{get_eviction_log}
use errorcore.Buffer.{
  IoEventBuffer, slot_at, eviction_log_capacity, eviction_record, evict_index, new_buffer,
}

-- The log holds the records of `h`, the last of all `eviction_count` evictions.
pub record Logs (b : IoEventBuffer) (h : List EvictionRecord) : Type 0 where
  pub size : length b.eviction_slots ≡ eviction_log_capacity
  pub heads : b.eviction_write_head ≡ b.eviction_count
  pub kept : length h ≡ min b.eviction_count eviction_log_capacity
  pub layout :
      cells b.eviction_slots eviction_log_capacity b.eviction_write_head eviction_log_capacity
      ≡ replicate (eviction_log_capacity - length h) none ++ map some h

module _ {ℓ} {A : Type ℓ} where
  append_suffix : (xs ys zs ws : List A) → xs ++ ys ≡ zs ++ ws → length xs ≡ length zs → ys ≡ ws
  append_suffix [] ys [] ws e l = e
  append_suffix [] ys (z ∷ zs) ws e l = absurd (omega arith)
  append_suffix (x ∷ xs) ys [] ws e l = absurd (omega arith)
  append_suffix (x ∷ xs) ys (z ∷ zs) ws e l = append_suffix xs ys zs ws (cc) (omega arith)

  first : (xs : List A) → 0 < length xs → (x : A) × (ys : List A) × (xs ≡ x ∷ ys)
  first [] h = elim h [ ]
  first (x ∷ ys) h = (x, ys, refl)

module _ {ℓ} {A : Type ℓ} where
  -- The window moves on by one: its first entry goes and the new one comes at the end.
  abbrev window : ℕ → List A → List (Option A)
  window cap h = replicate (cap - length h) none ++ map some h

  shift_full :
      (cap : ℕ) (h : List A) (a : A) (x : Option A) (xs : List (Option A))
      → length h ≡ cap
      → 0 < cap
      → window cap h ≡ x ∷ xs
      → xs ++ some a ∷ [] ≡ window cap (last cap (h ++ a ∷ []))
  shift_full cap [] a x xs f p e = absurd (omega arith)
  shift_full cap (y ∷ h) a x xs f p e =
      let one : suc (length (h ++ a ∷ [])) - cap ≡ 1 = omega (arith, length-append h (a ∷ [])) in
      let none_free : cap - suc (length h) ≡ 0 = omega arith in
      let still_full : cap - length (h ++ a ∷ []) ≡ 0 = omega (arith, length-append h (a ∷ [])) in
      let t : map some h ≡ xs = cc (rw none_free at e) in
      rw one (rw (still_full, map-append some h (a ∷ []), ← t))

  shift_room :
      (cap : ℕ) (h : List A) (a : A) (x : Option A) (xs : List (Option A))
      → length h < cap
      → window cap h ≡ x ∷ xs
      → xs ++ some a ∷ [] ≡ window cap (last cap (h ++ a ∷ []))
  shift_room cap h a x xs lt e =
      let zero_more : length (h ++ a ∷ []) - cap ≡ 0 = omega (arith, length-append h (a ∷ [])) in
      let free : cap - length h ≡ suc (cap - length (h ++ a ∷ [])) =
        omega (arith, length-append h (a ∷ [])) in
      let t : replicate (cap - length (h ++ a ∷ [])) none ++ map some h ≡ xs = cc (rw free at e) in
      rw zero_more (rw (map-append some h (a ∷ []), ← t) (append_assoc _ (map some h) _))

  shift :
      (cap : ℕ) (h : List A) (a : A) (x : Option A) (xs : List (Option A))
      → length h ≤ cap
      → 0 < cap
      → window cap h ≡ x ∷ xs
      → xs ++ some a ∷ [] ≡ window cap (last cap (h ++ a ∷ []))
  shift cap h a x xs le p e = elim (ℕ_discrete (length h) cap) [
    | yes full ↦ shift_full cap h a x xs full p e
    | no room ↦ shift_room cap h a x xs (omega arith) e
  ]

  length-last : (n : ℕ) (xs : List A) → length (last n xs) ≡ min (length xs) n
  length-last n xs = omega (arith, length-drop (length xs - n) xs)

  -- A ring of a window, written at its cursor.
  ring_write :
      (slots : List (Option A)) (cap cursor : ℕ) (h : List A) (a : A)
      → length slots ≡ cap
      → 0 < cap
      → length h ≤ cap
      → cells slots cap cursor cap ≡ window cap h
      → cells (set slots (cursor % cap) (some a)) cap (cursor + 1) cap
        ≡ window cap (last cap (h ++ a ∷ []))
  ring_write slots cap cursor h a size p le layout =
      let (x, xs, front) =
        first (cells slots cap cursor cap) (omega (arith, length-cells slots cap cursor cap)) in
      let written : cells (set slots (cursor % cap) (some a)) cap cursor cap ≡ some a ∷ xs =
        cells-set slots cap cursor cap cursor (some a) size (omega arith) (omega arith)
          (omega arith)
        ∙ (let here : cursor - cursor ≡ 0 = omega arith in rw (here, front)) in
      cells_next (set slots (cursor % cap) (some a)) cap cursor written
      ∙ shift cap h a x xs le p (sym layout ∙ front)

  -- A ring that has not come round yet, read from its start.
  ring_start :
      (slots : List (Option A)) (cap : ℕ) (h : List A)
      → length h ≤ cap
      → cells slots cap (length h) cap ≡ window cap h
      → cells slots cap 0 (length h) ≡ map some h
  ring_start slots cap h le layout =
      let split : cap ≡ cap - length h + length h = omega arith in
      let round : length h + (cap - length h) ≡ 0 + cap = omega arith in
      sym (cells_round slots cap 0 (length h))
      ∙ ap (λ k. cells slots cap k (length h)) (sym round)
      ∙ append_suffix (cells slots cap (length h) (cap - length h)) _
          (replicate (cap - length h) none) (map some h)
          (sym (cells-append slots cap (length h) (cap - length h) (length h))
            ∙ ap (cells slots cap (length h)) (sym split)
            ∙ layout)
          (length-cells slots cap (length h) (cap - length h)
            ∙ sym (length-replicate (cap - length h) none))

-- `getEvictionLog` returns the records that are kept, the oldest first.
pub get_eviction_log-Logs :
    (b : IoEventBuffer) (h : List EvictionRecord) → Logs b h → get_eviction_log b ≡ h
unfolding get_eviction_log
get_eviction_log-Logs b h v = elim (Bool-cases (leb b.eviction_count eviction_log_capacity)) [
  | inl few ↦
      let le : b.eviction_count ≤ eviction_log_capacity = leb→le _ _ few in
      let all : min b.eviction_count eviction_log_capacity ≡ length h = omega (arith, v.kept) in
      let head : b.eviction_write_head ≡ length h = omega (arith, v.kept, v.heads) in
      rw (few, all)
        (collect-somes b.eviction_slots eviction_log_capacity (length h) 0
          ∙ ap somes (
              ring_start b.eviction_slots eviction_log_capacity h (omega arith) (
                subst
                  (λ k.
                    cells b.eviction_slots eviction_log_capacity k eviction_log_capacity
                    ≡ window eviction_log_capacity h)
                  head v.layout))
          ∙ somes-some h)
  | inr many ↦
      let lt : eviction_log_capacity < b.eviction_count = not_leb→lt _ _ many in
      let all : min b.eviction_count eviction_log_capacity ≡ eviction_log_capacity = omega arith in
      let none_free : eviction_log_capacity - length h ≡ 0 = omega (arith, v.kept) in
      rw (many, all)
        (collect-somes b.eviction_slots eviction_log_capacity eviction_log_capacity
            b.eviction_write_head
          ∙ ap somes (rw none_free at v.layout)
          ∙ somes-some h)
]

pub new_buffer-Logs :
    (capacity max_bytes : ℕ) (stores : Option Bool) → Logs (new_buffer capacity max_bytes stores) []
unfolding new_buffer cells
new_buffer-Logs capacity max_bytes stores = record {
  size = refl;
  heads = refl;
  kept = refl;
  layout = refl;
}

-- What a counted eviction writes of the log.
record Writes (b : IoEventBuffer) (a : EvictionRecord) (c : IoEventBuffer) : Type 0 where
  slots :
      c.eviction_slots
      ≡ set b.eviction_slots (b.eviction_write_head % eviction_log_capacity) (some a)
  heads : c.eviction_write_head ≡ b.eviction_write_head + 1
  count : c.eviction_count ≡ b.eviction_count + 1
  overflow : c.overflow_count ≡ b.overflow_count + 1

evict_index-Writes :
    (hrtime : ℕ → ℕ) (i : ℕ) (b : IoEventBuffer) (s : IoEventSlot)
    → slot_at b.slots i ≡ some s
    → Writes b (eviction_record s (hrtime b.eviction_count)) (evict_index hrtime i true b)
unfolding evict_index
evict_index-Writes hrtime i b s e = ground arith

-- An eviction that counts appends the record of its slot to the log, which keeps the last hundred,
-- and counts one overflow.
pub evict_index-Logs :
    (hrtime : ℕ → ℕ) (i : ℕ) (b : IoEventBuffer) (s : IoEventSlot) (h : List EvictionRecord)
    → slot_at b.slots i ≡ some s
    → Logs b h
    → Logs
        (evict_index hrtime i true b)
        (last eviction_log_capacity (h ++ eviction_record s (hrtime b.eviction_count) ∷ []))
      × ((evict_index hrtime i true b).overflow_count ≡ b.overflow_count + 1)
evict_index-Logs hrtime i b s h e v =
    let w = evict_index-Writes hrtime i b s e in
    let rec = eviction_record s (hrtime b.eviction_count) in
    (
      record {
        size = rw w.slots (length-set b.eviction_slots _ (some rec) ∙ v.size);
        heads = omega (arith, w.heads, w.count, v.heads);
        kept =
            length-last eviction_log_capacity (h ++ rec ∷ [])
            ∙ omega (arith, length-append h (rec ∷ []), v.kept, w.count);
        layout =
            subst₂
              (λ xs k.
                cells xs eviction_log_capacity k eviction_log_capacity
                ≡ window eviction_log_capacity (last eviction_log_capacity (h ++ rec ∷ [])))
              (sym w.slots) (sym w.heads)
              (ring_write b.eviction_slots eviction_log_capacity b.eviction_write_head h rec v.size
                (omega arith) (omega (arith, v.kept)) v.layout);
      },
      w.overflow,
    )
