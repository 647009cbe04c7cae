-- ===== src/Buffer/Evict.antt =====
-- Eviction in src/buffer/io-event-buffer.ts removes the oldest slot of the queue.
use errorcore.Common.{
  ℕ, suc, ◌+◌, ◌-◌, ◌%◌, ◌≤◌, ◌<◌, ◌≡◌, sym, ap, ◌∙◌, true, false, Option, none, some, List, [],
  ◌∷◌, ◌++◌, map, append_assoc, arith, length, set, replicate, pos, not, ◌&&◌, ◌||◌, ◌==◌,
  length-set, ltb, pos-+ℤ, Bool-cases, inl, inr, ==_iff, pos--ℤ,
}
use errorcore.Buffer.Slot.{IoEventSlot}
use errorcore.Buffer.Cells.{cells, cells-set, cells_next}
use errorcore.Buffer.Queue.{
  Holds, total, objects, replicate-snoc, shrink, has_object-delete, slot_at-head,
}
use errorcore.Buffer.{
  IoEventBuffer, has_object, evict_index, evict_oldest, remove_slot, count_eviction,
  evict_oldest_from, over_budget, evict_while_over,
}

layout_next :
    (slots : List (Option IoEventSlot)) (cap r : ℕ) (s : IoEventSlot) (q : List IoEventSlot)
    → length slots ≡ cap
    → 0 < cap
    → suc (length q) ≤ cap
    → cells slots cap r cap ≡ some s ∷ (map some q ++ replicate (cap - suc (length q)) none)
    → cells (set slots (r % cap) none) cap (r + 1) cap
      ≡ map some q ++ replicate (cap - length q) none
layout_next slots cap r s q size positive fits layout =
    let gone : cells (set slots (r % cap) none) cap r cap
        ≡ none ∷ (map some q ++ replicate (cap - suc (length q)) none) =
      cells-set slots cap r cap r none size (omega arith) (omega arith) (omega arith)
      ∙ (let f : r - r ≡ 0 = omega arith in rw (f, layout)) in
    let e : suc (cap - suc (length q)) ≡ cap - length q = omega arith in
    cells_next (set slots (r % cap) none) cap r gone
    ∙ append_assoc (map some q) _ _
    ∙ ap (◌++◌ (map some q))
        (replicate-snoc (cap - suc (length q)) none ∙ ap (λ k. replicate k none) e)

has_object_tail :
    (o x : ℕ) (xs : List ℕ)
    → has_object x xs ≡ false
    → ((x == o || has_object o xs) && not (x == o)) ≡ has_object o xs
has_object_tail o x xs h = elim (Bool-cases (x == o)) [
  | inl e ↦ let f : x ≡ o = (==_iff x o).0 e in rw e (rw f at (sym h))
  | inr e ↦ rw e (ground arith)
]

module _ (hrtime : ℕ → ℕ) where
  -- The state after the first slot of a queue is evicted.
  unfoldable pub head_evicted : IoEventSlot → IoEventBuffer → IoEventBuffer
  unfolding remove_slot count_eviction
  head_evicted s b =
      let removed = remove_slot (b.read_head % b.capacity) s (count_eviction hrtime true s b) in
      record removed { read_head = b.read_head + 1 }

  pub evict_index-head :
      (b : IoEventBuffer) (s : IoEventSlot) (q : List IoEventSlot)
      → Holds b (s ∷ q)
      → evict_index hrtime (b.read_head % b.capacity) true b ≡ head_evicted s b
  unfolding evict_index head_evicted
  evict_index-head b s q h = ground (arith, slot_at-head b s q h, h.count, h.heads)

  pub head_evicted-Holds :
      (b : IoEventBuffer) (s : IoEventSlot) (q : List IoEventSlot)
      → Holds b (s ∷ q)
      → Holds (head_evicted s b) q
  unfolding head_evicted
  head_evicted-Holds b s q h = record {
    positive = h.positive;
    size = length-set b.slots _ none ∙ h.size;
    heads = omega (arith, h.heads);
    fits = omega (arith, h.fits);
    layout = layout_next b.slots b.capacity b.read_head s q h.size h.positive h.fits h.layout;
    count = omega (arith, h.count);
    sum = rw h.sum (pos--ℤ _ _ (omega arith) ∙ ap pos (omega arith));
    distinct = h.distinct.1;
    fresh = h.fresh.1;
    stored = λ o.
        has_object-delete o s.object b.stored_slots
        ∙ rw (h.stored o) (has_object_tail o s.object (objects q) h.distinct.0);
  }

  evict_oldest-head :
      (b : IoEventBuffer) (s : IoEventSlot) (q : List IoEventSlot)
      → Holds b (s ∷ q)
      → evict_oldest hrtime b ≡ head_evicted s b
  unfolding evict_oldest evict_oldest_from
  evict_oldest-head b s q h =
      let e : b.write_head - b.read_head ≡ suc (length q) = omega (arith, h.heads) in
      rw e (rw (slot_at-head b s q h, evict_oldest_from) (evict_index-head b s q h))

  over_budget-head :
      (b : IoEventBuffer) (s : IoEventSlot) (q : List IoEventSlot) (incoming_bytes : ℕ)
      → Holds b (s ∷ q)
      → over_budget hrtime incoming_bytes b ≡ ltb b.max_bytes (total (s ∷ q) + incoming_bytes)
  unfolding over_budget
  over_budget-head b s q incoming_bytes h =
      rw (h.sum, h.count, pos-+ℤ (total (s ∷ q)) incoming_bytes) (ground arith)

  -- With the slots of the queue as fuel the loop ends by its test, and leaves the shrunk queue.
  pub evict_while_over-Holds :
      (b : IoEventBuffer) (q : List IoEventSlot) (incoming_bytes : ℕ)
      → Holds b q
      → Holds
          (evict_while_over hrtime (length q) incoming_bytes b)
          (shrink b.max_bytes incoming_bytes q)
  unfolding evict_while_over shrink head_evicted
  evict_while_over-Holds b [] incoming_bytes h = h
  evict_while_over-Holds b (s ∷ q) incoming_bytes h =
      elim (Bool-cases (ltb b.max_bytes (total (s ∷ q) + incoming_bytes))) [
        | inl over ↦
            rw
              (
                over_budget-head b s q incoming_bytes h,
                over,
                evict_oldest-head b s q h,
                evict_while_over,
                shrink,
              )
              (evict_while_over-Holds (head_evicted s b) q incoming_bytes
                (head_evicted-Holds b s q h))
        | inr fits ↦ rw (over_budget-head b s q incoming_bytes h, fits, evict_while_over, shrink) h
      ]
