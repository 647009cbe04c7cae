-- ===== src/Buffer/Accounting/Budget.antt =====
-- `push`, `updatePayloadBytes` and `clear` of src/buffer/io-event-buffer.ts keep the counters right
-- and the bytes within the budget.
use native.Mathlib.Nat.{mod-lt}
use errorcore.Common.{
  ℕ, ◌+◌, ◌%◌, ◌≤◌, ◌<◌, ◌≡◌, ap₂, subst, ◌∙◌, true, false, ◌&&◌, none, some, arith, length, set,
  ltb, inl, inr, ◌⊎◌, pos-+ℤ, Bool-cases,
}
use errorcore.Clock.{EventClock}
use errorcore.Buffer.Slot.{IoEvent, IoEventSlot}
use errorcore.Buffer.Frame.{
  evict_index-Keeps, enforce_byte_budget-Keeps, evict_index-empty, enforce_byte_budget-Empties,
}
use errorcore.Buffer.Writes.{push, store_slot, is_kept_out, update_payload_bytes}
use errorcore.Buffer.Accounting.{Counts}
use errorcore.Buffer.Accounting.Methods.{announced-Counts, store_slot-Counts, replaced}
use errorcore.Buffer.Accounting.Evict.{evict_index-Counts, enforce_byte_budget-Counts}
use errorcore.Buffer.Accounting.Slots.{bytes_in, set-free}
use errorcore.Buffer.{
  IoEventBuffer, slot_at, evict_index, enforce_byte_budget, over_budget, has_object, assign_slot,
}

module _ (hrtime : ℕ → ℕ) where
  -- The state that `push` writes the slot into: the entry at the write head is empty, and the new
  -- bytes fit or there is no slot.
  record Roomy (n : ℕ) (b c : IoEventBuffer) : Type 0 where
    counts : Counts c
    index : c.write_head % c.capacity ≡ b.write_head % b.capacity
    free : slot_at c.slots (b.write_head % b.capacity) ≡ none
    fits : over_budget hrtime n c ≡ false
    max_bytes : c.max_bytes ≡ b.max_bytes

  roomy :
      (n : ℕ) (b : IoEventBuffer)
      → Counts b
      → Roomy n b
          (enforce_byte_budget hrtime n (evict_index hrtime (b.write_head % b.capacity) true b))
  roomy n b v =
      let i = b.write_head % b.capacity in
      let evicted = evict_index hrtime i true b in
      let k = evict_index-Keeps hrtime i true b in
      let l = enforce_byte_budget-Keeps hrtime n evicted in
      let (counts, fits) =
        enforce_byte_budget-Counts hrtime n evicted (evict_index-Counts hrtime i true b v) in
      record {
        counts = counts;
        index = ap₂ ◌%◌ (l.write_head ∙ k.write_head) (l.capacity ∙ k.capacity);
        free = enforce_byte_budget-Empties hrtime n evicted i (evict_index-empty hrtime i true b);
        fits = fits;
        max_bytes = l.max_bytes ∙ k.max_bytes;
      }

  stored-Counts :
      (n : ℕ) (b c : IoEventBuffer) (s : IoEventSlot)
      → Roomy n b c
      → Counts (store_slot (b.write_head % b.capacity) s c)
  stored-Counts n b c s r =
      subst (λ i. Counts (store_slot i s c)) r.index
        (store_slot-Counts c s r.counts (rw r.index r.free))

  -- `push` keeps the counters right.
  pub push-Counts :
      (at : ℕ) (event : IoEvent) (clock : EventClock) (b : IoEventBuffer)
      → Counts b
      → Counts (push hrtime at event clock b).buffer
  unfolding push
  push-Counts at event clock b v =
      let v' = announced-Counts b none (b.next_object + 1) v in
      elim (Bool-cases (is_kept_out b event)) [
        | inl out ↦ rw out v'
        | inr kept ↦ rw kept (stored-Counts _ _ _ _ (roomy _ _ v'))
      ]

  over_budget-eq :
      (n : ℕ) (c : IoEventBuffer)
      → Counts c
      → over_budget hrtime n c ≡ (ltb c.max_bytes (bytes_in c.slots + n) && ltb 0 c.slot_count)
  unfolding over_budget
  over_budget-eq n c v = rw (v.sum, pos-+ℤ (bytes_in c.slots) n) (ground arith)

  over_budget-false :
      (n : ℕ) (c : IoEventBuffer)
      → Counts c
      → over_budget hrtime n c ≡ false
      → (bytes_in c.slots + n ≤ c.max_bytes) ⊎ (c.slot_count ≡ 0)
  over_budget-false n c v e = ground (arith, over_budget-eq n c v)

  -- The bytes fit the budget, but for a single slot that does not fit alone.
  abbrev pub IsWithinBudget : IoEventBuffer → Type 0
  IsWithinBudget b = (bytes_in b.slots ≤ b.max_bytes) ⊎ (b.slot_count ≡ 1)

  stored-IsWithinBudget :
      (b c : IoEventBuffer) (s : IoEventSlot)
      → Roomy s.estimated_bytes b c
      → IsWithinBudget (store_slot (b.write_head % b.capacity) s c)
  unfolding store_slot
  stored-IsWithinBudget b c s r =
      let lt : b.write_head % b.capacity < length c.slots =
        rw (← r.index) (omega (arith, r.counts.size, mod-lt c.write_head r.counts.positive)) in
      let (more, grown) = set-free c.slots (b.write_head % b.capacity) s r.free lt in
      elim (over_budget-false _ c r.counts r.fits) [
        | inl fits ↦ inl (omega arith)
        | inr none_left ↦ inr (omega arith)
      ]

  -- After an event is stored the sizes of the slots add up to at most `maxBytes`, unless the new
  -- slot is the only one.
  pub push-IsWithinBudget :
      (at : ℕ) (event : IoEvent) (clock : EventClock) (b : IoEventBuffer)
      → Counts b
      → is_kept_out b event ≡ false
      → IsWithinBudget (push hrtime at event clock b).buffer
  unfolding push assign_slot
  push-IsWithinBudget at event clock b v kept =
      let v' = announced-Counts b none (b.next_object + 1) v in
      rw kept (stored-IsWithinBudget _ _ _ (roomy _ _ v'))

  -- The slot whose `estimatedBytes` a client is about to report.
  abbrev pub assign_estimated_bytes : ℕ → IoEventSlot → ℕ → IoEventBuffer → IoEventBuffer
  assign_estimated_bytes i s new_bytes b = record b {
    slots = set b.slots i (some (record s { estimated_bytes = new_bytes }));
  }

  -- A client that changes the size of a stored slot, as body capture does, and reports the change
  -- by `updatePayloadBytes` leaves the counters right and the bytes within the budget.
  pub update_payload_bytes-Counts :
      (i : ℕ) (s : IoEventSlot) (new_bytes : ℕ) (b : IoEventBuffer)
      → Counts b
      → slot_at b.slots i ≡ some s
      → has_object s.object b.stored_slots ≡ true
      → let c =
          update_payload_bytes hrtime s.estimated_bytes new_bytes
            (some s.object)
            (assign_estimated_bytes i s new_bytes b) in
        Counts c × ((bytes_in c.slots ≤ c.max_bytes) ⊎ (c.slot_count ≡ 0))
  unfolding update_payload_bytes
  update_payload_bytes-Counts i s new_bytes b v at stored =
      let t : IoEventSlot = record s { estimated_bytes = new_bytes } in
      let v' = announced-Counts _ none b.next_object (replaced b i s t v at) in
      let (w, fits) = enforce_byte_budget-Counts hrtime 0 _ v' in
      rw stored (
        w,
        (elim (over_budget-false 0 _ w fits) [
          | inl small ↦ inl (omega arith)
          | inr none_left ↦ inr none_left
        ]),
      )
