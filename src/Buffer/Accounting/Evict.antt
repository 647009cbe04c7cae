-- ===== src/Buffer/Accounting/Evict.antt =====
-- Eviction keeps the counters of src/buffer/io-event-buffer.ts, and its loops end by their tests.
use native.Mathlib.Decide.{ℕ_discrete}
use errorcore.Common.{
  ℕ, zero, suc, ◌+◌, ◌-◌, ◌%◌, ◌≤◌, ◌<◌, ◌≡◌, ◌≢◌, sym, ap, ◌∙◌, Bool, true, false, none, some,
  arith, set, pos, inl, inr, ◌⊎◌, ◌-ℤ◌, length-set, pos--ℤ, Bool-cases, Option-cases,
}
use errorcore.Buffer.Slot.{IoEventSlot}
use errorcore.Buffer.Accounting.{Counts}
use errorcore.Buffer.Accounting.Slots.{slot_at-le, set-none, live-pos, slot_at-nulled}
use errorcore.Buffer.{
  IoEventBuffer, slot_at, evict_index, evict_oldest, evict_oldest_from, evict_while_over,
  enforce_byte_budget, over_budget,
}

-- Eviction of a slot takes it out of the array and lowers the counters by it.
record Removes (i : ℕ) (s : IoEventSlot) (b c : IoEventBuffer) : Type 0 where
  slots : c.slots ≡ set b.slots i none
  capacity : c.capacity ≡ b.capacity
  write_head : c.write_head ≡ b.write_head
  count : c.slot_count ≡ b.slot_count - 1
  sum : c.payload_bytes ≡ b.payload_bytes -ℤ pos s.estimated_bytes
  head :
      ((c.slot_count ≡ 0) × (c.read_head ≡ b.write_head))
      ⊎ ((i ≡ b.read_head % b.capacity) × (c.read_head ≡ b.read_head + 1))
      ⊎ (c.read_head ≡ b.read_head)

-- The read head does not pass a cursor whose slot is still there.
head-le :
    {i : ℕ} {s : IoEventSlot} {b c : IoEventBuffer}
    → Removes i s b c
    → (d : ℕ) → 0 < c.slot_count
    → b.read_head ≤ d
    → d % b.capacity ≢ i
    → c.read_head ≤ d
head-le {i} {b} {c} r d more low other = elim r.head [
  | inl (none_left, _) ↦ absurd (omega arith)
  | inr rest ↦ elim rest [
    | inl (at_head, moved) ↦ elim (ℕ_discrete d b.read_head) [
      | yes p ↦ absurd (other (ap (λ k. k % b.capacity) p ∙ sym at_head))
      | no p ↦ omega arith
    ]
    | inr still ↦ omega arith
  ]
]

head_ordered :
    {i : ℕ} {s : IoEventSlot} {b c : IoEventBuffer}
    → Removes i s b c
    → (d : ℕ) × (b.read_head ≤ d) × (d < b.write_head) × (d % b.capacity ≡ i)
    → b.read_head ≤ b.write_head
    → c.read_head ≤ c.write_head
head_ordered r (d, low, high, stands) o = elim r.head [
  | inl (none_left, last) ↦ omega (arith, r.write_head)
  | inr rest ↦ elim rest [
    | inl (at_head, moved) ↦ omega (arith, r.write_head)
    | inr still ↦ omega (arith, r.write_head)
  ]
]

Removes-Counts :
    {i : ℕ} {s : IoEventSlot} {b c : IoEventBuffer}
    → slot_at b.slots i ≡ some s
    → Removes i s b c
    → Counts b
    → Counts c
Removes-Counts {i} {s} {b} {c} e r v =
    let (fewer, less) = set-none b.slots i e in
    record {
      positive = rw r.capacity v.positive;
      size = rw (r.slots, r.capacity) (length-set b.slots i none ∙ v.size);
      count = rw r.slots (omega (arith, r.count, v.count));
      sum =
          r.sum
          ∙ rw (v.sum, r.slots) (pos--ℤ _ _ (slot_at-le b.slots i e).1 ∙ ap pos (omega arith));
      ordered = head_ordered r (v.covered i s e) v.ordered;
      covered = λ j t at.
          let left : slot_at (set b.slots i none) j ≡ some t = rw r.slots at at in
          let (other, there) = slot_at-nulled b.slots i j left in
          let (d, low, high, stands) = v.covered j t there in
          (
            d,
            head-le r d (omega (arith, (slot_at-le _ j left).0, fewer, r.count, v.count)) low
                (λ q. other (sym stands ∙ q)),
            omega (arith, r.write_head),
            rw r.capacity stands,
          );
    }

module _ (hrtime : ℕ → ℕ) where
  evict_index-Removes :
      (i : ℕ) (counted : Bool) (b : IoEventBuffer) (s : IoEventSlot)
      → slot_at b.slots i ≡ some s
      → Removes i s b (evict_index hrtime i counted b)
  unfolding evict_index
  evict_index-Removes i true b s e = ground arith
  evict_index-Removes i false b s e = ground arith

  pub evict_index-Counts :
      (i : ℕ) (counted : Bool) (b : IoEventBuffer)
      → Counts b
      → Counts (evict_index hrtime i counted b)
  unfolding evict_index
  evict_index-Counts i counted b v = elim (Option-cases (slot_at b.slots i)) [
    | inl e ↦ rw (e, evict_index) v
    | inr (s, e) ↦ Removes-Counts e (evict_index-Removes i counted b s e) v
  ]

  -- The cursor of a slot is not at an empty entry.
  skip-Counts :
      (b : IoEventBuffer)
      → Counts b
      → slot_at b.slots (b.read_head % b.capacity) ≡ none
      → b.read_head < b.write_head
      → Counts (record b { read_head = b.read_head + 1 })
  skip-Counts b v e more = record {
    positive = v.positive;
    size = v.size;
    count = v.count;
    sum = v.sum;
    ordered = omega arith;
    covered = λ i s at.
        let (c, low, high, stands) = v.covered i s at in
        let here : slot_at b.slots (c % b.capacity) ≡ some s = rw stands at in
        let ne : c ≢ b.read_head = λ p. cc (here, ap (λ k. slot_at b.slots (k % b.capacity)) p) in
        (c, omega arith, high, stands);
  }

  -- The state after the oldest slot is evicted: one slot fewer.
  abbrev Evicted : IoEventBuffer → IoEventBuffer → Type 0
  Evicted b c = Counts c × (suc c.slot_count ≡ b.slot_count)

  evict_oldest_from-Evicted :
      (n : ℕ) (b : IoEventBuffer)
      → Counts b
      → b.write_head ≡ b.read_head + n
      → 0 < b.slot_count
      → Evicted b (evict_oldest_from hrtime n b)
  unfolding evict_oldest_from
  evict_oldest_from-Evicted zero b v e more =
      let (i, s, at) = live-pos b.slots (omega (arith, v.count)) in
      let (c, low, high, stands) = v.covered i s at in absurd (omega arith)
  evict_oldest_from-Evicted (suc n) b v e more =
      elim (Option-cases (slot_at b.slots (b.read_head % b.capacity))) [
        | inl empty ↦
            rw (empty, evict_oldest_from)
              (evict_oldest_from-Evicted n (record b { read_head = b.read_head + 1 })
                (skip-Counts b v empty (omega arith)) (omega arith) more)
        | inr (s, at) ↦
            let r = evict_index-Removes (b.read_head % b.capacity) true b s at in
            rw (at, evict_oldest_from) (Removes-Counts at r v, omega (arith, r.count))
      ]

  evict_oldest-Evicted :
      (b : IoEventBuffer) → Counts b → 0 < b.slot_count → Evicted b (evict_oldest hrtime b)
  unfolding evict_oldest
  evict_oldest-Evicted b v more =
      let (i, s, at) = live-pos b.slots (omega (arith, v.count)) in
      let (c, low, high, stands) = v.covered i s at in
      evict_oldest_from-Evicted _ b v (omega arith) more

  over_budget-pos : (n : ℕ) (b : IoEventBuffer) → over_budget hrtime n b ≡ true → 0 < b.slot_count
  unfolding over_budget
  over_budget-pos n b e = ground arith

  not_over_budget : (n : ℕ) (b : IoEventBuffer) → b.slot_count ≡ 0 → over_budget hrtime n b ≡ false
  unfolding over_budget
  not_over_budget n b e = ground arith

  -- With a round for each slot the loop ends by its test.
  evict_while_over-Counts :
      (fuel n : ℕ) (b : IoEventBuffer)
      → Counts b
      → b.slot_count ≤ fuel
      → Counts (evict_while_over hrtime fuel n b)
        × (over_budget hrtime n (evict_while_over hrtime fuel n b) ≡ false)
  unfolding evict_while_over
  evict_while_over-Counts zero n b v h = (v, not_over_budget n b (omega arith))
  evict_while_over-Counts (suc fuel) n b v h = elim (Bool-cases (over_budget hrtime n b)) [
    | inl over ↦
        let (w, fewer) = evict_oldest-Evicted b v (over_budget-pos n b over) in
        rw (over, evict_while_over)
          (evict_while_over-Counts fuel n (evict_oldest hrtime b) w (omega arith))
    | inr fits ↦ rw (fits, evict_while_over) (v, fits)
  ]

  -- `enforceByteBudget` terminates by its own test, with the counters right: the incoming bytes fit,
  -- or the buffer is empty.
  pub enforce_byte_budget-Counts :
      (n : ℕ) (b : IoEventBuffer)
      → Counts b
      → Counts (enforce_byte_budget hrtime n b)
        × (over_budget hrtime n (enforce_byte_budget hrtime n b) ≡ false)
  unfolding enforce_byte_budget
  enforce_byte_budget-Counts n b v = evict_while_over-Counts b.slot_count n b v (omega arith)
