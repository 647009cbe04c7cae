-- ===== src/Buffer/Accounting/Methods.antt =====
-- Every method of src/buffer/io-event-buffer.ts keeps the counters right.
use Prim.Native.String.{String}
use native.Mathlib.Nat.{mod-lt}
use native.Mathlib.Decide.{ℕ_discrete}
use errorcore.Common.{
  ℕ, zero, suc, ◌+◌, ◌-◌, ◌%◌, ◌<◌, ◌≡◌, sym, ap, ◌∙◌, Bool, false, Option, none, some, List, arith,
  set, pos, inl, inr, ◌-ℤ◌, length-set, pos-+ℤ, pos-swap, Bool-cases, Option-cases, ◌+ℤ◌,
  get_or-set_ne, length-replicate,
}
use errorcore.Buffer.Slot.{IoEventSlot}
use errorcore.Buffer.Compact.{compacted}
use errorcore.Buffer.Writes.{
  store_slot, compact_at, compact_slot_at, compact_from, compact_completed_request, release_slot_at,
  release_from, release_completed_request, is_releasable,
}
use errorcore.Buffer.Accounting.{Counts}
use errorcore.Buffer.Accounting.Evict.{evict_index-Counts}
use errorcore.Buffer.Accounting.Slots.{
  slot_at-le, set-some, set-free, live-replicate, bytes_in-replicate, slot_at-replicate,
}
use errorcore.Buffer.{IoEventBuffer, new_buffer, slot_at}

pub new_buffer-Counts :
    (capacity max_bytes : ℕ) (stores : Option Bool)
    → 0 < capacity
    → Counts (new_buffer capacity max_bytes stores)
unfolding new_buffer
new_buffer-Counts capacity max_bytes stores h = record {
  positive = h;
  size = length-replicate capacity none;
  count = sym (live-replicate capacity);
  sum = ap pos (sym (bytes_in-replicate capacity));
  ordered = omega arith;
  covered = λ i s at. cc (slot_at-replicate capacity i);
}

-- A slot replaced by another, with the counter of bytes moved by the difference.
pub replaced :
    (b : IoEventBuffer) (i : ℕ) (s t : IoEventSlot)
    → Counts b
    → slot_at b.slots i ≡ some s
    → Counts (record b {
      slots = set b.slots i (some t);
      payload_bytes = b.payload_bytes +ℤ (pos t.estimated_bytes -ℤ pos s.estimated_bytes);
    })
replaced b i s t v at =
    let (same, moved) = set-some b.slots i t at in
    record {
      positive = v.positive;
      size = length-set b.slots i (some t) ∙ v.size;
      count = v.count ∙ sym same;
      sum = rw v.sum (
          pos-swap _ _ _ (slot_at-le b.slots i at).1
          ∙ ap pos (omega (arith, (slot_at-le b.slots i at).1)));
      ordered = v.ordered;
      covered = λ j u there. elim (ℕ_discrete i j) [
        | yes p ↦ v.covered j s (rw p at at)
        | no p ↦ v.covered j u (sym (get_or-set_ne b.slots i j (some t) none p) ∙ there)
      ];
    }

pub store_slot-Counts :
    (b : IoEventBuffer) (s : IoEventSlot)
    → Counts b
    → slot_at b.slots (b.write_head % b.capacity) ≡ none
    → Counts (store_slot (b.write_head % b.capacity) s b)
unfolding store_slot
store_slot-Counts b s v free =
    let i = b.write_head % b.capacity in
    let (more, grown) =
      set-free b.slots i s free (omega (arith, v.size, mod-lt b.write_head v.positive)) in
    record {
      positive = v.positive;
      size = length-set b.slots i (some s) ∙ v.size;
      count = omega (arith, v.count, more);
      sum = rw v.sum (pos-+ℤ _ _ ∙ ap pos (sym grown));
      ordered = omega (arith, v.ordered);
      covered = λ j u there. elim (ℕ_discrete i j) [
        | yes p ↦ (b.write_head, v.ordered, omega arith, p)
        | no p ↦
            let (c, low, high, stands) =
              v.covered j u (sym (get_or-set_ne b.slots i j (some s) none p) ∙ there) in
            (c, low, omega arith, stands)
      ];
    }

-- Fields that the counters do not read.
pub announced-Counts :
    (b : IoEventBuffer) (index : Option (List (String × List ℕ))) (next : ℕ)
    → Counts b
    → Counts (record b { request_id_index = index; next_object = next })
announced-Counts b index next v = record {
  positive = v.positive;
  size = v.size;
  count = v.count;
  sum = v.sum;
  ordered = v.ordered;
  covered = v.covered;
}

-- The entry under the cursor of a loop, with a slot of the request compacted in it.
compact_at-Counts :
    (f : Option (IoEventSlot → IoEventSlot)) (i : ℕ) (s : IoEventSlot) (b : IoEventBuffer)
    → Counts b
    → slot_at b.slots i ≡ some s
    → Counts (compact_at f i s b)
unfolding compact_at
compact_at-Counts f i s b v at = replaced b i s (compacted f s) v at

module _ (request_id : String) (f : Option (IoEventSlot → IoEventSlot)) where
  compact_slot_at-Counts :
      (cursor : ℕ) (b : IoEventBuffer) (n : ℕ)
      → Counts b
      → Counts (compact_slot_at request_id f cursor (b, n)).0
  unfolding compact_slot_at
  compact_slot_at-Counts cursor b n v =
      elim (Option-cases (slot_at b.slots (cursor % b.capacity))) [
        | inl e ↦ rw (e, compact_slot_at) v
        | inr (s, e) ↦
            rw (e, compact_slot_at)
              (elim (Bool-cases (is_releasable request_id s)) [
                | inl y ↦ rw y (compact_at-Counts f _ s b v e)
                | inr n ↦ rw n v
              ])
      ]

  compact_from-Counts :
      (rounds cursor : ℕ) (s : IoEventBuffer × ℕ)
      → Counts s.0
      → Counts (compact_from request_id f rounds cursor s).0
  unfolding compact_from
  compact_from-Counts zero cursor s v = v
  compact_from-Counts (suc rounds) cursor s v =
      compact_from-Counts rounds (cursor + 1) (compact_slot_at request_id f cursor s)
        (compact_slot_at-Counts cursor s.0 s.1 v)

  pub compact_completed_request-Counts :
      (b : IoEventBuffer) → Counts b → Counts (compact_completed_request request_id f b).0
  unfolding compact_completed_request
  compact_completed_request-Counts b v =
      compact_from-Counts (b.write_head - b.read_head) b.read_head (b, 0) v

module _ (hrtime : ℕ → ℕ) (request_id : String) (f : Option (IoEventSlot → IoEventSlot)) where
  release_slot_at-Counts :
      (cursor : ℕ) (b : IoEventBuffer) (n : ℕ)
      → Counts b
      → Counts (release_slot_at hrtime request_id f cursor (b, n)).0
  unfolding release_slot_at
  release_slot_at-Counts cursor b n v =
      elim (Option-cases (slot_at b.slots (cursor % b.capacity))) [
        | inl e ↦ rw (e, release_slot_at) v
        | inr (s, e) ↦
            rw (e, release_slot_at)
              (elim (Bool-cases (is_releasable request_id s)) [
                | inl y ↦ rw y (evict_index-Counts hrtime _ false _ (compact_at-Counts f _ s b v e))
                | inr n ↦ rw n v
              ])
      ]

  release_from-Counts :
      (rounds cursor : ℕ) (s : IoEventBuffer × ℕ)
      → Counts s.0
      → Counts (release_from hrtime request_id f rounds cursor s).0
  unfolding release_from
  release_from-Counts zero cursor s v = v
  release_from-Counts (suc rounds) cursor s v =
      release_from-Counts rounds (cursor + 1) (release_slot_at hrtime request_id f cursor s)
        (release_slot_at-Counts cursor s.0 s.1 v)

  pub release_completed_request-Counts :
      (b : IoEventBuffer) → Counts b → Counts (release_completed_request hrtime request_id f b).0
  unfolding release_completed_request
  release_completed_request-Counts b v =
      release_from-Counts (b.write_head - b.read_head) b.read_head
        (record b { request_id_index = none }, 0) (announced-Counts b none b.next_object v)
