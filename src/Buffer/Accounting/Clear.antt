-- ===== src/Buffer/Accounting/Clear.antt =====
-- `clear` of src/buffer/io-event-buffer.ts.
use native.Mathlib.Decide.{ℕ_discrete}
use errorcore.Common.{
  ℕ, zero, suc, ◌+◌, ◌-◌, ◌%◌, ◌≤◌, ◌<◌, ◌≡◌, refl, sym, ap, ◌∙◌, none, arith, length, set, pos,
  inl, inr, length-set, Option-cases,
}
use errorcore.Buffer.Frame.{Empties, slot_at-set-none, slot_at-set_self}
use errorcore.Buffer.Writes.{clear, clear_from}
use errorcore.Buffer.Accounting.{Counts}
use errorcore.Buffer.Accounting.Slots.{live, live-pos, bytes_in-empty, slot_at-le}
use errorcore.Buffer.{IoEventBuffer, slot_at}

-- What the loop of `clear` leaves alone.
record Clears (b c : IoEventBuffer) : Type 0 where
  capacity : c.capacity ≡ b.capacity
  write_head : c.write_head ≡ b.write_head
  size : length c.slots ≡ length b.slots
  empties : Empties b c

clear_from-Clears : (n cursor : ℕ) (b : IoEventBuffer) → Clears b (clear_from n cursor b)
unfolding clear_from
clear_from-Clears zero cursor b = record {
  capacity = refl;
  write_head = refl;
  size = refl;
  empties = λ i e. e;
}
clear_from-Clears (suc n) cursor b =
    let r =
      clear_from-Clears n (cursor + 1)
        (record b { slots = set b.slots (cursor % b.capacity) none }) in
    record {
      capacity = r.capacity;
      write_head = r.write_head;
      size = r.size ∙ length-set b.slots (cursor % b.capacity) none;
      empties = λ i e. r.empties i (slot_at-set-none b.slots (cursor % b.capacity) i e);
    }

-- Every cursor of the loop is cleared.
clear_from-none :
    (n cursor : ℕ) (b : IoEventBuffer) (c : ℕ)
    → cursor ≤ c
    → c < cursor + n
    → slot_at (clear_from n cursor b).slots (c % b.capacity) ≡ none
unfolding clear_from
clear_from-none zero cursor b c low high = absurd (omega arith)
clear_from-none (suc n) cursor b c low high = elim (ℕ_discrete cursor c) [
  | yes p ↦
      (clear_from-Clears n (cursor + 1)
          (record b { slots = set b.slots (cursor % b.capacity) none })).empties
        (c % b.capacity) (rw p (slot_at-set_self b.slots (c % b.capacity)))
  | no p ↦
      clear_from-none n (cursor + 1) (record b { slots = set b.slots (cursor % b.capacity) none }) c
        (omega arith) (omega arith)
]

clear_from-live :
    (b : IoEventBuffer)
    → Counts b
    → live (clear_from (b.write_head - b.read_head) b.read_head b).slots ≡ 0
clear_from-live b v = zero_of_not_pos _ λ more.
    let c = clear_from (b.write_head - b.read_head) b.read_head b in
    let (i, s, at) = live-pos c.slots more in
    elim (Option-cases (slot_at b.slots i)) [
      | inl e ↦ cc (sym at ∙ (clear_from-Clears _ _ b).empties i e)
      | inr (t, e) ↦
          let (d, low, high, stands) = v.covered i t e in
          let gone : slot_at c.slots i ≡ none =
            rw (← stands)
              (clear_from-none (b.write_head - b.read_head) b.read_head b d low (omega arith)) in
          cc (sym at ∙ gone)
    ]
  where
    zero_of_not_pos : (n : ℕ) → ¬ (0 < n) → n ≡ 0
    zero_of_not_pos n h = omega arith

-- After `clear` no slot is left, whatever holes the ring had, and the counters say so.
pub clear-Counts : (b : IoEventBuffer) → Counts b → Counts (clear b) × (live (clear b).slots ≡ 0)
unfolding clear
clear-Counts b v =
    let r = clear_from-Clears (b.write_head - b.read_head) b.read_head b in
    let none_left = clear_from-live b v in
    (
      record {
        positive = rw r.capacity v.positive;
        size = r.size ∙ v.size ∙ sym r.capacity;
        count = sym none_left;
        sum = ap pos (
            sym (
              bytes_in-empty (clear_from (b.write_head - b.read_head) b.read_head b).slots
                none_left));
        ordered = omega arith;
        covered = λ i s at. absurd (
            omega (
              arith,
              (slot_at-le (clear_from (b.write_head - b.read_head) b.read_head b).slots i at).0,
              none_left,
            ));
      },
      none_left,
    )
