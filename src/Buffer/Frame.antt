-- ===== src/Buffer/Frame.antt =====
-- What eviction leaves alone, in src/buffer/io-event-buffer.ts.
use errorcore.Common.{
  ℕ, zero, suc, ◌+◌, ◌%◌, ◌≡◌, refl, ◌∙◌, Bool, true, false, arith, inl, inr, ◌⊎◌, Bool-cases,
  Option-cases, Option, none, List, [], ◌∷◌, set,
}
use errorcore.Buffer.Slot.{IoEventSlot}
use errorcore.Buffer.{
  IoEventBuffer, slot_at, evict_index, evict_oldest, evict_oldest_from, evict_while_over,
  enforce_byte_budget, over_budget,
}

pub record Keeps (b c : IoEventBuffer) : Type 0 where
  pub capacity : c.capacity ≡ b.capacity
  pub max_bytes : c.max_bytes ≡ b.max_bytes
  pub write_head : c.write_head ≡ b.write_head
  pub next_object : c.next_object ≡ b.next_object
  pub store_context_events : c.store_context_events ≡ b.store_context_events
  pub request_id_index : c.request_id_index ≡ b.request_id_index

Keeps-refl : (b : IoEventBuffer) → Keeps b b
Keeps-refl b = record {
  capacity = refl;
  max_bytes = refl;
  write_head = refl;
  next_object = refl;
  store_context_events = refl;
  request_id_index = refl;
}

Keeps-read_head : (b : IoEventBuffer) (cursor : ℕ) → Keeps b (record b { read_head = cursor })
Keeps-read_head b cursor = record {
  capacity = refl;
  max_bytes = refl;
  write_head = refl;
  next_object = refl;
  store_context_events = refl;
  request_id_index = refl;
}

pub Keeps-trans : {b c d : IoEventBuffer} → Keeps b c → Keeps c d → Keeps b d
Keeps-trans k l = record {
  capacity = l.capacity ∙ k.capacity;
  max_bytes = l.max_bytes ∙ k.max_bytes;
  write_head = l.write_head ∙ k.write_head;
  next_object = l.next_object ∙ k.next_object;
  store_context_events = l.store_context_events ∙ k.store_context_events;
  request_id_index = l.request_id_index ∙ k.request_id_index;
}

-- Eviction fills no empty entry.
abbrev pub Empties : IoEventBuffer → IoEventBuffer → Type 0
Empties b c = (i : ℕ) → slot_at b.slots i ≡ none → slot_at c.slots i ≡ none

pub slot_at-set-none :
    (xs : List (Option IoEventSlot)) (i j : ℕ)
    → slot_at xs j ≡ none
    → slot_at (set xs i none) j ≡ none
slot_at-set-none [] i j e = refl
slot_at-set-none (x ∷ xs) zero zero e = refl
slot_at-set-none (x ∷ xs) zero (suc j) e = e
slot_at-set-none (x ∷ xs) (suc i) zero e = e
slot_at-set-none (x ∷ xs) (suc i) (suc j) e = slot_at-set-none xs i j e

pub slot_at-set_self : (xs : List (Option IoEventSlot)) (i : ℕ) → slot_at (set xs i none) i ≡ none
slot_at-set_self [] i = refl
slot_at-set_self (x ∷ xs) zero = refl
slot_at-set_self (x ∷ xs) (suc i) = slot_at-set_self xs i

module _ (hrtime : ℕ → ℕ) where
  pub evict_index-Keeps :
      (i : ℕ) (counted : Bool) (b : IoEventBuffer) → Keeps b (evict_index hrtime i counted b)
  unfolding evict_index
  evict_index-Keeps i true b = ground arith
  evict_index-Keeps i false b = ground arith

  evict_oldest_from-Keeps : (n : ℕ) (b : IoEventBuffer) → Keeps b (evict_oldest_from hrtime n b)
  unfolding evict_oldest_from
  evict_oldest_from-Keeps zero b = Keeps-refl b
  evict_oldest_from-Keeps (suc n) b =
      elim (Option-cases (slot_at b.slots (b.read_head % b.capacity))) [
        | inl e ↦
            rw (e, evict_oldest_from)
              (Keeps-trans (Keeps-read_head b (b.read_head + 1))
                (evict_oldest_from-Keeps n (record b { read_head = b.read_head + 1 })))
        | inr (s, e) ↦ rw (e, evict_oldest_from) (evict_index-Keeps _ true b)
      ]

  pub evict_oldest-Keeps : (b : IoEventBuffer) → Keeps b (evict_oldest hrtime b)
  unfolding evict_oldest
  evict_oldest-Keeps b = evict_oldest_from-Keeps _ b

  evict_while_over-Keeps :
      (fuel n : ℕ) (b : IoEventBuffer) → Keeps b (evict_while_over hrtime fuel n b)
  unfolding evict_while_over
  evict_while_over-Keeps zero n b = Keeps-refl b
  evict_while_over-Keeps (suc fuel) n b = elim (Bool-cases (over_budget hrtime n b)) [
    | inl e ↦
        rw (e, evict_while_over)
          (Keeps-trans (evict_oldest-Keeps b)
            (evict_while_over-Keeps fuel n (evict_oldest hrtime b)))
    | inr e ↦ rw (e, evict_while_over) (Keeps-refl b)
  ]

  pub enforce_byte_budget-Keeps :
      (n : ℕ) (b : IoEventBuffer) → Keeps b (enforce_byte_budget hrtime n b)
  unfolding enforce_byte_budget
  enforce_byte_budget-Keeps n b = evict_while_over-Keeps _ n b

  evict_index-slots :
      (i : ℕ) (counted : Bool) (b : IoEventBuffer)
      → ((evict_index hrtime i counted b).slots ≡ set b.slots i none)
        ⊎ (((evict_index hrtime i counted b).slots ≡ b.slots) × (slot_at b.slots i ≡ none))
  unfolding evict_index
  evict_index-slots i counted b = elim (Option-cases (slot_at b.slots i)) [
    | inl e ↦ inr (rw (e, evict_index), e)
    | inr (s, e) ↦ inl (elim (Bool-cases counted) [ inl c ↦ ground arith | inr c ↦ ground arith ])
  ]

  pub evict_index-empty :
      (i : ℕ) (counted : Bool) (b : IoEventBuffer)
      → slot_at (evict_index hrtime i counted b).slots i ≡ none
  evict_index-empty i counted b = elim (evict_index-slots i counted b) [
    | inl e ↦ rw e (slot_at-set_self b.slots i)
    | inr (e, empty) ↦ rw e empty
  ]

  evict_index-Empties :
      (i : ℕ) (counted : Bool) (b : IoEventBuffer) → Empties b (evict_index hrtime i counted b)
  evict_index-Empties i counted b j h = elim (evict_index-slots i counted b) [
    | inl e ↦ rw e (slot_at-set-none b.slots i j h)
    | inr (e, _) ↦ rw e h
  ]

  evict_oldest_from-Empties : (n : ℕ) (b : IoEventBuffer) → Empties b (evict_oldest_from hrtime n b)
  unfolding evict_oldest_from
  evict_oldest_from-Empties zero b j h = h
  evict_oldest_from-Empties (suc n) b j h =
      elim (Option-cases (slot_at b.slots (b.read_head % b.capacity))) [
        | inl e ↦
            rw (e, evict_oldest_from)
              (evict_oldest_from-Empties n (record b { read_head = b.read_head + 1 }) j h)
        | inr (s, e) ↦ rw (e, evict_oldest_from) (evict_index-Empties _ true b j h)
      ]

  evict_while_over-Empties :
      (fuel n : ℕ) (b : IoEventBuffer) → Empties b (evict_while_over hrtime fuel n b)
  unfolding evict_while_over evict_oldest
  evict_while_over-Empties zero n b j h = h
  evict_while_over-Empties (suc fuel) n b j h = elim (Bool-cases (over_budget hrtime n b)) [
    | inl e ↦
        rw (e, evict_while_over)
          (evict_while_over-Empties fuel n (evict_oldest hrtime b) j
            (evict_oldest_from-Empties _ b j h))
    | inr e ↦ rw (e, evict_while_over) h
  ]

  pub enforce_byte_budget-Empties :
      (n : ℕ) (b : IoEventBuffer) → Empties b (enforce_byte_budget hrtime n b)
  unfolding enforce_byte_budget
  enforce_byte_budget-Empties n b = evict_while_over-Empties b.slot_count n b
