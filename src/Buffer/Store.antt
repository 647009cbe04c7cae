-- ===== src/Buffer/Store.antt =====
-- A slot stored at the write head of src/buffer/io-event-buffer.ts, and the new buffer.
use errorcore.Common.{
  ℕ, zero, suc, ◌+◌, ◌-◌, ◌%◌, ◌≤◌, ◌<◌, ◌≡◌, refl, sym, ap, ◌∙◌, Bool, false, Option, none, some,
  List, [], ◌∷◌, ◌++◌, map, map-append, append_assoc, arith, length, set, get_or, replicate, ◌||◌,
  ◌==◌, length-set, length-replicate, length-append, pos-+ℤ,
}
use errorcore.Buffer.Slot.{IoEventSlot}
use errorcore.Buffer.Cells.{cells, cells-set, get_or-cells}
use errorcore.Buffer.Queue.{Holds, total, objects, Below, Distinct, shrink, make_room, set-length}
use errorcore.Buffer.Writes.{store_slot}
use errorcore.Buffer.{IoEventBuffer, slot_at, has_object, new_buffer}

slot_at-replicate : (n i : ℕ) → ◌≡◌ {A = Option IoEventSlot} (slot_at (replicate n none) i) none
slot_at-replicate zero i = refl
slot_at-replicate (suc n) zero = refl
slot_at-replicate (suc n) (suc i) = slot_at-replicate n i

cells-replicate :
    (cap start n : ℕ)
    → ◌≡◌ {A = List (Option IoEventSlot)}
        (cells (replicate cap none) cap start n)
        (replicate n none)
unfolding cells
cells-replicate cap start zero = refl
cells-replicate cap start (suc n) =
    rw (slot_at-replicate cap (start % cap), cells-replicate cap (start + 1) n)

pub new_buffer-Holds :
    (capacity max_bytes : ℕ) (stores : Option Bool)
    → 0 < capacity
    → Holds (new_buffer capacity max_bytes stores) []
unfolding new_buffer
new_buffer-Holds capacity max_bytes stores h = record {
  positive = h;
  size = length-replicate capacity none;
  heads = refl;
  fits = omega arith;
  layout =
      cells-replicate capacity 0 capacity
      ∙ ap (λ k. replicate k none) (let e : capacity ≡ capacity - 0 = omega arith in e);
  count = refl;
  sum = refl;
  distinct = tt;
  fresh = tt;
  stored = λ o. refl;
}

get_or-layout :
    (q : List IoEventSlot) (n : ℕ) → get_or (map some q ++ replicate n none) (length q) none ≡ none
get_or-layout [] zero = refl
get_or-layout [] (suc n) = refl
get_or-layout (s ∷ q) n = get_or-layout q n

-- While the ring is not full the entry at the write head is empty.
pub slot_at-tail :
    (b : IoEventBuffer) (q : List IoEventSlot)
    → Holds b q
    → length q < b.capacity
    → slot_at b.slots (b.write_head % b.capacity) ≡ none
slot_at-tail b q h lt = rw h.heads (
    sym (get_or-cells b.slots b.capacity b.read_head b.capacity (length q) lt)
    ∙ rw h.layout (get_or-layout q _))

has_object-append :
    (o x : ℕ) (xs : List ℕ) → has_object o (xs ++ x ∷ []) ≡ (x == o || has_object o xs)
has_object-append o x [] = ground arith
has_object-append o x (y ∷ ys) = ground (arith, has_object-append o x ys)

Distinct-append :
    (x : ℕ) (xs : List ℕ) → Distinct xs → has_object x xs ≡ false → Distinct (xs ++ x ∷ [])
Distinct-append x [] d h = (refl, tt)
Distinct-append x (y ∷ ys) (d, ds) h =
    (rw (has_object-append y x ys, d) (ground arith), Distinct-append x ys ds (ground arith))

Below-append : (n x : ℕ) (xs : List ℕ) → Below n xs → x < n → Below n (xs ++ x ∷ [])
Below-append n x [] b h = (h, tt)
Below-append n x (y ∷ ys) (b, bs) h = (b, Below-append n x ys bs h)

total-append :
    (q : List IoEventSlot) (s : IoEventSlot) → total (q ++ s ∷ []) ≡ total q + s.estimated_bytes
total-append [] s = omega arith
total-append (x ∷ q) s = omega (arith, total-append q s)

pub not_has_object : (n : ℕ) (xs : List ℕ) → Below n xs → has_object n xs ≡ false
not_has_object n [] b = refl
not_has_object n (x ∷ xs) (b, bs) = ground (arith, not_has_object n xs bs)

layout_stored :
    (q : List IoEventSlot) (s : IoEventSlot) (cap : ℕ)
    → length q < cap
    → set (map some q ++ replicate (cap - length q) none) (length q) (some s)
      ≡ map some (q ++ s ∷ []) ++ replicate (cap - length (q ++ s ∷ [])) none
layout_stored q s cap lt =
    let m : ℕ = cap - suc (length q) in
    let e : cap - length q ≡ suc m = omega arith in
    let f : cap - length (q ++ s ∷ []) ≡ m = omega (arith, length-append q (s ∷ [])) in
    rw (e, f)
      (set-length q (some s) none (replicate m none)
        ∙ rw (map-append some q (s ∷ [])) (sym (append_assoc (map some q) _ _)))

pub store_slot-Holds :
    (b : IoEventBuffer) (q : List IoEventSlot) (s : IoEventSlot)
    → Holds b q
    → length q < b.capacity
    → has_object s.object (objects q) ≡ false
    → s.object < b.next_object
    → Holds (store_slot (b.write_head % b.capacity) s b) (q ++ s ∷ [])
unfolding store_slot
store_slot-Holds b q s h lt new old = record {
  positive = h.positive;
  size = length-set b.slots _ (some s) ∙ h.size;
  heads = omega (arith, h.heads, length-append q (s ∷ []));
  fits = omega (arith, length-append q (s ∷ []));
  layout =
      cells-set b.slots b.capacity b.read_head b.capacity b.write_head (some s) h.size
        (omega (arith, h.heads)) (omega (arith, h.heads)) (omega arith)
      ∙ (let e : b.write_head - b.read_head ≡ length q = omega (arith, h.heads) in
          rw (e, h.layout) (layout_stored q s b.capacity lt));
  count = omega (arith, h.count, length-append q (s ∷ []));
  sum = rw (h.sum, total-append q s) (pos-+ℤ _ _);
  distinct =
      rw (map-append (λ (x : IoEventSlot). x.object) q (s ∷ []))
        (Distinct-append s.object (objects q) h.distinct new);
  fresh =
      rw (map-append (λ (x : IoEventSlot). x.object) q (s ∷ []))
        (Below-append b.next_object s.object (objects q) h.fresh old);
  stored = λ o. rw (
    map-append (λ (x : IoEventSlot). x.object) q (s ∷ []),
    has_object-append o s.object (objects q),
    h.stored o,
  );
}

pub length-make_room :
    (q : List IoEventSlot) (cap : ℕ) → 0 < cap → length q ≤ cap → length (make_room cap q) < cap
unfolding make_room
length-make_room [] cap p h = p
length-make_room (s ∷ q) cap p h = ground arith

pub length-shrink : (m n : ℕ) (q : List IoEventSlot) → length (shrink m n q) ≤ length q
unfolding shrink
length-shrink m n [] = omega arith
length-shrink m n (s ∷ q) = ground (arith, length-shrink m n q)

pub Below-make_room :
    (x cap : ℕ) (q : List IoEventSlot) → Below x (objects q) → Below x (objects (make_room cap q))
unfolding make_room
Below-make_room x cap [] b = tt
Below-make_room x cap (s ∷ q) b = ground arith

pub Below-shrink :
    (x m n : ℕ) (q : List IoEventSlot) → Below x (objects q) → Below x (objects (shrink m n q))
unfolding shrink
Below-shrink x m n [] b = tt
Below-shrink x m n (s ∷ q) b = ground (arith, Below-shrink x m n q b.1)

pub Below-suc : (n : ℕ) (xs : List ℕ) → Below n xs → Below (n + 1) xs
Below-suc n [] b = tt
Below-suc n (x ∷ xs) (b, bs) = (omega arith, Below-suc n xs bs)
