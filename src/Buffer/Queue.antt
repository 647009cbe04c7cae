-- ===== src/Buffer/Queue.antt =====
-- The ring buffer of src/buffer/io-event-buffer.ts seen as a queue of slots, the oldest first.
use errorcore.Common.{
  ℕ, zero, suc, ◌+◌, ◌-◌, ◌%◌, ◌≤◌, ◌<◌, ◌≡◌, refl, ap, false, Option, none, some, List, [], ◌∷◌,
  ◌++◌, map, arith, length, set, replicate, pos, not, ◌&&◌, ◌==◌, ltb, if◌then◌else◌,
}
use errorcore.Buffer.Slot.{IoEventSlot}
use errorcore.Buffer.Cells.{cells, somes, cells-head}
use errorcore.Buffer.{IoEventBuffer, slot_at, has_object, delete_object}

abbrev pub total : List IoEventSlot → ℕ
total [] = 0
total (s ∷ q) = s.estimated_bytes + total q

abbrev pub objects : List IoEventSlot → List ℕ
objects = map λ s. s.object

abbrev pub Below : ℕ → List ℕ → Type 0
Below n [] = Unit {0}
Below n (x ∷ xs) = (x < n) × Below n xs

abbrev pub Distinct : List ℕ → Type 0
Distinct [] = Unit {0}
Distinct (x ∷ xs) = (has_object x xs ≡ false) × Distinct xs

-- The buffer holds exactly the slots of `q`: they stand in order from `read_head` on and the rest
-- of the ring is empty, the counters count them, and `storedSlots` knows them and no other.
pub record Holds (b : IoEventBuffer) (q : List IoEventSlot) : Type 0 where
  pub positive : 0 < b.capacity
  pub size : length b.slots ≡ b.capacity
  pub heads : b.write_head ≡ b.read_head + length q
  pub fits : length q ≤ b.capacity
  pub layout :
      cells b.slots b.capacity b.read_head b.capacity
      ≡ map some q ++ replicate (b.capacity - length q) none
  pub count : b.slot_count ≡ length q
  pub sum : b.payload_bytes ≡ pos (total q)
  pub distinct : Distinct (objects q)
  pub fresh : Below b.next_object (objects q)
  pub stored : (o : ℕ) → has_object o b.stored_slots ≡ has_object o (objects q)

module _ {ℓ} {A : Type ℓ} where
  pub replicate-snoc : (n : ℕ) (a : A) → replicate n a ++ a ∷ [] ≡ replicate (suc n) a
  replicate-snoc zero a = refl
  replicate-snoc (suc n) a = ap (◌∷◌ a) (replicate-snoc n a)

  pub set-length :
      (q : List A) (v : Option A) (x : Option A) (ys : List (Option A))
      → set (map some q ++ x ∷ ys) (length q) v ≡ map some q ++ v ∷ ys
  set-length [] v x ys = refl
  set-length (a ∷ q) v x ys = ap (◌∷◌ (some a)) (set-length q v x ys)

  pub somes-some : (q : List A) → somes (map some q) ≡ q
  unfolding somes
  somes-some [] = refl
  somes-some (a ∷ q) = ap (◌∷◌ a) (somes-some q)

  pub append_prefix : (xs ys zs ws : List A) → xs ++ ys ≡ zs ++ ws → length xs ≡ length zs → xs ≡ zs
  append_prefix [] ys [] ws e l = refl
  append_prefix [] ys (z ∷ zs) ws e l = absurd (omega arith)
  append_prefix (x ∷ xs) ys [] ws e l = absurd (omega arith)
  append_prefix (x ∷ xs) ys (z ∷ zs) ws e l =
      let t : xs ≡ zs = append_prefix xs ys zs ws (cc) (omega arith) in cc

pub has_object-delete :
    (o x : ℕ) (xs : List ℕ) → has_object o (delete_object x xs) ≡ (has_object o xs && not (x == o))
has_object-delete o x [] = refl
has_object-delete o x (y ∷ ys) = ground (arith, has_object-delete o x ys)

-- The first slot of the queue stands at the read head.
pub slot_at-head :
    (b : IoEventBuffer) (s : IoEventSlot) (q : List IoEventSlot)
    → Holds b (s ∷ q)
    → slot_at b.slots (b.read_head % b.capacity) ≡ some s
slot_at-head b s q h = cells-head b.slots b.capacity b.read_head b.capacity h.layout

-- The queue without its oldest slots, as many as make room for the incoming bytes.
unfoldable pub shrink : ℕ → ℕ → List IoEventSlot → List IoEventSlot
shrink max_bytes incoming_bytes [] = []
shrink max_bytes incoming_bytes (s ∷ q) =
    if ltb max_bytes (total (s ∷ q) + incoming_bytes)
    then shrink max_bytes incoming_bytes q
    else s ∷ q

-- The queue without its oldest slot if it fills the ring.
unfoldable pub make_room : ℕ → List IoEventSlot → List IoEventSlot
make_room capacity [] = []
make_room capacity (s ∷ q) = if suc (length q) == capacity then q else s ∷ q
