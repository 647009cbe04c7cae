-- ===== src/Buffer/Queries.antt =====
-- What the reading methods of src/buffer/io-event-buffer.ts say of the queue.
use Prim.Native.String.{String}
use errorcore.Common.{
  ℕ, zero, suc, ◌+◌, ◌-◌, ◌%◌, ◌≤◌, ◌<◌, ◌≡◌, refl, sym, ap, ◌∙◌, Bool, true, false, ◌||◌, Option,
  none, some, List, [], ◌∷◌, ◌++◌, map, append_assoc, append-nil, arith, length, drop, keep_if, leb,
  ◌==◌, if◌then◌else◌, inl, inr, ◌⊎◌, length-append, length-map, Bool-cases, Option-cases, str_eq,
  str_eq_iff, lt→not_leb, not_leb→lt, leb→le,
}
use errorcore.Buffer.Slot.{IoEventSlot}
use errorcore.Buffer.Cells.{cells, somes, collect-somes, cells-append, cells-snoc, length-cells}
use errorcore.Buffer.Queue.{Holds, objects, append_prefix, somes-some}
use errorcore.Buffer.Reads.{
  collect_chronological, drain, recent_from, get_recent, push_some, build_index, index_slot,
  add_to_index, lookup_index, request_index, filter_by_request_id,
}
use errorcore.Buffer.{IoEventBuffer, slot_at, has_request_id}

-- The last `n` elements.
abbrev pub last {ℓ} : {A : Type ℓ} → ℕ → List A → List A
last n xs = drop (length xs - n) xs

cells-window :
    (b : IoEventBuffer) (q : List IoEventSlot)
    → Holds b q
    → cells b.slots b.capacity b.read_head (length q) ≡ map some q
cells-window b q h =
    let e : length q + (b.capacity - length q) ≡ b.capacity = omega arith in
    append_prefix _ _ _ _
      (sym (cells-append b.slots b.capacity b.read_head (length q) (b.capacity - length q))
        ∙ ap (cells b.slots b.capacity b.read_head) e
        ∙ h.layout)
      (length-cells b.slots b.capacity b.read_head (length q) ∙ sym (length-map q some))

somes_window :
    (b : IoEventBuffer) (q : List IoEventSlot)
    → Holds b q
    → somes (cells b.slots b.capacity b.read_head (b.write_head - b.read_head)) ≡ q
somes_window b q h =
    let e : b.write_head - b.read_head ≡ length q = omega (arith, h.heads) in
    rw e (ap somes (cells-window b q h) ∙ somes-some q)

-- `drain` returns the slots of the queue, the oldest first.
pub drain-Holds : (b : IoEventBuffer) (q : List IoEventSlot) → Holds b q → drain b ≡ q
unfolding collect_chronological
drain-Holds b q h =
    collect-somes b.slots b.capacity (b.write_head - b.read_head) b.read_head ∙ somes_window b q h

module _ {ℓ} {A : Type ℓ} where
  drop-append : (n : ℕ) (xs ys : List A) → n ≤ length xs → drop n (xs ++ ys) ≡ drop n xs ++ ys
  drop-append zero xs ys h = refl
  drop-append (suc n) [] ys h = elim h [ ]
  drop-append (suc n) (x ∷ xs) ys h = drop-append n xs ys (omega arith)

  drop-length : (xs : List A) → drop (length xs) xs ≡ []
  drop-length [] = refl
  drop-length (x ∷ xs) = drop-length xs

  last-snoc : (n : ℕ) (xs : List A) (x : A) → last (suc n) (xs ++ x ∷ []) ≡ last n xs ++ x ∷ []
  last-snoc n xs x =
      let e : length (xs ++ x ∷ []) - suc n ≡ length xs - n =
        omega (arith, length-append xs (x ∷ [])) in
      rw e (drop-append (length xs - n) xs (x ∷ []) (omega arith))

  somes-snoc :
      (xs : List (Option A)) (x : Option A) → somes (xs ++ x ∷ []) ≡ somes xs ++ push_some x []
  unfolding somes
  somes-snoc [] none = refl
  somes-snoc [] (some a) = refl
  somes-snoc (none ∷ xs) x = somes-snoc xs x
  somes-snoc (some a ∷ xs) x = ap (◌∷◌ a) (somes-snoc xs x)

  drop-nil : (n : ℕ) → ◌≡◌ {A = List A} (drop n []) []
  drop-nil zero = refl
  drop-nil (suc n) = refl

  last-nil : (xs : List A) → last 0 xs ≡ []
  last-nil xs = let e : length xs - 0 ≡ length xs = omega arith in rw e (drop-length xs)

  last-step :
      (n : ℕ) (xs acc : List A) (a : A)
      → length acc < n
      → last (n - suc (length acc)) xs ++ a ∷ acc ≡ last (n - length acc) (xs ++ a ∷ []) ++ acc
  last-step n xs acc a h =
      let e : n - length acc ≡ suc (n - suc (length acc)) = omega arith in
      rw (e, last-snoc (n - suc (length acc)) xs a)
        (sym (append_assoc (last (n - suc (length acc)) xs) (a ∷ []) acc))

  -- The loop of `getRecent` takes the last entries that fit.
  recent_from-last :
      (slots : List (Option A)) (cap r n rounds : ℕ) (acc : List A)
      → length acc < n
      → recent_from slots cap r n rounds acc
        ≡ last (n - length acc) (somes (cells slots cap r rounds)) ++ acc
  unfolding recent_from cells somes
  recent_from-last slots cap r n zero acc h = rw (drop-nil (0 - (n - length acc)))
  recent_from-last slots cap r n (suc rounds) acc h =
      rw (cells-snoc slots cap r rounds, somes-snoc)
        (elim (Option-cases (slot_at slots ((r + rounds) % cap))) [
          | inl e ↦
              rw (e, append-nil, lt→not_leb (length acc) n h)
                (recent_from-last slots cap r n rounds acc h)
          | inr (a, e) ↦ rw e (elim (Bool-cases (leb n (suc (length acc)))) [
            | inl full ↦
                let one : n - suc (length acc) ≡ 0 = omega (arith, leb→le n _ full) in
                rw full
                  (rw (one, last-nil) at (last-step n (somes (cells slots cap r rounds)) acc a h))
            | inr more ↦ rw more (
                recent_from-last slots cap r n rounds (a ∷ acc) (omega (arith, not_leb→lt n _ more))
                ∙ last-step n _ acc a h)
          ])
        ])

-- `getRecent` returns the newest `n` slots of the queue, the oldest of them first.
pub get_recent-Holds :
    (b : IoEventBuffer) (q : List IoEventSlot) (n : ℕ) → Holds b q → get_recent n b ≡ last n q
unfolding get_recent
get_recent-Holds b q zero h = sym (last-nil q)
get_recent-Holds b [] (suc n) h =
    let none_left : (suc n == 0 || b.slot_count == 0) ≡ true = ground (arith, h.count) in
    rw (none_left, drop-nil (0 - suc n))
get_recent-Holds b (s ∷ q) (suc n) h =
    let e : b.write_head - b.read_head ≡ length (s ∷ q) = omega (arith, h.heads) in
    let some_left : (suc n == 0 || b.slot_count == 0) ≡ false = ground (arith, h.count) in
    let all : suc n - 0 ≡ suc n = omega arith in
    rw (some_left, e)
      (recent_from-last b.slots b.capacity b.read_head (suc n) (length (s ∷ q)) [] (omega arith)
        ∙ append-nil _
        ∙ rw (cells-window b (s ∷ q) h, somes-some (s ∷ q), all))

lookup_index-add :
    (k id : String) (o : ℕ) (index : List (String × List ℕ))
    → lookup_index id (add_to_index k o index)
      ≡ (if str_eq k id then lookup_index id index ++ o ∷ [] else lookup_index id index)
unfolding lookup_index add_to_index
lookup_index-add k id o [] = ground arith
lookup_index-add k id o ((j, os) ∷ index) =
    ground (arith, str_eq_iff j k, str_eq_iff k id, str_eq_iff j id, lookup_index-add k id o index)

lookup_index-slot :
    (id : String) (s : IoEventSlot) (index : List (String × List ℕ))
    → lookup_index id (index_slot (some s) index)
      ≡ lookup_index id index ++ objects (keep_if (has_request_id id) (s ∷ []))
unfolding index_slot
lookup_index-slot id s index = elim (Option-cases s.request_id) [
  | inl e ↦ rw (e, index_slot) (sym (append-nil _))
  | inr (k, e) ↦
      rw (e, index_slot)
        (lookup_index-add k id s.object index ∙ (elim (Bool-cases (str_eq k id)) [
          | inl same ↦ rw same
          | inr other ↦ rw other (sym (append-nil _))
        ]))
]

objects-keep_if :
    (p : IoEventSlot → Bool) (s : IoEventSlot) (q : List IoEventSlot)
    → objects (keep_if p (s ∷ q)) ≡ objects (keep_if p (s ∷ [])) ++ objects (keep_if p q)
objects-keep_if p s q = elim (Bool-cases (p s)) [ inl e ↦ rw e | inr e ↦ rw e ]

lookup_index-build :
    (id : String) (slots : List (Option IoEventSlot)) (cap n cursor : ℕ)
    (index : List (String × List ℕ))
    → lookup_index id (build_index slots cap n cursor index)
      ≡ lookup_index id index
        ++ objects (keep_if (has_request_id id) (somes (cells slots cap cursor n)))
unfolding build_index cells somes index_slot
lookup_index-build id slots cap zero cursor index = sym (append-nil _)
lookup_index-build id slots cap (suc n) cursor index =
    elim (Option-cases (slot_at slots (cursor % cap))) [
      | inl e ↦ rw e (lookup_index-build id slots cap n (cursor + 1) index)
      | inr (s, e) ↦ rw e (
          lookup_index-build id slots cap n (cursor + 1) (index_slot (some s) index)
          ∙ rw (lookup_index-slot id s index) (append_assoc (lookup_index id index) _ _)
          ∙ ap (◌++◌ (lookup_index id index)) (
              sym (objects-keep_if (has_request_id id) s (somes (cells slots cap (cursor + 1) n)))))
    ]

-- The index that is kept, if one is, is the one that a new call would build.
abbrev pub IsCoherent : IoEventBuffer → Type 0
IsCoherent b =
    (b.request_id_index ≡ none)
    ⊎ (b.request_id_index
        ≡ some (build_index b.slots b.capacity (b.write_head - b.read_head) b.read_head []))

request_index-build :
    (b : IoEventBuffer)
    → IsCoherent b
    → request_index b ≡ build_index b.slots b.capacity (b.write_head - b.read_head) b.read_head []
unfolding request_index
request_index-build b (inl e) = rw (e, request_index)
request_index-build b (inr e) = rw (e, request_index)

-- `filterByRequestId` returns the slots of the request in the order of the queue, from the kept
-- index as from a new one, and leaves the index coherent.
pub filter_by_request_id-Holds :
    (id : String) (b : IoEventBuffer) (q : List IoEventSlot)
    → Holds b q
    → IsCoherent b
    → ((filter_by_request_id id b).1 ≡ objects (keep_if (has_request_id id) q))
      × IsCoherent (filter_by_request_id id b).0
unfolding filter_by_request_id lookup_index
filter_by_request_id-Holds id b q h c = (
  rw (request_index-build b c) (
      lookup_index-build id b.slots b.capacity (b.write_head - b.read_head) b.read_head []
      ∙ ap (λ xs. objects (keep_if (has_request_id id) xs)) (somes_window b q h)),
  inr (ap some (request_index-build b c)),
)
