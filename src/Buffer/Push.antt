-- ===== src/Buffer/Push.antt =====
-- `push` of src/buffer/io-event-buffer.ts appends to the queue that the ring buffer holds.
use errorcore.Common.{
  ℕ, suc, ◌+◌, ◌%◌, ◌<◌, ◌≡◌, refl, sym, ap, ap₂, ◌∙◌, true, none, List, [], ◌∷◌, ◌++◌, arith,
  length, subst, ◌==◌, inl, inr, ==_iff, Bool-cases, if◌then◌else◌,
}
use native.Mathlib.Nat.{add-mod_right}
use errorcore.Buffer.Slot.{IoEvent, IoEventSlot}
use errorcore.Buffer.Queue.{Holds, objects, shrink, make_room}
use errorcore.Buffer.Evict.{evict_index-head, head_evicted-Holds, evict_while_over-Holds}
use errorcore.Buffer.Writes.{is_kept_out, store_slot, push}
use errorcore.Buffer.{
  IoEventBuffer, evict_index, evict_while_over, enforce_byte_budget, assign_slot,
}
use errorcore.Buffer.Frame.{Keeps, Keeps-trans, evict_index-Keeps, enforce_byte_budget-Keeps}
use errorcore.Clock.{EventClock}
use errorcore.Buffer.Store.{
  slot_at-tail, not_has_object, store_slot-Holds, length-make_room, length-shrink, Below-make_room,
  Below-shrink, Below-suc,
}

-- What `push` makes of the queue: an event of a request whose context keeps it is not stored, and
-- any other goes to the end, once the ring and the byte budget have room for it.
abbrev pub pushed_queue :
    IoEventBuffer → IoEvent → IoEventSlot → List IoEventSlot → List IoEventSlot
pushed_queue b event slot q =
    if is_kept_out b event
    then q
    else shrink b.max_bytes slot.estimated_bytes (make_room b.capacity q) ++ slot ∷ []

module _ (hrtime : ℕ → ℕ) where
  evict_index-tail :
      (b : IoEventBuffer) (q : List IoEventSlot)
      → Holds b q
      → length q < b.capacity
      → evict_index hrtime (b.write_head % b.capacity) true b ≡ b
  unfolding evict_index
  evict_index-tail b q h lt = rw (slot_at-tail b q h lt, evict_index)

  evict_index-Holds :
      (b : IoEventBuffer) (q : List IoEventSlot)
      → Holds b q
      → Holds (evict_index hrtime (b.write_head % b.capacity) true b) (make_room b.capacity q)
  unfolding make_room
  evict_index-Holds b [] h = rw (evict_index-tail b [] h h.positive) h
  evict_index-Holds b (s ∷ q) h = elim (Bool-cases (suc (length q) == b.capacity)) [
    | inl full ↦
        let e : b.write_head ≡ b.read_head + b.capacity =
          omega (arith, h.heads, (==_iff (suc (length q)) b.capacity).0 full) in
        let same : b.write_head % b.capacity ≡ b.read_head % b.capacity =
          ap (λ w. w % b.capacity) e ∙ add-mod_right b.read_head b.capacity in
        rw (full, same, evict_index-head hrtime b s q h) (head_evicted-Holds hrtime b s q h)
    | inr room ↦ rw (room, evict_index-tail b (s ∷ q) h (ground arith)) h
  ]

  -- The state in which `push` evicts.
  announced : IoEventBuffer → IoEventBuffer
  announced b = record b { request_id_index = none; next_object = b.next_object + 1 }

  announced-Holds : (b : IoEventBuffer) (q : List IoEventSlot) → Holds b q → Holds (announced b) q
  unfolding announced
  announced-Holds b q h = record {
    positive = h.positive;
    size = h.size;
    heads = h.heads;
    fits = h.fits;
    layout = h.layout;
    count = h.count;
    sum = h.sum;
    distinct = h.distinct;
    fresh = Below-suc b.next_object (objects q) h.fresh;
    stored = h.stored;
  }

  -- The eviction of a full ring and of the byte budget, before the write.
  enforce-Holds :
      (b : IoEventBuffer) (q : List IoEventSlot) (incoming_bytes : ℕ)
      → Holds b q
      → Holds (enforce_byte_budget hrtime incoming_bytes b) (shrink b.max_bytes incoming_bytes q)
  unfolding enforce_byte_budget
  enforce-Holds b q incoming_bytes h =
      subst
        (λ k.
          Holds (evict_while_over hrtime k incoming_bytes b) (shrink b.max_bytes incoming_bytes q))
        (sym h.count) (evict_while_over-Holds hrtime b q incoming_bytes h)

  -- The state that `push` writes the slot into.
  roomy : ℕ → IoEventBuffer → IoEventBuffer
  unfolding announced
  roomy bytes b =
      enforce_byte_budget hrtime bytes
        (evict_index hrtime (b.write_head % b.capacity) true (announced b))

  roomy-Keeps : (bytes : ℕ) (b : IoEventBuffer) → Keeps (announced b) (roomy bytes b)
  unfolding roomy
  roomy-Keeps bytes b =
      Keeps-trans (evict_index-Keeps hrtime _ true (announced b))
        (enforce_byte_budget-Keeps hrtime bytes _)

  roomy-Holds :
      (bytes : ℕ) (b : IoEventBuffer) (q : List IoEventSlot)
      → Holds b q
      → Holds (roomy bytes b) (shrink b.max_bytes bytes (make_room b.capacity q))
  unfolding roomy
  roomy-Holds bytes b q h =
      let m : (evict_index hrtime (b.write_head % b.capacity) true (announced b)).max_bytes
          ≡ b.max_bytes =
        (evict_index-Keeps hrtime _ true (announced b)).max_bytes in
      subst (λ k. Holds (roomy bytes b) (shrink k bytes (make_room b.capacity q))) m
        (enforce-Holds _ _ bytes (evict_index-Holds (announced b) q (announced-Holds b q h)))

  stored-Holds :
      (b : IoEventBuffer) (q : List IoEventSlot) (s : IoEventSlot)
      → Holds b q
      → s.object ≡ b.next_object
      → Holds
          (store_slot (b.write_head % b.capacity) s (roomy s.estimated_bytes b))
          (shrink b.max_bytes s.estimated_bytes (make_room b.capacity q) ++ s ∷ [])
  unfolding announced
  stored-Holds b q s h new =
      let k = roomy-Keeps s.estimated_bytes b in
      let r = roomy-Holds s.estimated_bytes b q h in
      let index : (roomy s.estimated_bytes b).write_head % (roomy s.estimated_bytes b).capacity
          ≡ b.write_head % b.capacity =
        ap₂ ◌%◌ k.write_head k.capacity in
      subst
        (λ i.
          Holds (store_slot i s (roomy s.estimated_bytes b))
            (shrink b.max_bytes s.estimated_bytes (make_room b.capacity q) ++ s ∷ []))
        index
        (store_slot-Holds _ _ s r
          (omega (
            arith,
            length-shrink b.max_bytes s.estimated_bytes (make_room b.capacity q),
            length-make_room q b.capacity h.positive h.fits,
            k.capacity,
          ))
          (rw new (
            not_has_object b.next_object _ (
              Below-shrink b.next_object b.max_bytes s.estimated_bytes (make_room b.capacity q)
                (Below-make_room b.next_object b.capacity q h.fresh))))
          (omega (arith, k.next_object)))

  -- After `push` the buffer holds the queue with the new slot at its end, less the oldest slots
  -- that a full ring or the byte budget has no room for; or the same queue, if the event is kept out.
  pub push-Holds :
      (at : ℕ) (event : IoEvent) (clock : EventClock) (b : IoEventBuffer) (q : List IoEventSlot)
      → Holds b q
      → Holds
          (push hrtime at event clock b).buffer
          (pushed_queue b event (push hrtime at event clock b).slot q)
  unfolding push announced assign_slot roomy
  push-Holds at event clock b q h = elim (Bool-cases (is_kept_out b event)) [
    | inl out ↦ rw out (announced-Holds b q h)
    | inr kept ↦ rw kept (stored-Holds b q _ h refl)
  ]
