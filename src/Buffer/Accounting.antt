-- ===== src/Buffer/Accounting.antt =====
-- The counters of src/buffer/io-event-buffer.ts against the array, also with holes in the ring.
pub mod Slots
pub mod Evict
pub mod Methods
pub mod Budget
pub mod Clear
pub mod Runs
use errorcore.Common.{ℕ, ◌<◌, ◌≤◌, ◌%◌, ◌≡◌, length, pos, some}
use errorcore.Buffer.Slot.{IoEventSlot}
use errorcore.Buffer.{IoEventBuffer, slot_at}
use Slots.{live, bytes_in}

-- The counters count the array: `slot_count` its slots and `payload_bytes` their sizes; and each
-- slot stands under a cursor between the read head and the write head.
pub record Counts (b : IoEventBuffer) : Type 0 where
  pub positive : 0 < b.capacity
  pub size : length b.slots ≡ b.capacity
  pub count : b.slot_count ≡ live b.slots
  pub sum : b.payload_bytes ≡ pos (bytes_in b.slots)
  pub ordered : b.read_head ≤ b.write_head
  pub covered :
      (i : ℕ) (s : IoEventSlot)
      → slot_at b.slots i ≡ some s
      → (c : ℕ) × (b.read_head ≤ c) × (c < b.write_head) × (c % b.capacity ≡ i)
