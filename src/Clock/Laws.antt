-- ===== src/Clock/Laws.antt =====
-- The order and the bounds of the stamps of src/context/event-clock.ts.
use errorcore.Common.{ℕ, ◌+◌, ◌≤◌, ◌≡◌, List, [], ◌∷◌, arith, max, min, if◌then◌else◌}
use errorcore.Clock.{
  EventClock, Received, integer, other, max_safe_integer, is_safe, tick, merge, current,
}

-- The clock stays in the safe integers.
abbrev pub IsBounded : EventClock → Type 0
IsBounded c = current c ≤ max_safe_integer

-- What a peer's value counts for: itself if it is a positive safe integer, and else nothing.
abbrev pub weight : Received → ℕ
weight (integer n) = if is_safe n then n else 0
weight other = 0

-- A stamping call of the clock.
pub data Stamp : Type 0 where
  local : Stamp
  remote : Received → Stamp

abbrev pub stamp : Stamp → EventClock → EventClock
stamp local c = tick c
stamp (remote r) c = merge r c

pub tick_lem :
    (c : EventClock) → IsBounded c → current (tick c) ≡ min max_safe_integer (current c + 1)
unfolding tick
tick_lem c h = ground arith

-- From a clock within the safe integers, `merge` yields one more than the larger of the clock and
-- the peer's value, capped at the largest safe integer; a value that is no positive safe integer
-- counts as 0, so that the call is a plain tick.
pub merge_lem :
    (r : Received) (c : EventClock)
    → IsBounded c
    → current (merge r c) ≡ min max_safe_integer (max (current c) (weight r) + 1)
unfolding merge tick
merge_lem (integer n) c h = ground arith
merge_lem other c h = ground arith

weight_bound : (r : Received) → weight r ≤ max_safe_integer
weight_bound (integer n) = ground arith
weight_bound other = omega arith

pub stamp-IsBounded : (s : Stamp) (c : EventClock) → IsBounded c → IsBounded (stamp s c)
stamp-IsBounded local c h = omega (arith, tick_lem c h)
stamp-IsBounded (remote r) c h = omega (arith, merge_lem r c h)

-- The values that a sequence of stamping calls hands out, in order.
unfoldable pub stamps : List Stamp → EventClock → List ℕ
stamps [] c = []
stamps (s ∷ ss) c = current (stamp s c) ∷ stamps ss (stamp s c)

-- Each number is above the bound and above the one before it, unless it is at the ceiling.
abbrev pub Ascends : ℕ → List ℕ → Type 0
Ascends low [] = Unit {0}
Ascends low (n ∷ ns) = (min max_safe_integer (low + 1) ≤ n) × (n ≤ max_safe_integer) × Ascends n ns

stamp-le :
    (s : Stamp) (c : EventClock)
    → IsBounded c
    → min max_safe_integer (current c + 1) ≤ current (stamp s c)
stamp-le local c h = omega (arith, tick_lem c h)
stamp-le (remote r) c h = omega (arith, merge_lem r c h)

-- Whatever peers send, the stamps of one process strictly increase until they reach the largest
-- safe integer, which they never exceed.
pub stamps-Ascends :
    (ss : List Stamp) (c : EventClock) → IsBounded c → Ascends (current c) (stamps ss c)
unfolding stamps
stamps-Ascends [] c h = tt
stamps-Ascends (s ∷ ss) c h =
    (stamp-le s c h, stamp-IsBounded s c h, stamps-Ascends ss (stamp s c) (stamp-IsBounded s c h))
