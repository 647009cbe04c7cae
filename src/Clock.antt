-- ===== src/Clock.antt =====
-- src/context/event-clock.ts: the process-wide Lamport counter that stamps every event.
pub mod Laws
mod Tests
use errorcore.Common.{ℕ, ◌+◌, Bool, ◌&&◌, ltb, leb, if◌then◌else◌}

-- Number.MAX_SAFE_INTEGER, 2 ^ 53 - 1.
abbrev pub max_safe_integer : ℕ
max_safe_integer = 9007199254740991

pub record EventClock : Type 0 where
  pub value : ℕ

-- What a peer hands to `merge`, of type `unknown`: a number that is a non-negative integer, or
-- anything else (a negative number, a fraction, NaN, a value of another type).
pub data Received : Type 0 where
  integer : ℕ → Received
  other : Received

-- `typeof received === 'number' && Number.isSafeInteger(received) && received > 0`.
abbrev pub is_safe : ℕ → Bool
is_safe n = leb n max_safe_integer && ltb 0 n

pub new_clock : EventClock
new_clock = record { value = 0 }

-- The new state; its value is the result of the method.
unfoldable pub tick : EventClock → EventClock
tick c =
    if leb max_safe_integer c.value
    then record c { value = max_safe_integer }
    else record c { value = c.value + 1 }

abbrev adopt : Received → EventClock → EventClock
adopt (integer n) c = if is_safe n && ltb c.value n then record c { value = n } else c
adopt other c = c

unfoldable pub merge : Received → EventClock → EventClock
merge received c = tick (adopt received c)

abbrev pub current : EventClock → ℕ
current c = c.value
