-- ===== src/Clock/Tests.antt =====
-- Runs of the clock of src/context/event-clock.ts on small inputs.
use errorcore.Common.{◌+◌, ◌≡◌, refl, [], ◌∷◌, arith, min, max}
use errorcore.Clock.{new_clock, tick, merge, current, integer, other, max_safe_integer}
use errorcore.Clock.Laws.{merge_lem, stamps, stamps-Ascends, Ascends, local, remote, weight}

merge_lem_example :
    current (merge (integer 41) (tick new_clock))
    ≡ min max_safe_integer (max (current (tick new_clock)) (weight (integer 41)) + 1)
merge_lem_example = merge_lem (integer 41) (tick new_clock) (unfold tick new_clock in omega arith)

stamps-Ascends_example :
    Ascends
      (current new_clock)
      (stamps (local ∷ remote (integer 9) ∷ remote other ∷ local ∷ []) new_clock)
stamps-Ascends_example =
    stamps-Ascends (local ∷ remote (integer 9) ∷ remote other ∷ local ∷ []) new_clock
      (unfold new_clock in omega arith)

stamped :
    stamps (local ∷ remote (integer 9) ∷ remote other ∷ local ∷ []) new_clock
    ≡ 1 ∷ 10 ∷ 11 ∷ 12 ∷ []
unfolding stamps tick merge new_clock
stamped = refl
