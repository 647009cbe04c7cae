-- ===== src/CaptureMode/Intent/Order.antt =====
-- The order of switches by hand and of adaptive ones in the chain of src/capture-mode-controller.ts.
use errorcore.Common.{ℕ, ◌+◌, ◌≤◌, ◌≡◌, refl, Bool, true, false, List, [], ◌∷◌, ◌++◌, arith}
use errorcore.CaptureMode.{CaptureMode}
use errorcore.CaptureMode.Controller.{CaptureModeController, by_hand, adaptive}
use errorcore.CaptureMode.Controller.{Transition}

abbrev pub has_manual : List Transition → Bool
has_manual [] = false
has_manual (by_hand mode ∷ q) = true
has_manual (adaptive target g ∷ q) = has_manual q

-- No generation is above the current one, and no choice of the user waits behind a switch of it.
abbrev pub IsOrdered : ℕ → List Transition → Type 0
IsOrdered now [] = Unit {0}
IsOrdered now (by_hand mode ∷ q) = IsOrdered now q
IsOrdered now (adaptive target g ∷ q) =
    (g ≤ now) × ((g ≡ now → has_manual q ≡ false) × IsOrdered now q)

abbrev pub AtMost : ℕ → List ℕ → Type 0
AtMost now [] = Unit {0}
AtMost now (g ∷ gs) = (g ≤ now) × AtMost now gs

pub record Intends (c : CaptureModeController) : Type 0 where
  pub waiting : AtMost c.adaptive_intent_generation c.microtasks
  pub ordered : IsOrdered c.adaptive_intent_generation c.queue

pub AtMost-append : (now : ℕ) (gs : List ℕ) → AtMost now gs → AtMost now (gs ++ now ∷ [])
AtMost-append now [] h = (omega arith, tt)
AtMost-append now (g ∷ gs) (le, h) = (le, AtMost-append now gs h)

pub AtMost-suc : (now : ℕ) (gs : List ℕ) → AtMost now gs → AtMost (now + 1) gs
AtMost-suc now [] h = tt
AtMost-suc now (g ∷ gs) (le, h) = (omega arith, AtMost-suc now gs h)

pub has_manual-append_adaptive :
    (q : List Transition) (target : CaptureMode) (g : ℕ)
    → has_manual (q ++ adaptive target g ∷ []) ≡ has_manual q
has_manual-append_adaptive [] target g = refl
has_manual-append_adaptive (by_hand mode ∷ q) target g = refl
has_manual-append_adaptive (adaptive t h ∷ q) target g = has_manual-append_adaptive q target g

pub IsOrdered-append_adaptive :
    (now : ℕ) (q : List Transition) (target : CaptureMode) (g : ℕ)
    → g ≤ now
    → IsOrdered now q
    → IsOrdered now (q ++ adaptive target g ∷ [])
IsOrdered-append_adaptive now [] target g le o = (le, (λ e. refl, tt))
IsOrdered-append_adaptive now (by_hand mode ∷ q) target g le o =
    IsOrdered-append_adaptive now q target g le o
IsOrdered-append_adaptive now (adaptive t h ∷ q) target g le (lo, (last, o)) = (
  lo,
  (
    λ e. rw (has_manual-append_adaptive q target g) (last e),
    IsOrdered-append_adaptive now q target g le o,
  ),
)

-- Under a new generation every switch that waits is out of date.
pub IsOrdered-append_manual :
    (now : ℕ) (q : List Transition) (mode : CaptureMode)
    → IsOrdered now q
    → IsOrdered (now + 1) (q ++ by_hand mode ∷ [])
IsOrdered-append_manual now [] mode o = tt
IsOrdered-append_manual now (by_hand m ∷ q) mode o = IsOrdered-append_manual now q mode o
IsOrdered-append_manual now (adaptive t h ∷ q) mode (le, (last, o)) =
    (omega arith, (λ e. absurd (above e), IsOrdered-append_manual now q mode o))
  where
    above : h ≡ now + 1 → ⊥
    above e = omega arith
