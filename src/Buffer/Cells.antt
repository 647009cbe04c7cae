-- ===== src/Buffer/Cells.antt =====
-- A ring of nullable entries read from a cursor on: src/buffer/io-event-buffer.ts indexes `slots`
-- and `evictionSlots` by a cursor that only grows, modulo the size of the array.
use native.Mathlib.Nat.{mod-lt, div-add-mod, mul-le-mul_left, add-mod_right}
use native.Mathlib.Decide.{dec_lt}
use errorcore.Common.{
  ℕ, zero, suc, ◌+◌, ◌-◌, ◌/◌, ◌%◌, ◌≤◌, ◌<◌, ◌≡◌, ◌≢◌, refl, sym, ap, ◌∙◌, Option, none, some,
  List, [], ◌∷◌, ◌++◌, arith, length, set, get_or, get_or-set_self, get_or-set_ne,
}
use errorcore.Buffer.{slot_at}
use errorcore.Buffer.Reads.{collect}

-- Two cursors less than a round apart stand at different places.
pub mod_ne : (cap c d : ℕ) → c < d → d < c + cap → c % cap ≢ d % cap
mod_ne cap c d h k e = elim (dec_lt (c / cap) (d / cap)) [
  | yes p ↦ omega (
    arith,
    div-add-mod c cap,
    div-add-mod d cap,
    e,
    mul-le-mul_left {m = c / cap + 1} {n = d / cap} cap (omega arith),
  )
  | no p ↦ omega (
    arith,
    div-add-mod c cap,
    div-add-mod d cap,
    e,
    mul-le-mul_left {m = d / cap} {n = c / cap} cap (omega arith),
  )
]

module _ {ℓ} {A : Type ℓ} where
  unfoldable pub somes : List (Option A) → List A
  somes [] = []
  somes (none ∷ xs) = somes xs
  somes (some a ∷ xs) = a ∷ somes xs

  unfoldable pub cells : List (Option A) → ℕ → ℕ → ℕ → List (Option A)
  cells slots cap start zero = []
  cells slots cap start (suc n) = slot_at slots (start % cap) ∷ cells slots cap (start + 1) n

  pub collect-somes :
      (slots : List (Option A)) (cap n start : ℕ)
      → collect slots cap n start ≡ somes (cells slots cap start n)
  unfolding collect somes cells
  collect-somes slots cap zero start = refl
  collect-somes slots cap (suc n) start = ground (arith, collect-somes slots cap n (start + 1))

  pub length-cells :
      (slots : List (Option A)) (cap start n : ℕ) → length (cells slots cap start n) ≡ n
  unfolding cells
  length-cells slots cap start zero = refl
  length-cells slots cap start (suc n) = ap suc (length-cells slots cap (start + 1) n)

  pub cells-snoc :
      (slots : List (Option A)) (cap start n : ℕ)
      → cells slots cap start (suc n)
        ≡ cells slots cap start n ++ slot_at slots ((start + n) % cap) ∷ []
  unfolding cells
  cells-snoc slots cap start zero = let e : start + 0 ≡ start = omega arith in rw e
  cells-snoc slots cap start (suc n) =
      let e : start + 1 + n ≡ start + suc n = omega arith in
      ap (◌∷◌ (slot_at slots (start % cap))) (
        cells-snoc slots cap (start + 1) n
        ∙ ap (λ k. cells slots cap (start + 1) n ++ slot_at slots (k % cap) ∷ []) e)

  pub cells-append :
      (slots : List (Option A)) (cap start n m : ℕ)
      → cells slots cap start (n + m) ≡ cells slots cap start n ++ cells slots cap (start + n) m
  unfolding cells
  cells-append slots cap start zero m =
      let e : start + 0 ≡ start = omega arith in let f : 0 + m ≡ m = omega arith in rw (e, f)
  cells-append slots cap start (suc n) m =
      let e : start + 1 + n ≡ start + suc n = omega arith in
      let f : suc n + m ≡ suc (n + m) = omega arith in
      rw f (
        ap (◌∷◌ (slot_at slots (start % cap))) (
          cells-append slots cap (start + 1) n m
          ∙ ap (λ k. cells slots cap (start + 1) n ++ cells slots cap k m) e))

  -- A round later stands the same.
  pub cells_round :
      (slots : List (Option A)) (cap start n : ℕ)
      → cells slots cap (start + cap) n ≡ cells slots cap start n
  unfolding cells
  cells_round slots cap start zero = refl
  cells_round slots cap start (suc n) =
      let e : start + cap + 1 ≡ start + 1 + cap = omega arith in
      rw (e, add-mod_right start cap)
        (ap (◌∷◌ (slot_at slots (start % cap))) (cells_round slots cap (start + 1) n))

  -- A write at a cursor that is passed is not seen within the round.
  pub cells-set_passed :
      (slots : List (Option A)) (cap start n c : ℕ) (v : Option A)
      → c < start
      → start + n ≤ c + cap
      → cells (set slots (c % cap) v) cap start n ≡ cells slots cap start n
  unfolding cells
  cells-set_passed slots cap start zero c v h k = refl
  cells-set_passed slots cap start (suc n) c v h k =
      rw (get_or-set_ne slots (c % cap) (start % cap) v none (mod_ne cap c start h (omega arith))) (
        ap (◌∷◌ (slot_at slots (start % cap)))
          (cells-set_passed slots cap (start + 1) n c v (omega arith) (omega arith)))

  pub set-suc :
      (x v : Option A) (xs : List (Option A)) (i j : ℕ)
      → i ≡ suc j
      → set (x ∷ xs) i v ≡ x ∷ set xs j v
  set-suc x v xs i j e = rw e

  -- A write ahead of the cursor is seen at its distance.
  pub cells-set :
      (slots : List (Option A)) (cap start n c : ℕ) (v : Option A)
      → length slots ≡ cap
      → start ≤ c
      → c < start + n
      → n ≤ cap
      → cells (set slots (c % cap) v) cap start n ≡ set (cells slots cap start n) (c - start) v
  unfolding cells
  cells-set slots cap start zero c v s h k l = absurd (omega arith)
  cells-set slots cap start (suc n) c v s h k l = elim (dec_lt start c) [
    | yes p ↦
        let e : c - start ≡ suc (c - (start + 1)) = omega arith in
        rw
          (get_or-set_ne slots (c % cap) (start % cap) v none
            (λ q. mod_ne cap start c p (omega arith) (sym q)))
          (rw e (
            ap (◌∷◌ (slot_at slots (start % cap)))
              (cells-set slots cap (start + 1) n c v s (omega arith) (omega arith) (omega arith))))
    | no p ↦
        let e : c ≡ start = omega arith in
        let f : c - c ≡ 0 = omega arith in
        rw (← e) (
          rw (f, get_or-set_self slots (c % cap) v none (omega (arith, mod-lt c {m = cap})))
            (ap (◌∷◌ v) (cells-set_passed slots cap (c + 1) n c v (omega arith) (omega arith))))
  ]

  pub cells-head :
      (slots : List (Option A)) (cap start n : ℕ) {x : Option A} {xs : List (Option A)}
      → cells slots cap start n ≡ x ∷ xs
      → slot_at slots (start % cap) ≡ x
  unfolding cells
  cells-head slots cap start zero h = cc
  cells-head slots cap start (suc n) h = cc

  pub get_or-cells :
      (slots : List (Option A)) (cap start n k : ℕ)
      → k < n
      → get_or (cells slots cap start n) k none ≡ slot_at slots ((start + k) % cap)
  unfolding cells
  get_or-cells slots cap start zero k h = elim h [ ]
  get_or-cells slots cap start (suc n) zero h = let e : start + 0 ≡ start = omega arith in rw e
  get_or-cells slots cap start (suc n) (suc k) h =
      let e : start + 1 + k ≡ start + suc k = omega arith in
      get_or-cells slots cap (start + 1) n k (omega arith) ∙ rw e

  -- Reading from the next cursor rotates the whole round.
  pub cells_next :
      (slots : List (Option A)) (cap start : ℕ) {x : Option A} {xs : List (Option A)}
      → cells slots cap start cap ≡ x ∷ xs
      → cells slots cap (start + 1) cap ≡ xs ++ x ∷ []
  unfolding cells
  cells_next slots zero start h = cc
  cells_next slots (suc n) start {x} {xs} h =
      let e : start + 1 + n ≡ start + suc n = omega arith in
      cells-snoc slots (suc n) (start + 1) n ∙ rw (e, add-mod_right start (suc n)) (cc)
