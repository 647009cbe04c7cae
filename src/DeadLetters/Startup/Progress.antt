-- ===== src/DeadLetters/Startup/Progress.antt =====
-- How far the loop of `sendAll` in src/sdk.ts has come.
use Prim.Native.String.{String}
use errorcore.Common.{
  ℕ, zero, suc, ◌+◌, ◌-◌, ◌≤◌, ◌<◌, ◌≡◌, refl, sym, ap, subst, ◌∙◌, inl, inr, ◌⊎◌, Bool, true,
  false, List, [], ◌∷◌, ◌++◌, or_else, length, take, drop, Bool-cases, Option-cases, arith,
  false_ne_true,
}
use errorcore.DeadLetters.{
  Content, payload, marker, Runtime, DeadLetterStoreOptions, DeadLetterDrainEntry,
}
use errorcore.DeadLetters.Envelope.{parse_envelope}
use errorcore.DeadLetters.Store.{has_text, entries_from, entries_of_line, entry_of_content}
use errorcore.DeadLetters.Store.Entries.{contents, contents-entries_from}
use errorcore.DeadLetters.Store.Printed.{entries_of_line-some, entries_of_line-none}
use errorcore.DeadLetters.Startup.{send_all, is_last_line}

-- The line numbers grow, from above `k`.
abbrev pub Ascends : ℕ → List DeadLetterDrainEntry → Type 0
Ascends k [] = Unit {0}
Ascends k (e ∷ es) = (k < e.line_number) × Ascends e.line_number es

Ascends-lower : (k j : ℕ) (es : List DeadLetterDrainEntry) → k ≤ j → Ascends j es → Ascends k es
Ascends-lower k j [] le h = tt
Ascends-lower k j (e ∷ es) le (lt, h) = (omega arith, h)

pub Ascends-take : (k m : ℕ) (es : List DeadLetterDrainEntry) → Ascends k es → Ascends k (take m es)
Ascends-take k zero es h = tt
Ascends-take k (suc m) [] h = tt
Ascends-take k (suc m) (e ∷ es) (lt, h) = (lt, Ascends-take e.line_number m es h)

is_last_line-above :
    (k j : ℕ) (es : List DeadLetterDrainEntry) → k ≤ j → Ascends j es → is_last_line k es ≡ false
is_last_line-above k j [] le h = refl
is_last_line-above k j (e ∷ []) le (lt, h) = ground arith
is_last_line-above k j (e ∷ (e' ∷ es)) le (lt, h) =
    is_last_line-above k e.line_number (e' ∷ es) (omega arith) h

module _ (sends : DeadLetterDrainEntry → Bool) where
  send_all-stops :
      (p : ℕ) (e : DeadLetterDrainEntry) (es : List DeadLetterDrainEntry)
      → sends e ≡ false
      → send_all sends p (e ∷ es) ≡ ([], p)
  unfolding send_all
  send_all-stops p e es h = rw h refl

  send_all-goes :
      (p : ℕ) (e : DeadLetterDrainEntry) (es : List DeadLetterDrainEntry)
      → sends e ≡ true
      → send_all sends p (e ∷ es)
        ≡ (e ∷ (send_all sends e.line_number es).0, (send_all sends e.line_number es).1)
  unfolding send_all
  send_all-goes p e es h = rw h refl

  not_last :
      (p : ℕ) (e : DeadLetterDrainEntry) (es : List DeadLetterDrainEntry)
      → Ascends p (e ∷ es)
      → sends e ≡ false
      → ¬ (is_last_line (send_all sends p (e ∷ es)).1 (e ∷ es) ≡ true)
  not_last p e es h s last = false_ne_true (
      sym (is_last_line-above p p (e ∷ es) (omega arith) h)
      ∙ sym (ap (λ x. is_last_line x.1 (e ∷ es)) (send_all-stops p e es s))
      ∙ last)

  -- Once the last line is processed, everything was sent.
  pub send_all-all :
      (p : ℕ) (es : List DeadLetterDrainEntry)
      → Ascends p es
      → is_last_line (send_all sends p es).1 es ≡ true
      → (send_all sends p es).0 ≡ es
  unfolding send_all
  send_all-all p [] h last = refl
  send_all-all p (e ∷ []) h last = elim (Bool-cases (sends e)) [
    | inl s ↦ rw s refl
    | inr s ↦ absurd (not_last p e [] h s last)
  ]
  send_all-all p (e ∷ (e' ∷ es)) (lt, h) last = elim (Bool-cases (sends e)) [
    | inl s ↦
        ap (λ x. x.0) (send_all-goes p e (e' ∷ es) s)
        ∙ ap (λ l. e ∷ l)
            (send_all-all e.line_number (e' ∷ es) h (
              sym (ap (λ x. is_last_line x.1 (e ∷ (e' ∷ es))) (send_all-goes p e (e' ∷ es) s))
              ∙ last))
    | inr s ↦ absurd (not_last p e (e' ∷ es) (lt, h) s last)
  ]

module _ (r : Runtime) (o : DeadLetterStoreOptions) where
  -- A line gives one entry, under its number, or none.
  one_entry :
      (n : ℕ) (line : String) (acked : List String)
      → (entries_of_line r o n line acked ≡ [])
        ⊎ ((e : DeadLetterDrainEntry) × ((entries_of_line r o n line acked ≡ e ∷ [])
              × (e.line_number ≡ n)))
  one_entry n line acked = elim (Option-cases (parse_envelope r o line)) [
    | inl h ↦ inl (entries_of_line-none r o n line acked h)
    | inr (e, h) ↦ rw (entries_of_line-some r o n line acked e h) (of_content e.unsigned.content)
  ]
    where
      of_content :
          (c : Content)
          → (entry_of_content r o n c acked ≡ [])
            ⊎ ((e : DeadLetterDrainEntry) × ((entry_of_content r o n c acked ≡ e ∷ [])
                  × (e.line_number ≡ n)))
      of_content (marker code) = inl refl
      of_content (payload id x) = elim (Bool-cases (has_text (or_else id (r.sha256 x)) acked)) [
        | inl f ↦ inl (rw f refl)
        | inr f ↦ inr (
          record { line_number = n; id = or_else id (r.sha256 x); payload = x },
          (rw f refl, refl),
        )
      ]

  pub entries_from-Ascends :
      (k n : ℕ) (ls acked : List String) → k < n → Ascends k (entries_from r o n ls acked)
  unfolding entries_from
  entries_from-Ascends k n [] acked lt = tt
  entries_from-Ascends k n (line ∷ rest) acked lt = elim (one_entry n line acked) [
    | inl h ↦ rw h (entries_from-Ascends k (n + 1) rest acked (omega arith))
    | inr (e, (h, at_n)) ↦ rw h (
      omega (arith, at_n),
      entries_from-Ascends e.line_number (n + 1) rest acked (omega (arith, at_n)),
    )
  ]

  -- Where the loop stands after some entries of the lines from number `n` on: nothing was sent, or
  -- the line processed last parts the entries sent from the others.
  abbrev pub Progress :
      List String
      → List DeadLetterDrainEntry
      → ℕ
      → List String
      → ℕ
      → List DeadLetterDrainEntry × ℕ
      → Type 0
  Progress acked es n ls p x =
      ((x.0 ≡ []) × (x.1 ≡ p))
      ⊎ ((n ≤ x.1)
          × ((x.1 + 1 ≤ n + length ls)
              × (contents es
                  ≡ contents x.0 ++ contents (entries_from r o 1 (drop (x.1 + 1 - n) ls) acked))))

  drop_later :
      (n q : ℕ) (line : String) (rest : List String)
      → n + 1 ≤ q
      → drop (q + 1 - n) (line ∷ rest) ≡ drop (q + 1 - (n + 1)) rest
  drop_later n q line rest le = rw one_more refl
    where
      one_more : q + 1 - n ≡ suc (q + 1 - (n + 1))
      one_more = omega arith

  drop_one : (n : ℕ) (line : String) (rest : List String) → drop (n + 1 - n) (line ∷ rest) ≡ rest
  drop_one n line rest = rw one refl
    where
      one : n + 1 - n ≡ 1
      one = omega arith

  without_entry :
      (acked : List String) (es : List DeadLetterDrainEntry) (n : ℕ) (line : String)
      (rest : List String) (p : ℕ) (x : List DeadLetterDrainEntry × ℕ)
      → Progress acked es (n + 1) rest p x
      → Progress acked es n (line ∷ rest) p x
  without_entry acked es n line rest p x (inl h) = inl h
  without_entry acked es n line rest p x (inr (le, (bound, split))) =
      inr (omega arith, (omega arith, rw (drop_later n x.1 line rest le) split))

  with_entry :
      (acked : List String) (n : ℕ) (line : String) (rest : List String) (p : ℕ)
      (e : DeadLetterDrainEntry) (x : List DeadLetterDrainEntry × ℕ)
      → e.line_number ≡ n
      → Progress acked (entries_from r o (n + 1) rest acked) (n + 1) rest e.line_number x
      → Progress acked (e ∷ entries_from r o (n + 1) rest acked) n (line ∷ rest) p (e ∷ x.0, x.1)
  with_entry acked n line rest p e x at_n (inl (none_sent, q)) =
      let here : x.1 ≡ n = q ∙ at_n in
      inr (
        omega (arith, here),
        (
          omega (arith, here),
          rw (here, drop_one n line rest, none_sent)
              (ap (λ l. (e.id, e.payload) ∷ l) (contents-entries_from r o (n + 1) 1 rest acked)),
        ),
      )
  with_entry acked n line rest p e x at_n (inr (le, (bound, split))) = inr (
    omega arith,
    (omega arith, rw (drop_later n x.1 line rest le) (ap (λ l. (e.id, e.payload) ∷ l) split)),
  )

  pub send_all-Progress :
      (sends : DeadLetterDrainEntry → Bool) (acked : List String) (n : ℕ) (ls : List String)
      (m p : ℕ)
      → Progress acked
          (entries_from r o n ls acked)
          n
          ls
          p
          (send_all sends p (take m (entries_from r o n ls acked)))
  unfolding entries_from send_all
  send_all-Progress sends acked n [] zero p = inl (refl, refl)
  send_all-Progress sends acked n [] (suc m) p = inl (refl, refl)
  send_all-Progress sends acked n (line ∷ rest) zero p = inl (refl, refl)
  send_all-Progress sends acked n (line ∷ rest) (suc m) p = elim (one_entry n line acked) [
    | inl h ↦ rw h (
        let es = entries_from r o (n + 1) rest acked in
        without_entry acked es n line rest p (send_all sends p (take (suc m) es))
          (send_all-Progress sends acked (n + 1) rest (suc m) p))
    | inr (e, (h, at_n)) ↦ rw h (
        let es = entries_from r o (n + 1) rest acked in
        elim (Bool-cases (sends e)) [
          | inr s ↦
              subst (Progress acked (e ∷ es) n (line ∷ rest) p)
                (sym (send_all-stops sends p e (take m es) s)) (inl (refl, refl))
          | inl s ↦
              subst (Progress acked (e ∷ es) n (line ∷ rest) p)
                (sym (send_all-goes sends p e (take m es) s))
                (with_entry acked n line rest p e (send_all sends e.line_number (take m es)) at_n
                  (send_all-Progress sends acked (n + 1) rest m e.line_number))
        ])
  ]
