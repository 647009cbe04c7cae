-- ===== src/DeadLetters/Startup/Kept.antt =====
-- The dead letters that `drainDeadLetters` of src/sdk.ts sends, and those left in the file.
use Prim.Native.String.{String}
use errorcore.Common.{
  ℕ, zero, suc, ◌+◌, ◌*◌, ◌-◌, ◌≤◌, ◌≡◌, refl, sym, ap, ap₂, subst, ◌∙◌, inl, inr, ◌⊎◌, Bool, true,
  false, not, ◌&&◌, Option, none, some, List, [], ◌∷◌, ◌++◌, append-nil, ltb, ◌==◌, is_some,
  or_else, if◌then◌else◌, length, take, drop, Bool-cases, arith, false_ne_true, true_ne_false,
}
use errorcore.DeadLetters.{Runtime, DeadLetterStoreOptions, DeadLetterStore, DeadLetterDrainEntry}
use errorcore.DeadLetters.Store.{lines, size_of, has_pending, entries_from, drain, clear_sent}
use errorcore.DeadLetters.Store.Entries.{contents, contents-entries_append, drain-entries}
use errorcore.DeadLetters.Startup.{Batch, begin_drain, send_all, is_last_line, finish_drain}
use errorcore.DeadLetters.Startup.Progress.{
  Ascends-take, send_all-all, entries_from-Ascends, Progress, send_all-Progress,
}

drop-append : (k : ℕ) (xs ys : List String) → k ≤ length xs → drop k (xs ++ ys) ≡ drop k xs ++ ys
drop-append zero xs ys le = refl
drop-append (suc k) [] ys le = absurd (omega (arith, le))
drop-append (suc k) (x ∷ xs) ys le = drop-append k xs ys (omega (arith, le))

drop-length : (xs ys : List String) → drop (length xs) (xs ++ ys) ≡ ys
drop-length [] ys = refl
drop-length (x ∷ xs) ys = drop-length xs ys

drop-all : (k : ℕ) (xs : List String) → length xs ≤ k → drop k xs ≡ []
drop-all zero [] le = refl
drop-all zero (x ∷ xs) le = absurd (omega (arith, le))
drop-all (suc k) [] le = refl
drop-all (suc k) (x ∷ xs) le = drop-all k xs (omega (arith, le))

take-all :
    (m : ℕ) (es : List DeadLetterDrainEntry) → length (take m es) ≡ length es → take m es ≡ es
take-all zero [] h = refl
take-all zero (e ∷ es) h = absurd (omega (arith, h))
take-all (suc m) [] h = refl
take-all (suc m) (e ∷ es) h = ap (λ l. e ∷ l) (take-all m es (omega (arith, h)))

none_ne_some : {b : Batch} → ¬ (◌≡◌ {A = Option Batch} none (some b))
none_ne_some h = false_ne_true (ap is_some h)

-- `clearSent` drops lines from the front, and nothing else.
lines-clear_sent : (k : ℕ) (s : DeadLetterStore) → lines (clear_sent k s) ≡ drop k (lines s)
unfolding clear_sent
lines-clear_sent k s = of_file s.file
  where
    of_file :
        (f : Option (List String))
        → lines (clear_sent k (record s { file = f })) ≡ drop k (or_else f [])
    of_file none = sym (drop-all k [] (omega arith))
    of_file (some ls) = elim (Bool-cases (ltb k (length ls))) [
      | inl e ↦ rw e refl
      | inr e ↦ rw e (sym (drop-all k ls (ground (arith, e))))
    ]

acked-clear_sent :
    (k : ℕ) (s : DeadLetterStore) → (clear_sent k s).acked_payload_ids ≡ s.acked_payload_ids
unfolding clear_sent
acked-clear_sent k s = of_file s.file
  where
    of_file :
        (f : Option (List String))
        → (clear_sent k (record s { file = f })).acked_payload_ids ≡ s.acked_payload_ids
    of_file none = refl
    of_file (some ls) = refl

left_of : (a b : Bool) → (a && b) ≡ true → a ≡ true
left_of a b h = ground arith

right_of : (a : Bool) (n k : ℕ) → (a && n == k) ≡ true → n ≡ k
right_of a n k h = ground arith

module _ (r : Runtime) (o : DeadLetterStoreOptions) where
  abbrev entries : DeadLetterStore → List DeadLetterDrainEntry
  entries s = entries_from r o 1 (lines s) s.acked_payload_ids

  abbrev batch_of : ℕ → DeadLetterStore → Batch
  batch_of m s = record {
    batch = take m (entries s);
    entry_count = length (entries s);
    line_count = length (lines s);
  }

  drain-false :
      (s : DeadLetterStore)
      → (drain r o false s ≡ ([], 0)) ⊎ (drain r o false s ≡ (entries s, length (lines s)))
  unfolding drain
  drain-false s = elim (Bool-cases (ltb (10 * 1024 * 1024) (size_of r o (lines s)))) [
    | inl e ↦ inl (rw (e, drain) refl)
    | inr e ↦ inr (rw (e, drain) refl)
  ]

  -- `begin_drain` with its tests and its drain for themselves.
  abbrev begun :
      ℕ
      → DeadLetterStore
      → Bool
      → Bool
      → List DeadLetterDrainEntry × ℕ
      → DeadLetterStore × Option Batch
  begun m s pending empty d =
      if not pending
      then (s, none)
      else (if empty then ((if ltb 0 d.1 then clear_sent d.1 s else s), none) else (
        s,
        some (record { batch = take m d.0; entry_count = length d.0; line_count = d.1 }),
      ))

  begun-some :
      (m : ℕ) (s : DeadLetterStore) (pending empty : Bool) (d : List DeadLetterDrainEntry × ℕ)
      (b : Batch)
      → (begun m s pending empty d).1 ≡ some b
      → (empty ≡ false)
        × (record { batch = take m d.0; entry_count = length d.0; line_count = d.1 } ≡ b)
  begun-some m s false empty d b h = absurd (none_ne_some h)
  begun-some m s true true d b h = absurd (none_ne_some h)
  begun-some m s true false d b h = (refl, ap (λ x. or_else x b) h)

  begin_drain-batch :
      (m : ℕ) (s : DeadLetterStore) (b : Batch)
      → (begin_drain r o m s).1 ≡ some b
      → batch_of m s ≡ b
  unfolding begin_drain
  begin_drain-batch m s b h =
      let (full, made) =
        begun-some m s (has_pending s) (length (drain r o false s).0 == 0) (drain r o false s) b
          h in
      elim (drain-false s) [
        | inl e ↦ absurd (true_ne_false (subst (λ d. (length d.0 == 0) ≡ false) e full))
        | inr e ↦
            sym (
              ap (λ d. record { batch = take m d.0; entry_count = length d.0; line_count = d.1 }) e)
            ∙ made
      ]

  -- After a clear of lines sent, the entries of the lines that are left.
  cleared :
      (k : ℕ) (ls acked : List String) (t : DeadLetterStore)
      → drop k (lines t) ≡ ls
      → t.acked_payload_ids ≡ acked
      → contents (drain r o true (clear_sent k t)).0 ≡ contents (entries_from r o 1 ls acked)
  cleared k ls acked t same at =
      ap contents (drain-entries r o (clear_sent k t))
      ∙ ap₂ (λ l a. contents (entries_from r o 1 l a)) (lines-clear_sent k t ∙ same)
          (acked-clear_sent k t ∙ at)

  -- `finish_drain` with the result of its loop for itself.
  abbrev finished :
      List DeadLetterDrainEntry × ℕ
      → Batch
      → DeadLetterStore
      → List DeadLetterDrainEntry × DeadLetterStore
  finished x b t = (
    x.0,
    (if ltb 0 x.1
        then clear_sent
            (if is_last_line x.1 b.batch && length b.batch == b.entry_count
              then b.line_count
              else x.1)
            t
        else t),
  )

  -- The entries before are those sent and some others, and the latter are there afterwards, with
  -- those of the lines appended.
  abbrev pub Keeps :
      DeadLetterStore → List String → List DeadLetterDrainEntry × DeadLetterStore → Type 0
  Keeps s more x =
      (rest : List (String × String)) × ((contents (drain r o true s).0 ≡ contents x.0 ++ rest)
        × (contents (drain r o true x.1).0
            ≡ rest ++ contents (entries_from r o 1 more s.acked_payload_ids)))

  finished-Keeps :
      (m : ℕ) (s later : DeadLetterStore) (more : List String) (x : List DeadLetterDrainEntry × ℕ)
      → lines later ≡ lines s ++ more
      → later.acked_payload_ids ≡ s.acked_payload_ids
      → (is_last_line x.1 (take m (entries s)) ≡ true → x.0 ≡ take m (entries s))
      → Progress r o s.acked_payload_ids (entries s) 1 (lines s) 0 x
      → Keeps s more (finished x (batch_of m s) later)
  finished-Keeps m s later more (sent, processed) same acked all (inl (none_sent, q)) =
      rw (none_sent, q)
        (
          contents (entries s),
          (
            ap contents (drain-entries r o s),
            ap contents (drain-entries r o later)
                ∙ ap₂ (λ l a. contents (entries_from r o 1 l a)) same acked
                ∙ contents-entries_append r o 1 1 (lines s) more s.acked_payload_ids,
          ),
        )
  finished-Keeps m s later more (sent, processed) same acked all (inr (le, (bound, split))) =
      rw positive
        (elim (Bool-cases (
          is_last_line processed (take m (entries s))
          && length (take m (entries s)) == length (entries s))) [
            | inl e ↦ rw e (
              [],
              (
                whole (left_of _ _ e) (right_of _ _ _ e),
                cleared (length (lines s)) more s.acked_payload_ids later
                    (ap (drop (length (lines s))) same ∙ drop-length (lines s) more) acked,
              ),
            )
            | inr e ↦ rw e (
              contents (entries_from r o 1 (drop processed (lines s)) s.acked_payload_ids),
              (
                ap contents (drain-entries r o s)
                    ∙ split
                    ∙ ap
                        (λ k.
                          contents sent
                          ++ contents (entries_from r o 1 (drop k (lines s)) s.acked_payload_ids))
                        here,
                cleared processed (drop processed (lines s) ++ more) s.acked_payload_ids later
                      (ap (drop processed) same
                        ∙ drop-append processed (lines s) more (omega arith))
                      acked
                    ∙ contents-entries_append r o 1 1 (drop processed (lines s)) more
                        s.acked_payload_ids,
              ),
            )
          ])
    where
      whole :
          is_last_line processed (take m (entries s)) ≡ true
          → length (take m (entries s)) ≡ length (entries s)
          → contents (drain r o true s).0 ≡ contents sent ++ []
      whole last full =
          ap contents (drain-entries r o s ∙ sym (all last ∙ take-all m (entries s) full))
          ∙ sym (append-nil (contents sent))

      positive : ltb 0 processed ≡ true
      positive = ground arith

      here : processed + 1 - 1 ≡ processed
      here = omega arith

  -- What a start of the SDK sends, and what it keeps: however many entries the transport accepts
  -- and whatever lines are appended while it does, the entries that were in the file are those sent
  -- followed by others, in order, and afterwards the file holds these others and the entries of the
  -- lines appended. The file is not rotated and nothing is acknowledged in the meantime.
  pub finish_drain-Keeps :
      (sends : DeadLetterDrainEntry → Bool) (m : ℕ) (s later : DeadLetterStore) (b : Batch)
      (more : List String)
      → (begin_drain r o m s).1 ≡ some b
      → lines later ≡ lines s ++ more
      → later.acked_payload_ids ≡ s.acked_payload_ids
      → Keeps s more (finish_drain sends b later)
  unfolding finish_drain
  finish_drain-Keeps sends m s later b more begun same acked =
      subst (λ b. Keeps s more (finish_drain sends b later)) (begin_drain-batch m s b begun)
        (finished-Keeps m s later more (send_all sends 0 (take m (entries s))) same acked
          (λ last.
            send_all-all sends 0 (take m (entries s))
              (Ascends-take 0 m (entries s)
                (entries_from-Ascends r o 0 1 (lines s) s.acked_payload_ids (omega arith)))
              last)
          (send_all-Progress r o sends s.acked_payload_ids 1 (lines s) m 0))
