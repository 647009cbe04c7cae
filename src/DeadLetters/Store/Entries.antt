-- ===== src/DeadLetters/Store/Entries.antt =====
-- The entries that a drain of src/transport/dead-letter-store.ts finds in its lines.
use Prim.Native.String.{String}
use errorcore.Common.{
  ℕ, ◌+◌, ◌≡◌, ◌*◌, ltb, refl, sym, ap, ap₂, ◌∙◌, inl, inr, true, List, [], ◌∷◌, ◌++◌, or_else,
  append_assoc, Bool-cases, Option-cases,
}
use errorcore.DeadLetters.{
  Content, payload, marker, Runtime, DeadLetterStoreOptions, DeadLetterStore, DeadLetterDrainEntry,
}
use errorcore.DeadLetters.Envelope.{parse_envelope}
use errorcore.DeadLetters.Store.{
  entries_from, entries_of_line, entry_of_content, has_text, drain, lines, size_of,
}
use errorcore.DeadLetters.Store.Printed.{entries_of_line-none, entries_of_line-some}

-- The ids and payloads of entries, whatever their line numbers.
abbrev pub contents : List DeadLetterDrainEntry → List (String × String)
contents [] = []
contents (e ∷ es) = (e.id, e.payload) ∷ contents es

pub contents-append :
    (xs ys : List DeadLetterDrainEntry) → contents (xs ++ ys) ≡ contents xs ++ contents ys
contents-append [] ys = refl
contents-append (x ∷ xs) ys = ap (λ l. (x.id, x.payload) ∷ l) (contents-append xs ys)

module _ (r : Runtime) (o : DeadLetterStoreOptions) where
  contents-entry :
      (n m : ℕ) (c : Content) (acked : List String)
      → contents (entry_of_content r o n c acked) ≡ contents (entry_of_content r o m c acked)
  contents-entry n m (payload id s) acked =
      elim (Bool-cases (has_text (or_else id (r.sha256 s)) acked)) [
        | inl e ↦ rw e refl
        | inr e ↦ rw e refl
      ]
  contents-entry n m (marker code) acked = refl

  contents-line :
      (n m : ℕ) (line : String) (acked : List String)
      → contents (entries_of_line r o n line acked) ≡ contents (entries_of_line r o m line acked)
  contents-line n m line acked = elim (Option-cases (parse_envelope r o line)) [
    | inl h ↦
        rw (entries_of_line-none r o n line acked h, entries_of_line-none r o m line acked h) refl
    | inr (e, h) ↦
        rw (entries_of_line-some r o n line acked e h, entries_of_line-some r o m line acked e h)
          (contents-entry n m e.unsigned.content acked)
  ]

  -- Entries do not depend on where the counting of lines begins, but for their line numbers.
  pub contents-entries_from :
      (n m : ℕ) (ls acked : List String)
      → contents (entries_from r o n ls acked) ≡ contents (entries_from r o m ls acked)
  unfolding entries_from
  contents-entries_from n m [] acked = refl
  contents-entries_from n m (line ∷ rest) acked =
      contents-append (entries_of_line r o n line acked) (entries_from r o (n + 1) rest acked)
      ∙ ap₂ (λ x y. x ++ y) (contents-line n m line acked)
          (contents-entries_from (n + 1) (m + 1) rest acked)
      ∙ sym
          (contents-append (entries_of_line r o m line acked) (entries_from r o (m + 1) rest acked))

module _ (r : Runtime) (o : DeadLetterStoreOptions) where
  -- A drain whatever the file's size gives the entries of its lines.
  pub drain-entries :
      (s : DeadLetterStore)
      → (drain r o true s).0 ≡ entries_from r o 1 (lines s) s.acked_payload_ids
  unfolding drain
  drain-entries s = elim (Bool-cases (ltb (10 * 1024 * 1024) (size_of r o (lines s)))) [
    | inl e ↦ rw (e, drain) refl
    | inr e ↦ rw (e, drain) refl
  ]

  pub contents-entries_append :
      (n m : ℕ) (xs ys acked : List String)
      → contents (entries_from r o n (xs ++ ys) acked)
        ≡ contents (entries_from r o n xs acked) ++ contents (entries_from r o m ys acked)
  unfolding entries_from
  contents-entries_append n m [] ys acked = contents-entries_from r o n m ys acked
  contents-entries_append n m (line ∷ xs) ys acked =
      let own = entries_of_line r o n line acked in
      let later = entries_from r o (n + 1) xs acked in
      contents-append own (entries_from r o (n + 1) (xs ++ ys) acked)
      ∙ ap (λ l. contents own ++ l) (contents-entries_append (n + 1) m xs ys acked)
      ∙ sym (append_assoc (contents own) (contents later) (contents (entries_from r o m ys acked)))
      ∙ ap (λ l. l ++ contents (entries_from r o m ys acked)) (sym (contents-append own later))
