-- ===== src/DeadLetters/Store/Resign.antt =====
-- `reSignAll` of src/transport/dead-letter-store.ts and the entries of its lines.
use Prim.Native.String.{String}
use errorcore.Common.{
  ℕ, ◌+◌, ◌≡◌, refl, sym, ap, ap₂, ◌∙◌, inl, inr, ◌⊎◌, true, false, Option, none, some, List, [],
  ◌∷◌, ◌++◌, is_some, is_none, if◌then◌else◌, length, Bool-cases, Option-cases, arith,
}
use errorcore.DeadLetters.{DeadLetterEnvelope, Runtime, DeadLetterStoreOptions, DeadLetterStore}
use errorcore.DeadLetters.Envelope.{
  parse_envelope, parse_raw_envelope, sign_envelope, verify_mac_with_index,
}
use errorcore.DeadLetters.Store.Entries.{
  contents, contents-append, contents-entries_from, drain-entries,
}
use errorcore.DeadLetters.Store.Printed.{
  IsSound, entries_of_line-signed, entries_of_line-none, parse_envelope-bad,
  parse_envelope-unparsed, parse_raw_envelope-print_envelope,
}
use errorcore.DeadLetters.Store.{
  re_sign_all, lines, drain, ReSigned, is_payload, drop_line, re_sign_line, re_sign_lines,
  entries_from, entries_of_line,
}

is_none_of : (x : Option ℕ) → is_some x ≡ true → is_none x ≡ false
is_none_of none h = ground (arith, h)
is_none_of (some n) h = refl

is_none_of_not : (x : Option ℕ) → is_some x ≡ false → is_none x ≡ true
is_none_of_not none h = refl
is_none_of_not (some n) h = ground (arith, h)

module _ (r : Runtime) (o : DeadLetterStoreOptions) where
  -- The result for a line whose signature is good.
  abbrev signed_before : DeadLetterEnvelope → List String × ReSigned → List String × ReSigned
  signed_before e (out, counts) = (
    r.print_envelope (sign_envelope r o e.unsigned) ∷ out,
    (if is_payload e.unsigned.content
        then record counts { resigned = counts.resigned + 1 }
        else record counts { markers_kept = counts.markers_kept + 1 }),
  )

  re_sign_lines-good :
      (line : String) (rest : List String) (e : DeadLetterEnvelope)
      → parse_raw_envelope r line ≡ some e
      → is_some (verify_mac_with_index r o e) ≡ true
      → re_sign_lines r o (line ∷ rest) ≡ signed_before e (re_sign_lines r o rest)
  unfolding re_sign_lines re_sign_line sign_envelope
  re_sign_lines-good line rest e raw good = rw (raw, re_sign_lines, is_none_of _ good) refl

  re_sign_lines-bad :
      (line : String) (rest : List String) (e : DeadLetterEnvelope)
      → parse_raw_envelope r line ≡ some e
      → is_some (verify_mac_with_index r o e) ≡ false
      → re_sign_lines r o (line ∷ rest) ≡ drop_line (re_sign_lines r o rest)
  unfolding re_sign_lines re_sign_line
  re_sign_lines-bad line rest e raw bad = rw (raw, re_sign_lines, is_none_of_not _ bad) refl

  -- What becomes of a line: it is signed again, or dropped, and then it had no entry.
  record IsKept (line : String) (rest : List String) (e : DeadLetterEnvelope) : Type 0 where
    raw : parse_raw_envelope r line ≡ some e
    good : is_some (verify_mac_with_index r o e) ≡ true
    result : re_sign_lines r o (line ∷ rest) ≡ signed_before e (re_sign_lines r o rest)

  record IsLost (line : String) (rest : List String) : Type 0 where
    rejected : parse_envelope r o line ≡ none
    result : re_sign_lines r o (line ∷ rest) ≡ drop_line (re_sign_lines r o rest)

  re_sign-cases :
      (line : String) (rest : List String)
      → ((e : DeadLetterEnvelope) × IsKept line rest e) ⊎ IsLost line rest
  unfolding re_sign_lines
  re_sign-cases line rest = elim (Option-cases (parse_raw_envelope r line)) [
    | inl raw ↦ inr (record {
      rejected = parse_envelope-unparsed r o line raw;
      result = rw (raw, re_sign_lines) refl;
    })
    | inr (e, raw) ↦ elim (Bool-cases (is_some (verify_mac_with_index r o e))) [
      | inl good ↦
          inl
            (e, record { raw = raw; good = good; result = re_sign_lines-good line rest e raw good })
      | inr bad ↦ inr (record {
        rejected = parse_envelope-bad r o line e raw bad;
        result = re_sign_lines-bad line rest e raw bad;
      })
    ]
  ]

module _ (r : Runtime) (o : DeadLetterStoreOptions) (sound : IsSound r o) where
  re_sign_lines-contents :
      (n : ℕ) (ls acked : List String)
      → contents (entries_from r o n (re_sign_lines r o ls).0 acked)
        ≡ contents (entries_from r o n ls acked)
  unfolding re_sign_lines entries_from
  re_sign_lines-contents n [] acked = refl
  re_sign_lines-contents n (line ∷ rest) acked = elim (re_sign-cases r o line rest) [
    | inl (e, k) ↦
        let signed = r.print_envelope (sign_envelope r o e.unsigned) in
        let out = (re_sign_lines r o rest).0 in
        ap (λ x. contents (entries_from r o n x.0 acked)) k.result
        ∙ contents-append (entries_of_line r o n signed acked) (entries_from r o (n + 1) out acked)
        ∙ ap₂ (λ x y. x ++ y)
            (ap contents (entries_of_line-signed r o sound n line acked e k.raw k.good))
            (re_sign_lines-contents (n + 1) rest acked)
        ∙ sym (
            contents-append (entries_of_line r o n line acked)
              (entries_from r o (n + 1) rest acked))
    | inr l ↦
        ap (λ x. contents (entries_from r o n x.0 acked)) l.result
        ∙ contents-entries_from r o n (n + 1) (re_sign_lines r o rest).0 acked
        ∙ re_sign_lines-contents (n + 1) rest acked
        ∙ sym (
            ap (λ x. contents (x ++ entries_from r o (n + 1) rest acked))
              (entries_of_line-none r o n line acked l.rejected))
  ]

  re_sign_lines-counts :
      (ls : List String)
      → (re_sign_lines r o ls).1.resigned
          + (re_sign_lines r o ls).1.markers_kept
          + (re_sign_lines r o ls).1.dropped
        ≡ length ls
  unfolding re_sign_lines
  re_sign_lines-counts [] = refl
  re_sign_lines-counts (line ∷ rest) = elim (re_sign-cases r o line rest) [
    | inl (e, k) ↦ elim (Bool-cases (is_payload e.unsigned.content)) [
      | inl p ↦ rw (k.result, p) (omega (arith, re_sign_lines-counts rest))
      | inr p ↦ rw (k.result, p) (omega (arith, re_sign_lines-counts rest))
    ]
    | inr l ↦ rw l.result (omega (arith, re_sign_lines-counts rest))
  ]

  -- A second pass writes the lines as they are.
  re_sign_lines-again :
      (ls : List String) → (re_sign_lines r o (re_sign_lines r o ls).0).0 ≡ (re_sign_lines r o ls).0
  unfolding re_sign_lines sign_envelope verify_mac_with_index
  re_sign_lines-again [] = refl
  re_sign_lines-again (line ∷ rest) = elim (re_sign-cases r o line rest) [
    | inl (e, k) ↦
        let signed = r.print_envelope (sign_envelope r o e.unsigned) in
        ap (λ x. (re_sign_lines r o x.0).0) k.result
        ∙ ap (λ x. x.0)
            (re_sign_lines-good r o signed (re_sign_lines r o rest).0 (sign_envelope r o e.unsigned)
              (parse_raw_envelope-print_envelope r o sound (sign_envelope r o e.unsigned))
              (sound.verify (r.print_unsigned e.unsigned)))
        ∙ ap (λ l. signed ∷ l) (re_sign_lines-again rest)
        ∙ sym (ap (λ x. x.0) k.result)
    | inr l ↦
        ap (λ x. (re_sign_lines r o x.0).0) l.result
        ∙ re_sign_lines-again rest
        ∙ sym (ap (λ x. x.0) l.result)
  ]

  -- A pass of `reSignAll`, whose verifier accepts what it signs, loses no entry: a drain gives the
  -- same ids and payloads in the same order afterwards. It accounts for each line as signed again,
  -- kept as a marker or dropped, and a second pass leaves the file as it is.
  pub re_sign_all-drain :
      (s : DeadLetterStore)
      → (contents (drain r o true (re_sign_all r o s).0).0 ≡ contents (drain r o true s).0)
        × (((re_sign_all r o s).1.resigned
                + (re_sign_all r o s).1.markers_kept
                + (re_sign_all r o s).1.dropped
              ≡ length (lines s))
            × (lines (re_sign_all r o (re_sign_all r o s).0).0 ≡ lines (re_sign_all r o s).0))
  unfolding re_sign_all entries_from
  re_sign_all-drain s = by_file s.file
    where
      with_file : Option (List String) → DeadLetterStore
      with_file f = record s { file = f }

      same :
          (f g : List String)
          → contents (entries_from r o 1 f s.acked_payload_ids)
            ≡ contents (entries_from r o 1 g s.acked_payload_ids)
          → (count : Option ℕ)
          → contents (drain r o true (record s { file = some f; pending_payload_count = count })).0
            ≡ contents (drain r o true (with_file (some g))).0
      same f g h count =
          ap contents
            (drain-entries r o (record s { file = some f; pending_payload_count = count }))
          ∙ h
          ∙ sym (ap contents (drain-entries r o (with_file (some g))))

      by_file :
          (f : Option (List String))
          → (contents (drain r o true (re_sign_all r o (with_file f)).0).0
              ≡ contents (drain r o true (with_file f)).0)
            × (((re_sign_all r o (with_file f)).1.resigned
                    + (re_sign_all r o (with_file f)).1.markers_kept
                    + (re_sign_all r o (with_file f)).1.dropped
                  ≡ length (lines (with_file f)))
                × (lines (re_sign_all r o (re_sign_all r o (with_file f)).0).0
                    ≡ lines (re_sign_all r o (with_file f)).0))
      by_file none = (refl, (refl, refl))
      by_file (some ls) = (
        same (re_sign_lines r o ls).0 ls (re_sign_lines-contents 1 ls s.acked_payload_ids)
            (some (re_sign_lines r o ls).1.resigned),
        (re_sign_lines-counts ls, re_sign_lines-again ls),
      )
