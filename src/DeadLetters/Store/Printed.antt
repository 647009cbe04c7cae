-- ===== src/DeadLetters/Store/Printed.antt =====
-- Lines that src/transport/dead-letter-store.ts prints and parses.
use Prim.Native.String.{String}
use errorcore.Common.{
  ℕ, ◌≡◌, refl, sym, ◌∙◌, inl, inr, Bool, true, false, ◌&&◌, none, some, List, [], is_some,
  if◌then◌else◌, Bool-cases,
}
use errorcore.DeadLetters.{
  Json, absent, text, number, ParsedLine, Content, payload, marker, UnsignedEnvelope,
  DeadLetterEnvelope, Runtime, DeadLetterStoreOptions,
}
use errorcore.DeadLetters.Envelope.{
  parse_envelope, parse_raw_envelope, sign_envelope, verify_mac_with_index, is_valid_content,
}
use errorcore.DeadLetters.Store.{entries_of_line, entry_of_content}

-- What `JSON.stringify` writes of an envelope.
abbrev pub fields_of : DeadLetterEnvelope → ParsedLine
fields_of e = record {
  version = number 1;
  kind = kind_of e.unsigned.content;
  stored_at = text e.unsigned.stored_at;
  id = id_of e.unsigned.content;
  payload = payload_of_content e.unsigned.content;
  code = code_of e.unsigned.content;
  mac = text e.mac;
}
  where
    kind_of : Content → Json
    kind_of (payload id s) = text "payload"
    kind_of (marker code) = text "marker"

    id_of : Content → Json
    id_of (payload (some id) s) = text id
    id_of (payload none s) = absent
    id_of (marker code) = absent

    payload_of_content : Content → Json
    payload_of_content (payload id s) = text s
    payload_of_content (marker code) = absent

    code_of : Content → Json
    code_of (payload id s) = absent
    code_of (marker code) = text code

-- `JSON.parse` reads what `JSON.stringify` has written, and the verifier accepts what it signs.
pub record IsSound (r : Runtime) (o : DeadLetterStoreOptions) : Type 0 where
  pub parse : (e : DeadLetterEnvelope) → r.parse_line (r.print_envelope e) ≡ some (fields_of e)
  pub verify : (s : String) → is_some (o.verifier.verify_key_index s (o.verifier.sign s)) ≡ true

module _ (r : Runtime) (o : DeadLetterStoreOptions) (sound : IsSound r o) where
  pub parse_raw_envelope-print_envelope :
      (e : DeadLetterEnvelope) → parse_raw_envelope r (r.print_envelope e) ≡ some e
  unfolding parse_raw_envelope
  parse_raw_envelope-print_envelope e = shown e.unsigned.content e.unsigned.stored_at e.mac
    where
      shown :
          (c : Content) (t m : String)
          → parse_raw_envelope r (
              r.print_envelope
                (record { unsigned = record { stored_at = t; content = c }; mac = m }))
            ≡ some (record { unsigned = record { stored_at = t; content = c }; mac = m })
      shown (payload (some id) s) t m =
          rw
            (sound.parse (record {
              unsigned = record { stored_at = t; content = payload (some id) s };
              mac = m;
            }))
            refl
      shown (payload none s) t m =
          rw
            (sound.parse
              (record { unsigned = record { stored_at = t; content = payload none s }; mac = m }))
            refl
      shown (marker code) t m =
          rw
            (sound.parse
              (record { unsigned = record { stored_at = t; content = marker code }; mac = m }))
            refl

  -- A signed envelope that passes its other tests is read back.
  pub parse_envelope-sign_envelope :
      (u : UnsignedEnvelope)
      → r.is_date u.stored_at ≡ true
      → is_valid_content r o u.content ≡ true
      → parse_envelope r o (r.print_envelope (sign_envelope r o u)) ≡ some (sign_envelope r o u)
  unfolding parse_envelope sign_envelope verify_mac_with_index
  parse_envelope-sign_envelope u date valid =
      rw
        (
          parse_raw_envelope-print_envelope (sign_envelope r o u),
          date,
          valid,
          sound.verify (r.print_unsigned u),
        )
        refl

module _ (r : Runtime) (o : DeadLetterStoreOptions) where
  abbrev is_fine : UnsignedEnvelope → Bool
  is_fine u = r.is_date u.stored_at && is_valid_content r o u.content

  -- A line whose signature is good is accepted on the tests of its fields alone.
  parse_envelope-good :
      (line : String) (e : DeadLetterEnvelope)
      → parse_raw_envelope r line ≡ some e
      → is_some (verify_mac_with_index r o e) ≡ true
      → parse_envelope r o line ≡ (if is_fine e.unsigned then some e else none)
  unfolding parse_envelope
  parse_envelope-good line e raw good = elim (Bool-cases (r.is_date e.unsigned.stored_at)) [
    | inr d ↦ rw (raw, d) refl
    | inl d ↦ elim (Bool-cases (is_valid_content r o e.unsigned.content)) [
      | inr v ↦ rw (raw, d, v) refl
      | inl v ↦ rw (raw, d, v, good) refl
    ]
  ]

  pub parse_envelope-bad :
      (line : String) (e : DeadLetterEnvelope)
      → parse_raw_envelope r line ≡ some e
      → is_some (verify_mac_with_index r o e) ≡ false
      → parse_envelope r o line ≡ none
  unfolding parse_envelope
  parse_envelope-bad line e raw bad = elim (Bool-cases (r.is_date e.unsigned.stored_at)) [
    | inr d ↦ rw (raw, d) refl
    | inl d ↦ elim (Bool-cases (is_valid_content r o e.unsigned.content)) [
      | inr v ↦ rw (raw, d, v) refl
      | inl v ↦ rw (raw, d, v, bad) refl
    ]
  ]

  pub parse_envelope-unparsed :
      (line : String) → parse_raw_envelope r line ≡ none → parse_envelope r o line ≡ none
  unfolding parse_envelope
  parse_envelope-unparsed line raw = rw raw refl

  pub entries_of_line-some :
      (n : ℕ) (line : String) (acked : List String) (e : DeadLetterEnvelope)
      → parse_envelope r o line ≡ some e
      → entries_of_line r o n line acked ≡ entry_of_content r o n e.unsigned.content acked
  unfolding entries_of_line
  entries_of_line-some n line acked e h = rw (h, entries_of_line) refl

  pub entries_of_line-none :
      (n : ℕ) (line : String) (acked : List String)
      → parse_envelope r o line ≡ none
      → entries_of_line r o n line acked ≡ []
  unfolding entries_of_line
  entries_of_line-none n line acked h = rw (h, entries_of_line) refl

  entries_of_line-good :
      (n : ℕ) (line : String) (acked : List String) (e : DeadLetterEnvelope)
      → parse_raw_envelope r line ≡ some e
      → is_some (verify_mac_with_index r o e) ≡ true
      → entries_of_line r o n line acked
        ≡ (if is_fine e.unsigned then entry_of_content r o n e.unsigned.content acked else [])
  entries_of_line-good n line acked e raw good = elim (Bool-cases (is_fine e.unsigned)) [
    | inl f ↦
        rw f (entries_of_line-some n line acked e (rw f at (parse_envelope-good line e raw good)))
    | inr f ↦
        rw f (entries_of_line-none n line acked (rw f at (parse_envelope-good line e raw good)))
  ]

  pub entries_of_line-signed :
      (sound : IsSound r o) (n : ℕ) (line : String) (acked : List String) (e : DeadLetterEnvelope)
      → parse_raw_envelope r line ≡ some e
      → is_some (verify_mac_with_index r o e) ≡ true
      → entries_of_line r o n (r.print_envelope (sign_envelope r o e.unsigned)) acked
        ≡ entries_of_line r o n line acked
  unfolding sign_envelope verify_mac_with_index
  entries_of_line-signed sound n line acked e raw good =
      entries_of_line-good n (r.print_envelope (sign_envelope r o e.unsigned)) acked
        (sign_envelope r o e.unsigned)
        (parse_raw_envelope-print_envelope r o sound (sign_envelope r o e.unsigned))
        (sound.verify (r.print_unsigned e.unsigned))
      ∙ sym (entries_of_line-good n line acked e raw good)
