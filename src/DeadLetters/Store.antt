-- ===== src/DeadLetters/Store.antt =====
-- The operations of src/transport/dead-letter-store.ts.
pub mod Printed
pub mod Entries
pub mod RoundTrip
pub mod Resign
use Prim.Native.String.{String}
use errorcore.Common.{
  ℕ, ◌+◌, ◌-◌, ◌*◌, Bool, true, false, not, ◌&&◌, ◌||◌, Option, none, some, List, [], ◌∷◌, ◌++◌,
  ltb, leb, ◌==◌, is_some, is_none, or_else, if◌then◌else◌, str_eq, length, drop,
}
use errorcore.DeadLetters.{
  Content, payload, marker, UnsignedEnvelope, DeadLetterEnvelope, Runtime, DeadLetterStoreOptions,
  DeadLetterStore, DeadLetterDrainEntry,
}
use errorcore.DeadLetters.Envelope.{
  parse_envelope, parse_raw_envelope, sign_envelope, verify_mac_with_index,
}

-- The lines of the file, if it is there.
abbrev pub lines : DeadLetterStore → List String
lines s = or_else s.file []

abbrev pub has_text : String → List String → Bool
has_text x [] = false
has_text x (y ∷ ys) = str_eq x y || has_text x ys

abbrev pub is_payload : Content → Bool
is_payload (payload id s) = true
is_payload (marker code) = false

-- The counts that `reSignAll` returns.
pub record ReSigned : Type 0 where
  pub resigned : ℕ
  pub dropped : ℕ
  pub markers_kept : ℕ

abbrev pub drop_line : List String × ReSigned → List String × ReSigned
drop_line (out, counts) = (out, record counts { dropped = counts.dropped + 1 })

module _ (r : Runtime) (o : DeadLetterStoreOptions) where
  abbrev pub compute_payload_id : String → String
  compute_payload_id s = r.sha256 s

  -- Each line ends in a line break.
  abbrev pub size_of : List String → ℕ
  size_of [] = 0
  size_of (line ∷ rest) = r.byte_length line + 1 + size_of rest

  unfoldable pub exceeds_max_size : DeadLetterStore → Bool
  exceeds_max_size s = if is_none s.file then false else leb o.max_size_bytes (size_of (lines s))

  -- `rotateIfNeededSync`, whose backups are not represented: none where it returns false.
  unfoldable pub rotate_if_needed : DeadLetterStore → Option DeadLetterStore
  unfolding exceeds_max_size
  rotate_if_needed s =
      if not (exceeds_max_size s)
      then some s
      else (if o.max_backups == 0
          then none
          else some (record s {
            file = none;
            rotate_counter = s.rotate_counter + 1;
            pending_payload_count = some 0;
          }))

  abbrev pub write_line : DeadLetterEnvelope → DeadLetterStore → DeadLetterStore
  write_line e s = record s { file = some (lines s ++ r.print_envelope e ∷ []) }

  -- `appendEnvelopeSync`, whose calls of the file system do not throw.
  unfoldable pub append_envelope : UnsignedEnvelope → DeadLetterStore → Bool × DeadLetterStore
  unfolding rotate_if_needed sign_envelope
  append_envelope u s = elim (rotate_if_needed s) [
    | none ↦ (false, s)
    | some s' ↦ (true, write_line (sign_envelope r o u) s')
  ]

  unfoldable pub count_payloads : List String → ℕ
  unfolding parse_envelope
  count_payloads [] = 0
  count_payloads (line ∷ rest) = elim (parse_envelope r o line) [
    | none ↦ count_payloads rest
    | some e ↦ (if is_payload e.unsigned.content then 1 else 0) + count_payloads rest
  ]

  -- `ensurePendingCountInitialized`.
  unfoldable pub ensure_pending_count : DeadLetterStore → DeadLetterStore
  unfolding count_payloads
  ensure_pending_count s = record s {
    pending_payload_count = some (or_else s.pending_payload_count (count_payloads (lines s)));
  }

  abbrev pub get_pending_count : DeadLetterStore → ℕ
  get_pending_count s = or_else (ensure_pending_count s).pending_payload_count 0

  abbrev pub count_one : Bool × DeadLetterStore → Bool × DeadLetterStore
  count_one (ok, s) = (
    ok,
    (if ok
        then record s { pending_payload_count = some (or_else s.pending_payload_count 0 + 1) }
        else s),
  )

  -- `appendPayloadSync` at the time that `stored_at` prints.
  unfoldable pub append_payload : String → String → DeadLetterStore → Bool × DeadLetterStore
  unfolding append_envelope ensure_pending_count
  append_payload stored_at text s =
      if ltb o.max_payload_bytes (r.byte_length text)
      then (false, s)
      else (let id = compute_payload_id text in
          let counted = ensure_pending_count s in
          if has_text id s.acked_payload_ids
          then (true, counted)
          else count_one (
              append_envelope (record { stored_at = stored_at; content = payload (some id) text })
                counted))

  unfoldable pub append_failure_marker : String → String → DeadLetterStore → Bool × DeadLetterStore
  unfolding append_envelope
  append_failure_marker stored_at code s =
      append_envelope (record { stored_at = stored_at; content = marker code }) s

  -- An entry of `drain`, unless its payload was acknowledged.
  abbrev pub entry_of : ℕ → Option String → String → List String → List DeadLetterDrainEntry
  entry_of line_number id text acked =
      if has_text (or_else id (compute_payload_id text)) acked
      then []
      else record {
        line_number = line_number;
        id = or_else id (compute_payload_id text);
        payload = text;
      }
        ∷ []

  abbrev pub entry_of_content : ℕ → Content → List String → List DeadLetterDrainEntry
  entry_of_content line_number (payload id text) acked = entry_of line_number id text acked
  entry_of_content line_number (marker code) acked = []

  unfoldable pub entries_of_line : ℕ → String → List String → List DeadLetterDrainEntry
  unfolding parse_envelope
  entries_of_line line_number line acked = elim (parse_envelope r o line) [
    | none ↦ []
    | some e ↦ entry_of_content line_number e.unsigned.content acked
  ]

  -- The loop of `drain` from a line on.
  unfoldable pub entries_from : ℕ → List String → List String → List DeadLetterDrainEntry
  unfolding entries_of_line
  entries_from n [] acked = []
  entries_from n (line ∷ rest) acked =
      entries_of_line n line acked ++ entries_from (n + 1) rest acked

  -- `drain`: the entries and the number of lines. `allow_large_file` lifts the limit of 10 MB.
  unfoldable pub drain : Bool → DeadLetterStore → List DeadLetterDrainEntry × ℕ
  unfolding entries_from
  drain allow_large_file s =
      if ltb (10 * 1024 * 1024) (size_of (lines s)) && not allow_large_file
      then ([], 0)
      else (entries_from 1 (lines s) s.acked_payload_ids, length (lines s))

  abbrev pub re_sign_line : DeadLetterEnvelope → List String × ReSigned → List String × ReSigned
  unfolding verify_mac_with_index sign_envelope
  re_sign_line e (out, counts) =
      if is_none (verify_mac_with_index r o e) then drop_line (out, counts) else (
        r.print_envelope (sign_envelope r o e.unsigned) ∷ out,
        (if is_payload e.unsigned.content
            then record counts { resigned = counts.resigned + 1 }
            else record counts { markers_kept = counts.markers_kept + 1 }),
      )

  -- `reSignAll` on its lines: the lines that it writes, and the counts.
  unfoldable pub re_sign_lines : List String → List String × ReSigned
  unfolding parse_raw_envelope
  re_sign_lines [] = ([], record { resigned = 0; dropped = 0; markers_kept = 0 })
  re_sign_lines (line ∷ rest) = elim (parse_raw_envelope r line) [
    | none ↦ drop_line (re_sign_lines rest)
    | some e ↦ re_sign_line e (re_sign_lines rest)
  ]

  unfoldable pub re_sign_all : DeadLetterStore → DeadLetterStore × ReSigned
  unfolding re_sign_lines
  re_sign_all s = elim s.file [
    | none ↦ (s, record { resigned = 0; dropped = 0; markers_kept = 0 })
    | some ls ↦ (
      record s {
        file = some (re_sign_lines ls).0;
        pending_payload_count = some (re_sign_lines ls).1.resigned;
      },
      (re_sign_lines ls).1,
    )
  ]

unfoldable pub mark_acked : String → DeadLetterStore → DeadLetterStore
mark_acked id s = if str_eq id "" || has_text id s.acked_payload_ids then s else record s {
  acked_payload_ids = s.acked_payload_ids ++ id ∷ [];
  pending_payload_count = elim s.pending_payload_count [ none ↦ none | some n ↦ some (n - 1) ];
}

unfoldable pub clear : DeadLetterStore → DeadLetterStore
clear s = record s { file = none; pending_payload_count = some 0 }

-- `clearSent`, whose calls of the file system do not throw, but for a file that is not there.
unfoldable pub clear_sent : ℕ → DeadLetterStore → DeadLetterStore
clear_sent sent_line_count s = elim s.file [
  | none ↦ record s { pending_payload_count = some 0 }
  | some ls ↦ record s {
    file = if ltb sent_line_count (length ls) then some (drop sent_line_count ls) else none;
    pending_payload_count = none;
  }
]

-- `hasPending`: the file is there, and not empty.
abbrev pub has_pending : DeadLetterStore → Bool
has_pending s = ltb 0 (length (lines s))
