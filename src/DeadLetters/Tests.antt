-- ===== src/DeadLetters/Tests.antt =====
-- Runs of src/transport/dead-letter-store.ts and of `drainDeadLetters` on small inputs.
use Prim.Native.Char.{Char, char, code, nul}
use Prim.Native.String.{String, [] as nil, ◌∷◌ as ◌⊳◌}
use errorcore.Common.{
  zero, suc, ◌+◌, ◌≡◌, refl, ap, Bool, true, false, none, some, List, [], ◌∷◌, ◌++◌, length,
  is_some, if◌then◌else◌, str_eq, str_eq_iff,
}
use errorcore.DeadLetters.{
  absent, text, number, ParsedLine, Content, payload, marker, DeadLetterEnvelope, Runtime,
  DeadLetterStoreOptions, DeadLetterStore, DeadLetterDrainEntry, new_dead_letter_store,
}
use errorcore.DeadLetters.Verifier.{
  Crypto, IsExact, create_hmac_verifier, create_hmac_verifier-accepts,
}
use errorcore.DeadLetters.Store.Printed.{IsSound, fields_of}
use errorcore.DeadLetters.Verifier.{find_key}
use errorcore.DeadLetters.Envelope.{
  is_acceptable, parse_envelope, parse_raw_envelope, sign_envelope, verify_mac_with_index,
}
use errorcore.DeadLetters.Store.{
  lines, has_text, append_payload, append_envelope, ensure_pending_count, rotate_if_needed,
  exceeds_max_size, get_pending_count, drain, entries_from, entries_of_line, re_sign_all,
  clear_sent,
}
use errorcore.DeadLetters.Store.RoundTrip.{append_payload-drain}
use errorcore.DeadLetters.Store.Entries.{contents}
use errorcore.DeadLetters.Store.Resign.{re_sign_all-drain}
use errorcore.DeadLetters.Startup.{Batch, begin_drain, send_all, finish_drain}
use errorcore.DeadLetters.Startup.Kept.{Keeps, finish_drain-Keeps}

-- A text is written with a mark before each of its characters and a `nul` after the last.
abbrev one : Char
one = char 1 tt

abbrev quote : String → String → String
quote nil rest = nul ⊳ rest
quote (c ⊳ s) rest = one ⊳ (c ⊳ quote s rest)

-- At a mark, or at the character behind one.
abbrev unquote : Bool → String → String × String
unquote true nil = (nil, nil)
unquote true (m ⊳ s) = elim (code m) [ zero ↦ (nil, s) | suc n ↦ unquote false s ]
unquote false nil = (nil, nil)
unquote false (c ⊳ s) = let rest = unquote true s in (c ⊳ rest.0, rest.1)

unquote-quote : (s rest : String) → unquote true (quote s rest) ≡ (s, rest)
unquote-quote nil rest = refl
unquote-quote (c ⊳ s) rest = ap (λ x. (c ⊳ x.0, x.1)) (unquote-quote s rest)

-- A line: what the content is, then the texts of the envelope.
abbrev tag_of : Content → String
tag_of (payload (some id) x) = "identified"
tag_of (payload none x) = "payload"
tag_of (marker code) = "marker"

abbrev first_of : Content → String
first_of (payload (some id) x) = id
first_of (payload none x) = ""
first_of (marker code) = code

abbrev second_of : Content → String
second_of (payload id x) = x
second_of (marker code) = ""

abbrev print_line : DeadLetterEnvelope → String
print_line e = quote (tag_of e.unsigned.content) (
    quote e.unsigned.stored_at
      (quote e.mac (quote (first_of e.unsigned.content) (quote (second_of e.unsigned.content) ""))))

abbrev parsed : String → String → String → String → String → ParsedLine
parsed tag stored_at mac first second =
    let identified = str_eq tag "identified" in
    let is_marker = str_eq tag "marker" in
    record {
      version = number 1;
      kind = if is_marker then text "marker" else text "payload";
      stored_at = text stored_at;
      id = if identified then text first else absent;
      payload = if is_marker then absent else text second;
      code = if is_marker then text first else absent;
      mac = text mac;
    }

abbrev read_line : String → ParsedLine
read_line line =
    let a = unquote true line in
    let b = unquote true a.1 in
    let c = unquote true b.1 in
    let d = unquote true c.1 in let e = unquote true d.1 in parsed a.0 b.0 c.0 d.0 e.0

read_line-quote :
    (tag stored_at mac first second : String)
    → read_line (quote tag (quote stored_at (quote mac (quote first (quote second "")))))
      ≡ parsed tag stored_at mac first second
read_line-quote tag stored_at mac first second =
    rw
      (
        unquote-quote tag (quote stored_at (quote mac (quote first (quote second "")))),
        unquote-quote stored_at (quote mac (quote first (quote second ""))),
        unquote-quote mac (quote first (quote second "")),
        unquote-quote first (quote second ""),
        unquote-quote second "",
      )
      refl

abbrev runtime : Runtime
runtime = record {
  byte_length = λ s. if str_eq s "" then 0 else 1;
  parse_line = λ line. some (read_line line);
  parse_payload = λ s. none;
  is_date = λ s. true;
  sha256 = λ s. quote s "";
  print_unsigned = λ u. quote u.stored_at (second_of u.content);
  print_envelope = print_line;
}

abbrev crypto : Crypto String
crypto = record {
  hmac = λ key x. quote key x;
  to_base64 = λ d. d;
  from_base64 = λ d. d;
  same_bytes = str_eq;
}

crypto-IsExact : IsExact crypto
crypto-IsExact = record { same = λ d. (str_eq_iff d d).1 refl; base64 = λ d. refl }

-- A store under a chain of keys.
abbrev options : String → List String → DeadLetterStoreOptions
options primary_key previous = record {
  verifier = create_hmac_verifier crypto primary_key previous;
  max_size_bytes = 100;
  max_backups = 1;
  max_payload_bytes = 10;
  require_encrypted_payload = false;
}

runtime-IsSound :
    (primary_key : String) (previous : List String) → IsSound runtime (options primary_key previous)
runtime-IsSound primary_key previous = record {
  parse = λ e. shown e.unsigned.content e.unsigned.stored_at e.mac;
  verify = λ s.
      ap is_some
        (create_hmac_verifier-accepts crypto crypto-IsExact primary_key "" s [] [] previous).0;
}
  where
    shown :
        (c : Content) (t m : String)
        → some (
            read_line
              (print_line (record { unsigned = record { stored_at = t; content = c }; mac = m })))
          ≡ some (fields_of (record { unsigned = record { stored_at = t; content = c }; mac = m }))
    shown (payload (some id) x) t m = ap some (read_line-quote "identified" t m id x)
    shown (payload none x) t m = ap some (read_line-quote "payload" t m "" x)
    shown (marker code) t m = ap some (read_line-quote "marker" t m code "")

create_hmac_verifier-accepts_example :
    ((create_hmac_verifier crypto "new" []).verify_key_index "x"
        ((create_hmac_verifier crypto "new" []).sign "x")
      ≡ some 0)
    × (is_some (
          (create_hmac_verifier crypto "new" ("older" ∷ "old" ∷ [])).verify_key_index "x"
            ((create_hmac_verifier crypto "old" []).sign "x"))
        ≡ true)
create_hmac_verifier-accepts_example =
    create_hmac_verifier-accepts crypto crypto-IsExact "new" "old" "x" ("older" ∷ []) [] []

abbrev old_options : DeadLetterStoreOptions
old_options = options "old" []

abbrev new_options : DeadLetterStoreOptions
new_options = options "new" ("old" ∷ [])

abbrev empty_store : DeadLetterStore
empty_store = new_dead_letter_store none

abbrev one_stored : DeadLetterStore
one_stored = (append_payload runtime old_options "now" "first" empty_store).1

abbrev two_stored : DeadLetterStore
two_stored = (append_payload runtime old_options "later" "second" one_stored).1

second-is_acceptable : is_acceptable runtime old_options "second" ≡ true
unfolding is_acceptable
second-is_acceptable = refl

one_stored-acked : has_text (runtime.sha256 "second") one_stored.acked_payload_ids ≡ false
unfolding append_payload append_envelope ensure_pending_count rotate_if_needed exceeds_max_size
one_stored-acked = refl

one_stored-exceeds_max_size : exceeds_max_size runtime old_options one_stored ≡ false
unfolding append_payload append_envelope ensure_pending_count rotate_if_needed exceeds_max_size
one_stored-exceeds_max_size = refl

append_payload-drain_example :
    ((append_payload runtime old_options "later" "second" one_stored).0 ≡ true)
    × ((contents (drain runtime old_options true two_stored).0
          ≡ contents (drain runtime old_options true one_stored).0
            ++ (runtime.sha256 "second", "second") ∷ [])
        × (get_pending_count runtime old_options two_stored
            ≡ get_pending_count runtime old_options one_stored + 1))
append_payload-drain_example =
    append_payload-drain runtime old_options (runtime-IsSound "old" []) "later" "second" one_stored
      refl second-is_acceptable one_stored-acked one_stored-exceeds_max_size

re_sign_all-drain_example :
    (contents (drain runtime new_options true (re_sign_all runtime new_options two_stored).0).0
      ≡ contents (drain runtime new_options true two_stored).0)
    × (((re_sign_all runtime new_options two_stored).1.resigned
            + (re_sign_all runtime new_options two_stored).1.markers_kept
            + (re_sign_all runtime new_options two_stored).1.dropped
          ≡ length (lines two_stored))
        × (lines (re_sign_all runtime new_options (re_sign_all runtime new_options two_stored).0).0
            ≡ lines (re_sign_all runtime new_options two_stored).0))
re_sign_all-drain_example =
    re_sign_all-drain runtime new_options (runtime-IsSound "new" ("old" ∷ [])) two_stored

-- The transport takes the first entry only, and a line is appended in the meantime.
abbrev takes_first : DeadLetterDrainEntry → Bool
takes_first e = str_eq e.payload "first"

abbrev batch : Batch
batch = record {
  batch =
      record { line_number = 1; id = runtime.sha256 "first"; payload = "first" }
      ∷ record { line_number = 2; id = runtime.sha256 "second"; payload = "second" }
      ∷ [];
  entry_count = 2;
  line_count = 2;
}

begin_drain-two_stored : (begin_drain runtime old_options 5 two_stored).1 ≡ some batch
unfolding begin_drain drain append_payload append_envelope ensure_pending_count rotate_if_needed
    exceeds_max_size entries_from entries_of_line parse_envelope parse_raw_envelope sign_envelope
    is_acceptable verify_mac_with_index find_key
begin_drain-two_stored = refl

abbrev appended_later : DeadLetterStore
appended_later = record two_stored { file = some (lines two_stored ++ "third" ∷ []) }

finish_drain-Keeps_example :
    Keeps runtime old_options two_stored
      ("third" ∷ [])
      (finish_drain takes_first batch appended_later)
finish_drain-Keeps_example =
    finish_drain-Keeps runtime old_options takes_first 5 two_stored appended_later batch
      ("third" ∷ []) begin_drain-two_stored refl refl

-- The second entry and the line appended are left.
finish_drain-left : length (lines (finish_drain takes_first batch appended_later).1) ≡ 2
unfolding finish_drain send_all clear_sent append_payload append_envelope ensure_pending_count
    rotate_if_needed exceeds_max_size
finish_drain-left = refl

abbrev small_options : DeadLetterStoreOptions
small_options = record old_options { max_size_bytes = 4 }

abbrev takes_all : DeadLetterDrainEntry → Bool
takes_all e = true

-- An append during the sends that rotates the file: the clear then drops the new line, which was
-- not sent.
rotation_drops_unsent :
    lines
      (finish_drain takes_all batch
        (append_payload runtime small_options "t" "third" two_stored).1).1
    ≡ []
unfolding finish_drain send_all clear_sent append_payload append_envelope ensure_pending_count
    rotate_if_needed exceeds_max_size
rotation_drops_unsent = refl
