-- ===== src/DeadLetters/Envelope.antt =====
-- Envelopes of src/transport/dead-letter-store.ts: their tests and their signatures.
use Prim.Native.String.{String}
use errorcore.Common.{
  ℕ, Bool, true, false, not, ◌&&◌, ◌||◌, Option, none, some, leb, ◌==◌, is_some, if◌then◌else◌,
  str_eq,
}
use errorcore.DeadLetters.{
  Json, absent, text, number, other, ParsedLine, Content, payload, marker, UnsignedEnvelope,
  DeadLetterEnvelope, Runtime, DeadLetterStoreOptions,
}

infixl 5 ◌>>=◌ ◌>>◌
abbrev pub ◌>>=◌ {ℓ κ} : {A : Type ℓ} {B : Type κ} → Option A → (A → Option B) → Option B
none >>= f = none
some a >>= f = f a

abbrev pub ◌>>◌ {ℓ} : {B : Type ℓ} → Option (Unit {0}) → Option B → Option B
m >> k = m >>= λ _. k

abbrev pub guard : Bool → Option (Unit {0})
guard true = some tt
guard false = none

-- `typeof value === 'string'`.
abbrev pub text_of : Json → Option String
text_of (text s) = some s
text_of absent = none
text_of (number n) = none
text_of other = none

abbrev pub is_number : ℕ → Json → Bool
is_number n (number k) = n == k
is_number n absent = false
is_number n (text s) = false
is_number n other = false

-- A field that is a string or not there.
abbrev pub optional_text_of : Json → Option (Option String)
optional_text_of absent = some none
optional_text_of (text s) = some (some s)
optional_text_of (number n) = none
optional_text_of other = none

abbrev pub is_text : Json → Bool
is_text (text s) = true
is_text absent = false
is_text (number n) = false
is_text other = false

module _ (r : Runtime) where
  unfoldable pub is_encrypted_payload_format : String → Bool
  is_encrypted_payload_format s = is_some (do
    parsed ← r.parse_payload s
    guard (
        (is_number 1 parsed.v || is_number 2 parsed.v)
        && (is_text parsed.event_id
            && (is_text parsed.iv
                && (is_text parsed.ciphertext
                    && (is_text parsed.auth_tag && is_text parsed.hmac))))))

  -- What a payload must be to be drained.
  unfoldable pub is_acceptable : DeadLetterStoreOptions → String → Bool
  unfolding is_encrypted_payload_format
  is_acceptable o s =
      not (r.byte_length s == 0)
      && (leb (r.byte_length s) o.max_payload_bytes
          && (not o.require_encrypted_payload || is_encrypted_payload_format s))

  abbrev pub payload_of : ParsedLine → Option Content
  payload_of parsed = do
    s ← text_of parsed.payload
    id ← optional_text_of parsed.id
    some (payload id s)

  abbrev pub marker_of : String → ParsedLine → Option Content
  marker_of kind parsed = do
    guard (str_eq kind "marker")
    code ← text_of parsed.code
    some (marker code)

  -- The content of a parsed line, where its kind and fields are right.
  abbrev pub content_of : ParsedLine → Option Content
  content_of parsed = do
    kind ← text_of parsed.kind
    if str_eq kind "payload" then payload_of parsed else marker_of kind parsed

  -- The tests of `parseEnvelope` that `parseRawEnvelope` leaves out.
  abbrev pub is_valid_content : DeadLetterStoreOptions → Content → Bool
  is_valid_content o (payload id s) = is_acceptable o s
  is_valid_content o (marker code) = not (str_eq code "")

  -- `parseRawEnvelope`.
  unfoldable pub parse_raw_envelope : String → Option DeadLetterEnvelope
  parse_raw_envelope line = do
    parsed ← r.parse_line line
    guard (is_number 1 parsed.version)
    content ← content_of parsed
    mac ← text_of parsed.mac
    stored_at ← text_of parsed.stored_at
    some (record { unsigned = record { stored_at = stored_at; content = content }; mac = mac })

  unfoldable pub verify_mac_with_index : DeadLetterStoreOptions → DeadLetterEnvelope → Option ℕ
  verify_mac_with_index o e = o.verifier.verify_key_index (r.print_unsigned e.unsigned) e.mac

  unfoldable pub sign_envelope : DeadLetterStoreOptions → UnsignedEnvelope → DeadLetterEnvelope
  sign_envelope o u = record { unsigned = u; mac = o.verifier.sign (r.print_unsigned u) }

  -- `parseEnvelope`: the tests of its own and those that it shares with `parseRawEnvelope`, which
  -- all give null where they fail.
  unfoldable pub parse_envelope : DeadLetterStoreOptions → String → Option DeadLetterEnvelope
  unfolding parse_raw_envelope is_acceptable verify_mac_with_index
  parse_envelope o line = do
    e ← parse_raw_envelope line
    guard (r.is_date e.unsigned.stored_at)
    guard (is_valid_content o e.unsigned.content)
    guard (is_some (verify_mac_with_index o e))
    some e
