-- ===== src/DeadLetters.antt =====
-- src/transport/dead-letter-store.ts: packages that could not be sent, one line of a file for each.
pub mod Envelope
pub mod Store
pub mod Startup
pub mod Verifier
mod Tests
use Prim.Native.String.{String}
use errorcore.Common.{ℕ, Bool, true, false, Option, none, some, List, [], ◌==◌, if◌then◌else◌}

-- A field of an object that `JSON.parse` returns, as far as the code tells values apart.
pub data Json : Type 0 where
  absent : Json
  text : String → Json
  number : ℕ → Json
  other : Json

-- The fields that `parseEnvelope` and `parseRawEnvelope` read.
pub record ParsedLine : Type 0 where
  pub version : Json
  pub kind : Json
  pub stored_at : Json
  pub id : Json
  pub payload : Json
  pub code : Json
  pub mac : Json

-- The fields that `isEncryptedPayloadFormat` reads.
pub record ParsedPayload : Type 0 where
  pub v : Json
  pub event_id : Json
  pub iv : Json
  pub ciphertext : Json
  pub auth_tag : Json
  pub hmac : Json

pub data Content : Type 0 where
  payload : Option String → String → Content
  marker : String → Content

-- An envelope without its `mac`; its version is 1, and its content says its kind.
pub record UnsignedEnvelope : Type 0 where
  pub stored_at : String
  pub content : Content

pub record DeadLetterEnvelope : Type 0 where
  pub unsigned : UnsignedEnvelope
  pub mac : String

-- `IntegrityVerifier`.
pub record IntegrityVerifier : Type 0 where
  pub sign : String → String
  pub verify_key_index : String → String → Option ℕ

-- What the store calls of the runtime. The two views of `JSON.parse` are none where it throws or
-- returns no object.
pub record Runtime : Type 0 where
  pub byte_length : String → ℕ
  pub parse_line : String → Option ParsedLine
  pub parse_payload : String → Option ParsedPayload
  pub is_date : String → Bool
  pub sha256 : String → String
  pub print_unsigned : UnsignedEnvelope → String
  pub print_envelope : DeadLetterEnvelope → String

pub record DeadLetterStoreOptions : Type 0 where
  pub verifier : IntegrityVerifier
  pub max_size_bytes : ℕ
  pub max_backups : ℕ
  pub max_payload_bytes : ℕ
  pub require_encrypted_payload : Bool

-- `file` holds the lines that are not empty, if the file is there.
pub record DeadLetterStore : Type 0 where
  pub file : Option (List String)
  pub rotate_counter : ℕ
  pub pending_payload_count : Option ℕ
  pub acked_payload_ids : List String

pub record DeadLetterDrainEntry : Type 0 where
  pub line_number : ℕ
  pub id : String
  pub payload : String

abbrev pub new_dead_letter_store : Option (List String) → DeadLetterStore
new_dead_letter_store file = record {
  file = file;
  rotate_counter = 0;
  pending_payload_count = none;
  acked_payload_ids = [];
}
