-- ===== src/DeadLetters/Verifier.antt =====
-- `createHmacVerifier` of src/transport/dead-letter-store.ts.
use Prim.Native.String.{String}
use errorcore.Common.{
  ℕ, ◌+◌, ◌≡◌, refl, inl, inr, Bool, true, Option, none, some, List, [], ◌∷◌, ◌++◌, is_some,
  if◌then◌else◌, Bool-cases,
}
use errorcore.DeadLetters.{IntegrityVerifier}

-- What the verifier calls of the runtime, on digests: `createHmac`, base64 both ways, and the test
-- of two digests, of their lengths and then by `timingSafeEqual`.
pub record Crypto (Digest : Type 0) : Type 0 where
  pub hmac : String → String → Digest
  pub to_base64 : Digest → String
  pub from_base64 : String → Digest
  pub same_bytes : Digest → Digest → Bool

-- A digest is the same as itself, and base64 can be read back.
pub record IsExact {Digest : Type 0} (c : Crypto Digest) : Type 0 where
  pub same : (d : Digest) → c.same_bytes d d ≡ true
  pub base64 : (d : Digest) → c.from_base64 (c.to_base64 d) ≡ d

module _ {Digest : Type 0} (c : Crypto Digest) where
  abbrev pub sign_with : String → String → String
  sign_with key payload = c.to_base64 (c.hmac key payload)

  -- The loop of `verifyKeyIndex`, from key number `index` on.
  unfoldable pub find_key : ℕ → List String → String → String → Option ℕ
  find_key index [] payload mac = none
  find_key index (key ∷ keys) payload mac =
      if c.same_bytes (c.hmac key payload) (c.from_base64 mac)
      then some index
      else find_key (index + 1) keys payload mac

  -- The primary key, and the others of the chain.
  abbrev pub create_hmac_verifier : String → List String → IntegrityVerifier
  create_hmac_verifier primary_key previous = record {
    sign = sign_with primary_key;
    verify_key_index = find_key 0 (primary_key ∷ previous);
  }

  module _ (exact : IsExact c) where
    finds :
        (index : ℕ) (before after : List String) (key payload : String)
        → is_some (find_key index (before ++ key ∷ after) payload (sign_with key payload)) ≡ true
    unfolding find_key
    finds index [] after key payload =
        rw (exact.base64 (c.hmac key payload), exact.same (c.hmac key payload)) refl
    finds index (k ∷ before) after key payload =
        elim (Bool-cases
          (c.same_bytes (c.hmac k payload) (c.from_base64 (sign_with key payload)))) [
            | inl e ↦ rw e refl
            | inr e ↦ rw e (finds (index + 1) before after key payload)
          ]

    -- Where base64 can be read back, a chain of keys accepts what the verifier of any key of the
    -- chain has signed, the primary key at index 0: a rotation that moves the old key to the end of
    -- the chain invalidates no line.
    pub create_hmac_verifier-accepts :
        (primary_key key payload : String) (before after previous : List String)
        → ((create_hmac_verifier primary_key previous).verify_key_index payload
              ((create_hmac_verifier primary_key previous).sign payload)
            ≡ some 0)
          × (is_some (
                (create_hmac_verifier primary_key (before ++ key ∷ after)).verify_key_index payload
                  ((create_hmac_verifier key previous).sign payload))
              ≡ true)
    unfolding find_key
    create_hmac_verifier-accepts primary_key key payload before after previous = (
      rw (exact.base64 (c.hmac primary_key payload), exact.same (c.hmac primary_key payload)) refl,
      finds 0 (primary_key ∷ before) after key payload,
    )
