-- ===== src/DeadLetters/Store/RoundTrip.antt =====
-- An append to the store of src/transport/dead-letter-store.ts, and a drain after it.
use Prim.Native.String.{String}
use errorcore.Common.{
  ◌+◌, ◌≡◌, ltb, refl, sym, ap, ap₂, ◌∙◌, true, false, some, [], ◌∷◌, ◌++◌, arith,
}
use errorcore.DeadLetters.{
  payload, UnsignedEnvelope, Runtime, DeadLetterStoreOptions, DeadLetterStore,
}
use errorcore.DeadLetters.Envelope.{is_acceptable, sign_envelope}
use errorcore.DeadLetters.Store.{
  entries_from, has_text, append_envelope, append_payload, count_one, get_pending_count,
  ensure_pending_count, exceeds_max_size, rotate_if_needed, write_line, drain, lines,
}
use errorcore.DeadLetters.Store.Printed.{
  IsSound, entries_of_line-some, parse_envelope-sign_envelope,
}
use errorcore.DeadLetters.Store.Entries.{contents, contents-entries_append, drain-entries}

module _ (r : Runtime) (o : DeadLetterStoreOptions) where
  not_too_long :
      (x : String) → is_acceptable r o x ≡ true → ltb o.max_payload_bytes (r.byte_length x) ≡ false
  unfolding is_acceptable
  not_too_long x h = ground (arith, h)

  rotate_if_needed-small :
      (s : DeadLetterStore) → exceeds_max_size r o s ≡ false → rotate_if_needed r o s ≡ some s
  unfolding rotate_if_needed
  rotate_if_needed-small s small = rw (rotate_if_needed, small) refl

  append_envelope-small :
      (u : UnsignedEnvelope) (s : DeadLetterStore)
      → exceeds_max_size r o s ≡ false
      → append_envelope r o u s ≡ (true, write_line r o (sign_envelope r o u) s)
  unfolding append_envelope
  append_envelope-small u s small = rw (append_envelope, rotate_if_needed-small s small) refl

  abbrev appended : String → String → UnsignedEnvelope
  appended t x = record { stored_at = t; content = payload (some (r.sha256 x)) x }

  abbrev line_of : String → String → String
  line_of t x = r.print_envelope (sign_envelope r o (appended t x))

  abbrev after_append : String → String → DeadLetterStore → DeadLetterStore
  after_append t x s = record s {
    file = some (lines s ++ line_of t x ∷ []);
    pending_payload_count = some (get_pending_count r o s + 1);
  }

  append_payload-written :
      (t x : String) (s : DeadLetterStore)
      → is_acceptable r o x ≡ true
      → has_text (r.sha256 x) s.acked_payload_ids ≡ false
      → exceeds_max_size r o s ≡ false
      → append_payload r o t x s ≡ (true, after_append t x s)
  unfolding append_payload ensure_pending_count exceeds_max_size
  append_payload-written t x s ok fresh small =
      rw (append_payload, not_too_long x ok, fresh)
        (ap (count_one r o)
          (append_envelope-small (appended t x) (ensure_pending_count r o s) small))

  -- A payload that may be stored, under the limit on the file's size and not yet acknowledged, is
  -- appended; a drain then gives it after the entries that it gave before, with the id and the text
  -- of the payload, and the count of pending payloads is one more.
  pub append_payload-drain :
      (sound : IsSound r o) (t x : String) (s : DeadLetterStore)
      → r.is_date t ≡ true
      → is_acceptable r o x ≡ true
      → has_text (r.sha256 x) s.acked_payload_ids ≡ false
      → exceeds_max_size r o s ≡ false
      → ((append_payload r o t x s).0 ≡ true)
        × ((contents (drain r o true (append_payload r o t x s).1).0
              ≡ contents (drain r o true s).0 ++ (r.sha256 x, x) ∷ [])
            × (get_pending_count r o (append_payload r o t x s).1 ≡ get_pending_count r o s + 1))
  unfolding entries_from sign_envelope ensure_pending_count
  append_payload-drain sound t x s date ok fresh small =
      (ap (λ p. p.0) written, (drained, ap (λ p. get_pending_count r o p.1) written ∙ refl))
    where
      written : append_payload r o t x s ≡ (true, after_append t x s)
      written = append_payload-written t x s ok fresh small

      alone :
          contents (entries_from r o 1 (line_of t x ∷ []) s.acked_payload_ids)
          ≡ (r.sha256 x, x) ∷ []
      alone =
          rw
            (
              entries_from,
              entries_of_line-some r o 1 (line_of t x) s.acked_payload_ids
                  (sign_envelope r o (appended t x))
                  (parse_envelope-sign_envelope r o sound (appended t x) date ok),
              sign_envelope,
              fresh,
            )
            refl

      drained :
          contents (drain r o true (append_payload r o t x s).1).0
          ≡ contents (drain r o true s).0 ++ (r.sha256 x, x) ∷ []
      drained =
          ap (λ p. contents (drain r o true p.1).0) written
          ∙ ap contents (drain-entries r o (after_append t x s))
          ∙ contents-entries_append r o 1 1 (lines s) (line_of t x ∷ []) s.acked_payload_ids
          ∙ ap₂ (λ a b. a ++ b) (sym (ap contents (drain-entries r o s))) alone
