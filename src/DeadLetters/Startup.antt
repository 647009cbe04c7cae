-- ===== src/DeadLetters/Startup.antt =====
-- `drainDeadLetters` of src/sdk.ts: what a start of the SDK sends again, cut at its first wait.
pub mod Progress
pub mod Kept
use Prim.Native.String.{String}
use errorcore.Common.{
  ℕ, ◌+◌, Bool, true, false, not, ◌&&◌, Option, none, some, List, [], ◌∷◌, ltb, ◌==◌, if◌then◌else◌,
  length, take,
}
use errorcore.DeadLetters.{Runtime, DeadLetterStoreOptions, DeadLetterStore, DeadLetterDrainEntry}
use errorcore.DeadLetters.Store.{drain, clear_sent, has_pending}

-- What `sendAll` is started with.
pub record Batch : Type 0 where
  pub batch : List DeadLetterDrainEntry
  pub entry_count : ℕ
  pub line_count : ℕ

-- Up to the start of `sendAll`: the store, and its batch, if there are entries.
unfoldable pub begin_drain :
    Runtime → DeadLetterStoreOptions → ℕ → DeadLetterStore → DeadLetterStore × Option Batch
unfolding drain clear_sent
begin_drain r o max_drain_on_startup s =
    if not (has_pending s)
    then (s, none)
    else (if length (drain r o false s).0 == 0
        then ((if ltb 0 (drain r o false s).1 then clear_sent (drain r o false s).1 s else s), none)
        else (
          s,
          some (record {
            batch = take max_drain_on_startup (drain r o false s).0;
            entry_count = length (drain r o false s).0;
            line_count = (drain r o false s).1;
          }),
        ))

-- The loop of `sendAll`, where `sends` says whether the transport takes an entry: the entries sent,
-- and `processedLineCount`.
unfoldable pub send_all :
    (DeadLetterDrainEntry → Bool) → ℕ → List DeadLetterDrainEntry → List DeadLetterDrainEntry × ℕ
send_all sends processed [] = ([], processed)
send_all sends processed (e ∷ es) =
    let rest = send_all sends e.line_number es in
    if sends e then (e ∷ rest.0, rest.1) else ([], processed)

abbrev pub is_last_line : ℕ → List DeadLetterDrainEntry → Bool
is_last_line n [] = false
is_last_line n (e ∷ []) = n == e.line_number
is_last_line n (e ∷ (e' ∷ es)) = is_last_line n (e' ∷ es)

-- `sendAll`, with the store as it is after the sends.
unfoldable pub finish_drain :
    (DeadLetterDrainEntry → Bool)
    → Batch
    → DeadLetterStore
    → List DeadLetterDrainEntry × DeadLetterStore
unfolding send_all clear_sent
finish_drain sends b s =
    let sent = (send_all sends 0 b.batch).0 in
    let processed = (send_all sends 0 b.batch).1 in
    (
      sent,
      (if ltb 0 processed
          then clear_sent
              (if is_last_line processed b.batch && length b.batch == b.entry_count
                then b.line_count
                else processed)
              s
          else s),
    )
