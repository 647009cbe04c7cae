-- ===== src/Assembly.antt =====
-- src/capture/package-assembly-dispatcher.ts: requests to the worker that assembles packages.
pub mod Settlement
pub mod Runs
pub mod Ids
mod Tests
use errorcore.Common.{
  ℕ, zero, suc, ◌+◌, Bool, true, false, not, ◌&&◌, ◌||◌, Option, none, some, List, [], ◌∷◌, ◌++◌,
  map, ltb, ◌==◌, if◌then◌else◌, length,
}

-- `REQUEST_ID_MAX`, 2 ^ 31 - 1.
abbrev pub request_id_max : ℕ
request_id_max = 2147483647

-- An entry of `pending`, with the promise that it settles. Its timer is armed as long as the entry
-- is there.
pub record PendingRequest : Type 0 where
  pub id : ℕ
  pub promise : ℕ
  pub expects_result : Bool

-- A promise is a number, the next that a call hands out in `next_promise`.
pub record PackageAssemblyDispatcher : Type 0 where
  pub has_worker : Bool
  pub available : Bool
  pub shutting_down : Bool
  pub request_id : ℕ
  pub pending : List PendingRequest
  pub next_promise : ℕ

pub data Outcome : Type 0 where
  resolved unavailable timed_out no_result failed_in_worker worker_ended post_failed : Outcome

-- A call of a promise's `resolve` or `reject`.
pub record Settled : Type 0 where
  pub promise : ℕ
  pub outcome : Outcome

-- What a call or an event leaves: the state, and the promises it settles. A call that throws before
-- it makes a promise leaves `next_promise` as it was.
pub record Effects : Type 0 where
  pub after : PackageAssemblyDispatcher
  pub settled : List Settled

-- `started` says whether `initializeWorker` found a worker and created it.
abbrev pub new_dispatcher : Bool → PackageAssemblyDispatcher
new_dispatcher started = record {
  has_worker = started;
  available = started;
  shutting_down = false;
  request_id = 0;
  pending = [];
  next_promise = 0;
}

abbrev pub has_id : ℕ → List PendingRequest → Bool
has_id id [] = false
has_id id (p ∷ ps) = if id == p.id then true else has_id id ps

abbrev pub find_id : ℕ → List PendingRequest → Option PendingRequest
find_id id [] = none
find_id id (p ∷ ps) = if id == p.id then some p else find_id id ps

abbrev pub delete_id : ℕ → List PendingRequest → List PendingRequest
delete_id id [] = []
delete_id id (p ∷ ps) = if id == p.id then ps else p ∷ delete_id id ps

-- `pending.set`: an entry under the same id is replaced where it stands.
abbrev pub set_pending : PendingRequest → List PendingRequest → List PendingRequest
set_pending r [] = r ∷ []
set_pending r (p ∷ ps) = if r.id == p.id then r ∷ ps else p ∷ set_pending r ps

abbrev pub next_id : ℕ → ℕ
next_id n = if ltb request_id_max (n + 1) then 1 else n + 1

-- The loop of `nextRequestId` over the probes that are left: the counter, and the id unless every
-- probe is taken.
unfoldable pub probe_ids : ℕ → ℕ → List PendingRequest → ℕ × Option ℕ
probe_ids zero n pending = (n, none)
probe_ids (suc probes) n pending =
    let rest = probe_ids probes (next_id n) pending in
    if has_id (next_id n) pending then rest else (next_id n, some (next_id n))

unfoldable pub next_request_id : PackageAssemblyDispatcher → ℕ × Option ℕ
unfolding probe_ids
next_request_id d = probe_ids (length d.pending + 1) d.request_id d.pending

abbrev pub is_available : PackageAssemblyDispatcher → Bool
is_available d = d.available && d.has_worker

abbrev pub settle_now : Outcome → PackageAssemblyDispatcher → Effects
settle_now outcome d = record {
  after = record d { next_promise = d.next_promise + 1 };
  settled = record { promise = d.next_promise; outcome = outcome } ∷ [];
}

-- The entry of the next promise under an id.
abbrev pub new_request : ℕ → Bool → PackageAssemblyDispatcher → PendingRequest
new_request id expects_result d = record {
  id = id;
  promise = d.next_promise;
  expects_result = expects_result;
}

-- A new promise under a new id, whose message is posted.
unfoldable pub open_request : Bool → PackageAssemblyDispatcher → Effects
unfolding next_request_id
open_request expects_result d = elim (next_request_id d).1 [
  | none ↦ record { after = record d { request_id = (next_request_id d).0 }; settled = [] }
  | some id ↦ record {
    after = record d {
      request_id = (next_request_id d).0;
      pending = set_pending (new_request id expects_result d) d.pending;
      next_promise = d.next_promise + 1;
    };
    settled = [];
  }
]

-- `assemble`, whose `postMessage` does not throw.
unfoldable pub assemble : PackageAssemblyDispatcher → Effects
unfolding open_request
assemble d = if is_available d then open_request true d else settle_now unavailable d

-- `updateConfig`; `posts` says whether `postMessage` returns, and if it throws the entry goes again.
unfoldable pub update_config : Bool → PackageAssemblyDispatcher → Effects
unfolding open_request
update_config posts d =
    if is_available d && not d.shutting_down
    then (if posts then open_request false d else elim (next_request_id d).1 [
      | none ↦ open_request false d
      | some id ↦ settle_now post_failed (record d {
        request_id = (next_request_id d).0;
        pending = delete_id id (set_pending (new_request id false d) d.pending);
      })
    ])
    else settle_now resolved d

-- The part of `shutdown` before its `await`, whose `postMessage` does not throw. The promise is the
-- first of its race.
unfoldable pub begin_shutdown : PackageAssemblyDispatcher → Effects
unfolding open_request
begin_shutdown d =
    if d.has_worker
    then open_request false (record d { shutting_down = true })
    else record { after = record d { shutting_down = true }; settled = [] }

-- The part after it.
abbrev pub end_shutdown : PackageAssemblyDispatcher → Effects
end_shutdown d = record { after = record d { available = false; has_worker = false }; settled = [] }

-- What a message holds besides its id: an error, or a result or none.
pub data Answer : Type 0 where
  error : Answer
  result : Answer
  nothing : Answer

abbrev pub outcome_of : Bool → Answer → Outcome
outcome_of expects_result error = failed_in_worker
outcome_of expects_result result = resolved
outcome_of expects_result nothing = if expects_result then no_result else resolved

-- Entry `id` is deleted and settled, if it is there.
abbrev pub settle_pending : ℕ → (PendingRequest → Outcome) → PackageAssemblyDispatcher → Effects
settle_pending id outcome d = elim (find_id id d.pending) [
  | none ↦ record { after = d; settled = [] }
  | some p ↦ record {
    after = record d { pending = delete_id id d.pending };
    settled = record { promise = p.promise; outcome = outcome p } ∷ [];
  }
]

-- A message, its id `none` if it is not a number.
unfoldable pub on_message : Option ℕ → Answer → PackageAssemblyDispatcher → Effects
on_message none answer d = record { after = d; settled = [] }
on_message (some id) answer d = settle_pending id (λ p. outcome_of p.expects_result answer) d

-- The timer of an entry fires.
unfoldable pub on_timeout : ℕ → PackageAssemblyDispatcher → Effects
on_timeout id d = settle_pending id (λ p. timed_out) d

abbrev pub fail_pending : List PendingRequest → List Settled
fail_pending ps = map (λ p. record { promise = p.promise; outcome = worker_ended }) ps

-- The worker's `error`, and its `exit`, which fails the pending requests if there are any.
unfoldable pub on_worker_end : PackageAssemblyDispatcher → Effects
on_worker_end d = record {
  after = record d { pending = []; available = false; has_worker = false };
  settled = fail_pending d.pending;
}
