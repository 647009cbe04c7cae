-- ===== src/Transport.antt =====
-- TransportDispatcher of src/transport/transport.ts: sends by a worker, and by the main thread once
-- the worker is gone.
pub mod Counts
pub mod Pending
pub mod Settlement
pub mod Runs
pub mod Queue
pub mod Bounds
mod Tests
use Prim.Native.String.{String}
use errorcore.Common.{
  ℕ, ◌+◌, Bool, true, false, not, ◌&&◌, ◌||◌, Option, none, some, List, [], ◌∷◌, ◌++◌, map, ltb,
  leb, ◌==◌, is_some, if◌then◌else◌, length,
}

-- `MAX_FALLBACK_QUEUE_SIZE` and `MAX_FALLBACK_FLUSH_RESOLVERS`.
abbrev pub max_fallback_queue_size : ℕ
max_fallback_queue_size = 1000

abbrev pub max_fallback_flush_resolvers : ℕ
max_fallback_flush_resolvers = 100

pub data Operation : Type 0 where
  sends : String → Operation
  flushes : Operation

-- An entry of `pending`. A promise is a number.
pub record PendingRequest : Type 0 where
  pub id : ℕ
  pub operation : Operation
  pub promise : ℕ

pub record QueueItem : Type 0 where
  pub payload : String
  pub promise : ℕ

-- A resolver of `fallbackFlushResolvers`: it resolves the promise of a call that the worker had, or
-- lets `flushFallback` go on to the flush of the transport.
pub record FlushResolver : Type 0 where
  pub promise : ℕ
  pub goes_on : Bool

-- `sending` is the item of the loop while `fallbackActive` is set, and `flushing` are the promises
-- that wait for the flush of the fallback transport.
pub record TransportDispatcher : Type 0 where
  pub has_worker : Bool
  pub has_fallback : Bool
  pub request_id : ℕ
  pub pending : List PendingRequest
  pub fallback_queue : List QueueItem
  pub fallback_flush_resolvers : List FlushResolver
  pub fallback_scheduled : Bool
  pub sending : Option QueueItem
  pub flushing : List ℕ
  pub next_promise : ℕ

-- A promise that is resolved or rejected.
pub record Settled : Type 0 where
  pub promise : ℕ
  pub is_resolved : Bool

pub record Effects : Type 0 where
  pub after : TransportDispatcher
  pub settled : List Settled

-- `started` says whether the worker was created; if not, `creates` says whether the fallback
-- transport was.
abbrev pub new_dispatcher : Bool → Bool → TransportDispatcher
new_dispatcher started creates = record {
  has_worker = started;
  has_fallback = not started && creates;
  request_id = 0;
  pending = [];
  fallback_queue = [];
  fallback_flush_resolvers = [];
  fallback_scheduled = false;
  sending = none;
  flushing = [];
  next_promise = 0;
}

abbrev pub settle_now : Bool → TransportDispatcher → Effects
settle_now is_resolved d = record {
  after = record d { next_promise = d.next_promise + 1 };
  settled = record { promise = d.next_promise; is_resolved = is_resolved } ∷ [];
}

-- `pending.set`: an entry under the same id is replaced where it stands.
abbrev pub set_pending : PendingRequest → List PendingRequest → List PendingRequest
set_pending r [] = r ∷ []
set_pending r (x ∷ xs) = if r.id == x.id then r ∷ xs else x ∷ set_pending r xs

abbrev pub delete_id : ℕ → List PendingRequest → List PendingRequest
delete_id id [] = []
delete_id id (r ∷ rs) = if id == r.id then rs else r ∷ delete_id id rs

-- `dispatchToWorker`; `posts` says whether `postMessage` returns, and if it throws the entry goes
-- again.
unfoldable pub dispatch_to_worker : Operation → Bool → TransportDispatcher → Effects
dispatch_to_worker operation posts d =
    let id = d.request_id + 1 in
    let entry : PendingRequest = record {
      id = id;
      operation = operation;
      promise = d.next_promise;
    } in
    if posts
    then record {
      after = record d {
        request_id = id;
        pending = set_pending entry d.pending;
        next_promise = d.next_promise + 1;
      };
      settled = [];
    }
    else settle_now false
        (record d { request_id = id; pending = delete_id id (set_pending entry d.pending) })

abbrev pub schedule : TransportDispatcher → TransportDispatcher
schedule d =
    if d.fallback_scheduled || is_some d.sending then d else record d { fallback_scheduled = true }

-- The queue after its oldest item is evicted, if it is full, and that item.
abbrev pub evict : List QueueItem → List QueueItem × List Settled
evict [] = ([], [])
evict (item ∷ rest) =
    if leb max_fallback_queue_size (length (item ∷ rest))
    then (rest, record { promise = item.promise; is_resolved = false } ∷ [])
    else (item ∷ rest, [])

-- `enqueueFallback`; `creates` says whether `createTransport` returns, if it is called.
unfoldable pub enqueue_fallback : String → Bool → TransportDispatcher → Effects
enqueue_fallback payload creates d =
    if d.has_fallback || creates
    then record {
      after = schedule (record d {
        has_fallback = true;
        fallback_queue =
            (evict d.fallback_queue).0
            ++ record { payload = payload; promise = d.next_promise } ∷ [];
        next_promise = d.next_promise + 1;
      });
      settled = (evict d.fallback_queue).1;
    }
    else settle_now false d

unfoldable pub send : String → Bool → Bool → TransportDispatcher → Effects
unfolding dispatch_to_worker enqueue_fallback
send payload posts creates d =
    if d.has_worker
    then dispatch_to_worker (sends payload) posts d
    else enqueue_fallback payload creates d

abbrev pub is_nil {ℓ} : {A : Type ℓ} → List A → Bool
is_nil [] = true
is_nil (a ∷ rest) = false

abbrev pub is_fallback_idle : TransportDispatcher → Bool
is_fallback_idle d =
    not d.fallback_scheduled && (not (is_some d.sending) && is_nil d.fallback_queue)

-- The flush of the fallback transport for a promise; without a transport there is nothing to flush.
abbrev pub flush_fallback : TransportDispatcher → Effects
flush_fallback d =
    if is_fallback_idle d
    then (if d.has_fallback
        then record {
          after = record d {
            flushing = d.flushing ++ d.next_promise ∷ [];
            next_promise = d.next_promise + 1;
          };
          settled = [];
        }
        else settle_now true d)
    else (if leb max_fallback_flush_resolvers (length d.fallback_flush_resolvers)
        then settle_now false d
        else record {
          after = record d {
            fallback_flush_resolvers =
                d.fallback_flush_resolvers
                ++ record { promise = d.next_promise; goes_on = true } ∷ [];
            next_promise = d.next_promise + 1;
          };
          settled = [];
        })

unfoldable pub flush : Bool → TransportDispatcher → Effects
unfolding dispatch_to_worker
flush posts d = if d.has_worker then dispatch_to_worker flushes posts d else flush_fallback d

-- What becomes of the resolvers: promises resolved, and promises that go on to the flush.
abbrev pub resolved_by : List FlushResolver → List Settled
resolved_by [] = []
resolved_by (w ∷ ws) =
    if w.goes_on
    then resolved_by ws
    else record { promise = w.promise; is_resolved = true } ∷ resolved_by ws

abbrev pub going_on : List FlushResolver → List ℕ
going_on [] = []
going_on (w ∷ ws) = if w.goes_on then w.promise ∷ going_on ws else going_on ws

unfoldable pub resolve_waiters_if_idle : TransportDispatcher → Effects
resolve_waiters_if_idle d =
    if is_fallback_idle d
    then record {
      after = record d {
        fallback_flush_resolvers = [];
        flushing = d.flushing ++ going_on d.fallback_flush_resolvers;
      };
      settled = resolved_by d.fallback_flush_resolvers;
    }
    else record { after = d; settled = [] }

-- The head of the loop of `processFallbackQueue`.
unfoldable pub take_next : TransportDispatcher → Effects
unfolding resolve_waiters_if_idle
take_next d = elim d.fallback_queue [
  | [] ↦ resolve_waiters_if_idle d
  | item ∷ rest ↦ record {
    after = record d { fallback_queue = rest; sending = some item };
    settled = [];
  }
]

-- The callback of `setImmediate`, where it was asked for.
unfoldable pub process_fallback_queue : TransportDispatcher → Effects
unfolding take_next
process_fallback_queue d =
    if d.fallback_scheduled
    then take_next (record d { fallback_scheduled = false })
    else record { after = d; settled = [] }

-- The send of the loop ends, or is rejected, and the loop goes on.
abbrev pub go_on : Bool → Option QueueItem → TransportDispatcher → Effects
unfolding take_next
go_on is_resolved none d = record { after = d; settled = [] }
go_on is_resolved (some item) d = record {
  after = (take_next (record d { sending = none })).after;
  settled =
      record { promise = item.promise; is_resolved = is_resolved }
      ∷ (take_next (record d { sending = none })).settled;
}

unfoldable pub on_send_end : Bool → TransportDispatcher → Effects
unfolding go_on
on_send_end is_resolved d = go_on is_resolved d.sending d

abbrev pub has_promise : ℕ → List ℕ → Bool
has_promise p [] = false
has_promise p (q ∷ qs) = if p == q then true else has_promise p qs

abbrev pub without_promise : ℕ → List ℕ → List ℕ
without_promise p [] = []
without_promise p (q ∷ qs) = if p == q then qs else q ∷ without_promise p qs

-- The flush of the fallback transport that promise `p` waits for ends.
unfoldable pub on_flush_end : ℕ → Bool → TransportDispatcher → Effects
on_flush_end p is_resolved d =
    if has_promise p d.flushing
    then record {
      after = record d { flushing = without_promise p d.flushing };
      settled = record { promise = p; is_resolved = is_resolved } ∷ [];
    }
    else record { after = d; settled = [] }

abbrev pub find_id : ℕ → List PendingRequest → Option PendingRequest
find_id id [] = none
find_id id (r ∷ rs) = if id == r.id then some r else find_id id rs

-- A message, its id `none` if it is not a number; `is_resolved` says that it holds no error.
unfoldable pub on_message : Option ℕ → Bool → TransportDispatcher → Effects
on_message none is_resolved d = record { after = d; settled = [] }
on_message (some id) is_resolved d = elim (find_id id d.pending) [
  | none ↦ record { after = d; settled = [] }
  | some r ↦ record {
    after = record d { pending = delete_id id d.pending };
    settled = record { promise = r.promise; is_resolved = is_resolved } ∷ [];
  }
]

abbrev pub reject_pending : List PendingRequest → List Settled
reject_pending [] = []
reject_pending (r ∷ rs) = record { promise = r.promise; is_resolved = false } ∷ reject_pending rs

-- The pending sends as items of the queue, and the pending flushes as resolvers.
abbrev pub items_of : List PendingRequest → List QueueItem
items_of [] = []
items_of (r ∷ rs) = elim r.operation [
  | sends payload ↦ record { payload = payload; promise = r.promise } ∷ items_of rs
  | flushes ↦ items_of rs
]

abbrev pub resolvers_of : List PendingRequest → List FlushResolver
resolvers_of [] = []
resolvers_of (r ∷ rs) = elim r.operation [
  | sends payload ↦ resolvers_of rs
  | flushes ↦ record { promise = r.promise; goes_on = false } ∷ resolvers_of rs
]

abbrev pub move_pending : TransportDispatcher → TransportDispatcher
move_pending d = record d {
  pending = [];
  fallback_queue = d.fallback_queue ++ items_of d.pending;
  fallback_flush_resolvers = d.fallback_flush_resolvers ++ resolvers_of d.pending;
}

-- `fallbackToMainThread`, at the worker's error or at its exit with a code that is not 0.
unfoldable pub fallback_to_main_thread : Bool → TransportDispatcher → Effects
unfolding resolve_waiters_if_idle
fallback_to_main_thread creates d =
    let gone = record d { has_worker = false } in
    if d.has_fallback || creates
    then (let ready = record gone { has_fallback = true } in
        if is_nil d.pending
        then record { after = ready; settled = [] }
        else (if is_nil (move_pending ready).fallback_queue
            then resolve_waiters_if_idle (move_pending ready)
            else record { after = schedule (move_pending ready); settled = [] }))
    else record { after = record gone { pending = [] }; settled = reject_pending d.pending }
