-- ===== src/RequestTracker/Cleanup.antt =====
-- `registerRequestCleanup` of src/context/request-tracker.ts: the listeners that end a request.
use errorcore.Common.{
  ◌≡◌, refl, Bool, true, false, ◌&&◌, ◌||◌, List, [], ◌∷◌, ◌++◌, if◌then◌else◌, arith,
}

-- The events listened to.
pub data CleanupEvent : Type 0 where
  response_finish response_close request_aborted request_close : CleanupEvent

-- What `request` or `response` is: no object, or an object with or without the methods `once` and
-- `on`.
pub data CleanupTarget : Type 0 where
  no_object : CleanupTarget
  emitter : Bool → Bool → CleanupTarget

-- The calls that the listeners make; the two callbacks only count where they are given.
pub data Effect : Type 0 where
  remove_request on_cleanup on_response_complete : Effect

pub record RequestCleanup : Type 0 where
  pub cleaned : Bool
  pub response_completed : Bool

unfoldable pub cleanup : RequestCleanup → RequestCleanup × List Effect
cleanup c =
    if c.cleaned then (c, []) else (record c { cleaned = true }, remove_request ∷ on_cleanup ∷ [])

-- The first part of `responseCleanup`.
abbrev pub complete_response : RequestCleanup → RequestCleanup × List Effect
complete_response c =
    if c.response_completed
    then (c, [])
    else (record c { response_completed = true }, on_response_complete ∷ [])

unfoldable pub response_cleanup : RequestCleanup → RequestCleanup × List Effect
unfolding cleanup
response_cleanup c =
    let completed = complete_response c in
    let ended = cleanup completed.0 in (ended.0, completed.1 ++ ended.1)

-- `registerCleanupEvent`: whether the target takes the listener.
abbrev pub register_cleanup_event : CleanupTarget → Bool
register_cleanup_event no_object = false
register_cleanup_event (emitter has_once has_on) = has_once || has_on

abbrev pub is_response : CleanupEvent → Bool
is_response response_finish = true
is_response response_close = true
is_response request_aborted = false
is_response request_close = false

module _ (request response : CleanupTarget) where
  abbrev pub is_heard : CleanupEvent → Bool
  is_heard e =
      if is_response e then register_cleanup_event response else register_cleanup_event request

  unfoldable pub on_event : CleanupEvent → RequestCleanup → RequestCleanup × List Effect
  on_event e c =
      if is_heard e then (if is_response e then response_cleanup c else cleanup c) else (c, [])

  -- The effects, in order, of a sequence of events as the listeners see them: an emitter that has
  -- `once` calls a listener for the first emission only, one that has `on` for every one.
  unfoldable pub on_events : List CleanupEvent → RequestCleanup → List Effect
  on_events [] c = []
  on_events (e ∷ es) c = (on_event e c).1 ++ on_events es (on_event e c).0

  -- Some event of the response is heard.
  abbrev pub has_response : List CleanupEvent → Bool
  has_response [] = false
  has_response (e ∷ es) = (is_heard e && is_response e) || has_response es

  -- What a request's end should do: the response completes once, at its first event, and the request
  -- is removed once, at the first event of all.
  abbrev pub ending : List CleanupEvent → List Effect
  ending [] = []
  ending (e ∷ es) =
      if is_heard e
      then (if is_response e
          then on_response_complete ∷ remove_request ∷ on_cleanup ∷ []
          else remove_request
            ∷ on_cleanup
            ∷ (if has_response es then on_response_complete ∷ [] else []))
      else ending es

  settled :
      (es : List CleanupEvent)
      → on_events es (record { cleaned = true; response_completed = true }) ≡ []
  unfolding on_events on_event cleanup response_cleanup
  settled [] = refl
  settled (e ∷ es) = ground (arith, settled es)

  waiting :
      (es : List CleanupEvent)
      → on_events es (record { cleaned = true; response_completed = false })
        ≡ (if has_response es then on_response_complete ∷ [] else [])
  unfolding on_events on_event cleanup response_cleanup
  waiting [] = refl
  waiting (e ∷ es) = ground (arith, waiting es, settled es)

  -- Whatever events reach the listeners, in any order and number: the request is
  -- removed and `onCleanup` called once, at the first event that is listened to, and
  -- `onResponseComplete` is called once, at the first of them that is the response's, before the
  -- removal if it is the first of all.
  pub on_events-ending :
      (es : List CleanupEvent)
      → on_events es (record { cleaned = false; response_completed = false }) ≡ ending es
  unfolding on_events on_event cleanup response_cleanup
  on_events-ending [] = refl
  on_events-ending (e ∷ es) = ground (arith, on_events-ending es, waiting es, settled es)
