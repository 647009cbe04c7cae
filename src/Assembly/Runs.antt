-- ===== src/Assembly/Runs.antt =====
-- Any history of calls and events of src/capture/package-assembly-dispatcher.ts.
use errorcore.Common.{
  ℕ, ◌<◌, ◌≡◌, refl, ap, inl, inr, Bool, true, false, not, ◌&&◌, Option, none, some, List, [], ◌∷◌,
  ◌++◌, if◌then◌else◌, Bool-cases, arith, lt→ltb,
}
use errorcore.Assembly.{
  PackageAssemblyDispatcher, Settled, Effects, Answer, new_dispatcher, next_request_id, delete_id,
  set_pending, new_request, is_available, settle_now, open_request, assemble, update_config,
  begin_shutdown, end_shutdown, on_message, on_timeout, on_worker_end, unavailable, resolved,
  post_failed, timed_out, outcome_of, fail_pending,
}
use errorcore.Assembly.Ids.{next_request_id-fresh, delete_id-set_pending}
use errorcore.Assembly.Settlement.{
  settlements, settlements-append, settlements-fail_pending, IsSettledOnce, StaysSettledOnce, idle,
  settle_now-StaysSettledOnce, open_request-StaysSettledOnce, settle_pending-StaysSettledOnce,
  on_worker_end-StaysSettledOnce,
}

-- A call of the dispatcher, the rest of a shutdown, or an event of the worker or of a timer.
pub data Event : Type 0 where
  assembles begins_shutdown ends_shutdown worker_ends : Event
  updates_config : Bool → Event
  messages : Option ℕ → Answer → Event
  times_out : ℕ → Event

abbrev pub step : Event → PackageAssemblyDispatcher → Effects
step assembles d = assemble d
step (updates_config posts) d = update_config posts d
step begins_shutdown d = begin_shutdown d
step ends_shutdown d = end_shutdown d
step (messages id answer) d = on_message id answer d
step (times_out id) d = on_timeout id d
step worker_ends d = on_worker_end d

-- The effects of a sequence of events: the last state, and all that is settled after `done`.
unfoldable pub run : List Event → List Settled → PackageAssemblyDispatcher → Effects
run [] done d = record { after = d; settled = done }
run (e ∷ es) done d = run es (done ++ (step e d).settled) (step e d).after

assemble-StaysSettledOnce :
    (done : List Settled) (d : PackageAssemblyDispatcher)
    → IsSettledOnce done d
    → StaysSettledOnce done (assemble d)
unfolding assemble
assemble-StaysSettledOnce done d h = elim (Bool-cases (is_available d)) [
  | inl e ↦ rw (e, assemble) (open_request-StaysSettledOnce true done d h)
  | inr e ↦ rw (e, assemble) (settle_now-StaysSettledOnce unavailable done d h)
]

failed_post :
    (done : List Settled) (d : PackageAssemblyDispatcher) (o : Option ℕ)
    → (next_request_id d).1 ≡ o
    → IsSettledOnce done d
    → StaysSettledOnce done (elim o [
      | none ↦ open_request false d
      | some id ↦ settle_now post_failed (record d {
        request_id = (next_request_id d).0;
        pending = delete_id id (set_pending (new_request id false d) d.pending);
      })
    ])
failed_post done d none e h = open_request-StaysSettledOnce false done d h
failed_post done d (some id) e h =
    settle_now-StaysSettledOnce post_failed done
      (record d {
        request_id = (next_request_id d).0;
        pending = delete_id id (set_pending (new_request id false d) d.pending);
      })
      (λ p.
        rw
          (delete_id-set_pending (new_request id false d) d.pending
            (next_request_id-fresh d id e).0)
          (h p))

update_config-StaysSettledOnce :
    (posts : Bool) (done : List Settled) (d : PackageAssemblyDispatcher)
    → IsSettledOnce done d
    → StaysSettledOnce done (update_config posts d)
unfolding update_config
update_config-StaysSettledOnce posts done d h =
    elim (Bool-cases (is_available d && not d.shutting_down)) [
      | inl e ↦ rw (e, update_config) (posted posts)
      | inr e ↦ rw (e, update_config) (settle_now-StaysSettledOnce resolved done d h)
    ]
  where
    posted :
        (b : Bool)
        → StaysSettledOnce done (
            if b then open_request false d else elim (next_request_id d).1 [
              | none ↦ open_request false d
              | some id ↦ settle_now post_failed (record d {
                request_id = (next_request_id d).0;
                pending = delete_id id (set_pending (new_request id false d) d.pending);
              })
            ])
    posted true = open_request-StaysSettledOnce false done d h
    posted false = failed_post done d (next_request_id d).1 refl h

begin_shutdown-StaysSettledOnce :
    (done : List Settled) (d : PackageAssemblyDispatcher)
    → IsSettledOnce done d
    → StaysSettledOnce done (begin_shutdown d)
unfolding begin_shutdown
begin_shutdown-StaysSettledOnce done d h = started d.has_worker
  where
    started :
        (b : Bool)
        → StaysSettledOnce done (
            if b
            then open_request false (record d { shutting_down = true })
            else record { after = record d { shutting_down = true }; settled = [] })
    started true = open_request-StaysSettledOnce false done (record d { shutting_down = true }) h
    started false = idle done d (record d { shutting_down = true }) refl refl h

step-StaysSettledOnce :
    (e : Event) (done : List Settled) (d : PackageAssemblyDispatcher)
    → IsSettledOnce done d
    → StaysSettledOnce done (step e d)
unfolding on_message on_timeout
step-StaysSettledOnce assembles done d h = assemble-StaysSettledOnce done d h
step-StaysSettledOnce (updates_config posts) done d h =
    update_config-StaysSettledOnce posts done d h
step-StaysSettledOnce begins_shutdown done d h = begin_shutdown-StaysSettledOnce done d h
step-StaysSettledOnce ends_shutdown done d h = idle done d (end_shutdown d).after refl refl h
step-StaysSettledOnce (messages none answer) done d h = idle done d d refl refl h
step-StaysSettledOnce (messages (some id) answer) done d h =
    settle_pending-StaysSettledOnce id (λ p. outcome_of p.expects_result answer) done d h
step-StaysSettledOnce (times_out id) done d h =
    settle_pending-StaysSettledOnce id (λ p. timed_out) done d h
step-StaysSettledOnce worker_ends done d h = on_worker_end-StaysSettledOnce done d h

run-IsSettledOnce :
    (es : List Event) (done : List Settled) (d : PackageAssemblyDispatcher)
    → IsSettledOnce done d
    → IsSettledOnce (run es done d).settled (run es done d).after
unfolding run
run-IsSettledOnce [] done d h = h
run-IsSettledOnce (e ∷ es) done d h =
    run-IsSettledOnce es (done ++ (step e d).settled) (step e d).after
      (step-StaysSettledOnce e done d h)

-- From a new dispatcher, after any calls and events in any order (messages for unknown or repeated
-- ids, timers, the end of the worker and shutdowns included), each promise that was handed out either
-- waits in `pending`, under one entry, or was resolved or rejected, once; and no other promise was.
-- The `postMessage` of `assemble` and of `shutdown` does not throw.
pub run-new_dispatcher-IsSettledOnce :
    (started : Bool) (es : List Event)
    → IsSettledOnce
        (run es [] (new_dispatcher started)).settled
        (run es [] (new_dispatcher started)).after
run-new_dispatcher-IsSettledOnce started es =
    run-IsSettledOnce es [] (new_dispatcher started) (λ p. ground arith)

ended :
    (done : List Settled) (d : PackageAssemblyDispatcher)
    → IsSettledOnce done d
    → (p : ℕ) → p < d.next_promise
    → settlements p (done ++ (on_worker_end d).settled) ≡ 1
unfolding on_worker_end
ended done d h p lt =
    let made = ap (λ b. if◌then◌else◌ {A = ℕ} b 1 0) (lt→ltb p d.next_promise lt) in
    omega (
      arith,
      h p,
      made,
      settlements-append p done (fail_pending d.pending),
      settlements-fail_pending p d.pending,
    )

-- When the worker ends, after any such history, every promise handed out has been resolved or
-- rejected once: none hangs.
pub worker_end-settlements :
    (started : Bool) (es : List Event) (p : ℕ)
    → p < (run es [] (new_dispatcher started)).after.next_promise
    → settlements p (
        (run es [] (new_dispatcher started)).settled
        ++ (on_worker_end (run es [] (new_dispatcher started)).after).settled)
      ≡ 1
worker_end-settlements started es p lt =
    ended (run es [] (new_dispatcher started)).settled (run es [] (new_dispatcher started)).after
      (run-new_dispatcher-IsSettledOnce started es) p lt
