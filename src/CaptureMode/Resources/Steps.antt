-- ===== src/CaptureMode/Resources/Steps.antt =====
-- What the stretches of calls of `applyModeState` of src/capture-mode-controller.ts do.
use errorcore.Common.{
  ◌≡◌, refl, sym, ap, ◌∙◌, inl, inr, Bool, true, false, not, ◌&&◌, ◌||◌, List, [], ◌∷◌, ◌++◌,
  append-nil, if◌then◌else◌, Bool-cases, arith,
}
use errorcore.CaptureMode.{ModeState}
use errorcore.CaptureMode.Resources.{
  ResourceCall, set_http_server_recorder, update_channel_subscriptions, set_net_dns_recorder,
  set_database_recorders, set_process_handlers, set_event_loop_lag_monitor,
  flush_before_timer_restart, bool_eq, emit, refetches, http_server_calls, fetch_calls,
  net_dns_calls, database_calls, process_calls, lag_calls, calls_before,
}
use errorcore.CaptureMode.Resources.Effects.{Host, Resources, subscriptions_of, call, call_all}
use errorcore.CaptureMode.Resources.Reflects.{Reflects}

-- The states of the flushes that a test lets through.
abbrev pub logs : Bool → ModeState → List ModeState
logs b s = if b then s ∷ [] else []

-- Whether the fetch recorder takes bodies after the transition.
abbrev pub bodies_after : Bool → ModeState → ModeState → Bool → Bool
bodies_after serverless previous next was =
    if refetches serverless previous next
    then (if next.recorders.fetch then next.capture_response_bodies else was)
    else was

-- The resources after the calls for the recorders.
abbrev pub recorded : Bool → ModeState → ModeState → Resources → Resources
recorded serverless previous next r = record r {
  http_server = next.recorders.http_server;
  subscriptions = subscriptions_of next.recorders;
  fetch = next.recorders.fetch;
  fetch_bodies = bodies_after serverless previous next r.fetch_bodies;
  net_dns = next.recorders.net_dns;
  database = next.recorders.database;
  process_handlers = next.recorders.process_handlers;
  lag_monitor = if serverless then r.lag_monitor else next.capabilities.event_loop_lag_monitor;
}

module _ (host : Host) where
  call_all-append :
      (xs ys : List ResourceCall) (r : Resources)
      → call_all host (xs ++ ys) r ≡ call_all host ys (call_all host xs r)
  unfolding call_all call
  call_all-append [] ys r = refl
  call_all-append (x ∷ xs) ys r = call_all-append xs ys (call host x r)

  pub eq_of_bool_eq : (a b : Bool) → bool_eq a b ≡ true → a ≡ b
  eq_of_bool_eq true b h = sym h
  eq_of_bool_eq false true h = h
  eq_of_bool_eq false false h = refl

  -- A call that sets a Boolean is left out only when the Boolean stands there already: in both cases
  -- the resources are those with the Boolean set, `set b`.
  toggle :
      (get : Resources → Bool) (set : Bool → Resources → Resources) (c : Bool → ResourceCall)
      → ((b : Bool) (r : Resources) → call host (c b) r ≡ set b r)
      → ((r : Resources) → set (get r) r ≡ r)
      → (p n : Bool) (r : Resources) → get r ≡ p
      → call_all host (emit (not (bool_eq p n)) (c n)) r ≡ set n r
  unfolding call_all call
  toggle get set c acts same p n r at = elim (Bool-cases (bool_eq p n)) [
    | inl e ↦
        let q : get r ≡ n = at ∙ eq_of_bool_eq p n e in rw e (sym (same r) ∙ ap (λ b. set b r) q)
    | inr e ↦ rw e (acts n r)
  ]

  -- One stretch of calls after another.
  pub chain :
      (xs ys : List ResourceCall) (r r' r'' : Resources)
      → call_all host xs r ≡ r'
      → call_all host ys r' ≡ r''
      → call_all host (xs ++ ys) r ≡ r''
  chain xs ys r r' r'' e f = call_all-append xs ys r ∙ ap (call_all host ys) e ∙ f

  pub flush_logged :
      (b : Bool) (r : Resources)
      → call_all host (emit b flush_before_timer_restart) r
        ≡ record r { flushes = r.flushes ++ logs b r.config }
  unfolding call_all call
  flush_logged true r = refl
  flush_logged false r = ap (λ fs. record r { flushes = fs }) (sym (append-nil r.flushes))

  fetch_step :
      (serverless : Bool) (previous next : ModeState) (r : Resources)
      → r.fetch ≡ previous.recorders.fetch
      → call_all host (fetch_calls serverless previous next) r ≡ record r {
        fetch = next.recorders.fetch;
        fetch_bodies = bodies_after serverless previous next r.fetch_bodies;
      }
  unfolding call_all call
  fetch_step serverless previous next r at =
      elim (Bool-cases (refetches serverless previous next)) [
        | inl e ↦ rw e refl
        | inr e ↦
            let q : r.fetch ≡ next.recorders.fetch = at ∙ eq_of_bool_eq _ _ (kept _ _ e) in
            rw e (ap (λ b. record r { fetch = b }) q)
      ]
    where
      kept : (a b : Bool) → (not a || b) ≡ false → a ≡ true
      kept a b h = ground arith

  lag_step :
      (serverless : Bool) (p n : Bool) (r : Resources)
      → (serverless ≡ false → r.lag_monitor ≡ p)
      → call_all host (emit (not serverless && not (bool_eq p n)) (set_event_loop_lag_monitor n)) r
        ≡ record r { lag_monitor = if serverless then r.lag_monitor else n }
  unfolding call_all call
  lag_step true p n r at = refl
  lag_step false p n r at =
      toggle (λ x. x.lag_monitor) (λ b x. record x { lag_monitor = b }) set_event_loop_lag_monitor
        (λ b x. refl) (λ x. refl) p n r (at refl)

  pub calls_before-recorded :
      (serverless : Bool) (previous next : ModeState) (r : Resources)
      → Reflects host serverless previous r
      → call_all host (calls_before serverless previous next) r
        ≡ recorded serverless previous next r
  unfolding call_all call
  calls_before-recorded serverless previous next r h =
      let n = next.recorders in
      let r1 : Resources = record r { http_server = n.http_server } in
      let r2 : Resources = record r1 { subscriptions = subscriptions_of n } in
      let r3 : Resources = record r2 {
        fetch = n.fetch;
        fetch_bodies = bodies_after serverless previous next r.fetch_bodies;
      } in
      let r4 : Resources = record r3 { net_dns = n.net_dns } in
      let r5 : Resources = record r4 { database = n.database } in
      let r6 : Resources = record r5 { process_handlers = n.process_handlers } in
      let r7 : Resources = recorded serverless previous next r in
      let lag = lag_calls serverless previous next in
      let process = process_calls serverless previous next in
      let database = database_calls serverless previous next in
      let dns = net_dns_calls serverless previous next in
      let fetch = fetch_calls serverless previous next in
      chain (http_server_calls serverless previous next)
        (update_channel_subscriptions n ∷ (fetch ++ (dns ++ (database ++ (process ++ lag))))) r r1
        r7
        (toggle (λ x. x.http_server) (λ b x. record x { http_server = b }) set_http_server_recorder
          (λ b x. refl) (λ x. refl) previous.recorders.http_server n.http_server r h.http_server)
        (chain fetch (dns ++ (database ++ (process ++ lag))) r2 r3 r7
          (fetch_step serverless previous next r2 h.fetch)
          (chain dns (database ++ (process ++ lag)) r3 r4 r7
            (toggle (λ x. x.net_dns) (λ b x. record x { net_dns = b }) set_net_dns_recorder
              (λ b x. refl) (λ x. refl) previous.recorders.net_dns n.net_dns r3 h.net_dns)
            (chain database (process ++ lag) r4 r5 r7
              (toggle (λ x. x.database) (λ b x. record x { database = b }) set_database_recorders
                (λ b x. refl) (λ x. refl) previous.recorders.database n.database r4 h.database)
              (chain process lag r5 r6 r7
                (toggle (λ x. x.process_handlers) (λ b x. record x { process_handlers = b })
                  set_process_handlers (λ b x. refl) (λ x. refl) previous.recorders.process_handlers
                  n.process_handlers r5 h.process_handlers)
                (lag_step serverless previous.capabilities.event_loop_lag_monitor
                  next.capabilities.event_loop_lag_monitor r6 h.lag_monitor)))))

  pub bodies_kept :
      (serverless : Bool) (previous next : ModeState) (r : Resources)
      → Reflects host serverless previous r
      → next.recorders.fetch ≡ true
      → bodies_after serverless previous next r.fetch_bodies ≡ next.capture_response_bodies
  bodies_kept serverless previous next r h on =
      elim (Bool-cases (refetches serverless previous next)) [
        | inl e ↦ rw (e, on) refl
        | inr e ↦
            let (same_fetch, same_bodies) = unchanged _ next.recorders.fetch _ e on in
            let was_on : r.fetch ≡ true = h.fetch ∙ eq_of_bool_eq _ _ same_fetch ∙ on in
            rw e (h.fetch_bodies was_on ∙ eq_of_bool_eq _ _ same_bodies)
      ]
    where
      unchanged :
          (a f b : Bool) → (not a || (f && not b)) ≡ false → f ≡ true → (a ≡ true) × (b ≡ true)
      unchanged a f b e on = ground arith
