-- ===== src/Provision/Control/Steps/Stopped.antt =====
-- What the session still hears from krypton/provision.cc after Provision::Stop.
use vpn_libraries.Prelude.{ℕ, true, none, some, List, [], ◌∷◌}
use vpn_libraries.Provision.Auth.{Auth, Platform}
use vpn_libraries.Provision.Egress.{EgressManager}
use vpn_libraries.Provision.Control.{Provision, ProvisionEnv, on_auth, on_egress, run_looper}
use vpn_libraries.Provision.Auth as Authentication
use vpn_libraries.Provision.Egress
use vpn_libraries.Provision.Auth.Handlers
use vpn_libraries.Prelude.{
  append_nil, none, some, ◌≡◌, refl, ap, ◌∙◌, All, length, ◌+◌, ◌++◌, map, ◌≤◌, arith, suc,
  length-append,
}
use vpn_libraries.Provision.Auth.{new_auth, AuthNotification}
use vpn_libraries.Provision.Egress.{EgressNotification, new_egress_manager}
use vpn_libraries.Provision.Auth.Handlers.Answers.{pending, AtMost, run_callback-AtMost}
use vpn_libraries.Provision.Egress.Answers.{egress_run_stopped}
use vpn_libraries.Provision.Control.{new_provision, from_egress, from_auth, Closure}
use vpn_libraries.Provision.Control.Told.{
  IsFlushed, run_looper-IsFlushed, heard, Moves, run_looper-Moves,
}
use vpn_libraries.Provision.Control.Dataplane.Flushed.{ppn_dataplane_request-IsFlushed}
use vpn_libraries.Provision.Control.Steps.{
  fetch_auth, fetch_egress, Event, starts, rekeys, stops, sends, auth_requests, auth_answers,
  egress_requests, egress_answers, auth_runs, egress_runs, looper_runs, start, rekey, stop,
  send_add_egress, handle, run,
}

-- A step of a thread, and no call of the session.
abbrev IsStep : Event → Type 0
IsStep (starts p) = ⊥
IsStep (rekeys p) = ⊥
IsStep stops = ⊥
IsStep (sends now k key) = ⊥
IsStep auth_requests = Unit
IsStep (auth_answers r) = Unit
IsStep egress_requests = Unit
IsStep (egress_answers r) = Unit
IsStep (auth_runs p) = Unit
IsStep (egress_runs now) = Unit
IsStep looper_runs = Unit

none_from_auth :
    (cs : List Closure) (ns : List AuthNotification)
    → ns ≡ []
    → length (cs ++ map from_auth ns) ≡ length cs
none_from_auth cs ns e = ap (λ xs. length (cs ++ map from_auth xs)) e ∙ ap length (append_nil cs)

length-from_auth : (ns : List AuthNotification) → length (map from_auth ns) ≡ length ns
length-from_auth [] = refl
length-from_auth (n ∷ ns) = ap suc (length-from_auth ns)

none_from_egress :
    (cs : List Closure) (ns : List EgressNotification)
    → ns ≡ []
    → length (cs ++ map from_egress ns) ≡ length cs
none_from_egress cs ns e =
    ap (λ xs. length (cs ++ map from_egress xs)) e ∙ ap length (append_nil cs)

module _ {C V B : Type 0} where
  Stopped : Provision C V B → Type 0
  unfolding IsFlushed
  Stopped v = IsFlushed v × (v.auth.stopped ≡ true) × (v.egress_manager.stopped ≡ true)

  -- What the session was told, what waits to be told, and what Auth may still tell.
  abbrev limit : Provision C V B → ℕ
  limit v = heard v + pending v.auth.continuation

  -- A step after the stop.
  Quiet : Provision C V B → Provision C V B → Type 0
  unfolding Stopped
  Quiet v w = Stopped w × (limit w ≤ limit v)

  on_auth-Quiet :
      (f : Auth C V B → Auth C V B) (v : Provision C V B)
      → AtMost v.auth (f v.auth)
      → Stopped v
      → Quiet v (on_auth f v)
  unfolding Quiet Stopped IsFlushed on_auth
  on_auth-Quiet f v k h =
      let n = length-append v.looper (map from_auth (f v.auth).posted) in
      let m = length-from_auth (f v.auth).posted in
      let e = ap length h.0.0 in (((refl, h.0.1), k.1, h.2), omega (arith, n, m, e, k.0))

  on_egress-Quiet :
      (f : EgressManager → EgressManager) (v : Provision C V B)
      → ((f v.egress_manager).posted ≡ v.egress_manager.posted)
        × ((f v.egress_manager).stopped ≡ true)
      → Stopped v
      → Quiet v (on_egress f v)
  unfolding Quiet Stopped IsFlushed on_egress
  on_egress-Quiet f v k h = (
    ((h.0.0, refl), h.1, k.1),
    (let n = none_from_egress v.looper (f v.egress_manager).posted (k.0 ∙ h.0.1) in
        omega (arith, n)),
  )

  looper-Quiet : (v : Provision C V B) → Stopped v → Quiet v (run_looper v)
  unfolding Quiet Stopped IsFlushed Moves
  looper-Quiet v h =
      let m = run_looper-Moves v in
      (
        (
          (ap (λ a. a.posted) m.1 ∙ h.0.0, ap (λ e. e.posted) m.2 ∙ h.0.1),
          ap (λ a. a.stopped) m.1 ∙ h.1,
          ap (λ e. e.stopped) m.2 ∙ h.2,
        ),
        (let e = ap (λ a. pending a.continuation) m.1 in omega (arith, m.0, e)),
      )

module _ {J C X V B : Type 0} (env : ProvisionEnv J C X V B) where
  step-Quiet : (e : Event) (v : Provision C V B) → IsStep e → Stopped v → Quiet v (handle env e v)
  unfolding handle Stopped
  step-Quiet (starts p) v s h = absurd s
  step-Quiet (rekeys p) v s h = absurd s
  step-Quiet stops v s h = absurd s
  step-Quiet (sends now k key) v s h = absurd s
  step-Quiet auth_requests v s h = on_auth-Quiet (fetch_auth env none) v (omega arith, h.1) h
  step-Quiet (auth_answers r) v s h = on_auth-Quiet (fetch_auth env (some r)) v (omega arith, h.1) h
  step-Quiet egress_requests v s h = on_egress-Quiet (fetch_egress env none) v (refl, h.2) h
  step-Quiet (egress_answers r) v s h = on_egress-Quiet (fetch_egress env (some r)) v (refl, h.2) h
  step-Quiet (auth_runs p) v s h =
      on_auth-Quiet (Handlers.run_callback env.auth_env p) v
        (run_callback-AtMost env.auth_env p v.auth h.1) h
  step-Quiet (egress_runs now) v s h =
      on_egress-Quiet
        (Egress.run_callback env.auth_env.config env.auth_env.json env.parse_time
          env.auth_env.parse_details env.auth_env.rsa.base64_escape now)
        v
        (egress_run_stopped env.auth_env.config env.auth_env.json env.parse_time
          env.auth_env.parse_details env.auth_env.rsa.base64_escape now v.egress_manager h.2)
        h
  step-Quiet looper_runs v s h = looper-Quiet v h

  steps_heard :
      (es : List Event) (v : Provision C V B)
      → All IsStep es
      → Stopped v
      → limit (run env es v) ≤ limit v
  unfolding run Quiet
  steps_heard [] v s h = omega arith
  steps_heard (e ∷ es) v s h =
      let q = step-Quiet e v s.0 h in
      let r = steps_heard es (handle env e v) s.1 q.0 in omega (arith, q.1, r)

  handle-IsFlushed : (e : Event) (v : Provision C V B) → IsFlushed v → IsFlushed (handle env e v)
  unfolding handle start rekey stop send_add_egress on_auth on_egress IsFlushed
  handle-IsFlushed (starts p) v h = (refl, h.1)
  handle-IsFlushed (rekeys p) v h = (refl, h.1)
  handle-IsFlushed stops v h = (refl, refl)
  handle-IsFlushed (sends now k key) v h = ppn_dataplane_request-IsFlushed env now k key v h
  handle-IsFlushed auth_requests v h = (refl, h.1)
  handle-IsFlushed (auth_answers r) v h = (refl, h.1)
  handle-IsFlushed egress_requests v h = (h.0, refl)
  handle-IsFlushed (egress_answers r) v h = (h.0, refl)
  handle-IsFlushed (auth_runs p) v h = (refl, h.1)
  handle-IsFlushed (egress_runs now) v h = (h.0, refl)
  handle-IsFlushed looper_runs v h = run_looper-IsFlushed v h

  run-IsFlushed : (es : List Event) (v : Provision C V B) → IsFlushed v → IsFlushed (run env es v)
  unfolding run
  run-IsFlushed [] v h = h
  run-IsFlushed (e ∷ es) v h = run-IsFlushed es (handle env e v) (handle-IsFlushed e v h)

  stop-Stopped : (v : Provision C V B) → IsFlushed v → Quiet v (stop env v)
  unfolding stop Authentication.stop Egress.stop Quiet Stopped IsFlushed on_auth on_egress
  stop-Stopped v h =
      let a = none_from_auth v.looper v.auth.posted h.0 in
      let e =
        none_from_egress (v.looper ++ map from_auth v.auth.posted) v.egress_manager.posted h.1 in
      (((refl, refl), refl, refl), omega (arith, e ∙ a))

  -- After Stop, whatever the fetchers and the threads still do, the session hears of at most what was on
  -- the looper of Provision at that time, and of one notification more where the thread of Auth had
  -- checked for the stop before it and still had to ask for AuthAndSign behind the mutex.
  pub stop_adds_at_most_one :
      (es later : List Event) (random : List ℕ)
      → All IsStep later
      → let v = run env es (new_provision (new_auth random)) in
        let w = run env later (stop env v) in
        length w.posted + length w.looper
        ≤ length v.posted + length v.looper + pending v.auth.continuation
  unfolding Quiet IsFlushed new_provision new_auth new_egress_manager
  stop_adds_at_most_one es later random s =
      let v = run env es (new_provision (new_auth random)) in
      let q = stop-Stopped v (run-IsFlushed es (new_provision (new_auth random)) (refl, refl)) in
      let r = steps_heard later (stop env v) s q.0 in omega (arith, r, q.1)
