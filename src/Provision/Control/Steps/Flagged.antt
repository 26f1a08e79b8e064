-- ===== src/Provision/Control/Steps/Flagged.antt =====
-- What the session hears of a failure from krypton/provision.cc, and what a rekey leaves as it is.
use vpn_libraries.Prelude.{true, Option, List, [], ◌∷◌}
use vpn_libraries.Prelude.Int.{ℤ}
use vpn_libraries.Provision.EgressRequest.{SessionKeys}
use vpn_libraries.Provision.Auth.{Auth}
use vpn_libraries.Provision.Control.{Provision, ProvisionEnv, on_auth, on_egress}
use vpn_libraries.Prelude.{◌≡◌, All}
use vpn_libraries.Provision.Egress.{egress_available}
use vpn_libraries.Provision.Control.{new_provision, run_closure, from_egress}
use vpn_libraries.Provision.Control.Flagged.{
  IsFlagged, Flagged, run_looper-Flagged, available_rekey_address,
}
use vpn_libraries.Provision.Control.Dataplane.Flagged.{ppn_dataplane_request-Flagged}
use vpn_libraries.Provision.Control.Dataplane.Answers.{ppn_dataplane_request_address}
use vpn_libraries.Provision.Control.Steps.{
  Event, starts, rekeys, stops, sends, auth_requests, auth_answers, egress_requests, egress_answers,
  auth_runs, egress_runs, looper_runs, start, rekey, stop, send_add_egress, handle, run,
}

module _ {J C X V B : Type 0} (env : ProvisionEnv J C X V B) where
  handle-Flagged : (e : Event) (v : Provision C V B) → Flagged v → Flagged (handle env e v)
  unfolding handle start rekey stop send_add_egress on_auth on_egress Flagged
  handle-Flagged (starts p) v h = h
  handle-Flagged (rekeys p) v h = h
  handle-Flagged stops v h = h
  handle-Flagged (sends now k key) v h = ppn_dataplane_request-Flagged env now k key v h
  handle-Flagged auth_requests v h = h
  handle-Flagged (auth_answers r) v h = h
  handle-Flagged egress_requests v h = h
  handle-Flagged (egress_answers r) v h = h
  handle-Flagged (auth_runs p) v h = h
  handle-Flagged (egress_runs now) v h = h
  handle-Flagged looper_runs v h = run_looper-Flagged v h

  run_from-Flagged : (es : List Event) (v : Provision C V B) → Flagged v → Flagged (run env es v)
  unfolding run
  run_from-Flagged [] v h = h
  run_from-Flagged (e ∷ es) v h = run_from-Flagged es (handle env e v) (handle-Flagged e v h)

  -- In every history of a new provisioning, whatever is called, answered and run in whatever order, each
  -- failure that the session is told is called permanent exactly where its status is permanent.
  pub run-IsFlagged :
      (es : List Event) (auth : Auth C V B) → All IsFlagged (run env es (new_provision auth)).posted
  unfolding new_provision Flagged
  run-IsFlagged es auth = run_from-Flagged es (new_provision auth) tt

  -- A rekey keeps the control plane address: the request for its egress session, and the answer to it.
  pub rekey_keeps_control_plane_addr :
      (now : ℤ) (k : Option SessionKeys) (v : Provision C V B)
      → ((send_add_egress env now true k v).control_plane_addr ≡ v.control_plane_addr)
        × ((run_closure (from_egress (egress_available true)) v).control_plane_addr
            ≡ v.control_plane_addr)
  unfolding send_add_egress
  rekey_keeps_control_plane_addr now k v =
      (ppn_dataplane_request_address env now k v, available_rekey_address v)
