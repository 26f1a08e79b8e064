-- ===== src/Provision/Control/Told.antt =====
-- That each closure on the looper of krypton/provision.cc tells the session exactly one thing.
use vpn_libraries.Prelude.{ℕ, Bool, true, false, List, [], ◌∷◌}
use vpn_libraries.Provision.Control.{Provision, run_looper}
use vpn_libraries.Prelude.{◌≡◌, refl, ap, ◌∙◌, arith}
use vpn_libraries.Utils.Status.{Status, StatusOr, value, error}
use vpn_libraries.Provision.EgressResponse.{
  AddEgressResponse, DataplaneResponse, ppn_dataplane_response,
}
use vpn_libraries.Provision.Auth.{auth_successful, auth_failure}
use vpn_libraries.Provision.Egress.{
  egress_available, egress_unavailable, get_egress_session_details,
}
use vpn_libraries.Provision.Control.{
  notify, fail_with_status, handle_auth, handle_egress, run_closure, Closure, from_auth,
  from_egress, ProvisionNotification, provisioned, parse_control_plane_sockaddr, available_with,
  control_plane_from, run_from,
}
use vpn_libraries.Prelude.{ℕ, ◌+◌, length, length-append}

module _ {C V B : Type 0} where
  -- One notification more; authentication and egress stay.
  Told : Provision C V B → Provision C V B → Type 0
  Told v w =
      (length w.posted ≡ length v.posted + 1)
      × (w.looper ≡ v.looper)
      × (w.auth ≡ v.auth)
      × (w.egress_manager ≡ v.egress_manager)

  notify-Told : (n : ProvisionNotification) (v : Provision C V B) → Told v (notify n v)
  unfolding Told notify
  notify-Told n v = (length-append v.posted (n ∷ []), refl, refl, refl)

  fail-Told : (s : Status) (v : Provision C V B) → Told v (fail_with_status s v)
  unfolding fail_with_status
  fail-Told s v = notify-Told _ v

  control_plane_kept :
      (d : StatusOr DataplaneResponse) (v : Provision C V B)
      → ((control_plane_from d v).posted ≡ v.posted)
        × ((control_plane_from d v).looper ≡ v.looper)
        × ((control_plane_from d v).auth ≡ v.auth)
        × ((control_plane_from d v).egress_manager ≡ v.egress_manager)
  unfolding control_plane_from parse_control_plane_sockaddr
  control_plane_kept (error s) v = (refl, refl, refl, refl)
  control_plane_kept (value r) v = (ground arith, ground arith, ground arith, ground arith)

  available-Told :
      (d : StatusOr AddEgressResponse) (k : Bool) (v : Provision C V B)
      → Told v (available_with d k v)
  unfolding available_with Told
  available-Told (error s) k v = fail-Told s v
  available-Told (value r) true v = notify-Told _ v
  available-Told (value r) false v =
      let k = control_plane_kept (ppn_dataplane_response r) v in
      let t = notify-Told (provisioned r false) (control_plane_from (ppn_dataplane_response r) v) in
      (t.0 ∙ ap (λ ns. length ns + 1) k.0, t.1 ∙ k.1, t.2 ∙ k.2, t.3 ∙ k.3)

  closure-Told : (c : Closure) (v : Provision C V B) → Told v (run_closure c v)
  unfolding run_closure handle_auth handle_egress
  closure-Told (from_auth (auth_successful k)) v = notify-Told _ v
  closure-Told (from_auth (auth_failure s)) v = fail-Told s v
  closure-Told (from_egress (egress_available k)) v =
      available-Told (get_egress_session_details v.egress_manager) k v
  closure-Told (from_egress (egress_unavailable s)) v = fail-Told s v

  abbrev pub heard : Provision C V B → ℕ
  heard v = length v.posted + length v.looper

  -- Between two steps what Auth and EgressManager posted is on the looper.
  unfoldable pub IsFlushed : Provision C V B → Type 0
  IsFlushed v = (v.auth.posted ≡ []) × (v.egress_manager.posted ≡ [])

  -- A step of the looper only moves what waits there to the session.
  unfoldable pub Moves : Provision C V B → Provision C V B → Type 0
  Moves v w = (heard w ≡ heard v) × (w.auth ≡ v.auth) × (w.egress_manager ≡ v.egress_manager)

  run_from-Moves :
      (cs : List Closure) (v : Provision C V B) → v.looper ≡ cs → Moves v (run_from cs v)
  unfolding run_from Moves Told
  run_from-Moves [] v e = (refl, refl, refl)
  run_from-Moves (c ∷ cs) v e =
      let t = closure-Told c (record v { looper = cs }) in
      let l : length v.looper ≡ length cs + 1 = ap length e ∙ omega arith in
      let m : length (run_closure c (record v { looper = cs })).looper ≡ length cs =
        ap length t.1 in
      (omega (arith, t.0, l, m), t.2, t.3)

  pub run_looper-Moves : (v : Provision C V B) → Moves v (run_looper v)
  unfolding run_looper
  run_looper-Moves v = run_from-Moves v.looper v refl

  pub run_looper-IsFlushed : (v : Provision C V B) → IsFlushed v → IsFlushed (run_looper v)
  unfolding IsFlushed Moves
  run_looper-IsFlushed v h =
      let m = run_looper-Moves v in (ap (λ a. a.posted) m.1 ∙ h.0, ap (λ e. e.posted) m.2 ∙ h.1)
