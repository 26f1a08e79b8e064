-- ===== src/Provision/Control/Flagged.antt =====
-- That krypton/provision.cc calls a failure permanent exactly where its status is.
use vpn_libraries.Prelude.{Bool, true, false, List, [], ◌∷◌}
use vpn_libraries.Provision.Control.{Provision, run_looper}
use vpn_libraries.Prelude.{◌≡◌, refl, sym, subst, arith, ◌++◌, All}
use vpn_libraries.Utils.Status.{Status, StatusOr, value, error, is_permanent_error}
use vpn_libraries.Provision.EgressResponse.{
  AddEgressResponse, DataplaneResponse, ppn_dataplane_response,
}
use vpn_libraries.Provision.Auth.{auth_successful, auth_failure}
use vpn_libraries.Provision.Egress.{
  egress_available, egress_unavailable, get_egress_session_details,
}
use vpn_libraries.Provision.Control.{
  notify, fail_with_status, handle_auth, handle_egress, run_closure, Closure, from_auth,
  from_egress, ProvisionNotification, ready_for_add_egress, provisioned, provisioning_failure,
  parse_control_plane_sockaddr, available_with, control_plane_from, run_from,
}

-- A failure is called permanent exactly where its status is.
abbrev pub IsFlagged : ProvisionNotification → Type 0
IsFlagged (ready_for_add_egress is_rekey) = Unit
IsFlagged (provisioned r is_rekey) = Unit
IsFlagged (provisioning_failure s permanent) = permanent ≡ is_permanent_error s

All-append {ℓ κ} :
    {A : Type ℓ} (P : A → Type κ) (xs : List A) (x : A) → All P xs → P x → All P (xs ++ x ∷ [])
All-append P [] x h p = (p, tt)
All-append P (y ∷ xs) x h p = (h.0, All-append P xs x h.1 p)

module _ {C V B : Type 0} where
  unfoldable pub Flagged : Provision C V B → Type 0
  Flagged v = All IsFlagged v.posted

  pub fail-Flagged : (s : Status) (v : Provision C V B) → Flagged v → Flagged (fail_with_status s v)
  unfolding Flagged fail_with_status notify
  fail-Flagged s v h = All-append IsFlagged v.posted _ h refl

  control_plane_posted :
      (d : StatusOr DataplaneResponse) (v : Provision C V B)
      → (control_plane_from d v).posted ≡ v.posted
  unfolding control_plane_from parse_control_plane_sockaddr
  control_plane_posted (error s) v = refl
  control_plane_posted (value r) v = ground arith

  available-Flagged :
      (d : StatusOr AddEgressResponse) (k : Bool) (v : Provision C V B)
      → Flagged v
      → Flagged (available_with d k v)
  unfolding available_with Flagged notify
  available-Flagged (error s) k v h = fail-Flagged s v h
  available-Flagged (value r) true v h = All-append IsFlagged v.posted _ h tt
  available-Flagged (value r) false v h =
      All-append IsFlagged _ _
        (subst (λ ns. All IsFlagged ns) (sym (control_plane_posted (ppn_dataplane_response r) v)) h)
        tt

  closure-Flagged : (c : Closure) (v : Provision C V B) → Flagged v → Flagged (run_closure c v)
  unfolding run_closure handle_auth handle_egress Flagged notify
  closure-Flagged (from_auth (auth_successful k)) v h = All-append IsFlagged v.posted _ h tt
  closure-Flagged (from_auth (auth_failure s)) v h = fail-Flagged s v h
  closure-Flagged (from_egress (egress_available k)) v h =
      available-Flagged (get_egress_session_details v.egress_manager) k v h
  closure-Flagged (from_egress (egress_unavailable s)) v h = fail-Flagged s v h

  run_from-Flagged : (cs : List Closure) (v : Provision C V B) → Flagged v → Flagged (run_from cs v)
  unfolding run_from Flagged
  run_from-Flagged [] v h = h
  run_from-Flagged (c ∷ cs) v h = closure-Flagged c (record v { looper = cs }) h

  pub run_looper-Flagged : (v : Provision C V B) → Flagged v → Flagged (run_looper v)
  unfolding run_looper
  run_looper-Flagged v h = run_from-Flagged v.looper v h

  available_with_address :
      (d : StatusOr AddEgressResponse) (v : Provision C V B)
      → (available_with d true v).control_plane_addr ≡ v.control_plane_addr
  unfolding available_with fail_with_status notify
  available_with_address (error s) v = refl
  available_with_address (value r) v = refl

  pub available_rekey_address :
      (v : Provision C V B)
      → (run_closure (from_egress (egress_available true)) v).control_plane_addr
        ≡ v.control_plane_addr
  unfolding run_closure handle_egress
  available_rekey_address v = available_with_address (get_egress_session_details v.egress_manager) v
