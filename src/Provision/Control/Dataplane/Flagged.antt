-- ===== src/Provision/Control/Dataplane/Flagged.antt =====
-- That Provision::PpnDataplaneRequest of krypton/provision.cc flags the failures that it tells.
use vpn_libraries.Prelude.{Bool, true, false, Option, ◌&&◌, not, if◌then◌else◌, is_some}
use vpn_libraries.Prelude.Int.{ℤ}
use vpn_libraries.Prelude.Text.{Text}
use vpn_libraries.Utils.Status.{StatusOr, value, error}
use vpn_libraries.Provision.EgressRequest.{SessionKeys}
use vpn_libraries.Provision.Control.{Provision, ProvisionEnv, on_egress}
use vpn_libraries.Provision.Control.Flagged.{Flagged, fail-Flagged}
use vpn_libraries.Provision.Control.Dataplane.{
  is_ike, TokenFields, with_token, with_address, get_egress_node, token_fields, resolve,
  copper_hostname, ppn_dataplane_request,
}

module _ {C V B : Type 0} where
  if-Flagged :
      (c : Bool) (x y : Provision C V B) → Flagged x → Flagged y → Flagged (if c then x else y)
  if-Flagged true x y h k = h
  if-Flagged false x y h k = k

module _ {J C X V B : Type 0} (env : ProvisionEnv J C X V B) where
  token-Flagged :
      (t : StatusOr TokenFields) (now : ℤ) (r : Bool) (k : Option SessionKeys) (v : Provision C V B)
      → Flagged v
      → Flagged (with_token env t now r k v)
  unfolding with_token get_egress_node on_egress Flagged
  token-Flagged (error s) now r k v h = fail-Flagged s v h
  token-Flagged (value t) now r k v h =
      if-Flagged (not (is_ike env.auth_env.config.datapath_protocol) && not (is_some k)) _ _
        (fail-Flagged _ v h) h

  address-Flagged :
      (d : StatusOr Text) (now : ℤ) (r : Bool) (k : Option SessionKeys) (v : Provision C V B)
      → Flagged v
      → Flagged (with_address env d now r k v)
  unfolding with_address Flagged
  address-Flagged (error s) now r k v h = fail-Flagged s v h
  address-Flagged (value a) now r k v h =
      token-Flagged (token_fields env v.auth) now r k (record v { control_plane_addr = a }) h

  pub ppn_dataplane_request-Flagged :
      (now : ℤ) (is_rekey : Bool) (k : Option SessionKeys) (v : Provision C V B)
      → Flagged v
      → Flagged (ppn_dataplane_request env now is_rekey k v)
  unfolding ppn_dataplane_request
  ppn_dataplane_request-Flagged now true k v h =
      address-Flagged (value v.control_plane_addr) now true k v h
  ppn_dataplane_request-Flagged now false k v h =
      address-Flagged
        (resolve env (copper_hostname env.auth_env.config v.auth.auth_and_sign_response)) now false
        k v h
