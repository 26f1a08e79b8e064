-- ===== src/Provision/Control/Dataplane/Flushed.antt =====
-- That Provision::PpnDataplaneRequest of krypton/provision.cc leaves nothing posted beside the looper.
use vpn_libraries.Prelude.{Bool, true, false, Option, ◌&&◌, not, if◌then◌else◌, is_some}
use vpn_libraries.Prelude.Int.{ℤ}
use vpn_libraries.Prelude.Text.{Text}
use vpn_libraries.Utils.Status.{Status, StatusOr, value, error}
use vpn_libraries.Provision.EgressRequest.{SessionKeys, PpnDataplaneRequestParams}
use vpn_libraries.Provision.Control.{Provision, ProvisionEnv, fail_with_status, on_egress}
use vpn_libraries.Provision.Control.{notify}
use vpn_libraries.Prelude.{refl}
use vpn_libraries.Provision.Control.Told.{IsFlushed}
use vpn_libraries.Provision.Control.Dataplane.{
  is_ike, TokenFields, with_token, with_address, get_egress_node, token_fields, resolve,
  copper_hostname, ppn_dataplane_request,
}

module _ {C V B : Type 0} where
  if-IsFlushed :
      (c : Bool) (x y : Provision C V B)
      → IsFlushed x
      → IsFlushed y
      → IsFlushed (if c then x else y)
  if-IsFlushed true x y h k = h
  if-IsFlushed false x y h k = k

module _ {J C X V B : Type 0} (env : ProvisionEnv J C X V B) where
  node-IsFlushed :
      (now : ℤ) (params : PpnDataplaneRequestParams) (v : Provision C V B)
      → IsFlushed v
      → IsFlushed (get_egress_node env now params v)
  unfolding get_egress_node on_egress IsFlushed
  node-IsFlushed now params v h = (h.0, refl)

  fail-IsFlushed :
      (s : Status) (v : Provision C V B) → IsFlushed v → IsFlushed (fail_with_status s v)
  unfolding fail_with_status notify IsFlushed
  fail-IsFlushed s v h = h

  token-IsFlushed :
      (t : StatusOr TokenFields) (now : ℤ) (r : Bool) (k : Option SessionKeys) (v : Provision C V B)
      → IsFlushed v
      → IsFlushed (with_token env t now r k v)
  unfolding with_token
  token-IsFlushed (error s) now r k v h = fail-IsFlushed s v h
  token-IsFlushed (value t) now r k v h =
      if-IsFlushed (not (is_ike env.auth_env.config.datapath_protocol) && not (is_some k)) _ _
        (fail-IsFlushed _ v h) (node-IsFlushed now _ v h)

  address-IsFlushed :
      (d : StatusOr Text) (now : ℤ) (r : Bool) (k : Option SessionKeys) (v : Provision C V B)
      → IsFlushed v
      → IsFlushed (with_address env d now r k v)
  unfolding with_address fail_with_status notify IsFlushed
  address-IsFlushed (error s) now r k v h = fail-IsFlushed s v h
  address-IsFlushed (value a) now r k v h =
      token-IsFlushed (token_fields env v.auth) now r k (record v { control_plane_addr = a }) h

  pub ppn_dataplane_request-IsFlushed :
      (now : ℤ) (is_rekey : Bool) (k : Option SessionKeys) (v : Provision C V B)
      → IsFlushed v
      → IsFlushed (ppn_dataplane_request env now is_rekey k v)
  unfolding ppn_dataplane_request
  ppn_dataplane_request-IsFlushed now true k v h =
      address-IsFlushed (value v.control_plane_addr) now true k v h
  ppn_dataplane_request-IsFlushed now false k v h =
      address-IsFlushed
        (resolve env (copper_hostname env.auth_env.config v.auth.auth_and_sign_response)) now false
        k v h
