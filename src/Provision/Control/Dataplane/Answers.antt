-- ===== src/Provision/Control/Dataplane/Answers.antt =====
-- What a request for an egress session in krypton/provision.cc comes to.
use vpn_libraries.Prelude.{Bool, true, false, Option, [], ◌∷◌, ◌&&◌, not, if◌then◌else◌, is_some}
use vpn_libraries.Prelude.Int.{ℤ}
use vpn_libraries.Prelude.Text.{Text}
use vpn_libraries.Utils.Status.{Status, StatusOr, value, error}
use vpn_libraries.Provision.EgressRequest.{SessionKeys, PpnDataplaneRequestParams}
use vpn_libraries.Provision.Control.{Provision, ProvisionEnv, fail_with_status, on_egress}
use vpn_libraries.Prelude.{◌≡◌, refl, ◌⊎◌, inl, inr, ◌+◌, ◌++◌, length}
use vpn_libraries.Utils.Status.{is_permanent_error}
use vpn_libraries.Provision.Control.{notify, provisioning_failure}
use vpn_libraries.Provision.Egress.Answers.{request_outcomes}
use vpn_libraries.Provision.Control.Dataplane.{
  is_ike, TokenFields, with_token, with_address, get_egress_node, token_fields, resolve,
  copper_hostname, ppn_dataplane_request,
}

module _ {C V B : Type 0} where
  -- The session is told of one failure, called permanent exactly where its status is, and nothing is
  -- asked.
  abbrev pub Fails : Provision C V B → Provision C V B → Type 0
  Fails v w =
      (s : Status) × ((w.posted ≡ v.posted ++ provisioning_failure s (is_permanent_error s) ∷ [])
        × (w.egress_manager.http_fetcher ≡ v.egress_manager.http_fetcher))

  -- The egress server is asked once, and the session is told nothing.
  abbrev pub Asks : Provision C V B → Provision C V B → Type 0
  Asks v w =
      (w.posted ≡ v.posted)
      × (length w.egress_manager.http_fetcher.infos
          ≡ length v.egress_manager.http_fetcher.infos + 1)

  -- One of the two, with this control plane address.
  Answered : Provision C V B → Text → Provision C V B → Type 0
  Answered v address w = (Fails v w ⊎ Asks v w) × (w.control_plane_addr ≡ address)

  fail-Answered :
      (s : Status) (v : Provision C V B) → Answered v v.control_plane_addr (fail_with_status s v)
  unfolding Answered fail_with_status notify
  fail-Answered s v = (inl (s, (refl, refl)), refl)

  if-Answered :
      (v : Provision C V B) (a : Text) (c : Bool) (x y : Provision C V B)
      → Answered v a x
      → Answered v a y
      → Answered v a (if c then x else y)
  if-Answered v a true x y h k = h
  if-Answered v a false x y h k = k

  -- Another address changes nothing of it.
  addressed-Answered :
      (b a : Text) (v w : Provision C V B)
      → Answered (record v { control_plane_addr = b }) a w
      → Answered v a w
  unfolding Answered
  addressed-Answered b a v w h = h

module _ {J C X V B : Type 0} (env : ProvisionEnv J C X V B) where
  node-Answered :
      (now : ℤ) (params : PpnDataplaneRequestParams) (v : Provision C V B)
      → Answered v v.control_plane_addr (get_egress_node env now params v)
  unfolding Answered get_egress_node on_egress
  node-Answered now params v =
      let a = env.auth_env in
      let r =
        request_outcomes a.config a.json env.parse_time a.parse_details a.rsa.base64_escape now
          params v.egress_manager in
      (inr (refl, r.1), refl)

  token-Answered :
      (t : StatusOr TokenFields) (now : ℤ) (r : Bool) (k : Option SessionKeys) (v : Provision C V B)
      → Answered v v.control_plane_addr (with_token env t now r k v)
  unfolding with_token
  token-Answered (error s) now r k v = fail-Answered s v
  token-Answered (value t) now r k v =
      if-Answered v v.control_plane_addr
        (not (is_ike env.auth_env.config.datapath_protocol) && not (is_some k)) _ _
        (fail-Answered _ v) (node-Answered now _ v)

  abbrev address_after : StatusOr Text → Text → Text
  address_after (error s) old = old
  address_after (value a) old = a

  address-Answered :
      (d : StatusOr Text) (now : ℤ) (r : Bool) (k : Option SessionKeys) (v : Provision C V B)
      → Answered v (address_after d v.control_plane_addr) (with_address env d now r k v)
  unfolding with_address
  address-Answered (error s) now r k v = fail-Answered s v
  address-Answered (value a) now r k v =
      addressed-Answered a a v _
        (token-Answered (token_fields env v.auth) now r k (record v { control_plane_addr = a }))

  -- A request for an egress session, whatever the authentication left and whatever the libraries answer,
  -- ends in exactly one of the two: the session is told of one failure, permanent exactly where its
  -- status is, and nothing is asked; or the server is asked once, and the session is told nothing.
  pub ppn_dataplane_request_answers :
      (now : ℤ) (is_rekey : Bool) (k : Option SessionKeys) (v : Provision C V B)
      → let w = ppn_dataplane_request env now is_rekey k v in Fails v w ⊎ Asks v w
  unfolding ppn_dataplane_request Answered
  ppn_dataplane_request_answers now true k v =
      (address-Answered (value v.control_plane_addr) now true k v).0
  ppn_dataplane_request_answers now false k v =
      (address-Answered
        (resolve env (copper_hostname env.auth_env.config v.auth.auth_and_sign_response)) now false
        k v).0

  pub ppn_dataplane_request_address :
      (now : ℤ) (k : Option SessionKeys) (v : Provision C V B)
      → (ppn_dataplane_request env now true k v).control_plane_addr ≡ v.control_plane_addr
  unfolding ppn_dataplane_request Answered
  ppn_dataplane_request_address now k v =
      (address-Answered (value v.control_plane_addr) now true k v).1
