-- ===== src/Session/Control.antt =====
-- Starting, stopping and rekeying in krypton/session.cc, and what the provisioning calls back.
pub mod KillSwitch
pub mod NullSafety
pub mod Stopped
pub mod Rekeying
use vpn_libraries.Prelude.{
  ℕ, ◌+◌, ◌≡◌, Bool, true, false, Option, none, some, List, [], ◌∷◌, not, if◌then◌else◌,
}
use vpn_libraries.Prelude.Text.{Text}
use vpn_libraries.Utils.Status.{
  Status, StatusOr, value, error, ok_status, error_status, is_ok, failed_precondition,
  invalid_argument, internal,
}
use vpn_libraries.Tunnel.{datapath_stopped}
use vpn_libraries.Runtime.{SessionNotification}
use vpn_libraries.Session.Model.{State, Session, World, Env, PpnDataplaneResponse, Protocol, ike}
use vpn_libraries.Session.Parts.{
  with_session, with_tunnel, notify, set_state, start_rekey_timer, cancel_rekey_timer_if_running,
  cancel_datapath_reattempt_timer_if_running, cancel_datapath_connecting_timer_if_running,
  is_connected_state,
}
use vpn_libraries.Session.Tunnels.{
  update_tunnel_if_needed, reset_all_datapath_reattempts, start_datapath,
}

abbrev is_ike : Protocol → Bool
is_ike ike = true
is_ike _ = false

module _ {D P K T R : Type 0} (env : Env D P K T R) where
  abbrev on_provision : (P → P) → World D P K R → World D P K R
  on_provision f w = with_session w (λ s. record s { provision = f s.provision })

  unfoldable pub start : World D P K R → World D P K R
  start w = on_provision env.provision_start (notify SessionNotification.control_plane_connecting w)

  -- The datapath is stopped and dropped.
  -- A datapath is stopped before it is released.
  abbrev pub released : Option D → List D → List D
  released none ds = ds
  released (some d) ds = env.datapath_stop d ∷ ds

  unfoldable pub stop : Bool → World D P K R → World D P K R
  stop force_fail_open w =
      let w1 =
        cancel_datapath_connecting_timer_if_running
          (cancel_datapath_reattempt_timer_if_running (cancel_rekey_timer_if_running w)) in
      let w2 = with_session (on_provision env.provision_stop w1) (λ s. record s {
        datapath = none;
        released_datapaths = released s.datapath s.released_datapaths;
      }) in
      set_state env State.stopped ok_status
        (with_tunnel w2 (datapath_stopped w2.shared.tunnel force_fail_open))

  unfoldable pub force_tunnel_update : World D P K R → World D P K R
  force_tunnel_update w = update_tunnel_if_needed env true w

  -- The provisioning is told to rekey even where the session is in error.
  unfoldable pub rekey : World D P K R → World D P K R
  rekey w =
      let w1 =
        if not (is_connected_state w.session.state)
        then set_state env State.session_error
            (error_status failed_precondition "Session is not in connected state for rekey") w
        else w in
      on_provision env.provision_rekey w1

  rekeyed_with : World D P K R → D × Status → World D P K R
  rekeyed_with w (d, status) =
      let w1 = with_session w (λ s. record s { datapath = some d }) in
      if not (is_ok status)
      then set_state env State.session_error status w1
      else with_session w1 (λ s. record s { number_of_rekeys = s.number_of_rekeys + 1 })

  set_keys : Option D → StatusOr T → World D P K R → World D P K R
  unfolding rekeyed_with
  set_keys d (error s) w = set_state env State.session_error s w
  set_keys none (value t) w = with_session w (λ s. record s { faulted = true })
  set_keys (some d) (value t) w = rekeyed_with w (env.set_key_materials t d)

  rekey_with : Option K → World D P K R → World D P K R
  unfolding set_keys
  rekey_with none w = with_session w (λ s. record s { faulted = true })
  rekey_with (some k) w = set_keys w.session.datapath (env.get_transform_params k) w

  unfoldable pub rekey_datapath : World D P K R → World D P K R
  unfolding rekey_with
  rekey_datapath w = rekey_with w.session.key_material w

  -- The members of the response that must not be empty.
  remote_values : Text → Text → K → World D P K R → World D P K R × Status
  remote_values [] nonce k w =
      (w, error_status invalid_argument "missing egress_point_public_value")
  remote_values (c ∷ cs) [] k w = (w, error_status invalid_argument "missing server_nonce")
  remote_values (c ∷ cs) (n ∷ ns) k w =
      let (k', status) = env.set_remote_key_material (c ∷ cs) (n ∷ ns) k in
      (with_session w (λ s. record s { key_material = some k' }), status)

  remote_response : StatusOr PpnDataplaneResponse → K → World D P K R → World D P K R × Status
  unfolding remote_values
  remote_response (error s) k w = (w, s)
  remote_response (value r) k w = remote_values r.egress_point_public_value r.server_nonce k w

  remote_key : Option K → R → World D P K R → World D P K R × Status
  unfolding remote_response
  remote_key none r w = (w, error_status failed_precondition "key_material_ is null")
  remote_key (some k) r w = remote_response (env.ppn_dataplane_response r) k w

  unfoldable pub set_remote_key_material : R → World D P K R → World D P K R × Status
  unfolding remote_key
  set_remote_key_material r w =
      let other = remote_key w.session.key_material r w in
      if is_ike env.datapath_protocol then (w, ok_status) else other

  abbrev control_plane_failed : Status → World D P K R → World D P K R
  control_plane_failed status w =
      set_state env State.session_error status (notify SessionNotification.control_plane_failure w)

  send_with : Bool → K → World D P K R → World D P K R
  send_with is_rekey k w = with_session w (λ s. record s {
    key_material = some k;
    provision = env.send_add_egress is_rekey k s.provision;
  })

  signed_with : StatusOr Text → K → World D P K R → World D P K R
  unfolding send_with
  signed_with (error s) k w = control_plane_failed s w
  signed_with (value signature) k w = send_with true (env.set_signature signature k) w

  rekey_from : Option K → K → World D P K R → World D P K R
  unfolding signed_with
  rekey_from none k w =
      control_plane_failed (error_status failed_precondition "key_material_ is null") w
  rekey_from (some old) k w = signed_with (env.generate_signature old (env.public_value k)) k w

  ready_with : Bool → StatusOr K → World D P K R → World D P K R
  unfolding send_with rekey_from
  ready_with is_rekey (error s) w = control_plane_failed s w
  ready_with false (value k) w = send_with false k w
  ready_with true (value k) w =
      let rekeyed = rekey_from w.session.key_material k w in
      if is_ike env.datapath_protocol
      then control_plane_failed (error_status internal "Attempted rekey with IKE.") w
      else rekeyed

  -- `random` is what creating the key material draws on.
  unfoldable pub ready_for_add_egress : ℕ → Bool → World D P K R → World D P K R
  unfolding ready_with
  ready_for_add_egress random is_rekey w = ready_with is_rekey (env.create_key_material random) w

  -- The start of a session, or the next keys of a running one.
  provisioned_for : Bool → PpnDataplaneResponse → World D P K R → World D P K R
  provisioned_for true r w = start_rekey_timer env (rekey_datapath w)
  provisioned_for false r w =
      let w1 = with_session w (λ s. record s {
        egress_node_sock_addresses = r.egress_point_sock_addr;
        user_private_ip = r.user_private_ip;
      }) in
      start_datapath env (
        reset_all_datapath_reattempts env (set_state env State.egress_session_created ok_status w1))

  provisioned_on : Option D → Bool → PpnDataplaneResponse → World D P K R → World D P K R
  unfolding provisioned_for
  provisioned_on none is_rekey r w =
      set_state env State.session_error (error_status internal "datapath_ == nullptr") w
  provisioned_on (some d) is_rekey r w = provisioned_for is_rekey r w

  provisioned_keyed : Bool → PpnDataplaneResponse → World D P K R × Status → World D P K R
  unfolding provisioned_on
  provisioned_keyed is_rekey r (w, status) =
      let w1 = with_session w (λ s. record s { uplink_spi = r.uplink_spi }) in
      let rest = provisioned_on w1.session.datapath is_rekey r w1 in
      if not (is_ok status) then set_state env State.session_error status w else rest

  provisioned_with : R → Bool → StatusOr PpnDataplaneResponse → World D P K R → World D P K R
  unfolding provisioned_keyed
  provisioned_with response is_rekey (error s) w = set_state env State.session_error s w
  provisioned_with response is_rekey (value r) w =
      provisioned_keyed is_rekey r (set_remote_key_material response w)

  unfoldable pub provisioned : R → Bool → World D P K R → World D P K R
  unfolding provisioned_with
  provisioned response is_rekey w =
      provisioned_with response is_rekey (env.ppn_dataplane_response response)
        (with_session w (λ s. record s { add_egress_response = some response }))

  unfoldable pub provisioning_failure : Status → Bool → World D P K R → World D P K R
  provisioning_failure status permanent w =
      let w1 = notify SessionNotification.control_plane_failure w in
      if permanent
      then set_state env State.permanent_error status w1
      else set_state env State.session_error status w1
