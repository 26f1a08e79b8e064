-- ===== src/Session/Tunnels.antt =====
-- The tunnel and the datapath of krypton/session.cc.
pub mod KillSwitch
pub mod NullSafety
use vpn_libraries.Prelude.{
  ℕ, ◌+◌, ◌≡◌, Bool, true, false, Option, none, some, List, [], ◌∷◌, ◌++◌, not, ◌==◌, if◌then◌else◌,
  String,
}
use vpn_libraries.Prelude.Int.{ℤ, pos}
use vpn_libraries.Prelude.Text.{Text, codes}
use vpn_libraries.Utils.Status.{
  Status, StatusOr, value, error, ok_status, error_status, is_ok, is_permanent_error,
  failed_precondition, invalid_argument,
}
use vpn_libraries.Utils.ProtoComparison.{TunFdData, IpRange, ipv4, ipv6}
use vpn_libraries.Utils.IpRange
use vpn_libraries.Utils.IpRange.{NetLibrary, Family, af_inet, af_inet6, parse}
use vpn_libraries.Tunnel
use vpn_libraries.Tunnel.{is_tunnel_active, datapath_started, datapath_stopped}
use vpn_libraries.Runtime.{NetworkInfo, SessionNotification}
use vpn_libraries.Selector.{Endpoint, select_datapath_address, reset}
use vpn_libraries.Session.Model.{
  State, Session, World, Env, PrivateIp, ipv4_range, ipv6_range, range_not_set,
  PpnDataplaneResponse,
}
use vpn_libraries.Session.TunFdData.{build_tun_fd_data}
use vpn_libraries.Session.Parts.{
  no_network_info, with_session, with_timers, with_tunnel, notify, set_state,
  notify_datapath_disconnected, start_datapath_connecting_timer,
  cancel_datapath_reattempt_timer_if_running, is_tunnel_creation_error_permanent,
}

module _ {D P K T R : Type 0} (env : Env D P K T R) where
  create_with : Bool → StatusOr TunFdData → World D P K R → World D P K R × Status
  create_with force (error s) w = (set_state env State.session_error s w, s)
  create_with force (value d) w =
      let (tunnel, status) = Tunnel.create_tunnel env.vpn_service w.shared.tunnel d force in
      (with_tunnel w tunnel, status)

  unfoldable pub create_tunnel : Bool → World D P K R → World D P K R × Status
  unfolding create_with
  create_tunnel force w = create_with force (build_tun_fd_data env w.session) w

  -- Where a tunnel could not be had.
  unfoldable pub tunnel_failed : Status → World D P K R → World D P K R
  tunnel_failed status w =
      if is_tunnel_creation_error_permanent status
      then set_state env State.permanent_error status w
      else notify_datapath_disconnected env no_network_info status w

  -- A call of the datapath; there is none once the session was stopped.
  abbrev pub on_datapath : (D → D) → World D P K R → World D P K R
  on_datapath f w = elim w.session.datapath [
    | none ↦ with_session w (λ s. record s { faulted = true })
    | some d ↦ with_session w (λ s. record s { datapath = some (f d) })
  ]

  unfoldable pub update_tunnel_if_needed : Bool → World D P K R → World D P K R
  unfolding create_tunnel tunnel_failed
  update_tunnel_if_needed force w =
      let (w1, status) = create_tunnel force (on_datapath env.prepare_for_tunnel_switch w) in
      if not (is_tunnel_active w.shared.tunnel)
      then w
      else if not (is_ok status)
      then tunnel_failed status (on_datapath env.datapath_stop w1)
      else on_datapath env.switch_tunnel w1

  unfoldable pub create_tunnel_if_needed : World D P K R → World D P K R × Status
  unfolding create_tunnel
  create_tunnel_if_needed w =
      if is_tunnel_active w.shared.tunnel then (w, ok_status) else create_tunnel false w

  -- datapath_->SwitchNetwork, with the next number.
  switch_with : Endpoint → NetworkInfo → Option D → World D P K R → World D P K R × Status
  switch_with ip network none w = (with_session w (λ s. record s { faulted = true }), ok_status)
  switch_with ip network (some d) w =
      let n = w.session.datapath_switch_network_counter + 1 in
      let (d', status) = env.switch_network w.session.uplink_spi ip network n d in
      (
        with_session w (λ s. record s { datapath = some d'; datapath_switch_network_counter = n }),
        status,
      )

  after_switch : NetworkInfo → World D P K R × Status → World D P K R × Status
  after_switch network (w, status) =
      (if not (is_ok status) then notify_datapath_disconnected env network status w else w, status)

  switch_to : NetworkInfo → World D P K R → StatusOr Endpoint → World D P K R × Status
  unfolding switch_with after_switch
  switch_to network w (error s) = (notify_datapath_disconnected env no_network_info s w, s)
  switch_to network w (value ip) =
      let w1 =
        if w.session.datapath_connecting_timer_enabled
        then start_datapath_connecting_timer env w
        else w in
      after_switch network (switch_with ip network w1.session.datapath w1)

  with_tunnel_status : NetworkInfo → World D P K R × Status → World D P K R × Status
  unfolding switch_to tunnel_failed
  with_tunnel_status network (w, status) =
      let (selector, ip) =
        select_datapath_address env.net_library w.session.datapath_address_selector in
      let switched =
        switch_to network (with_session w (λ s. record s { datapath_address_selector = selector }))
          ip in
      if not (is_ok status) then (tunnel_failed status w, status) else switched

  unfoldable pub connect_datapath : NetworkInfo → World D P K R → World D P K R × Status
  unfolding create_tunnel_if_needed with_tunnel_status
  connect_datapath network w =
      with_tunnel_status network
        (create_tunnel_if_needed (notify SessionNotification.datapath_connecting w))

  unfoldable pub reset_all_datapath_reattempts : World D P K R → World D P K R
  reset_all_datapath_reattempts w =
      with_session (cancel_datapath_reattempt_timer_if_running w) (λ s. record s {
        datapath_reattempt_count = 0;
        datapath_address_selector =
            reset env.net_library env.selector_config s.egress_node_sock_addresses
              s.active_network_info;
      })

  -- After the datapath was prepared and, perhaps, started.
  connect_if_network : Option NetworkInfo → World D P K R → World D P K R
  unfolding connect_datapath
  connect_if_network none w = w
  connect_if_network (some network) w = (connect_datapath network w).0

  datapath_started_with : World D P K R → D × Status → World D P K R
  unfolding connect_if_network
  datapath_started_with w (d, status) =
      let started = with_session w (λ s. record s { datapath = some d }) in
      let failed = with_tunnel started (datapath_stopped started.shared.tunnel false) in
      let connected = set_state env State.control_plane_connected ok_status started in
      if is_ok status
      then connect_if_network connected.session.active_network_info connected
      else if is_permanent_error status
      then set_state env State.permanent_error status failed
      else set_state env State.session_error status failed

  start_with : Option D → R → StatusOr T → World D P K R → World D P K R
  unfolding datapath_started_with
  start_with d r (error s) w = set_state env State.session_error s w
  start_with none r (value t) w = with_session w (λ s. record s { faulted = true })
  start_with (some d) r (value t) w =
      datapath_started_with (with_tunnel w (datapath_started w.shared.tunnel))
        (env.datapath_start r t d)

  start_with_key : Option K → R → World D P K R → World D P K R
  unfolding start_with
  start_with_key none r w = with_session w (λ s. record s { faulted = true })
  start_with_key (some k) r w = start_with w.session.datapath r (env.get_transform_params k) w

  start_with_response : Option R → World D P K R → World D P K R
  unfolding start_with_key
  start_with_response none w =
      set_state env State.session_error
        (error_status failed_precondition "AddEgressResponse is not initialized") w
  start_with_response (some r) w = start_with_key w.session.key_material r w

  abbrev is_egress_session_created : State → Bool
  is_egress_session_created State.egress_session_created = true
  is_egress_session_created _ = false

  unfoldable pub start_datapath : World D P K R → World D P K R
  unfolding start_with_response
  start_datapath w =
      if not (is_egress_session_created w.session.state)
      then w
      else start_with_response w.session.add_egress_response w
