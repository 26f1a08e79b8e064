-- ===== src/Session/Mtu.antt =====
-- The MTUs in krypton/session.cc.
pub mod KillSwitch
pub mod NullSafety
pub mod Updates
use vpn_libraries.Prelude.{
  ◌%◌, ℕ, ◌+◌, ◌≡◌, Bool, true, false, Option, none, some, List, [], ◌∷◌, ◌==◌, not, if◌then◌else◌,
}
use vpn_libraries.Prelude.Int.{ℤ, eqb_ℤ}
use vpn_libraries.Prelude.Text.{Text}
use vpn_libraries.Utils.Status.{
  Status, StatusOr, value, error, ok_status, error_status, failed_precondition, deadline_exceeded,
}
use vpn_libraries.Utils.TimeUtil.{ProtoDuration, at, record_latency}
use vpn_libraries.Timer.{invalid_timer_id}
use vpn_libraries.Runtime.{
  NetworkInfo, SessionNotification, SessionTimer, datapath_reattempt, datapath_connecting,
}
use vpn_libraries.Selector.{has_more_addresses}
use vpn_libraries.Session.Model.{uint32_mod, State, Session, World, Env, UpdatePathInfoRequest}
use vpn_libraries.Session.Parts.{
  no_network_info, with_session, notify, set_state, notify_datapath_disconnected,
  start_datapath_reattempt_timer, cancel_datapath_connecting_timer_if_running, is_active,
  is_connected_state,
}
use vpn_libraries.Session.Tunnels.{
  on_datapath, update_tunnel_if_needed, connect_datapath, reset_all_datapath_reattempts,
}

module _ {D P K T R : Type 0} (env : Env D P K T R) where
  unfoldable pub do_uplink_mtu_update : ℤ → ℤ → World D P K R → World D P K R
  do_uplink_mtu_update uplink_mtu tunnel_mtu w =
      let updated =
        update_tunnel_if_needed env false
          (with_session w (λ s. record s { tunnel_mtu = tunnel_mtu })) in
      let w1 = if not (eqb_ℤ tunnel_mtu w.session.tunnel_mtu) then updated else w in
      with_session w1 (λ s. record s { uplink_mtu = uplink_mtu })

  -- The signature is over the request without it.
  signed_request : Text → StatusOr Text → World D P K R → World D P K R × Status
  signed_request addr (error s) w = (w, s)
  signed_request addr (value signature) w = (
    with_session w (λ s. record s {
      path_updates =
          record {
            session_id = s.uplink_spi;
            downlink_mtu = s.downlink_mtu;
            apn_type = env.get_apn_type s.provision;
            control_plane_sock_addr = addr;
            mtu_update_signature = signature;
          }
          ∷ s.path_updates;
    }),
    ok_status,
  )

  keyed_request : Text → Option K → World D P K R → World D P K R × Status
  unfolding signed_request
  keyed_request addr none w =
      (w, error_status failed_precondition "key_material_ is not initialized")
  keyed_request addr (some k) w =
      signed_request addr
        (env.generate_signature k (env.path_info w.session.uplink_spi w.session.downlink_mtu)) w

  addressed_request : StatusOr Text → World D P K R → World D P K R × Status
  unfolding keyed_request
  addressed_request (error s) w = (w, s)
  addressed_request (value addr) w = keyed_request addr w.session.key_material w

  unfoldable pub send_update_path_info_request : World D P K R → World D P K R × Status
  unfolding addressed_request
  send_update_path_info_request w =
      addressed_request (env.get_control_plane_addr w.session.provision) w

  unfoldable pub do_downlink_mtu_update : ℤ → World D P K R → World D P K R
  unfolding send_update_path_info_request
  do_downlink_mtu_update downlink_mtu w =
      let w1 = with_session w (λ s. record s { downlink_mtu = downlink_mtu }) in
      let (sent, status) = send_update_path_info_request w1 in
      if not (eqb_ℤ downlink_mtu w.session.downlink_mtu)
      then (if is_active w.session.state then sent else w1)
      else w
