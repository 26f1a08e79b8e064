-- ===== src/Session/Mtu/NullSafety.antt =====
-- The pointers of krypton/session.cc through the changes of the MTUs.
use vpn_libraries.Prelude.{false, Option, none, some, arith}
use vpn_libraries.Prelude.Int.{ℤ}
use vpn_libraries.Prelude.Text.{Text}
use vpn_libraries.Utils.Status.{StatusOr, value, error}
use vpn_libraries.Session.Model.{World, Env}
use vpn_libraries.Session.Parts.NullSafety.{Sound}
use vpn_libraries.Session.Tunnels.NullSafety.{update_tunnel_if_needed-Sound}
use vpn_libraries.Session.Parts.{with_session}
use vpn_libraries.Session.Mtu.{
  do_uplink_mtu_update, signed_request, keyed_request, addressed_request,
  send_update_path_info_request, do_downlink_mtu_update,
}

module _ {D P K T R : Type 0} (env : Env D P K T R) where
  pub do_uplink_mtu_update-Sound :
      (uplink_mtu tunnel_mtu : ℤ) (w : World D P K R)
      → Sound w
      → Sound (do_uplink_mtu_update env uplink_mtu tunnel_mtu w)
  unfolding do_uplink_mtu_update
  do_uplink_mtu_update-Sound uplink_mtu tunnel_mtu w b =
      let updated =
        update_tunnel_if_needed-Sound env false
          (with_session w (λ s. record s { tunnel_mtu = tunnel_mtu })) b in
      ground arith

  signed_request-Sound :
      (addr : Text) (s : StatusOr Text) (w : World D P K R)
      → Sound w
      → Sound (signed_request env addr s w).0
  unfolding signed_request
  signed_request-Sound addr (error s) w b = b
  signed_request-Sound addr (value s) w b = b

  keyed_request-Sound :
      (addr : Text) (k : Option K) (w : World D P K R)
      → Sound w
      → Sound (keyed_request env addr k w).0
  unfolding keyed_request
  keyed_request-Sound addr none w b = b
  keyed_request-Sound addr (some k) w b = signed_request-Sound addr _ w b

  addressed_request-Sound :
      (addr : StatusOr Text) (w : World D P K R) → Sound w → Sound (addressed_request env addr w).0
  unfolding addressed_request
  addressed_request-Sound (error s) w b = b
  addressed_request-Sound (value addr) w b = keyed_request-Sound addr _ w b

  pub do_downlink_mtu_update-Sound :
      (downlink_mtu : ℤ) (w : World D P K R)
      → Sound w
      → Sound (do_downlink_mtu_update env downlink_mtu w)
  unfolding do_downlink_mtu_update send_update_path_info_request
  do_downlink_mtu_update-Sound downlink_mtu w b =
      let w1 = with_session w (λ s. record s { downlink_mtu = downlink_mtu }) in
      let sent = addressed_request-Sound (env.get_control_plane_addr w.session.provision) w1 b in
      ground arith
