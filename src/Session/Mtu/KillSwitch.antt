-- ===== src/Session/Mtu/KillSwitch.antt =====
-- The tunnel that blocks the traffic stays up through the changes of the MTUs in krypton/session.cc.
use vpn_libraries.Prelude.{◌≡◌, refl, Option, none, some, arith}
use vpn_libraries.Prelude.Int.{ℤ}
use vpn_libraries.Prelude.Text.{Text}
use vpn_libraries.Utils.Status.{StatusOr, value, error}
use vpn_libraries.Session.Model.{World, Env}
use vpn_libraries.Session.Parts.KillSwitch.{Blocks}
use vpn_libraries.Session.Tunnels.KillSwitch.{update_tunnel_if_needed-Blocks}
use vpn_libraries.Session.Mtu.{
  do_uplink_mtu_update, signed_request, keyed_request, addressed_request,
  send_update_path_info_request, do_downlink_mtu_update,
}

module _ {D P K T R : Type 0} (env : Env D P K T R) where
  pub do_uplink_mtu_update-Blocks :
      (uplink_mtu tunnel_mtu : ℤ) (w : World D P K R)
      → Blocks w
      → Blocks (do_uplink_mtu_update env uplink_mtu tunnel_mtu w)
  unfolding do_uplink_mtu_update
  do_uplink_mtu_update-Blocks uplink_mtu tunnel_mtu w b =
      grind (arith, update_tunnel_if_needed-Blocks)

  tunnel-signed_request :
      (addr : Text) (s : StatusOr Text) (w : World D P K R)
      → (signed_request env addr s w).0.shared.tunnel ≡ w.shared.tunnel
  unfolding signed_request
  tunnel-signed_request addr (error s) w = refl
  tunnel-signed_request addr (value s) w = refl

  tunnel-keyed_request :
      (addr : Text) (k : Option K) (w : World D P K R)
      → (keyed_request env addr k w).0.shared.tunnel ≡ w.shared.tunnel
  unfolding keyed_request
  tunnel-keyed_request addr none w = refl
  tunnel-keyed_request addr (some k) w = tunnel-signed_request addr _ w

  tunnel-addressed_request :
      (addr : StatusOr Text) (w : World D P K R)
      → (addressed_request env addr w).0.shared.tunnel ≡ w.shared.tunnel
  unfolding addressed_request
  tunnel-addressed_request (error s) w = refl
  tunnel-addressed_request (value addr) w = tunnel-keyed_request addr _ w

  pub do_downlink_mtu_update-Blocks :
      (downlink_mtu : ℤ) (w : World D P K R)
      → Blocks w
      → Blocks (do_downlink_mtu_update env downlink_mtu w)
  unfolding do_downlink_mtu_update send_update_path_info_request
  do_downlink_mtu_update-Blocks downlink_mtu w b = grind (arith, tunnel-addressed_request)
