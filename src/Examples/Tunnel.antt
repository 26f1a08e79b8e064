-- ===== src/Examples/Tunnel.antt =====
-- Runs of krypton/tunnel_manager.cc.
use vpn_libraries.Prelude.{◌≡◌, refl, true, false, some, none, [], ◌∷◌}
use vpn_libraries.Prelude.Int.{pos}
use vpn_libraries.Utils.Status.{ok_status, is_ok, error_status, unavailable}
use vpn_libraries.Utils.ProtoComparison.{TunFdData, ipv4}
use vpn_libraries.Tunnel.{
  TunnelManager, VpnService, new_tunnel_manager, create_tunnel, run, create, stop_datapath,
  start_datapath, recreate, is_tunnel_active, is_safe_disconnect_enabled,
}
use vpn_libraries.Tunnel.Safety.{IsBlocking, run-IsBlocking}
use vpn_libraries.Tunnel.Platform.{Agrees, run-Agrees}
use vpn_libraries.Prelude.Text.{codes}

abbrev pub tunnel_data : TunFdData
tunnel_data = record {
  session_name = none;
  tunnel_ip_addresses =
      record { ip_family = ipv4; ip_range = codes "10.2.2.123"; prefix = some (pos 32) } ∷ [];
  tunnel_dns_addresses = [];
  mtu = some (pos 1395);
  is_metered = some false;
  send_buffer_size = none;
  receive_buffer_size = none;
}

-- A platform that accepts every tunnel, and one that refuses every tunnel.
abbrev pub vpn_service : VpnService
vpn_service calls d = ok_status

abbrev refusing_service : VpnService
refusing_service calls d = error_status unavailable "no tunnel"

-- Safe Disconnect is on, and a tunnel was created.
unfoldable pub blocking : TunnelManager
unfolding new_tunnel_manager create_tunnel
blocking = (create_tunnel vpn_service (new_tunnel_manager true) tunnel_data false).0

pub blocking-IsBlocking : IsBlocking blocking
unfolding is_tunnel_active is_safe_disconnect_enabled blocking
blocking-IsBlocking = record { safe = refl; up = refl }

run-IsBlocking_example : IsBlocking (
    run refusing_service blocking
      (start_datapath ∷ create tunnel_data true ∷ recreate ∷ stop_datapath false ∷ []))
run-IsBlocking_example =
    run-IsBlocking refusing_service blocking
      (start_datapath ∷ create tunnel_data true ∷ recreate ∷ stop_datapath false ∷ [])
      (refl, (refl, (refl, (refl, tt)))) blocking-IsBlocking

created_ok : is_ok (create_tunnel vpn_service (new_tunnel_manager true) tunnel_data true).1 ≡ true
unfolding create_tunnel new_tunnel_manager
created_ok = refl

run-Agrees_example : Agrees true (
    run vpn_service
      (new_tunnel_manager false)
      (create tunnel_data false ∷ start_datapath ∷ stop_datapath false ∷ []))
run-Agrees_example =
    run-Agrees true vpn_service false
      (create tunnel_data false ∷ start_datapath ∷ stop_datapath false ∷ [])
