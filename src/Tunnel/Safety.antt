-- ===== src/Tunnel/Safety.antt =====
-- The kill switch of krypton/tunnel_manager.cc: what Safe Disconnect keeps blocked, and what opens it.
use vpn_libraries.Prelude.{◌≡◌, Bool, true, false, List, [], ◌∷◌, ◌&&◌, All, arith, if◌then◌else◌}
use vpn_libraries.Utils.ProtoComparison.{TunFdData, tun_fd_data_equiv_refl}
use vpn_libraries.Utils.Status.{is_ok, ok_status}
use vpn_libraries.Tunnel.{
  TunnelManager, VpnService, TunnelOp, start_datapath, stop_all, resume, recreate, create,
  stop_datapath, set_safe_disconnect, step, run, create_tunnel, datapath_stopped,
  set_safe_disconnect_enabled, is_tunnel_active, is_safe_disconnect_enabled,
}

-- Safe Disconnect is on and a tunnel is up: no traffic passes outside the VPN.
pub record IsBlocking (t : TunnelManager) : Type 0 where
  pub safe : is_safe_disconnect_enabled t ≡ true
  pub up : is_tunnel_active t ≡ true

-- The calls that are allowed to open it: stopping everything, failing open by force, and changing
-- the setting.
abbrev pub opens : TunnelOp → Bool
opens stop_all = true
opens (stop_datapath force) = force
opens (set_safe_disconnect enable) = true
opens _ = false

pub step-IsBlocking :
    (vpn : VpnService) (t : TunnelManager) (o : TunnelOp)
    → opens o ≡ false
    → IsBlocking t
    → IsBlocking (step vpn t o)
unfolding step is_tunnel_active is_safe_disconnect_enabled
step-IsBlocking vpn t start_datapath h b = ground arith
step-IsBlocking vpn t stop_all h b = ground arith
step-IsBlocking vpn t resume h b = ground arith
step-IsBlocking vpn t recreate h b = ground arith
step-IsBlocking vpn t (create d force) h b = ground arith
step-IsBlocking vpn t (stop_datapath force) h b = ground arith
step-IsBlocking vpn t (set_safe_disconnect enable) h b = ground arith

-- Once Safe Disconnect is on and a tunnel is up, both stay so through any calls, refused tunnels
-- included, as long as nobody stops the manager, stops the datapath by force, or sets Safe
-- Disconnect.
pub run-IsBlocking :
    (vpn : VpnService) (t : TunnelManager) (os : List TunnelOp)
    → All (λ o. opens o ≡ false) os
    → IsBlocking t
    → IsBlocking (run vpn t os)
unfolding run
run-IsBlocking vpn t [] h b = b
run-IsBlocking vpn t (o ∷ os) h b =
    run-IsBlocking vpn (step vpn t o) os h.1 (step-IsBlocking vpn t o h.0 b)

-- Stopping the datapath closes the tunnel exactly if it is forced to fail open or Safe Disconnect is
-- off; the setting itself stays.
pub datapath_stopped_active :
    (t : TunnelManager) (force : Bool)
    → (is_tunnel_active (datapath_stopped t force)
        ≡ (if force then false else is_safe_disconnect_enabled t && is_tunnel_active t))
      × (is_safe_disconnect_enabled (datapath_stopped t force) ≡ is_safe_disconnect_enabled t)
unfolding datapath_stopped is_tunnel_active is_safe_disconnect_enabled
datapath_stopped_active t force = ground arith

-- A second request for the tunnel that was just created, not forced, succeeds and asks the platform
-- nothing.
pub create_tunnel_twice :
    (vpn : VpnService) (t : TunnelManager) (d : TunFdData) (force : Bool)
    → is_ok (create_tunnel vpn t d force).1 ≡ true
    → create_tunnel vpn (create_tunnel vpn t d force).0 d false
      ≡ ((create_tunnel vpn t d force).0, ok_status)
unfolding create_tunnel
create_tunnel_twice vpn t d force h = ground (arith, tun_fd_data_equiv_refl d)

-- Setting Safe Disconnect while a tunnel blocks the traffic with no datapath behind it closes that
-- tunnel: Safe Disconnect is on before the call, and the call leaves it on or turns it off.
pub set_safe_disconnect_unblocks :
    (t : TunnelManager) (enable : Bool)
    → IsBlocking t
    → t.datapath_active ≡ false
    → (is_tunnel_active (set_safe_disconnect_enabled t enable) ≡ false)
      × (is_safe_disconnect_enabled (set_safe_disconnect_enabled t enable) ≡ enable)
unfolding set_safe_disconnect_enabled is_tunnel_active is_safe_disconnect_enabled
set_safe_disconnect_unblocks t enable b h = ground arith
