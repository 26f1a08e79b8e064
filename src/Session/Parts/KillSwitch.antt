-- ===== src/Session/Parts/KillSwitch.antt =====
-- The tunnel through the states, timers and notifications of krypton/session.cc.
use vpn_libraries.Prelude.{◌≡◌, false, arith}
use vpn_libraries.Utils.Status.{Status}
use vpn_libraries.Tunnel
use vpn_libraries.Tunnel.{
  datapath_stopped, datapath_started, is_tunnel_active, is_safe_disconnect_enabled,
}
use vpn_libraries.Tunnel.Safety.{IsBlocking}
use vpn_libraries.Runtime.{NetworkInfo}
use vpn_libraries.Session.Model.{State, World, Env}
use vpn_libraries.Session.Parts.{
  announce_state, set_state, start_rekey_timer, start_datapath_reattempt_timer,
  start_datapath_connecting_timer, cancel_rekey_timer_if_running,
  cancel_datapath_reattempt_timer_if_running, cancel_datapath_connecting_timer_if_running,
  notify_datapath_disconnected,
}

abbrev pub Blocks : {D P K R : Type 0} → World D P K R → Type 0
Blocks w = IsBlocking w.shared.tunnel

pub stopped-IsBlocking :
    (t : Tunnel.TunnelManager) → IsBlocking t → IsBlocking (datapath_stopped t false)
unfolding datapath_stopped is_tunnel_active is_safe_disconnect_enabled
stopped-IsBlocking t b = ground arith

module _ {D P K T R : Type 0} (env : Env D P K T R) where
  pub tunnel-start_rekey :
      (w : World D P K R) → (start_rekey_timer env w).shared.tunnel ≡ w.shared.tunnel
  unfolding start_rekey_timer cancel_rekey_timer_if_running
  tunnel-start_rekey w = ground arith

  pub tunnel-start_reattempt :
      (w : World D P K R) → (start_datapath_reattempt_timer env w).shared.tunnel ≡ w.shared.tunnel
  unfolding start_datapath_reattempt_timer cancel_datapath_reattempt_timer_if_running
  tunnel-start_reattempt w = ground arith

  pub tunnel-start_connecting :
      (w : World D P K R) → (start_datapath_connecting_timer env w).shared.tunnel ≡ w.shared.tunnel
  unfolding start_datapath_connecting_timer cancel_datapath_connecting_timer_if_running
  tunnel-start_connecting w = ground arith

  announce-tunnel :
      (s : State) (status : Status) (w : World D P K R)
      → (announce_state env s status w).shared.tunnel ≡ w.shared.tunnel
  unfolding announce_state
  announce-tunnel s status w = grind (arith, tunnel-start_rekey)

  -- The tunnel is the same after a change of state.
  pub tunnel-set_state :
      (s : State) (status : Status) (w : World D P K R)
      → (set_state env s status w).shared.tunnel ≡ w.shared.tunnel
  unfolding set_state
  tunnel-set_state s status w = announce-tunnel s status _

  pub set_state-Blocks :
      (s : State) (status : Status) (w : World D P K R)
      → Blocks w
      → Blocks (set_state env s status w)
  set_state-Blocks s status w b = rw (tunnel-set_state s status w) b

  pub notify_datapath_disconnected-Blocks :
      (network : NetworkInfo) (status : Status) (w : World D P K R)
      → Blocks w
      → Blocks (notify_datapath_disconnected env network status w)
  unfolding notify_datapath_disconnected cancel_datapath_connecting_timer_if_running
  notify_datapath_disconnected-Blocks network status w b =
      grind (arith, set_state-Blocks, stopped-IsBlocking)
