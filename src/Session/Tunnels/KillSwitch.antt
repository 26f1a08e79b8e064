-- ===== src/Session/Tunnels/KillSwitch.antt =====
-- The tunnel that blocks the traffic stays up while a session of krypton/session.cc makes its tunnel
-- and connects its datapath.
use vpn_libraries.Prelude.{◌≡◌, Bool, false, Option, none, some, arith, Bool-cases, inl, inr}
use vpn_libraries.Utils.Status.{
  Status, StatusOr, value, error, ok_status, is_ok, is_permanent_error,
}
use vpn_libraries.Utils.ProtoComparison.{TunFdData}
use vpn_libraries.Tunnel
use vpn_libraries.Tunnel.{
  datapath_stopped, datapath_started, is_tunnel_active, is_safe_disconnect_enabled,
}
use vpn_libraries.Tunnel.Safety.{IsBlocking}
use vpn_libraries.Runtime.{NetworkInfo}
use vpn_libraries.Selector.{Endpoint, select_datapath_address}
use vpn_libraries.Session.Model.{State, World, Env}
use vpn_libraries.Session.Parts.{
  with_session, with_tunnel, set_state, cancel_datapath_reattempt_timer_if_running,
}
use vpn_libraries.Session.Tunnels.{
  on_datapath, create_with, create_tunnel, tunnel_failed, update_tunnel_if_needed,
  create_tunnel_if_needed, switch_with, after_switch, switch_to, with_tunnel_status,
  connect_datapath, reset_all_datapath_reattempts, connect_if_network, datapath_started_with,
  start_with, start_with_key, start_with_response, start_datapath,
}
use vpn_libraries.Session.Parts.KillSwitch.{
  Blocks, stopped-IsBlocking, tunnel-start_connecting, set_state-Blocks,
  notify_datapath_disconnected-Blocks,
}

started-IsBlocking : (t : Tunnel.TunnelManager) → IsBlocking t → IsBlocking (datapath_started t)
unfolding datapath_started is_tunnel_active is_safe_disconnect_enabled
started-IsBlocking t b = ground arith

created-IsBlocking :
    (vpn : Tunnel.VpnService) (t : Tunnel.TunnelManager) (d : TunFdData) (force : Bool)
    → IsBlocking t
    → IsBlocking (Tunnel.create_tunnel vpn t d force).0
unfolding Tunnel.create_tunnel is_tunnel_active is_safe_disconnect_enabled
created-IsBlocking vpn t d force b = ground arith

module _ {D P K T R : Type 0} (env : Env D P K T R) where
  pub on_datapath-Blocks : (f : D → D) (w : World D P K R) → Blocks w → Blocks (on_datapath env f w)
  on_datapath-Blocks f w b = ground arith

  tunnel_failed-Blocks :
      (status : Status) (w : World D P K R) → Blocks w → Blocks (tunnel_failed env status w)
  unfolding tunnel_failed
  tunnel_failed-Blocks status w b =
      grind (arith, set_state-Blocks, notify_datapath_disconnected-Blocks)

  create_with-Blocks :
      (force : Bool) (d : StatusOr TunFdData) (w : World D P K R)
      → Blocks w
      → Blocks (create_with env force d w).0
  unfolding create_with
  create_with-Blocks force (error s) w b = set_state-Blocks env _ s w b
  create_with-Blocks force (value d) w b =
      created-IsBlocking env.vpn_service w.shared.tunnel d force b

  create_tunnel-Blocks :
      (force : Bool) (w : World D P K R) → Blocks w → Blocks (create_tunnel env force w).0
  unfolding create_tunnel
  create_tunnel-Blocks force w b = create_with-Blocks force _ w b

  pub update_tunnel_if_needed-Blocks :
      (force : Bool) (w : World D P K R) → Blocks w → Blocks (update_tunnel_if_needed env force w)
  unfolding update_tunnel_if_needed
  update_tunnel_if_needed-Blocks force w b =
      let prepared = on_datapath env env.prepare_for_tunnel_switch w in
      let (w1, status) = create_tunnel env force prepared in
      let made : Blocks w1 =
        create_tunnel-Blocks force prepared
          (on_datapath-Blocks env.prepare_for_tunnel_switch w b) in
      let halted = on_datapath-Blocks env.datapath_stop w1 made in
      let failed = tunnel_failed-Blocks status (on_datapath env env.datapath_stop w1) halted in
      let switched = on_datapath-Blocks env.switch_tunnel w1 made in
      elim (Bool-cases (is_tunnel_active w.shared.tunnel)) [
        | inl up ↦ elim (Bool-cases (is_ok status)) [
          | inl good ↦ rw (up, good) switched
          | inr bad ↦ rw (up, bad) failed
        ]
        | inr down ↦ rw down b
      ]

  create_tunnel_if_needed-Blocks :
      (w : World D P K R) → Blocks w → Blocks (create_tunnel_if_needed env w).0
  unfolding create_tunnel_if_needed
  create_tunnel_if_needed-Blocks w b = grind (arith, create_tunnel-Blocks)

  switch_with-Blocks :
      (ip : Endpoint) (network : NetworkInfo) (d : Option D) (w : World D P K R)
      → Blocks w
      → Blocks (switch_with env ip network d w).0
  unfolding switch_with
  switch_with-Blocks ip network none w b = b
  switch_with-Blocks ip network (some d) w b = b

  after_switch-Blocks :
      (network : NetworkInfo) (r : World D P K R × Status)
      → Blocks r.0
      → Blocks (after_switch env network r).0
  unfolding after_switch
  after_switch-Blocks network r b = grind (arith, notify_datapath_disconnected-Blocks)

  switch_to-Blocks :
      (network : NetworkInfo) (w : World D P K R) (ip : StatusOr Endpoint)
      → Blocks w
      → Blocks (switch_to env network w ip).0
  unfolding switch_to
  switch_to-Blocks network w (error s) b = notify_datapath_disconnected-Blocks env _ s w b
  switch_to-Blocks network w (value ip) b =
      grind (arith, after_switch-Blocks, switch_with-Blocks, tunnel-start_connecting)

  with_tunnel_status-Blocks :
      (network : NetworkInfo) (r : World D P K R × Status)
      → Blocks r.0
      → Blocks (with_tunnel_status env network r).0
  unfolding with_tunnel_status
  with_tunnel_status-Blocks network (w, status) b =
      let (selector, ip) =
        select_datapath_address env.net_library w.session.datapath_address_selector in
      let w1 = with_session w (λ s. record s { datapath_address_selector = selector }) in
      let switched = switch_to-Blocks network w1 ip b in
      elim (Bool-cases (is_ok status)) [
        | inl good ↦ rw good switched
        | inr bad ↦ rw bad (tunnel_failed-Blocks status w b)
      ]

  pub connect_datapath-Blocks :
      (network : NetworkInfo) (w : World D P K R)
      → Blocks w
      → Blocks (connect_datapath env network w).0
  unfolding connect_datapath
  connect_datapath-Blocks network w b =
      with_tunnel_status-Blocks network _ (create_tunnel_if_needed-Blocks _ b)

  pub tunnel-reset :
      (w : World D P K R) → (reset_all_datapath_reattempts env w).shared.tunnel ≡ w.shared.tunnel
  unfolding reset_all_datapath_reattempts cancel_datapath_reattempt_timer_if_running
  tunnel-reset w = ground arith

  connect_if_network-Blocks :
      (network : Option NetworkInfo) (w : World D P K R)
      → Blocks w
      → Blocks (connect_if_network env network w)
  unfolding connect_if_network
  connect_if_network-Blocks none w b = b
  connect_if_network-Blocks (some network) w b = connect_datapath-Blocks network w b

  datapath_started_with-Blocks :
      (w : World D P K R) (r : D × Status) → Blocks w → Blocks (datapath_started_with env w r)
  unfolding datapath_started_with
  datapath_started_with-Blocks w r b =
      let started = with_session w (λ s. record s { datapath = some r.0 }) in
      let failed = with_tunnel started (datapath_stopped started.shared.tunnel false) in
      let connected = set_state env State.control_plane_connected ok_status started in
      let stopped = stopped-IsBlocking w.shared.tunnel b in
      let goes_on =
        connect_if_network-Blocks connected.session.active_network_info connected
          (set_state-Blocks env State.control_plane_connected ok_status started b) in
      let permanent = set_state-Blocks env State.permanent_error r.1 failed stopped in
      let temporary = set_state-Blocks env State.session_error r.1 failed stopped in
      elim (Bool-cases (is_ok r.1)) [
        | inl good ↦ rw good goes_on
        | inr bad ↦ elim (Bool-cases (is_permanent_error r.1)) [
          | inl p ↦ rw (bad, p) permanent
          | inr q ↦ rw (bad, q) temporary
        ]
      ]

  start_with-Blocks :
      (d : Option D) (r : R) (t : StatusOr T) (w : World D P K R)
      → Blocks w
      → Blocks (start_with env d r t w)
  unfolding start_with
  start_with-Blocks d r (error s) w b = set_state-Blocks env _ s w b
  start_with-Blocks none r (value t) w b = b
  start_with-Blocks (some d) r (value t) w b =
      datapath_started_with-Blocks (with_tunnel w (datapath_started w.shared.tunnel))
        (env.datapath_start r t d) (started-IsBlocking w.shared.tunnel b)

  start_with_key-Blocks :
      (k : Option K) (r : R) (w : World D P K R) → Blocks w → Blocks (start_with_key env k r w)
  unfolding start_with_key
  start_with_key-Blocks none r w b = b
  start_with_key-Blocks (some k) r w b = start_with-Blocks _ r _ w b

  start_with_response-Blocks :
      (r : Option R) (w : World D P K R) → Blocks w → Blocks (start_with_response env r w)
  unfolding start_with_response
  start_with_response-Blocks none w b = set_state-Blocks env _ _ w b
  start_with_response-Blocks (some r) w b = start_with_key-Blocks _ r w b

  pub start_datapath-Blocks : (w : World D P K R) → Blocks w → Blocks (start_datapath env w)
  unfolding start_datapath
  start_datapath-Blocks w b = grind (arith, start_with_response-Blocks)
