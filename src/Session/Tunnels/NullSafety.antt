-- ===== src/Session/Tunnels/NullSafety.antt =====
-- The pointers of krypton/session.cc while a session makes its tunnel and connects its datapath.
use vpn_libraries.Prelude.{
  ◌≡◌, refl, Bool, true, false, Option, some, none, is_some, arith, Bool-cases, inl, inr,
  if◌then◌else◌,
}
use vpn_libraries.Utils.Status.{
  Status, StatusOr, value, error, ok_status, is_ok, is_permanent_error,
}
use vpn_libraries.Utils.ProtoComparison.{TunFdData}
use vpn_libraries.Tunnel.{is_tunnel_active, datapath_started, datapath_stopped}
use vpn_libraries.Runtime.{NetworkInfo}
use vpn_libraries.Selector.{Endpoint, select_datapath_address}
use vpn_libraries.Session.Model.{State, World, Env}
use vpn_libraries.Session.Parts.{
  with_session, with_tunnel, set_state, no_network_info, start_datapath_connecting_timer,
}
use vpn_libraries.Session.Parts.NullSafety.{
  Sound, cancel_reattempt-Sound, start_connecting-Sound, set_state-Sound,
  notify_datapath_disconnected-Sound,
}
use vpn_libraries.Session.Tunnels.{
  create_with, create_tunnel, on_datapath, tunnel_failed, update_tunnel_if_needed,
  create_tunnel_if_needed, switch_with, after_switch, switch_to, with_tunnel_status,
  connect_datapath, reset_all_datapath_reattempts, connect_if_network, datapath_started_with,
  start_with, start_with_key, start_with_response, start_datapath,
}

module _ {D P K T R : Type 0} (env : Env D P K T R) where
  pub on_datapath-Sound : (f : D → D) (w : World D P K R) → Sound w → Sound (on_datapath env f w)
  on_datapath-Sound f w b = ground arith

  tunnel_failed-Sound :
      (status : Status) (w : World D P K R) → Sound w → Sound (tunnel_failed env status w)
  unfolding tunnel_failed
  tunnel_failed-Sound status w b =
      let p = set_state-Sound env State.permanent_error status w b in
      let d = notify_datapath_disconnected-Sound env no_network_info status w b in ground arith

  create_with-Sound :
      (force : Bool) (d : StatusOr TunFdData) (w : World D P K R)
      → Sound w
      → Sound (create_with env force d w).0
  unfolding create_with
  create_with-Sound force (error s) w b = set_state-Sound env State.session_error s w b
  create_with-Sound force (value d) w b = b

  create_tunnel-Sound :
      (force : Bool) (w : World D P K R) → Sound w → Sound (create_tunnel env force w).0
  unfolding create_tunnel
  create_tunnel-Sound force w b = create_with-Sound force _ w b

  pub update_tunnel_if_needed-Sound :
      (force : Bool) (w : World D P K R) → Sound w → Sound (update_tunnel_if_needed env force w)
  unfolding update_tunnel_if_needed
  update_tunnel_if_needed-Sound force w b =
      let prepared = on_datapath env env.prepare_for_tunnel_switch w in
      let (w1, status) = create_tunnel env force prepared in
      let made : Sound w1 =
        create_tunnel-Sound force prepared (on_datapath-Sound env.prepare_for_tunnel_switch w b) in
      let halted = on_datapath-Sound env.datapath_stop w1 made in
      let failed = tunnel_failed-Sound status (on_datapath env env.datapath_stop w1) halted in
      let switched = on_datapath-Sound env.switch_tunnel w1 made in
      elim (Bool-cases (is_tunnel_active w.shared.tunnel)) [
        | inl up ↦ elim (Bool-cases (is_ok status)) [
          | inl good ↦ rw (up, good) switched
          | inr bad ↦ rw (up, bad) failed
        ]
        | inr down ↦ rw down b
      ]

  create_tunnel_if_needed-Sound :
      (w : World D P K R) → Sound w → Sound (create_tunnel_if_needed env w).0
  unfolding create_tunnel_if_needed
  create_tunnel_if_needed-Sound w b = let c = create_tunnel-Sound false w b in ground arith

  switch_with-Sound :
      (ip : Endpoint) (network : NetworkInfo) (w : World D P K R)
      → Sound w
      → Sound (switch_with env ip network w.session.datapath w).0
  unfolding switch_with
  switch_with-Sound ip network w b = ground arith

  after_switch-Sound :
      (network : NetworkInfo) (r : World D P K R × Status)
      → Sound r.0
      → Sound (after_switch env network r).0
  unfolding after_switch
  after_switch-Sound network (w, status) b =
      let d = notify_datapath_disconnected-Sound env network status w b in ground arith

  switch_on :
      (ip : Endpoint) (network : NetworkInfo) (w : World D P K R)
      → Sound w
      → Sound (after_switch env network (switch_with env ip network w.session.datapath w)).0
  switch_on ip network w b =
      after_switch-Sound network (switch_with env ip network w.session.datapath w)
        (switch_with-Sound ip network w b)

  maybe_connecting-Sound :
      (w : World D P K R)
      → Sound w
      → Sound (
          if w.session.datapath_connecting_timer_enabled
          then start_datapath_connecting_timer env w
          else w)
  maybe_connecting-Sound w b = let started = start_connecting-Sound env w b in ground arith

  switch_to-Sound :
      (network : NetworkInfo) (w : World D P K R) (ip : StatusOr Endpoint)
      → Sound w
      → Sound (switch_to env network w ip).0
  unfolding switch_to
  switch_to-Sound network w (error s) b =
      notify_datapath_disconnected-Sound env no_network_info s w b
  switch_to-Sound network w (value ip) b =
      switch_on ip network
        (if w.session.datapath_connecting_timer_enabled
          then start_datapath_connecting_timer env w
          else w)
        (maybe_connecting-Sound w b)

  with_tunnel_status-Sound :
      (network : NetworkInfo) (r : World D P K R × Status)
      → Sound r.0
      → Sound (with_tunnel_status env network r).0
  unfolding with_tunnel_status
  with_tunnel_status-Sound network (w, status) b =
      let (selector, ip) =
        select_datapath_address env.net_library w.session.datapath_address_selector in
      let w1 = with_session w (λ s. record s { datapath_address_selector = selector }) in
      let switched = switch_to-Sound network w1 ip b in
      elim (Bool-cases (is_ok status)) [
        | inl good ↦ rw good switched
        | inr bad ↦ rw bad (tunnel_failed-Sound status w b)
      ]

  pub connect_datapath-Sound :
      (network : NetworkInfo) (w : World D P K R)
      → Sound w
      → Sound (connect_datapath env network w).0
  unfolding connect_datapath
  connect_datapath-Sound network w b =
      with_tunnel_status-Sound network _ (create_tunnel_if_needed-Sound _ b)

  pub reset-Sound : (w : World D P K R) → Sound w → Sound (reset_all_datapath_reattempts env w)
  unfolding reset_all_datapath_reattempts
  reset-Sound w b = cancel_reattempt-Sound w b

  connect_if_network-Sound :
      (network : Option NetworkInfo) (w : World D P K R)
      → Sound w
      → Sound (connect_if_network env network w)
  unfolding connect_if_network
  connect_if_network-Sound none w b = b
  connect_if_network-Sound (some network) w b = connect_datapath-Sound network w b

  datapath_started_with-Sound :
      (w : World D P K R) (r : D × Status) → Sound w → Sound (datapath_started_with env w r)
  unfolding datapath_started_with
  datapath_started_with-Sound w r b =
      let started = with_session w (λ s. record s { datapath = some r.0 }) in
      let failed = with_tunnel started (datapath_stopped started.shared.tunnel false) in
      let connected = set_state env State.control_plane_connected ok_status started in
      let sound : Sound started = record {
        has_datapath = refl;
        has_key = b.has_key;
        no_fault = b.no_fault;
      } in
      let goes_on =
        connect_if_network-Sound connected.session.active_network_info connected
          (set_state-Sound env State.control_plane_connected ok_status started sound) in
      let permanent = set_state-Sound env State.permanent_error r.1 failed sound in
      let temporary = set_state-Sound env State.session_error r.1 failed sound in
      elim (Bool-cases (is_ok r.1)) [
        | inl good ↦ rw good goes_on
        | inr bad ↦ elim (Bool-cases (is_permanent_error r.1)) [
          | inl p ↦ rw (bad, p) permanent
          | inr q ↦ rw (bad, q) temporary
        ]
      ]

  start_with-Sound :
      (d : Option D) (r : R) (t : StatusOr T) (w : World D P K R)
      → is_some d ≡ true
      → Sound w
      → Sound (start_with env d r t w)
  unfolding start_with
  start_with-Sound d r (error s) w h b = set_state-Sound env State.session_error s w b
  start_with-Sound none r (value t) w h b = ground arith
  start_with-Sound (some d) r (value t) w h b =
      datapath_started_with-Sound (with_tunnel w (datapath_started w.shared.tunnel))
        (env.datapath_start r t d) b

  start_with_key-Sound :
      (k : Option K) (r : R) (w : World D P K R)
      → is_some k ≡ true
      → Sound w
      → Sound (start_with_key env k r w)
  unfolding start_with_key
  start_with_key-Sound none r w h b = ground arith
  start_with_key-Sound (some k) r w h b = start_with-Sound _ r _ w b.has_datapath b

  start_with_response-Sound :
      (r : Option R) (w : World D P K R) → Sound w → Sound (start_with_response env r w)
  unfolding start_with_response
  start_with_response-Sound none w b = set_state-Sound env State.session_error _ w b
  start_with_response-Sound (some r) w b = start_with_key-Sound _ r w b.has_key b

  pub start_datapath-Sound : (w : World D P K R) → Sound w → Sound (start_datapath env w)
  unfolding start_datapath
  start_datapath-Sound w b =
      let started = start_with_response-Sound w.session.add_egress_response w b in ground arith
