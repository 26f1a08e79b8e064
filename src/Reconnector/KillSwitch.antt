-- ===== src/Reconnector/KillSwitch.antt =====
-- Safe Disconnect across krypton/reconnector.cc: while the reconnector moves through its states, the
-- tunnel that blocks the traffic stays up.
use vpn_libraries.Timer.{timer_expiry}
use vpn_libraries.Prelude.{ℕ, ◌≡◌, Bool, true, false, Option, none, some, List, [], ◌∷◌, arith, All}
use vpn_libraries.Prelude.Int.{ℤ}
use vpn_libraries.Utils.Status.{Status, StatusOr, value, error}
use vpn_libraries.Utils.TimeUtil.{ProtoDuration}
use vpn_libraries.Tunnel.{TunnelManager, VpnService, resume_tunnel}
use vpn_libraries.Tunnel.Safety.{IsBlocking}
use vpn_libraries.Tunnel
use vpn_libraries.Runtime.{
  NetworkInfo, TimerCb, reconnect_cb, session_connection_cb, snooze_cb, session_timer,
}
use vpn_libraries.Reconnector.World.{World, Env, SessionManagerLaws}
use vpn_libraries.Reconnector.Timers.{
  parts, set_state, cancel_snooze_timer, cancel_connection_deadline_timer_if_running,
  cancel_all_timers_if_running, start_snooze_timer, establish_session, terminate_session,
  start_reconnection, with_timers, reset_failure_counters,
}
use vpn_libraries.Reconnector.Handlers.{
  stop, session_error, control_plane_connected, force_reconnect, permanent_failure,
  datapath_disconnected, reconnect_timer_expired, session_connection_timer_expired,
}
use vpn_libraries.Reconnector.Snooze.{
  Event, started, stopped, reconnect_forced, resumed_by_user, telemetry_collected,
  control_plane_connecting_at, control_plane_failed_at, control_plane_connected_at,
  datapath_connecting_at, datapath_connected_at, session_failed, permanently_failed, datapath_lost,
  snoozed_for, extended_by, network_set, failure_simulated, timer_fired, resume, extend_snooze,
  schedule_snooze, switch_network, set_network, set_simulated_network_failure, timer_fires,
  run_timer, step, run,
}

-- Of all events only a snooze may open the tunnel.
abbrev pub IsNoSnooze : Event → Type 0
IsNoSnooze (snoozed_for now d) = ⊥
IsNoSnooze _ = Unit {0}

abbrev pub Blocks : {S : Type 0} → World S → Type 0
Blocks w = IsBlocking w.shared.tunnel

resume_tunnel-IsBlocking :
    (vpn : VpnService) (t : TunnelManager) → IsBlocking t → IsBlocking (resume_tunnel vpn t).0
unfolding resume_tunnel Tunnel.is_tunnel_active Tunnel.is_safe_disconnect_enabled
resume_tunnel-IsBlocking vpn t b = ground arith

module _ {S : Type 0} where
  tunnel-cancel_deadline :
      (w : World S)
      → (cancel_connection_deadline_timer_if_running w).shared.tunnel ≡ w.shared.tunnel
  unfolding parts
  tunnel-cancel_deadline w = ground arith

  tunnel-cancel_snooze : (w : World S) → (cancel_snooze_timer w).shared.tunnel ≡ w.shared.tunnel
  unfolding parts
  tunnel-cancel_snooze w = ground arith

  tunnel-cancel_all :
      (w : World S) → (cancel_all_timers_if_running w).shared.tunnel ≡ w.shared.tunnel
  unfolding parts
  tunnel-cancel_all w = ground arith

module _ {S : Type 0} (env : Env S) (laws : SessionManagerLaws env.session_manager) where
  terminate_session-Blocks :
      (reason : Status) (w : World S) → Blocks w → Blocks (terminate_session env reason false w)
  unfolding parts
  terminate_session-Blocks reason w b = laws.terminate-IsBlocking w.session w.shared b

  pub establish_session-Blocks : (w : World S) → Blocks w → Blocks (establish_session env w)
  unfolding parts
  establish_session-Blocks w b =
      let h =
        laws.establish-IsBlocking w.reconnector.session_restart_counter
          w.reconnector.active_network_info w.session w.shared b in
      ground arith

  start_reconnection-Blocks : (w : World S) → Blocks w → Blocks (start_reconnection env w)
  unfolding parts
  start_reconnection-Blocks w b =
      let h = laws.terminate-IsBlocking w.session w.shared b in ground arith

  start_snooze_timer-Blocks :
      (d : ℤ) (w : World S) → Blocks w → Blocks (start_snooze_timer env d w).0
  unfolding parts
  start_snooze_timer-Blocks d w b = ground arith

  session_error-Blocks :
      (reason : Status) (w : World S) → Blocks w → Blocks (session_error env reason w)
  unfolding session_error
  session_error-Blocks reason w b = grind (arith, start_reconnection-Blocks, tunnel-cancel_deadline)

  pub force_reconnect-Blocks : (w : World S) → Blocks w → Blocks (force_reconnect env w)
  unfolding force_reconnect set_state
  force_reconnect-Blocks w b = grind (arith, establish_session-Blocks, terminate_session-Blocks)

  permanent_failure-Blocks :
      (reason : Status) (w : World S) → Blocks w → Blocks (permanent_failure env reason w)
  unfolding permanent_failure set_state
  permanent_failure-Blocks reason w b = grind (arith, terminate_session-Blocks, tunnel-cancel_all)

  stop-Blocks : (w : World S) → Blocks w → Blocks (stop env w)
  unfolding stop
  stop-Blocks w b = grind (arith, terminate_session-Blocks, tunnel-cancel_all)

  control_plane_connected-Blocks :
      (now : ℤ) (w : World S) → Blocks w → Blocks (control_plane_connected now w)
  unfolding control_plane_connected set_state
  control_plane_connected-Blocks now w b = grind (arith, tunnel-cancel_deadline)

  datapath_disconnected-Blocks :
      (network : NetworkInfo) (reason : Status) (w : World S)
      → Blocks w
      → Blocks (datapath_disconnected env network reason w)
  unfolding datapath_disconnected
  datapath_disconnected-Blocks network reason w b = start_reconnection-Blocks _ b

  resume-Blocks : (w : World S) → Blocks w → Blocks (resume env w).0
  unfolding resume
  resume-Blocks w b =
      let up = resume_tunnel-IsBlocking env.vpn_service w.shared.tunnel b in
      grind (arith, establish_session-Blocks, tunnel-cancel_snooze)

  schedule_snooze-Blocks :
      (d : ℤ) (end : StatusOr ProtoDuration) (w : World S)
      → Blocks w
      → Blocks (schedule_snooze env d end w).0
  unfolding schedule_snooze
  schedule_snooze-Blocks d (error s) w b = b
  schedule_snooze-Blocks d (value end) w b = start_snooze_timer-Blocks d _ b

  extend_snooze-Blocks : (now d : ℤ) (w : World S) → Blocks w → Blocks (extend_snooze env now d w).0
  unfolding extend_snooze
  extend_snooze-Blocks now d w b = grind (arith, schedule_snooze-Blocks, tunnel-cancel_snooze)

  switch_network-Blocks :
      (network : Option NetworkInfo) (w : World S)
      → Blocks w
      → Blocks (switch_network env network w).0
  unfolding switch_network set_state
  switch_network-Blocks none w b = grind (arith, terminate_session-Blocks, tunnel-cancel_all)
  switch_network-Blocks (some network) w b =
      let told = laws.set_network-IsBlocking network w.session w.shared b in
      grind (arith, start_reconnection-Blocks)

  set_network-Blocks :
      (network : Option NetworkInfo) (w : World S) → Blocks w → Blocks (set_network env network w).0
  unfolding set_network reset_failure_counters
  set_network-Blocks network w b = grind (arith, switch_network-Blocks)

  run_timer-Blocks : (cb : Option TimerCb) (w : World S) → Blocks w → Blocks (run_timer env cb w)
  unfolding run_timer reconnect_timer_expired session_connection_timer_expired
  run_timer-Blocks none w b = b
  run_timer-Blocks (some reconnect_cb) w b = grind (arith, establish_session-Blocks)
  run_timer-Blocks (some session_connection_cb) w b = grind (arith, start_reconnection-Blocks)
  run_timer-Blocks (some snooze_cb) w b = resume-Blocks w b
  run_timer-Blocks (some (session_timer c)) w b =
      laws.timer_expired-IsBlocking c w.session w.shared b

  timer_fires-Blocks : (id : ℕ) (w : World S) → Blocks w → Blocks (timer_fires env id w)
  unfolding timer_fires
  timer_fires-Blocks id w b =
      let (timers, cb) = timer_expiry w.shared.timers id in
      run_timer-Blocks cb (with_timers w timers) b

  set_simulated_network_failure-Blocks :
      (on : Bool) (w : World S) → Blocks w → Blocks (set_simulated_network_failure env on w)
  unfolding set_simulated_network_failure set_state
  set_simulated_network_failure-Blocks true w b =
      grind (arith, terminate_session-Blocks, tunnel-cancel_all)
  set_simulated_network_failure-Blocks false w b = resume-Blocks w b

  pub step-Blocks : (w : World S) (e : Event) → IsNoSnooze e → Blocks w → Blocks (step env w e)
  unfolding step
  step-Blocks w started h b = establish_session-Blocks w b
  step-Blocks w stopped h b = stop-Blocks w b
  step-Blocks w reconnect_forced h b = force_reconnect-Blocks w b
  step-Blocks w resumed_by_user h b = resume-Blocks w b
  step-Blocks w telemetry_collected h b = b
  step-Blocks w (control_plane_connecting_at now) h b = b
  step-Blocks w (control_plane_failed_at now) h b = b
  step-Blocks w (control_plane_connected_at now) h b = control_plane_connected-Blocks now w b
  step-Blocks w (datapath_connecting_at now) h b = b
  step-Blocks w (datapath_connected_at now) h b = b
  step-Blocks w (session_failed reason) h b = session_error-Blocks reason w b
  step-Blocks w (permanently_failed reason) h b = permanent_failure-Blocks reason w b
  step-Blocks w (datapath_lost network reason) h b = datapath_disconnected-Blocks network reason w b
  step-Blocks w (snoozed_for now d) h b = absurd h
  step-Blocks w (extended_by now d) h b = extend_snooze-Blocks now d w b
  step-Blocks w (network_set network) h b = set_network-Blocks network w b
  step-Blocks w (failure_simulated on) h b = set_simulated_network_failure-Blocks on w b
  step-Blocks w (timer_fired id) h b = timer_fires-Blocks id w b

  -- With a session manager that keeps SessionManagerLaws, Safe Disconnect on and a tunnel up, no
  -- history of the reconnector without a snooze opens the tunnel: not errors, not a permanent failure,
  -- not the loss of the network, not a stop of the reconnector, whatever timers and platform do.
  pub run-Blocks :
      (w : World S) (es : List Event)
      → All IsNoSnooze es
      → IsBlocking w.shared.tunnel
      → IsBlocking (run env w es).shared.tunnel
  unfolding run
  run-Blocks w [] h b = b
  run-Blocks w (e ∷ es) h b = run-Blocks (step env w e) es h.1 (step-Blocks w e h.0 b)
