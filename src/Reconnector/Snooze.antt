-- ===== src/Reconnector/Snooze.antt =====
-- Snoozing, resuming, networks and the simulated failure of krypton/reconnector.cc, and the events of
-- the whole state machine.
use vpn_libraries.Prelude.{
  ℕ, Bool, true, false, Option, none, some, List, [], ◌∷◌, not, if◌then◌else◌, is_some,
}
use vpn_libraries.Prelude.Int.{ℤ, ltb_ℤ, ◌+ℤ◌, ◌-ℤ◌}
use vpn_libraries.Utils.Status.{
  Status, StatusOr, value, error, ok_status, error_status, failed_precondition, internal,
}
use vpn_libraries.Utils.TimeUtil.{ProtoDuration, to_proto_time}
use vpn_libraries.Timer.{timer_expiry}
use vpn_libraries.Tunnel.{TunnelManager, resume_tunnel}
use vpn_libraries.Runtime.{
  NetworkInfo, Notification, resumed, Shared, TimerCb, reconnect_cb, session_connection_cb,
  snooze_cb, session_timer,
}
use vpn_libraries.Reconnector.World.{State, World, Env}
use vpn_libraries.Reconnector.Timers.{
  with_reconnector, with_timers, with_session, notify, is_blocking, set_state, is_permanent,
  cancel_snooze_timer, cancel_all_timers_if_running, reset_failure_counters, start_snooze_timer,
  establish_session, terminate_session, start_reconnection,
}
use vpn_libraries.Reconnector.Handlers.{
  is_snoozed, is_paused, control_plane_connecting, control_plane_failure, control_plane_connected,
  datapath_connecting, datapath_connected, collect_telemetry, start, stop, session_error,
  force_reconnect, permanent_failure, datapath_disconnected, reconnect_timer_expired,
  session_connection_timer_expired,
}

module _ {S : Type 0} where
  abbrev with_tunnel : World S → TunnelManager → World S
  with_tunnel w t = record w { shared = record w.shared { tunnel = t } }

module _ {S : Type 0} (env : Env S) where
  -- Tells of the new end of the snooze, if a Timestamp can hold it, and starts the timer.
  unfoldable pub schedule_snooze : ℤ → StatusOr ProtoDuration → World S → World S × Status
  schedule_snooze duration (error s) w = (w, s)
  schedule_snooze duration (value end) w =
      start_snooze_timer env duration (notify (Notification.snoozed end) w)

  unfoldable pub snooze : ℤ → ℤ → World S → World S × Status
  unfolding schedule_snooze
  snooze now duration w =
      let w1 =
        set_state State.snoozed
          (cancel_all_timers_if_running (terminate_session env ok_status true w)) in
      let end = now +ℤ duration in
      let w2 = with_reconnector w1 (λ r. record r { snooze_end_time = end }) in
      if is_permanent w.reconnector.state
      then (
        w,
        error_status failed_precondition
            "Krypton is in state PermanentFailure. Refusing to snooze.",
      )
      else schedule_snooze duration (to_proto_time end) w2

  -- The tunnel is brought back, and the snooze timer cancelled, before the state is looked at.
  unfoldable pub resume : World S → World S × Status
  resume w =
      let (tunnel, _) = resume_tunnel env.vpn_service w.shared.tunnel in
      let w1 = cancel_snooze_timer (with_tunnel w tunnel) in
      let w2 =
        notify
          (resumed (record {
            has_available_networks = is_some w1.reconnector.active_network_info;
            is_blocking_traffic = is_blocking w1;
          }))
          w1 in
      if not (is_snoozed w1.reconnector.state)
      then (w1, error_status failed_precondition "Cannot resume PPN because it is not snoozed.")
      else (establish_session env w2, ok_status)

  unfoldable pub extend_snooze : ℤ → ℤ → World S → World S × Status
  unfolding schedule_snooze
  extend_snooze now extend_duration w =
      let proposed = w.reconnector.snooze_end_time +ℤ extend_duration in
      let w1 =
        cancel_snooze_timer (with_reconnector w (λ r. record r { snooze_end_time = proposed })) in
      if not (is_snoozed w.reconnector.state)
      then (
        w,
        error_status failed_precondition
            "Unable to extend snooze duration since Krypton is not Snoozed.",
      )
      else if ltb_ℤ proposed now
      then (w, error_status failed_precondition "New snooze duration would already be expired.")
      else schedule_snooze (proposed -ℤ now) (to_proto_time proposed) w1

  unfoldable pub snooze_timer_expired : World S → World S
  unfolding resume
  snooze_timer_expired w = (resume w).0

  abbrev with_session_status : World S → (S × Shared) × Status → World S × Status
  with_session_status w (sh, status) = (with_session w sh, status)

  -- Without a network the session ends and everything waits; with one a paused session is begun
  -- again, and any other is told of it.
  unfoldable pub switch_network : Option NetworkInfo → World S → World S × Status
  switch_network none w = (
    set_state State.paused (
        cancel_all_timers_if_running
          (terminate_session env (error_status internal "No network") false w)),
    ok_status,
  )
  switch_network (some network) w =
      if is_paused w.reconnector.state
      then (start_reconnection env w, ok_status)
      else with_session_status w (env.session_manager.set_network network (w.session, w.shared))

  unfoldable pub set_network : Option NetworkInfo → World S → World S × Status
  unfolding switch_network
  set_network network_info w =
      let w1 = reset_failure_counters (
        with_reconnector w
          (λ r. record r { set_network_called = true; active_network_info = network_info })) in
      if is_snoozed w.reconnector.state then (w1, ok_status) else switch_network network_info w1

  unfoldable pub set_simulated_network_failure : Bool → World S → World S
  unfolding resume
  set_simulated_network_failure true w = set_state State.snoozed (
      cancel_all_timers_if_running
        (terminate_session env (error_status internal "Simulated network failure") false w))
  set_simulated_network_failure false w = (resume w).0

  unfoldable pub run_timer : Option TimerCb → World S → World S
  unfolding snooze_timer_expired reconnect_timer_expired session_connection_timer_expired
  run_timer none w = w
  run_timer (some reconnect_cb) w = reconnect_timer_expired env w
  run_timer (some session_connection_cb) w = session_connection_timer_expired env w
  run_timer (some snooze_cb) w = snooze_timer_expired w
  run_timer (some (session_timer c)) w =
      with_session w (env.session_manager.timer_expired c (w.session, w.shared))

  -- The platform's timer `id` runs out: TimerManager::TimerExpiry, and the callback it finds.
  unfoldable pub timer_fires : ℕ → World S → World S
  unfolding run_timer
  timer_fires id w =
      let (timers, cb) = timer_expiry w.shared.timers id in run_timer cb (with_timers w timers)

-- What can happen to a reconnector; times are what the clocks show then.
pub data Event : Type 0 where
  started stopped reconnect_forced resumed_by_user telemetry_collected : Event
  control_plane_connecting_at control_plane_failed_at control_plane_connected_at : ℤ → Event
  datapath_connecting_at datapath_connected_at : ℤ → Event
  session_failed permanently_failed : Status → Event
  datapath_lost : NetworkInfo → Status → Event
  snoozed_for extended_by : ℤ → ℤ → Event
  network_set : Option NetworkInfo → Event
  failure_simulated : Bool → Event
  timer_fired : ℕ → Event

module _ {S : Type 0} (env : Env S) where
  unfoldable pub step : World S → Event → World S
  unfolding start stop force_reconnect resume control_plane_connecting control_plane_failure
      control_plane_connected datapath_connecting datapath_connected session_error permanent_failure
      datapath_disconnected snooze extend_snooze set_network set_simulated_network_failure
      timer_fires collect_telemetry
  step w started = start env w
  step w stopped = stop env w
  step w reconnect_forced = force_reconnect env w
  step w resumed_by_user = (resume env w).0
  step w telemetry_collected = (collect_telemetry w).0
  step w (control_plane_connecting_at now) = control_plane_connecting now w
  step w (control_plane_failed_at now) = control_plane_failure now w
  step w (control_plane_connected_at now) = control_plane_connected now w
  step w (datapath_connecting_at now) = datapath_connecting now w
  step w (datapath_connected_at now) = datapath_connected now w
  step w (session_failed reason) = session_error env reason w
  step w (permanently_failed reason) = permanent_failure env reason w
  step w (datapath_lost network reason) = datapath_disconnected env network reason w
  step w (snoozed_for now duration) = (snooze env now duration w).0
  step w (extended_by now duration) = (extend_snooze env now duration w).0
  step w (network_set network_info) = (set_network env network_info w).0
  step w (failure_simulated on) = set_simulated_network_failure env on w
  step w (timer_fired id) = timer_fires env id w

  unfoldable pub run : World S → List Event → World S
  run w [] = w
  run w (e ∷ es) = run (step w e) es
