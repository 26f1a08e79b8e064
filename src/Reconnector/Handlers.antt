-- ===== src/Reconnector/Handlers.antt =====
-- The handlers of krypton/reconnector.cc: what its owner, the session, the network and the timers
-- call. Each runs under the reconnector's mutex, and so at once.
use vpn_libraries.Prelude.{◌+◌, Bool, true, false, ◌&&◌, not, ◌==◌, if◌then◌else◌}
use vpn_libraries.Prelude.Int.{ℤ, pos}
use vpn_libraries.Utils.Status.{Status, ok_status}
use vpn_libraries.Utils.TimeUtil.{at, record_latency}
use vpn_libraries.Timer.{invalid_timer_id}
use vpn_libraries.Runtime.{NetworkInfo, Notification, network_disconnected}
use vpn_libraries.Reconnector.World.{State, TelemetryData, new_telemetry_data, World, Env}
use vpn_libraries.Reconnector.Timers.{
  with_reconnector, notify, is_blocking, set_state, disconnection_notice, known_networks,
  cancel_connection_deadline_timer_if_running, cancel_all_timers_if_running, establish_session,
  terminate_session, start_reconnection,
}

abbrev is_connected : State → Bool
is_connected State.connected = true
is_connected _ = false

abbrev is_waiting_to_reconnect : State → Bool
is_waiting_to_reconnect State.waiting_to_reconnect = true
is_waiting_to_reconnect _ = false

abbrev pub is_snoozed : State → Bool
is_snoozed State.snoozed = true
is_snoozed _ = false

abbrev pub is_paused : State → Bool
is_paused State.paused = true
is_paused _ = false

module _ {S : Type 0} where
  unfoldable pub control_plane_connecting : ℤ → World S → World S
  control_plane_connecting now w = with_reconnector w (λ r. record r {
    telemetry_data = record r.telemetry_data {
      control_plane_connecting_attempts = r.telemetry_data.control_plane_connecting_attempts + 1;
    };
    control_plane_connecting_start_time = at now;
  })

  unfoldable pub control_plane_failure : ℤ → World S → World S
  control_plane_failure now w = with_reconnector w (λ r.
      let (start, latencies) =
        record_latency now r.control_plane_connecting_start_time
          r.telemetry_data.control_plane_failure_latencies in
      record r {
        control_plane_connecting_start_time = start;
        telemetry_data = record r.telemetry_data {
          control_plane_failure_latencies = latencies;
          control_plane_failures = r.telemetry_data.control_plane_failures + 1;
        };
        successive_control_plane_failures = r.successive_control_plane_failures + 1;
      })

  -- The notification goes out before the mutex is taken. Without a deadline timer its expiry won the
  -- race, and nothing else happens.
  unfoldable pub control_plane_connected : ℤ → World S → World S
  control_plane_connected now w =
      let told = notify Notification.control_plane_connected w in
      let recorded = with_reconnector told (λ r.
        let (start, latencies) =
          record_latency now r.control_plane_connecting_start_time
            r.telemetry_data.control_plane_success_latencies in
        record r {
          control_plane_connecting_start_time = start;
          telemetry_data = record r.telemetry_data {
            control_plane_success_latencies = latencies;
            control_plane_connecting_successes =
                r.telemetry_data.control_plane_connecting_successes + 1;
          };
          successive_control_plane_failures = 0;
        }) in
      if told.reconnector.connection_deadline_timer_id == invalid_timer_id
      then told
      else set_state State.connected (cancel_connection_deadline_timer_if_running recorded)

  unfoldable pub datapath_connecting : ℤ → World S → World S
  datapath_connecting now w = with_reconnector w (λ r. record r {
    telemetry_data = record r.telemetry_data {
      data_plane_connecting_attempts = r.telemetry_data.data_plane_connecting_attempts + 1;
    };
    data_plane_connecting_start_time = at now;
  })

  unfoldable pub datapath_connected : ℤ → World S → World S
  datapath_connected now w = notify Notification.connected (
      with_reconnector w (λ r.
        let (start, latencies) =
          record_latency now r.data_plane_connecting_start_time
            r.telemetry_data.data_plane_connecting_latencies in
        record r {
          data_plane_connecting_start_time = start;
          telemetry_data = record r.telemetry_data {
            data_plane_connecting_latencies = latencies;
            data_plane_connecting_successes = r.telemetry_data.data_plane_connecting_successes + 1;
          };
          successive_datapath_failures = 0;
          successive_session_errors = 0;
        }))

  -- What the call reports, and the telemetry begun anew.
  unfoldable pub collect_telemetry : World S → World S × TelemetryData
  collect_telemetry w = (
    with_reconnector w (λ r. record r { telemetry_data = new_telemetry_data }),
    w.reconnector.telemetry_data,
  )

  -- What SessionError does before it starts the reconnection.
  unfoldable pub note_session_error : Status → World S → World S
  note_session_error reason w =
      let w1 = cancel_connection_deadline_timer_if_running w in
      with_reconnector (notify (disconnection_notice reason w1) w1)
        (λ r. record r { successive_session_errors = r.successive_session_errors + 1 })

module _ {S : Type 0} (env : Env S) where
  unfoldable pub start : World S → World S
  start w = establish_session env w

  unfoldable pub stop : World S → World S
  stop w = cancel_all_timers_if_running (terminate_session env ok_status false w)

  unfoldable pub session_error : Status → World S → World S
  unfolding note_session_error
  session_error reason w =
      if w.reconnector.connection_deadline_timer_id == invalid_timer_id
        && not (is_connected w.reconnector.state)
      then w
      else start_reconnection env (note_session_error reason w)

  unfoldable pub force_reconnect : World S → World S
  force_reconnect w =
      let w1 = set_state State.waiting_to_reconnect (terminate_session env ok_status false w) in
      let w2 =
        notify
          (Notification.waiting_to_reconnect (record {
            is_blocking_traffic = is_blocking w1;
            has_available_networks = known_networks w1.reconnector;
            time_to_reconnect = record { seconds = pos 0; nanos = pos 0 };
          }))
          w1 in
      if not (is_connected w.reconnector.state) then w else establish_session env w2

  unfoldable pub permanent_failure : Status → World S → World S
  permanent_failure reason w = notify (Notification.permanent_failure reason) (
      set_state State.permanent_failure
        (terminate_session env reason false (cancel_all_timers_if_running w)))

  unfoldable pub datapath_disconnected : NetworkInfo → Status → World S → World S
  datapath_disconnected network reason w =
      let w1 = notify (network_disconnected network reason) w in
      let w2 = notify (disconnection_notice reason w1) w1 in
      start_reconnection env (
        with_reconnector w2 (λ r. record r {
          successive_datapath_failures = r.successive_datapath_failures + 1;
          telemetry_data = record r.telemetry_data {
            data_plane_failures = r.telemetry_data.data_plane_failures + 1;
          };
        }))

  unfoldable pub reconnect_timer_expired : World S → World S
  reconnect_timer_expired w =
      if not (is_waiting_to_reconnect w.reconnector.state)
      then w
      else establish_session env
          (with_reconnector w (λ r. record r { reconnector_timer_id = invalid_timer_id }))

  unfoldable pub session_connection_timer_expired : World S → World S
  session_connection_timer_expired w =
      if w.reconnector.connection_deadline_timer_id == invalid_timer_id
      then w
      else start_reconnection env (
          with_reconnector w (λ r. record r {
            connection_deadline_timer_id = invalid_timer_id;
            successive_session_errors = r.successive_session_errors + 1;
          }))
