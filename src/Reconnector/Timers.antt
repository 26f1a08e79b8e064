-- ===== src/Reconnector/Timers.antt =====
-- The timers, notifications and sessions of krypton/reconnector.cc: the private methods that its
-- handlers share.
use vpn_libraries.Prelude.{
  ℕ, ◌+◌, ◌*◌, ◌^◌, min, max, Bool, true, false, Option, none, some, ltb, ◌==◌, if◌then◌else◌,
  is_some, not,
}
use vpn_libraries.Prelude.Int.{ℤ, pos}
use vpn_libraries.Utils.Status.{
  Status, StatusOr, value, error, ok_status, error_status, already_exists, failed_precondition,
  deadline_exceeded, raw_code, get_ppn_status_details,
}
use vpn_libraries.Utils.TimeUtil.{ProtoDuration, finite, to_proto_duration}
use vpn_libraries.Timer.{TimerManager, invalid_timer_id, start_timer, cancel_timer}
use vpn_libraries.Tunnel.{is_tunnel_active}
use vpn_libraries.Runtime.{
  Notification, disconnected, waiting_to_reconnect, connecting, to_app, post, Shared, TimerCb,
  reconnect_cb, session_connection_cb, snooze_cb,
}
use vpn_libraries.Reconnector.World.{
  State, waiting_for_session_establishment, permanent_failure, Reconnector, World, Env,
  new_telemetry_data,
}

-- kMaxDuration, 24 hours, in milliseconds.
abbrev pub max_duration_msec : ℕ
max_duration_msec = 86400000

abbrev pub milliseconds : ℕ → ℤ
milliseconds n = pos (n * 1000000)

-- The exponential backoff, in milliseconds. From 2^1024 on std::pow gives infinity, and so the
-- product is the infinite duration.
unfoldable pub get_reconnect_duration : ℕ → Reconnector → ℕ
get_reconnect_duration initial_msec r =
    let max_reattempts_till_now = max r.successive_session_errors r.successive_datapath_failures in
    if ltb max_reattempts_till_now 1024
    then min (initial_msec * 2 ^ max_reattempts_till_now) max_duration_msec
    else max_duration_msec

-- has_available_networks is set only once SetNetwork was called.
abbrev pub known_networks : Reconnector → Option Bool
known_networks r = if r.set_network_called then some (is_some r.active_network_info) else none

abbrev pub is_permanent : State → Bool
is_permanent permanent_failure = true
is_permanent _ = false

module _ {S : Type 0} where
  abbrev pub with_reconnector : World S → (Reconnector → Reconnector) → World S
  with_reconnector w f = record w { reconnector = f w.reconnector }

  abbrev pub with_timers : World S → TimerManager TimerCb → World S
  with_timers w t = record w { shared = record w.shared { timers = t } }

  -- The session manager's call, on its own state and what it shares.
  abbrev pub with_session : World S → S × Shared → World S
  with_session w (s, h) = record w { session = s; shared = h }

  abbrev pub notify : Notification → World S → World S
  notify n w = record w { shared = post (to_app n) w.shared }

  abbrev pub is_blocking : World S → Bool
  is_blocking w = is_tunnel_active w.shared.tunnel

  unfoldable pub set_state : State → World S → World S
  set_state s w = with_reconnector w (λ r. record r { state = s })

  abbrev pub disconnection_notice : Status → World S → Notification
  disconnection_notice reason w = disconnected (record {
    code = raw_code reason.code;
    message = reason.message;
    is_blocking_traffic = is_blocking w;
    has_available_networks = is_some w.reconnector.active_network_info;
    ppn_status_details = get_ppn_status_details reason;
  })

  unfoldable pub cancel_reconnector_timer_if_running : World S → World S
  cancel_reconnector_timer_if_running w =
      if w.reconnector.reconnector_timer_id == invalid_timer_id
      then w
      else with_reconnector
          (with_timers w (cancel_timer w.shared.timers w.reconnector.reconnector_timer_id))
          (λ r. record r { reconnector_timer_id = invalid_timer_id })

  unfoldable pub cancel_snooze_timer : World S → World S
  cancel_snooze_timer w =
      if w.reconnector.snooze_timer_id == invalid_timer_id
      then w
      else with_reconnector
          (with_timers w (cancel_timer w.shared.timers w.reconnector.snooze_timer_id))
          (λ r. record r { snooze_timer_id = invalid_timer_id })

  unfoldable pub cancel_connection_deadline_timer_if_running : World S → World S
  cancel_connection_deadline_timer_if_running w =
      if w.reconnector.connection_deadline_timer_id == invalid_timer_id
      then w
      else with_reconnector
          (with_timers w (cancel_timer w.shared.timers w.reconnector.connection_deadline_timer_id))
          (λ r. record r { connection_deadline_timer_id = invalid_timer_id })

  unfoldable pub cancel_all_timers_if_running : World S → World S
  cancel_all_timers_if_running w =
      cancel_snooze_timer
        (cancel_reconnector_timer_if_running (cancel_connection_deadline_timer_if_running w))

  unfoldable pub reset_failure_counters : World S → World S
  reset_failure_counters w = with_reconnector w (λ r. record r {
    successive_session_errors = 0;
    successive_datapath_failures = 0;
    successive_control_plane_failures = 0;
  })

  announce_reconnection : StatusOr ProtoDuration → World S → World S × Status
  announce_reconnection (error s) w = (w, s)
  announce_reconnection (value d) w = (
    notify
        (waiting_to_reconnect (record {
          is_blocking_traffic = is_blocking w;
          has_available_networks = known_networks w.reconnector;
          time_to_reconnect = d;
        }))
        w,
    ok_status,
  )

  reconnector_timer_started : ℕ → World S → TimerManager TimerCb × StatusOr ℕ → World S × Status
  unfolding announce_reconnection
  reconnector_timer_started duration w (t, error s) = (with_timers w t, s)
  reconnector_timer_started duration w (t, value id) =
      announce_reconnection (to_proto_duration (finite (milliseconds duration)))
        (with_reconnector (with_timers w t) (λ r. record r { reconnector_timer_id = id }))

  snooze_timer_started : World S → TimerManager TimerCb × StatusOr ℕ → World S × Status
  snooze_timer_started w (t, error s) = (with_timers w t, s)
  snooze_timer_started w (t, value id) =
      (with_reconnector (with_timers w t) (λ r. record r { snooze_timer_id = id }), ok_status)

  deadline_timer_started : World S → TimerManager TimerCb × StatusOr ℕ → World S × Status
  deadline_timer_started w (t, error s) = (with_timers w t, s)
  deadline_timer_started w (t, value id) = (
    with_reconnector (with_timers w t) (λ r. record r { connection_deadline_timer_id = id }),
    ok_status,
  )

module _ {S : Type 0} (env : Env S) where
  unfoldable pub start_reconnector_timer : World S → World S × Status
  unfolding reconnector_timer_started
  start_reconnector_timer w =
      let duration = get_reconnect_duration env.initial_time_to_reconnect_msec w.reconnector in
      let w' = cancel_reconnector_timer_if_running w in
      reconnector_timer_started duration w' (
        start_timer env.timer_interface w'.shared.timers (milliseconds duration) reconnect_cb
          "Reconnect")

  unfoldable pub start_snooze_timer : ℤ → World S → World S × Status
  unfolding snooze_timer_started
  start_snooze_timer duration w =
      if not (w.reconnector.snooze_timer_id == invalid_timer_id)
      then (w, error_status already_exists "Snooze is already scheduled. Refusing to reschedule.")
      else if is_permanent w.reconnector.state
      then (
        w,
        error_status failed_precondition "Krypton is in a PermanentFailure. Refusing to snooze.",
      )
      else snooze_timer_started w
          (start_timer env.timer_interface w.shared.timers duration snooze_cb "Snooze")

  unfoldable pub start_connection_deadline_timer : World S → World S × Status
  unfolding deadline_timer_started
  start_connection_deadline_timer w =
      let w' = cancel_connection_deadline_timer_if_running w in
      deadline_timer_started w' (
        start_timer env.timer_interface w'.shared.timers
          (milliseconds env.session_connection_deadline_msec) session_connection_cb
          "SessionConnection")

  unfoldable pub establish_session : World S → World S
  establish_session w =
      let r = w.reconnector in
      let begun =
        with_session
          (with_reconnector w (λ r'. record r' {
            session_restart_counter = r'.session_restart_counter + 1;
            telemetry_data = record r'.telemetry_data {
              session_restarts = r'.telemetry_data.session_restarts + 1;
            };
          }))
          (env.session_manager.establish r.session_restart_counter r.active_network_info
            (w.session, w.shared)) in
      let armed =
        set_state waiting_for_session_establishment (start_connection_deadline_timer begun).0 in
      notify (connecting (is_blocking armed)) armed

  unfoldable pub terminate_session : Status → Bool → World S → World S
  terminate_session reason force_fail_open w =
      let w' =
        with_session w (env.session_manager.terminate force_fail_open (w.session, w.shared)) in
      notify (disconnection_notice reason w') w'

  -- A timer that does not start is only logged.
  unfoldable pub start_reconnection : World S → World S
  start_reconnection w =
      set_state State.waiting_to_reconnect
        (start_reconnector_timer
          (terminate_session (error_status deadline_exceeded "Waiting to reconnect") false w)).0

-- Opens all of the above for a proof or a test.
unfoldable pub parts : Unit {0}
unfolding set_state cancel_connection_deadline_timer_if_running cancel_reconnector_timer_if_running
    cancel_snooze_timer cancel_all_timers_if_running get_reconnect_duration reset_failure_counters
    start_reconnector_timer start_snooze_timer start_connection_deadline_timer establish_session
    terminate_session start_reconnection new_telemetry_data
parts = tt
