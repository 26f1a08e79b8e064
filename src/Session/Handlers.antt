-- ===== src/Session/Handlers.antt =====
-- The datapath's notifications, the timers, the networks and the MTUs in krypton/session.cc.
pub mod KillSwitch
pub mod NullSafety
pub mod Attempts
use vpn_libraries.Prelude.{
  ◌%◌, ℕ, ◌+◌, ◌≡◌, Bool, true, false, Option, none, some, List, [], ◌∷◌, ◌==◌, not, if◌then◌else◌,
}
use vpn_libraries.Prelude.Int.{ℤ, eqb_ℤ}
use vpn_libraries.Prelude.Text.{Text}
use vpn_libraries.Utils.Status.{
  Status, StatusOr, value, error, ok_status, error_status, failed_precondition, deadline_exceeded,
}
use vpn_libraries.Utils.TimeUtil.{ProtoDuration, at, record_latency}
use vpn_libraries.Timer.{invalid_timer_id}
use vpn_libraries.Runtime.{
  NetworkInfo, SessionNotification, SessionTimer, datapath_reattempt, datapath_connecting,
}
use vpn_libraries.Selector.{has_more_addresses}
use vpn_libraries.Session.Model.{uint32_mod, State, Session, World, Env, UpdatePathInfoRequest}
use vpn_libraries.Session.Parts.{
  no_network_info, with_session, notify, set_state, notify_datapath_disconnected,
  start_datapath_reattempt_timer, cancel_datapath_connecting_timer_if_running, is_active,
  is_connected_state,
}
use vpn_libraries.Session.Tunnels.{
  on_datapath, update_tunnel_if_needed, connect_datapath, reset_all_datapath_reattempts,
}
use vpn_libraries.Session.Control.{rekey}

-- What a session adds to KryptonTelemetry.
pub record SessionTelemetry : Type 0 where
  pub successful_rekeys : ℕ
  pub network_switches : ℕ
  pub health_check_attempts : ℕ
  pub health_check_successes : ℕ
  pub successful_network_switches : ℕ
  pub network_switch_latency : List ProtoDuration

abbrev is_data_plane_connected : State → Bool
is_data_plane_connected State.data_plane_connected = true
is_data_plane_connected _ = false

abbrev has_network : Option NetworkInfo → Bool
has_network none = false
has_network (some network) = true

module _ {D P K T R : Type 0} (env : Env D P K T R) where
  unfoldable pub handle_rekey_timer_expiry : World D P K R → World D P K R
  unfolding rekey
  handle_rekey_timer_expiry w =
      if w.session.rekey_timer_id == invalid_timer_id
      then w
      else rekey env (with_session w (λ s. record s { rekey_timer_id = invalid_timer_id }))

  -- The end of a network switch that was under way.
  abbrev switch_ended : ℤ → Session D P K R → Session D P K R
  switch_ended now s =
      let (start, latencies) =
        record_latency now s.network_switch_start_time s.network_switch_latencies in
      if s.switching_network
      then record s {
        successful_network_switches = (s.successful_network_switches + 1) % uint32_mod;
        network_switch_start_time = start;
        network_switch_latencies = latencies;
        switching_network = false;
      }
      else s

  unfoldable pub datapath_established : ℤ → World D P K R → World D P K R
  datapath_established now w =
      let w1 =
        with_session (set_state env State.data_plane_connected ok_status w) (switch_ended now) in
      notify SessionNotification.datapath_connected
        (reset_all_datapath_reattempts env (cancel_datapath_connecting_timer_if_running w1))

  reconnect_on : Option NetworkInfo → World D P K R → World D P K R
  unfolding connect_datapath
  reconnect_on none w =
      notify_datapath_disconnected env no_network_info w.session.latest_datapath_status w
  reconnect_on (some network) w = (connect_datapath env network w).0

  unfoldable pub attempt_datapath_reconnect : World D P K R → World D P K R
  unfolding reconnect_on
  attempt_datapath_reconnect w =
      let w1 = with_session w (λ s. record s { datapath_reattempt_timer_id = invalid_timer_id }) in
      let again = reconnect_on w1.session.active_network_info w1 in
      if w.session.datapath_reattempt_timer_id == invalid_timer_id
      then w
      else if is_data_plane_connected w.session.state
      then w1
      else again

  failed_on : Option NetworkInfo → Status → World D P K R → World D P K R
  failed_on none status w = w
  failed_on (some network) status w =
      let w1 =
        with_session (set_state env State.data_plane_error status w)
          (λ s. record s { latest_datapath_status = status }) in
      if has_more_addresses w1.session.datapath_address_selector
      then start_datapath_reattempt_timer env (
          with_session w1
            (λ s. record s { datapath_reattempt_count = s.datapath_reattempt_count + 1 }))
      else notify_datapath_disconnected env network status w1

  unfoldable pub handle_datapath_failure : Status → World D P K R → World D P K R
  unfolding failed_on
  handle_datapath_failure status w = failed_on w.session.active_network_info status w

  unfoldable pub handle_datapath_connecting_timeout : World D P K R → World D P K R
  unfolding handle_datapath_failure
  handle_datapath_connecting_timeout w =
      let w1 = with_session w (λ s. record s { datapath_connecting_timer_id = invalid_timer_id }) in
      let failed =
        handle_datapath_failure
          (error_status deadline_exceeded "Timed out waiting for DatapathEstablished.")
          (on_datapath env env.datapath_stop w1) in
      if w.session.datapath_connecting_timer_id == invalid_timer_id then w else failed

  unfoldable pub datapath_failed : Status → World D P K R → World D P K R
  unfolding handle_datapath_failure
  datapath_failed status w =
      handle_datapath_failure status (cancel_datapath_connecting_timer_if_running w)

  unfoldable pub datapath_permanent_failure : Status → World D P K R → World D P K R
  datapath_permanent_failure status w = notify_datapath_disconnected env no_network_info status w

  abbrev switch_begun : ℤ → Session D P K R → Session D P K R
  switch_begun now s =
      if has_network s.active_network_info
      then record s {
        switching_network = true;
        network_switch_start_time = at now;
        network_switches_count = (s.network_switches_count + 1) % uint32_mod;
      }
      else s

  unfoldable pub set_network : ℤ → NetworkInfo → World D P K R → World D P K R × Status
  unfolding connect_datapath
  set_network now network w =
      let w1 = reset_all_datapath_reattempts env (
        with_session w (λ s. record (switch_begun now s) { active_network_info = some network })) in
      let connected = connect_datapath env network w1 in
      if not (is_connected_state w1.session.state) then (w1, ok_status) else connected

  unfoldable pub do_rekey : World D P K R → World D P K R
  do_rekey w = rekey env w

  -- What waits in the timer manager for a session.
  unfoldable pub timer_expired : SessionTimer → World D P K R → World D P K R
  unfolding handle_rekey_timer_expiry attempt_datapath_reconnect handle_datapath_connecting_timeout
  timer_expired SessionTimer.rekey w = handle_rekey_timer_expiry w
  timer_expired datapath_reattempt w = attempt_datapath_reconnect w
  timer_expired datapath_connecting w = handle_datapath_connecting_timeout w

module _ {D P K R : Type 0} where
  unfoldable pub datapath_health_check_succeeded : World D P K R → World D P K R
  datapath_health_check_succeeded w =
      with_session w
        (λ s. record s { health_check_succeeded = (s.health_check_succeeded + 1) % uint32_mod })

  unfoldable pub datapath_health_check_starting : World D P K R → World D P K R
  datapath_health_check_starting w =
      with_session w
        (λ s. record s { health_check_attempts = (s.health_check_attempts + 1) % uint32_mod })

  -- The counters start anew. (The provisioning adds its own.)
  unfoldable pub collect_telemetry : World D P K R → World D P K R × SessionTelemetry
  collect_telemetry w =
      let s = w.session in
      (
        with_session w (λ s. record s {
          number_of_rekeys = 0;
          network_switches_count = 0;
          health_check_attempts = 0;
          health_check_succeeded = 0;
          successful_network_switches = 0;
          network_switch_latencies = [];
        }),
        record {
          successful_rekeys = s.number_of_rekeys;
          network_switches = s.network_switches_count;
          health_check_attempts = s.health_check_attempts;
          health_check_successes = s.health_check_succeeded;
          successful_network_switches = s.successful_network_switches;
          network_switch_latency = s.network_switch_latencies;
        },
      )
