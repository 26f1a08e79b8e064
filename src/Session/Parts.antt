-- ===== src/Session/Parts.antt =====
-- States, timers and notifications of krypton/session.cc.
pub mod KillSwitch
pub mod NullSafety
use vpn_libraries.Prelude.{
  ℕ, ◌+◌, ◌≡◌, Bool, true, false, Option, none, some, List, [], ◌∷◌, not, ◌==◌, if◌then◌else◌,
  String,
}
use vpn_libraries.Prelude.Int.{ℤ, pos}
use vpn_libraries.Utils.Status.{
  Status, StatusOr, value, error, ok_status, vpn_permission_revoked, get_ppn_status_details,
}
use vpn_libraries.Timer.{TimerManager, invalid_timer_id, start_timer, cancel_timer}
use vpn_libraries.Tunnel.{TunnelManager, datapath_stopped}
use vpn_libraries.Runtime.{
  NetworkInfo, Shared, SessionNotification, SessionTimer, TimerCb, session_timer, to_reconnector,
  post, value_or,
}
use vpn_libraries.Session.Model.{State, Session, World, Env}

-- NetworkInfo(), with no field set.
abbrev pub no_network_info : NetworkInfo
no_network_info = record {
  network_type = none;
  is_metered = none;
  address_family = none;
  mtu = none;
  network_id = none;
}

-- kDatapathReattemptDuration: 500 milliseconds.
abbrev datapath_reattempt_duration : ℤ
datapath_reattempt_duration = pos 500000000

module _ {D P K R : Type 0} where
  abbrev pub with_session : World D P K R → (Session D P K R → Session D P K R) → World D P K R
  with_session w f = record w { session = f w.session }

  abbrev pub with_timers : World D P K R → TimerManager TimerCb → World D P K R
  with_timers w t = record w { shared = record w.shared { timers = t } }

  abbrev pub with_tunnel : World D P K R → TunnelManager → World D P K R
  with_tunnel w t = record w { shared = record w.shared { tunnel = t } }

  abbrev pub notify : SessionNotification → World D P K R → World D P K R
  notify n w = record w { shared = post (to_reconnector n) w.shared }

  -- timer_manager_->CancelTimer, unless the id is invalid.
  abbrev cancelled : ℕ → World D P K R → World D P K R
  cancelled id w =
      if not (id == invalid_timer_id) then with_timers w (cancel_timer w.shared.timers id) else w

  unfoldable pub cancel_rekey_timer_if_running : World D P K R → World D P K R
  cancel_rekey_timer_if_running w =
      with_session (cancelled w.session.rekey_timer_id w)
        (λ s. record s { rekey_timer_id = invalid_timer_id })

  unfoldable pub cancel_datapath_reattempt_timer_if_running : World D P K R → World D P K R
  cancel_datapath_reattempt_timer_if_running w =
      with_session (cancelled w.session.datapath_reattempt_timer_id w)
        (λ s. record s { datapath_reattempt_timer_id = invalid_timer_id })

  unfoldable pub cancel_datapath_connecting_timer_if_running : World D P K R → World D P K R
  cancel_datapath_connecting_timer_if_running w =
      with_session (cancelled w.session.datapath_connecting_timer_id w)
        (λ s. record s { datapath_connecting_timer_id = invalid_timer_id })

module _ {D P K T R : Type 0} (env : Env D P K T R) where
  -- The world after a start, and the id if the platform took it.
  abbrev armed : ℤ → SessionTimer → String → World D P K R → World D P K R × StatusOr ℕ
  armed duration timer label w =
      let (timers, id) =
        start_timer env.timer_interface w.shared.timers duration (session_timer timer) label in
      (with_timers w timers, id)

  unfoldable pub start_rekey_timer : World D P K R → World D P K R
  start_rekey_timer w =
      let w1 = cancel_rekey_timer_if_running w in
      let (w2, id) = armed w1.session.rekey_timer_duration SessionTimer.rekey "Rekey" w1 in
      with_session w2 (λ s. record s { rekey_timer_id = value_or id s.rekey_timer_id })

  unfoldable pub start_datapath_reattempt_timer : World D P K R → World D P K R
  start_datapath_reattempt_timer w =
      let w1 = cancel_datapath_reattempt_timer_if_running w in
      let (w2, id) =
        armed datapath_reattempt_duration SessionTimer.datapath_reattempt "DatapathReattempt" w1 in
      with_session w2
        (λ s. record s { datapath_reattempt_timer_id = value_or id s.datapath_reattempt_timer_id })

  unfoldable pub start_datapath_connecting_timer : World D P K R → World D P K R
  start_datapath_connecting_timer w =
      let w1 = cancel_datapath_connecting_timer_if_running w in
      let (w2, id) =
        armed w1.session.datapath_connecting_timer_duration SessionTimer.datapath_connecting
          "DatapathConnecting" w1 in
      with_session w2 (λ s. record s {
        datapath_connecting_timer_id = value_or id s.datapath_connecting_timer_id;
      })

  -- The `switch` of SetState.
  announce_state : State → Status → World D P K R → World D P K R
  announce_state State.control_plane_connected status w =
      start_rekey_timer (notify SessionNotification.control_plane_connected w)
  announce_state State.session_error status w = notify (SessionNotification.session_error status) w
  announce_state State.permanent_error status w =
      notify (SessionNotification.permanent_failure status) w
  announce_state _ status w = w

  unfoldable pub set_state : State → Status → World D P K R → World D P K R
  unfolding announce_state
  set_state state status w =
      announce_state state status
        (with_session w (λ s. record s { state = state; latest_status = status }))

  abbrev stop_if_any : Option D → Option D
  stop_if_any none = none
  stop_if_any (some d) = some (env.datapath_stop d)

  unfoldable pub notify_datapath_disconnected : NetworkInfo → Status → World D P K R → World D P K R
  notify_datapath_disconnected network status w =
      let w1 =
        cancel_datapath_connecting_timer_if_running
          (set_state State.data_plane_permanent_error status w) in
      let w2 = with_session w1 (λ s. record s { datapath = stop_if_any s.datapath }) in
      notify (SessionNotification.datapath_disconnected network status)
        (with_tunnel w2 (datapath_stopped w2.shared.tunnel false))

unfoldable pub is_active : State → Bool
is_active State.initialized = true
is_active State.egress_session_created = true
is_active State.control_plane_connected = true
is_active State.data_plane_connected = true
is_active State.data_plane_error = true
is_active _ = false

-- Rekeys and networks are for these states only.
unfoldable pub is_connected_state : State → Bool
is_connected_state State.control_plane_connected = true
is_connected_state State.data_plane_connected = true
is_connected_state State.data_plane_error = true
is_connected_state _ = false

unfoldable pub is_tunnel_creation_error_permanent : Status → Bool
unfolding get_ppn_status_details
is_tunnel_creation_error_permanent s =
    (get_ppn_status_details s).detailed_error_code == vpn_permission_revoked
