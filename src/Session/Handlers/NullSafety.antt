-- ===== src/Session/Handlers/NullSafety.antt =====
-- The pointers of krypton/session.cc through the datapath's notifications, the timers and the
-- networks.
use vpn_libraries.Prelude.{◌+◌, Option, none, some, arith}
use vpn_libraries.Prelude.Int.{ℤ}
use vpn_libraries.Utils.Status.{Status, ok_status, error_status, deadline_exceeded}
use vpn_libraries.Runtime.{NetworkInfo, SessionTimer, datapath_reattempt, datapath_connecting}
use vpn_libraries.Session.Model.{State, World, Env}
use vpn_libraries.Session.Parts.{
  with_session, set_state, cancel_datapath_connecting_timer_if_running,
}
use vpn_libraries.Session.Parts.NullSafety.{
  Sound, set_state-Sound, notify_datapath_disconnected-Sound, start_reattempt-Sound,
  cancel_connecting-Sound,
}
use vpn_libraries.Session.Tunnels.NullSafety.{
  reset-Sound, connect_datapath-Sound, on_datapath-Sound,
}
use vpn_libraries.Session.Control.NullSafety.{rekey-Sound}
use vpn_libraries.Timer.{invalid_timer_id}
use vpn_libraries.Session.Tunnels.{reset_all_datapath_reattempts, on_datapath}
use vpn_libraries.Session.Handlers.{
  switch_ended, switch_begun, handle_rekey_timer_expiry, datapath_established, reconnect_on,
  attempt_datapath_reconnect, failed_on, handle_datapath_failure,
  handle_datapath_connecting_timeout, datapath_failed, datapath_permanent_failure, set_network,
  timer_expired,
}

module _ {D P K T R : Type 0} (env : Env D P K T R) where
  handle_rekey_timer_expiry-Sound :
      (w : World D P K R) → Sound w → Sound (handle_rekey_timer_expiry env w)
  unfolding handle_rekey_timer_expiry
  handle_rekey_timer_expiry-Sound w b =
      let told =
        rekey-Sound env (with_session w (λ s. record s { rekey_timer_id = invalid_timer_id })) b in
      ground arith

  established-Sound :
      (now : ℤ) (w : World D P K R)
      → Sound w
      → Sound (
          with_session
            (set_state env State.data_plane_connected ok_status w)
            (switch_ended env now))
  established-Sound now w b =
      let s = set_state-Sound env State.data_plane_connected ok_status w b in ground arith

  pub datapath_established-Sound :
      (now : ℤ) (w : World D P K R) → Sound w → Sound (datapath_established env now w)
  unfolding datapath_established
  datapath_established-Sound now w b =
      let w1 =
        with_session (set_state env State.data_plane_connected ok_status w)
          (switch_ended env now) in
      reset-Sound env (cancel_datapath_connecting_timer_if_running w1)
        (cancel_connecting-Sound w1 (established-Sound now w b))

  reconnect_on-Sound :
      (network : Option NetworkInfo) (w : World D P K R)
      → Sound w
      → Sound (reconnect_on env network w)
  unfolding reconnect_on
  reconnect_on-Sound none w b = notify_datapath_disconnected-Sound env _ _ w b
  reconnect_on-Sound (some network) w b = connect_datapath-Sound env network w b

  attempt_datapath_reconnect-Sound :
      (w : World D P K R) → Sound w → Sound (attempt_datapath_reconnect env w)
  unfolding attempt_datapath_reconnect
  attempt_datapath_reconnect-Sound w b =
      let w1 = with_session w (λ s. record s { datapath_reattempt_timer_id = invalid_timer_id }) in
      let again = reconnect_on-Sound w1.session.active_network_info w1 b in ground arith

  failed_on-Sound :
      (network : Option NetworkInfo) (status : Status) (w : World D P K R)
      → Sound w
      → Sound (failed_on env network status w)
  unfolding failed_on
  failed_on-Sound none status w b = b
  failed_on-Sound (some network) status w b =
      let failed = set_state env State.data_plane_error status w in
      let w1 = with_session failed (λ s. record s { latest_datapath_status = status }) in
      let noted =
        with_session w1
          (λ s. record s { datapath_reattempt_count = s.datapath_reattempt_count + 1 }) in
      let sound = set_state-Sound env State.data_plane_error status w b in
      let again = start_reattempt-Sound env noted sound in
      let gives_up = notify_datapath_disconnected-Sound env network status w1 sound in ground arith

  handle_datapath_failure-Sound :
      (status : Status) (w : World D P K R) → Sound w → Sound (handle_datapath_failure env status w)
  unfolding handle_datapath_failure
  handle_datapath_failure-Sound status w b = failed_on-Sound _ status w b

  handle_datapath_connecting_timeout-Sound :
      (w : World D P K R) → Sound w → Sound (handle_datapath_connecting_timeout env w)
  unfolding handle_datapath_connecting_timeout
  handle_datapath_connecting_timeout-Sound w b =
      let w1 = with_session w (λ s. record s { datapath_connecting_timer_id = invalid_timer_id }) in
      let halted = on_datapath-Sound env env.datapath_stop w1 b in
      let failed =
        handle_datapath_failure-Sound
          (error_status deadline_exceeded "Timed out waiting for DatapathEstablished.")
          (on_datapath env env.datapath_stop w1) halted in
      ground arith

  pub datapath_failed-Sound :
      (status : Status) (w : World D P K R) → Sound w → Sound (datapath_failed env status w)
  unfolding datapath_failed
  datapath_failed-Sound status w b =
      handle_datapath_failure-Sound status (cancel_datapath_connecting_timer_if_running w)
        (cancel_connecting-Sound w b)

  pub datapath_permanent_failure-Sound :
      (status : Status) (w : World D P K R)
      → Sound w
      → Sound (datapath_permanent_failure env status w)
  unfolding datapath_permanent_failure
  datapath_permanent_failure-Sound status w b = notify_datapath_disconnected-Sound env _ status w b

  begun-Sound :
      (now : ℤ) (network : NetworkInfo) (w : World D P K R)
      → Sound w
      → Sound (
          with_session w
            (λ s. record (switch_begun env now s) { active_network_info = some network }))
  begun-Sound now network w b = ground arith

  pub set_network-Sound :
      (now : ℤ) (network : NetworkInfo) (w : World D P K R)
      → Sound w
      → Sound (set_network env now network w).0
  unfolding set_network
  set_network-Sound now network w b =
      let w0 =
        with_session w
          (λ s. record (switch_begun env now s) { active_network_info = some network }) in
      let w1 = reset_all_datapath_reattempts env w0 in
      let sound = reset-Sound env w0 (begun-Sound now network w b) in
      let connected = connect_datapath-Sound env network w1 sound in ground arith

  pub timer_expired-Sound :
      (c : SessionTimer) (w : World D P K R) → Sound w → Sound (timer_expired env c w)
  unfolding timer_expired
  timer_expired-Sound SessionTimer.rekey w b = handle_rekey_timer_expiry-Sound w b
  timer_expired-Sound datapath_reattempt w b = attempt_datapath_reconnect-Sound w b
  timer_expired-Sound datapath_connecting w b = handle_datapath_connecting_timeout-Sound w b
