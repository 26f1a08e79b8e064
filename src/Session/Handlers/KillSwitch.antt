-- ===== src/Session/Handlers/KillSwitch.antt =====
-- The tunnel that blocks the traffic stays up through every event of a session of krypton/session.cc
-- but a stop by force.
use vpn_libraries.Prelude.{◌≡◌, Option, none, some, arith}
use vpn_libraries.Prelude.Int.{ℤ}
use vpn_libraries.Utils.Status.{Status, ok_status}
use vpn_libraries.Runtime.{NetworkInfo, SessionTimer, datapath_reattempt, datapath_connecting}
use vpn_libraries.Session.Model.{State, World, Env}
use vpn_libraries.Session.Parts.{cancel_datapath_connecting_timer_if_running}
use vpn_libraries.Session.Parts.KillSwitch.{
  Blocks, set_state-Blocks, notify_datapath_disconnected-Blocks, tunnel-start_reattempt,
}
use vpn_libraries.Session.Tunnels.KillSwitch.{
  tunnel-reset, connect_datapath-Blocks, on_datapath-Blocks,
}
use vpn_libraries.Session.Control.KillSwitch.{rekey-Blocks}
use vpn_libraries.Session.Handlers.{
  handle_rekey_timer_expiry, datapath_established, reconnect_on, attempt_datapath_reconnect,
  failed_on, handle_datapath_failure, handle_datapath_connecting_timeout, datapath_failed,
  datapath_permanent_failure, set_network, timer_expired,
}

module _ {D P K T R : Type 0} (env : Env D P K T R) where
  tunnel-cancel_connecting :
      (w : World D P K R)
      → (cancel_datapath_connecting_timer_if_running w).shared.tunnel ≡ w.shared.tunnel
  unfolding cancel_datapath_connecting_timer_if_running
  tunnel-cancel_connecting w = ground arith

  handle_rekey_timer_expiry-Blocks :
      (w : World D P K R) → Blocks w → Blocks (handle_rekey_timer_expiry env w)
  unfolding handle_rekey_timer_expiry
  handle_rekey_timer_expiry-Blocks w b = grind (arith, rekey-Blocks)

  pub datapath_established-Blocks :
      (now : ℤ) (w : World D P K R) → Blocks w → Blocks (datapath_established env now w)
  unfolding datapath_established
  datapath_established-Blocks now w b =
      let established = set_state-Blocks env State.data_plane_connected ok_status w b in
      grind (arith, tunnel-reset, tunnel-cancel_connecting)

  reconnect_on-Blocks :
      (network : Option NetworkInfo) (w : World D P K R)
      → Blocks w
      → Blocks (reconnect_on env network w)
  unfolding reconnect_on
  reconnect_on-Blocks none w b = notify_datapath_disconnected-Blocks env _ _ w b
  reconnect_on-Blocks (some network) w b = connect_datapath-Blocks env network w b

  attempt_datapath_reconnect-Blocks :
      (w : World D P K R) → Blocks w → Blocks (attempt_datapath_reconnect env w)
  unfolding attempt_datapath_reconnect
  attempt_datapath_reconnect-Blocks w b = grind (arith, reconnect_on-Blocks)

  failed_on-Blocks :
      (network : Option NetworkInfo) (status : Status) (w : World D P K R)
      → Blocks w
      → Blocks (failed_on env network status w)
  unfolding failed_on
  failed_on-Blocks none status w b = b
  failed_on-Blocks (some network) status w b =
      let errs = set_state-Blocks env State.data_plane_error status w b in
      grind (arith, tunnel-start_reattempt, notify_datapath_disconnected-Blocks)

  handle_datapath_failure-Blocks :
      (status : Status) (w : World D P K R)
      → Blocks w
      → Blocks (handle_datapath_failure env status w)
  unfolding handle_datapath_failure
  handle_datapath_failure-Blocks status w b = failed_on-Blocks _ status w b

  handle_datapath_connecting_timeout-Blocks :
      (w : World D P K R) → Blocks w → Blocks (handle_datapath_connecting_timeout env w)
  unfolding handle_datapath_connecting_timeout
  handle_datapath_connecting_timeout-Blocks w b =
      let halted = on_datapath-Blocks env env.datapath_stop w b in
      grind (arith, handle_datapath_failure-Blocks, on_datapath-Blocks)

  pub datapath_failed-Blocks :
      (status : Status) (w : World D P K R) → Blocks w → Blocks (datapath_failed env status w)
  unfolding datapath_failed
  datapath_failed-Blocks status w b =
      handle_datapath_failure-Blocks status (cancel_datapath_connecting_timer_if_running w)
        (rw (tunnel-cancel_connecting w) b)

  pub datapath_permanent_failure-Blocks :
      (status : Status) (w : World D P K R)
      → Blocks w
      → Blocks (datapath_permanent_failure env status w)
  unfolding datapath_permanent_failure
  datapath_permanent_failure-Blocks status w b =
      notify_datapath_disconnected-Blocks env _ status w b

  pub set_network-Blocks :
      (now : ℤ) (network : NetworkInfo) (w : World D P K R)
      → Blocks w
      → Blocks (set_network env now network w).0
  unfolding set_network
  set_network-Blocks now network w b = grind (arith, tunnel-reset, connect_datapath-Blocks)

  pub timer_expired-Blocks :
      (c : SessionTimer) (w : World D P K R) → Blocks w → Blocks (timer_expired env c w)
  unfolding timer_expired
  timer_expired-Blocks SessionTimer.rekey w b = handle_rekey_timer_expiry-Blocks w b
  timer_expired-Blocks datapath_reattempt w b = attempt_datapath_reconnect-Blocks w b
  timer_expired-Blocks datapath_connecting w b = handle_datapath_connecting_timeout-Blocks w b
