-- ===== src/Session/Handlers/Attempts.antt =====
-- What krypton/session.cc does about a datapath that fails, and when it gives up.
use vpn_libraries.Prelude.{◌+◌, ◌≡◌, ◌⊎◌, inl, inr, true, false, some, ◌∷◌, arith, Bool-cases}
use vpn_libraries.Prelude.Int.{ℤ}
use vpn_libraries.Utils.Status.{Status}
use vpn_libraries.Timer.{invalid_timer_id}
use vpn_libraries.Runtime.{NetworkInfo, SessionNotification, to_reconnector}
use vpn_libraries.Selector.{has_more_addresses, reset}
use vpn_libraries.Session.Model.{State, World, Env}
use vpn_libraries.Session.Parts.{
  set_state, notify_datapath_disconnected, start_datapath_reattempt_timer,
  cancel_datapath_reattempt_timer_if_running, cancel_datapath_connecting_timer_if_running,
}
use vpn_libraries.Session.Tunnels.{reset_all_datapath_reattempts}
use vpn_libraries.Session.Handlers.{handle_datapath_failure, datapath_established}

module _ {D P K T R : Type 0} (env : Env D P K T R) where
  -- A failure of the datapath, with a network: while an address is left, the session notes a further
  -- attempt and tells the reconnector nothing; once none is left, it gives up, with the reconnector
  -- told of the network and the reason.
  pub datapath_failure_branches :
      (status : Status) (network : NetworkInfo) (w : World D P K R)
      → w.session.active_network_info ≡ some network
      → let w' = handle_datapath_failure env status w in
        ((has_more_addresses w.session.datapath_address_selector ≡ true)
          × (w'.session.state ≡ State.data_plane_error)
          × (w'.session.datapath_reattempt_count ≡ w.session.datapath_reattempt_count + 1)
          × (w'.shared.posted ≡ w.shared.posted))
        ⊎ ((has_more_addresses w.session.datapath_address_selector ≡ false)
            × (w'.session.state ≡ State.data_plane_permanent_error)
            × (w'.shared.posted
                ≡ to_reconnector (SessionNotification.datapath_disconnected network status)
                  ∷ w.shared.posted))
  unfolding handle_datapath_failure set_state notify_datapath_disconnected
      start_datapath_reattempt_timer cancel_datapath_reattempt_timer_if_running
      cancel_datapath_connecting_timer_if_running
  datapath_failure_branches status network w h =
      elim (Bool-cases (has_more_addresses w.session.datapath_address_selector)) [
        | inl more ↦ inl (more, ground arith, ground arith, ground arith)
        | inr done ↦ inr (done, ground arith, ground arith)
      ]

  -- Once the datapath is established, the session is connected, no reattempt or connecting timer is
  -- noted, and the attempts start anew with the selector as reset for the addresses and the network.
  pub datapath_established_resets :
      (now : ℤ) (w : World D P K R)
      → let s = (datapath_established env now w).session in
        (s.state ≡ State.data_plane_connected)
        × (s.datapath_reattempt_timer_id ≡ invalid_timer_id)
        × (s.datapath_connecting_timer_id ≡ invalid_timer_id)
        × (s.datapath_reattempt_count ≡ 0)
        × (s.datapath_address_selector
            ≡ reset env.net_library env.selector_config w.session.egress_node_sock_addresses
                w.session.active_network_info)
  unfolding datapath_established set_state reset_all_datapath_reattempts
      cancel_datapath_reattempt_timer_if_running cancel_datapath_connecting_timer_if_running
  datapath_established_resets now w =
      (ground arith, ground arith, ground arith, ground arith, ground arith)
