-- ===== src/Examples/Session.antt =====
-- Runs of krypton/session.cc.
use vpn_libraries.Prelude.{ℕ, ◌≡◌, refl, inl, true, false, some, none, List, [], ◌∷◌, arith}
use vpn_libraries.Prelude.Int.{pos}
use vpn_libraries.Timer.Laws.{running}
use vpn_libraries.Session.Model.{State, World}
use vpn_libraries.Session.Control.{stop, released}
use vpn_libraries.Session.Control
use vpn_libraries.Session.Control.Rekeying.{Keeps, provisioned_rekey-Keeps}
use vpn_libraries.Session.Control.Stopped.{stop_cancels}
use vpn_libraries.SessionManager.{provisioned, datapath_up, datapath_down}
use vpn_libraries.Examples.Network.{wifi_network}
use vpn_libraries.SessionManager.NullSafety.{
  SessionCall, heard, expired, told_network, update_forced, calls, keyed_session, never_faults,
}
use vpn_libraries.Runtime.{datapath_reattempt, SessionTimer, session_timer}
use vpn_libraries.Timer.{start_timer, new_timer_manager}
use vpn_libraries.Examples.Timer.{timer_interface}
use vpn_libraries.SessionManager.{datapath_gone, downlink_mtu_changed}
use vpn_libraries.Examples.Setup.{Nothing, env, shared, lost, world_in, factory}

-- The rekey timer of a session with a datapath is running, with id 0.
abbrev timed_world : World Nothing ℕ Nothing Nothing
timed_world =
    let w = world_in State.data_plane_connected in
    record {
      session = record w.session { rekey_timer_id = 0 };
      shared = record w.shared {
        timers =
            (start_timer timer_interface w.shared.timers (pos 500)
              (session_timer SessionTimer.rekey) "Rekey").0;
      };
    }

rekey_timer_runs : running timed_world.shared.timers 0 ≡ some (session_timer SessionTimer.rekey)
unfolding start_timer new_timer_manager running
rekey_timer_runs = refl

stop_cancels_example :
    let w' = stop env false timed_world in
    (running w'.shared.timers 0 ≡ none)
    × (w'.session.state ≡ State.stopped)
    × (w'.session.datapath ≡ none)
    × (w'.session.released_datapaths
        ≡ released env timed_world.session.datapath timed_world.session.released_datapaths)
stop_cancels_example = stop_cancels env false timed_world 0 (omega arith) (inl refl)

provisioned_rekey-Keeps_example :
    Keeps
      (world_in State.data_plane_connected)
      (Control.provisioned env tt true (world_in State.data_plane_connected))
provisioned_rekey-Keeps_example =
    provisioned_rekey-Keeps env tt (world_in State.data_plane_connected)

-- The session comes up, loses its datapath, tries again, gives up, and hears on.
abbrev session_history : List (SessionCall Nothing)
session_history =
    heard (pos 1) (provisioned tt false)
    ∷ heard (pos 2) datapath_up
    ∷ heard (pos 3) (datapath_down lost)
    ∷ expired datapath_reattempt
    ∷ heard (pos 4) (datapath_gone lost)
    ∷ told_network (pos 5) wifi_network
    ∷ update_forced
    ∷ heard (pos 6) (downlink_mtu_changed (pos 1300))
    ∷ heard (pos 7) (provisioned tt true)
    ∷ []

never_faults_example :
    (calls factory
      (keyed_session factory 0 (some wifi_network) shared 0)
      session_history).session.faulted
    ≡ false
never_faults_example = never_faults factory 0 (some wifi_network) shared 0 session_history refl
