-- ===== src/Examples/Krypton.antt =====
-- Runs of krypton/session_manager.cc and of krypton/krypton.cc with all its parts.
use vpn_libraries.Prelude.{ℕ, ◌≡◌, ◌≢◌, refl, Bool, true, false, some, List, [], ◌∷◌, arith, ap}
use vpn_libraries.Prelude.Int.{pos}
use vpn_libraries.Tunnel.{is_tunnel_active}
use vpn_libraries.Tunnel.Safety.{IsBlocking}
use vpn_libraries.SessionManager.{egress_ready, provisioned, datapath_up, datapath_down}
use vpn_libraries.Reconnector.World.{State, new_reconnector}
use vpn_libraries.Reconnector.Snooze.{snooze, permanently_failed, network_set, timer_fired}
use vpn_libraries.Krypton.{
  Krypton, KryptonEvent, initiated, tunnel_update_forced, reconnector_event, session_heard,
  reconnector_env, run,
}
use vpn_libraries.Krypton.KillSwitch.{kill_switch, snooze_opens}
use vpn_libraries.Examples.Network.{wifi_network}
use vpn_libraries.Examples.Tunnel.{blocking-IsBlocking}
use vpn_libraries.Examples.Setup.{Nothing, shared, lost, factory, config, manager}

abbrev krypton : Krypton Nothing ℕ Nothing Nothing
krypton = record { reconnector = new_reconnector; session = manager; shared = shared }

-- A session comes up, loses its datapath, and Krypton fails for good.
abbrev history : List (KryptonEvent Nothing)
history =
    initiated
    ∷ reconnector_event (network_set (some wifi_network))
    ∷ session_heard (egress_ready 0 false)
    ∷ session_heard (provisioned tt false)
    ∷ session_heard datapath_up
    ∷ tunnel_update_forced
    ∷ session_heard (datapath_down lost)
    ∷ reconnector_event (timer_fired 1)
    ∷ reconnector_event (permanently_failed lost)
    ∷ []

kill_switch_example : IsBlocking (run config factory krypton history).shared.tunnel
kill_switch_example =
    kill_switch config factory krypton history
      (tt, (tt, (tt, (tt, (tt, (tt, (tt, (tt, (tt, tt))))))))) blocking-IsBlocking

abbrev is_permanent : State → Bool
is_permanent State.permanent_failure = true
is_permanent _ = false

not_permanent : new_reconnector.state ≢ State.permanent_failure
not_permanent e = let same = ap is_permanent e in unfold new_reconnector in (ground arith)

snooze_opens_example :
    is_tunnel_active
      (snooze (reconnector_env config factory) (pos 0) (pos 5000000000) krypton).0.shared.tunnel
    ≡ false
snooze_opens_example =
    snooze_opens config factory (pos 0) (pos 5000000000) krypton not_permanent refl
