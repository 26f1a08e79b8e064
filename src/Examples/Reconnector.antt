-- ===== src/Examples/Reconnector.antt =====
-- Runs of krypton/reconnector.cc with a session manager that only closes the tunnel.
use vpn_libraries.Prelude.{
  ◌+◌, ◌≤◌, min, ◌≡◌, refl, inl, Bool, false, some, none, List, [], ◌∷◌, arith,
}
use vpn_libraries.Utils.Status.{Status, ok_status, error_status, unavailable}
use vpn_libraries.Timer.{new_timer_manager}
use vpn_libraries.Timer.Laws.{new-IsFresh, running}
use vpn_libraries.Tunnel.{is_tunnel_active, is_safe_disconnect_enabled, datapath_stopped}
use vpn_libraries.Tunnel.Safety.{IsBlocking}
use vpn_libraries.Runtime.{Shared, reconnect_cb}
use vpn_libraries.Reconnector.World.{
  State, Reconnector, World, Env, SessionManagerInterface, SessionManagerLaws, new_reconnector,
}
use vpn_libraries.Reconnector.Timers.{get_reconnect_duration, max_duration_msec}
use vpn_libraries.Reconnector.Handlers.{session_error}
use vpn_libraries.Reconnector.Snooze.{
  Event, started, session_failed, permanently_failed, network_set, timer_fired, set_network,
  timer_fires, run,
}
use vpn_libraries.Reconnector.Invariant.{Inv, run-Inv, new-Inv}
use vpn_libraries.Reconnector.KillSwitch.{run-Blocks}
use vpn_libraries.Reconnector.Armed.{session_error_reconnects}
use vpn_libraries.Reconnector.Snoozing.{backoff_bounds, permanent_failure_left}
use vpn_libraries.Examples.Network.{wifi_network}
use vpn_libraries.Examples.Tunnel.{vpn_service, blocking, blocking-IsBlocking}
use vpn_libraries.Examples.Timer.{timer_interface}

abbrev close_session : Bool → Unit {0} × Shared → Unit {0} × Shared
close_session force (s, h) = (s, record h { tunnel = datapath_stopped h.tunnel force })

abbrev session_manager : SessionManagerInterface (Unit {0})
session_manager = record {
  establish = λ n net w. w;
  terminate = close_session;
  set_network = λ net w. (w, ok_status);
  timer_expired = λ c w. w;
}

stopped-IsBlocking :
    (h : Shared) → IsBlocking h.tunnel → IsBlocking (datapath_stopped h.tunnel false)
unfolding datapath_stopped is_tunnel_active is_safe_disconnect_enabled
stopped-IsBlocking h b = ground arith

session_manager_laws : SessionManagerLaws session_manager
session_manager_laws = record {
  establish-IsBlocking = λ n net s h b. b;
  terminate-IsBlocking = λ s h b. stopped-IsBlocking h b;
  set_network-IsBlocking = λ net s h b. b;
  timer_expired-IsBlocking = λ c s h b. b;
  terminate-IsFresh = λ force s h f. f;
}

abbrev env : Env (Unit {0})
env = record {
  initial_time_to_reconnect_msec = 2000;
  session_connection_deadline_msec = 30000;
  timer_interface = timer_interface;
  vpn_service = vpn_service;
  session_manager = session_manager;
}

abbrev shared : Shared
shared = record { tunnel = blocking; timers = new_timer_manager; posted = [] }

abbrev lost : Status
lost = error_status unavailable "no route"

-- At first, and in a given state.
abbrev new_world : World (Unit {0})
new_world = record { reconnector = new_reconnector; session = tt; shared = shared }

abbrev reconnector_in : State → Reconnector
reconnector_in s = record new_reconnector { state = s }

abbrev world_in : State → World (Unit {0})
world_in s = record { reconnector = reconnector_in s; session = tt; shared = shared }

-- A start, an error of the session, a reconnect timer that fires, a permanent failure, the network
-- lost and back.
abbrev history : List Event
history =
    started
    ∷ session_failed lost
    ∷ timer_fired 1
    ∷ permanently_failed lost
    ∷ network_set none
    ∷ network_set (some wifi_network)
    ∷ []

initial_state : new_world.reconnector.state ≡ State.initial
unfolding new_reconnector
initial_state = refl

run-Blocks_example : IsBlocking (run env new_world history).shared.tunnel
run-Blocks_example =
    run-Blocks env session_manager_laws new_world history (tt, (tt, (tt, (tt, (tt, (tt, tt))))))
      blocking-IsBlocking

run-Inv_example : Inv (run env new_world history).reconnector
run-Inv_example =
    run-Inv env new_world history (initial_state, (tt, (tt, (tt, (tt, (tt, tt)))))) new-Inv

session_error_reconnects_example :
    let w' = session_error env lost (world_in State.connected) in
    let r = (timer_fires env w'.reconnector.reconnector_timer_id w').reconnector in
    (running w'.shared.timers w'.reconnector.reconnector_timer_id ≡ some reconnect_cb)
    × (r.state ≡ State.waiting_for_session_establishment)
    × (r.session_restart_counter
        ≡ (world_in State.connected).reconnector.session_restart_counter + 1)
session_error_reconnects_example =
    session_error_reconnects env session_manager_laws (world_in State.connected) lost (λ id d. refl)
      new-IsFresh (inl refl)

backoff_bounds_example :
    (min 2000 max_duration_msec ≤ get_reconnect_duration 2000 new_reconnector)
    × (get_reconnect_duration 2000 new_reconnector ≤ max_duration_msec)
backoff_bounds_example = backoff_bounds 2000 new_reconnector

abbrev three_errors : Reconnector
three_errors = record new_reconnector {
  successive_session_errors = 3;
  successive_datapath_failures = 1;
}

permanent_failure_left_example :
    let w' = (set_network env none (world_in State.permanent_failure)).0 in
    (w'.reconnector.state ≡ State.paused)
    × ((set_network env (some wifi_network) w').0.reconnector.state ≡ State.waiting_to_reconnect)
permanent_failure_left_example =
    permanent_failure_left env (world_in State.permanent_failure) wifi_network refl
