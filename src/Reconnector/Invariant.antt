-- ===== src/Reconnector/Invariant.antt =====
-- Which timers of krypton/reconnector.cc may run in which state.
use vpn_libraries.Prelude.{
  ◌≡◌, Bool, true, false, refl, ◌⊎◌, inl, Option, none, some, List, [], ◌∷◌, arith,
}
use vpn_libraries.Prelude.Int.{ℤ}
use vpn_libraries.Timer.{invalid_timer_id}
use vpn_libraries.Reconnector.World.{State, Reconnector, World, Env, new_reconnector}
use vpn_libraries.Reconnector.Timers.{parts}
use vpn_libraries.Reconnector.Handlers.{
  start, stop, session_error, control_plane_connected, force_reconnect, permanent_failure,
  datapath_disconnected, reconnect_timer_expired, session_connection_timer_expired,
}
use vpn_libraries.Reconnector.Snooze
use vpn_libraries.Reconnector.Snooze.{
  resume, extend_snooze, set_network, set_simulated_network_failure, run_timer, step, run, Event,
  started, stopped, reconnect_forced, resumed_by_user, telemetry_collected,
  control_plane_connecting_at, control_plane_failed_at, control_plane_connected_at,
  datapath_connecting_at, datapath_connected_at, session_failed, permanently_failed, datapath_lost,
  snoozed_for, extended_by, network_set, failure_simulated, timer_fired,
}
use vpn_libraries.Utils.Status.{Status}
use vpn_libraries.Runtime.{
  NetworkInfo, TimerCb, reconnect_cb, session_connection_cb, snooze_cb, session_timer,
}

-- The deadline timer runs only while a session is waited for, the reconnect timer only while waiting
-- to reconnect, and the snooze timer only while snoozed.
pub record Inv (r : Reconnector) : Type 0 where
  pub deadline :
      (r.connection_deadline_timer_id ≡ invalid_timer_id)
      ⊎ (r.state ≡ State.waiting_for_session_establishment)
  pub reconnect :
      (r.reconnector_timer_id ≡ invalid_timer_id) ⊎ (r.state ≡ State.waiting_to_reconnect)
  pub snooze : (r.snooze_timer_id ≡ invalid_timer_id) ⊎ (r.state ≡ State.snoozed)

module _ {S : Type 0} (env : Env S) (w : World S) (v : Inv w.reconnector) where
  start-Inv : w.reconnector.state ≡ State.initial → Inv (start env w).reconnector
  unfolding start parts
  start-Inv h = ground arith

  stop-Inv : Inv (stop env w).reconnector
  unfolding stop parts
  stop-Inv = ground arith

  control_plane_connected-Inv : (now : ℤ) → Inv (control_plane_connected now w).reconnector
  unfolding control_plane_connected parts
  control_plane_connected-Inv now = ground arith

  session_error-Inv : (reason : Status) → Inv (session_error env reason w).reconnector
  unfolding session_error parts
  session_error-Inv reason = ground arith

  force_reconnect-Inv : Inv (force_reconnect env w).reconnector
  unfolding force_reconnect parts
  force_reconnect-Inv = ground arith

  permanent_failure-Inv : (reason : Status) → Inv (permanent_failure env reason w).reconnector
  unfolding permanent_failure parts
  permanent_failure-Inv reason = ground arith

  datapath_disconnected-Inv :
      (network : NetworkInfo) (reason : Status)
      → w.reconnector.state ≡ State.connected
      → Inv (datapath_disconnected env network reason w).reconnector
  unfolding datapath_disconnected parts
  datapath_disconnected-Inv network reason h = ground arith

  reconnect_timer_expired-Inv : Inv (reconnect_timer_expired env w).reconnector
  unfolding reconnect_timer_expired parts
  reconnect_timer_expired-Inv = ground arith

  session_connection_timer_expired-Inv : Inv (session_connection_timer_expired env w).reconnector
  unfolding session_connection_timer_expired parts
  session_connection_timer_expired-Inv = ground arith

  snooze-Inv : (now d : ℤ) → Inv (Snooze.snooze env now d w).0.reconnector
  unfolding Snooze.snooze parts
  snooze-Inv now d = ground arith

  resume-Inv : Inv (resume env w).0.reconnector
  unfolding resume parts
  resume-Inv = ground arith

  extend_snooze-Inv : (now d : ℤ) → Inv (extend_snooze env now d w).0.reconnector
  unfolding extend_snooze parts
  extend_snooze-Inv now d = ground arith

  set_network-Inv : (network : Option NetworkInfo) → Inv (set_network env network w).0.reconnector
  unfolding set_network parts
  set_network-Inv network = ground arith

  set_simulated_network_failure-Inv :
      (on : Bool) → Inv (set_simulated_network_failure env on w).reconnector
  unfolding set_simulated_network_failure parts
  set_simulated_network_failure-Inv true = ground arith
  set_simulated_network_failure-Inv false = resume-Inv

module _ {S : Type 0} (env : Env S) where
  run_timer-Inv :
      (cb : Option TimerCb) (w : World S) → Inv w.reconnector → Inv (run_timer env cb w).reconnector
  unfolding run_timer
  run_timer-Inv none w v = v
  run_timer-Inv (some reconnect_cb) w v = reconnect_timer_expired-Inv env w v
  run_timer-Inv (some session_connection_cb) w v = session_connection_timer_expired-Inv env w v
  run_timer-Inv (some snooze_cb) w v = resume-Inv env w v
  run_timer-Inv (some (session_timer c)) w v = v

  -- What a history keeps to: krypton.cc starts the reconnector once, at first; and reconnector.cc asserts
  -- that the datapath is lost only while connected.
  abbrev pub Admissible : World S → Event → Type 0
  Admissible w started = w.reconnector.state ≡ State.initial
  Admissible w (datapath_lost network reason) = w.reconnector.state ≡ State.connected
  Admissible w _ = Unit {0}

  step-Inv :
      (w : World S) (e : Event)
      → Admissible w e
      → Inv w.reconnector
      → Inv (step env w e).reconnector
  unfolding step
  step-Inv w started a v = start-Inv env w v a
  step-Inv w stopped a v = stop-Inv env w v
  step-Inv w reconnect_forced a v = force_reconnect-Inv env w v
  step-Inv w resumed_by_user a v = resume-Inv env w v
  step-Inv w telemetry_collected a v = ground arith
  step-Inv w (control_plane_connecting_at now) a v = ground arith
  step-Inv w (control_plane_failed_at now) a v = ground arith
  step-Inv w (control_plane_connected_at now) a v = control_plane_connected-Inv env w v now
  step-Inv w (datapath_connecting_at now) a v = ground arith
  step-Inv w (datapath_connected_at now) a v = ground arith
  step-Inv w (session_failed reason) a v = session_error-Inv env w v reason
  step-Inv w (permanently_failed reason) a v = permanent_failure-Inv env w v reason
  step-Inv w (datapath_lost network reason) a v = datapath_disconnected-Inv env w v network reason a
  step-Inv w (snoozed_for now d) a v = snooze-Inv env w v now d
  step-Inv w (extended_by now d) a v = extend_snooze-Inv env w v now d
  step-Inv w (network_set network) a v = set_network-Inv env w v network
  step-Inv w (failure_simulated on) a v = set_simulated_network_failure-Inv env w v on
  step-Inv w (timer_fired id) a v = run_timer-Inv _ _ v

  -- Every event of a history is admissible when it happens.
  abbrev pub AdmissibleRun : World S → List Event → Type 0
  AdmissibleRun w [] = Unit {0}
  AdmissibleRun w (e ∷ es) = Admissible w e × AdmissibleRun (step env w e) es

  -- Where it holds at first, the following is kept through any history that starts the reconnector only
  -- in its initial state, as krypton.cc does, and in which the datapath is lost only while connected, as
  -- reconnector.cc asserts, with any session manager, any platform timer, which may refuse, and any platform
  -- VPN service: a timer of the reconnector runs only in the state that it belongs to, the connection
  -- deadline while waiting for a session, the reconnect timer while waiting to reconnect, the snooze
  -- timer while snoozed.
  pub run-Inv :
      (w : World S) (es : List Event)
      → AdmissibleRun w es
      → Inv w.reconnector
      → Inv (run env w es).reconnector
  unfolding run
  run-Inv w [] a v = v
  run-Inv w (e ∷ es) a v = run-Inv (step env w e) es a.1 (step-Inv w e a.0 v)

pub new-Inv : Inv new_reconnector
unfolding new_reconnector
new-Inv = record { deadline = inl refl; reconnect = inl refl; snooze = inl refl }
