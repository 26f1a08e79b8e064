-- ===== src/Krypton.antt =====
-- krypton/krypton.cc: the calls of the application on a Krypton that was set up, and, between them,
-- what happens to its parts, in any order.
pub mod KillSwitch
use vpn_libraries.Prelude.{ℕ, ◌≡◌, Bool, true, false, Option, none, some, List, [], ◌∷◌}
use vpn_libraries.Prelude.Int.{ℤ}
use vpn_libraries.Tunnel
use vpn_libraries.Tunnel.{set_safe_disconnect_enabled}
use vpn_libraries.Runtime.{NetworkInfo, Notification, initialized, to_app, post}
use vpn_libraries.Reconnector.World
use vpn_libraries.Reconnector.World.{Env}
use vpn_libraries.Reconnector.Handlers.{start, stop, force_reconnect}
use vpn_libraries.Reconnector.Snooze
use vpn_libraries.Reconnector.Snooze.{Event}
use vpn_libraries.SessionManager
use vpn_libraries.SessionManager.{SessionFactory, SessionEvent, session_manager}

-- The two numbers that the reconnector reads of KryptonConfig.
pub record ReconnectorConfig : Type 0 where
  pub initial_time_to_reconnect_msec : ℕ
  pub session_connection_deadline_msec : ℕ

-- The reconnector, the session manager, and what they share.
abbrev pub Krypton : (D P K R : Type 0) → Type 0
Krypton D P K R = World.World (SessionManager.SessionManager D P K R)

module _ {D P K T R : Type 0} (config : ReconnectorConfig)
    (factory : SessionFactory D P K T R) where
  -- The reconnector over the session manager, and one platform for both.
  unfoldable pub reconnector_env : Env (SessionManager.SessionManager D P K R)
  reconnector_env = record {
    initial_time_to_reconnect_msec = config.initial_time_to_reconnect_msec;
    session_connection_deadline_msec = config.session_connection_deadline_msec;
    timer_interface = factory.session_env.timer_interface;
    vpn_service = factory.session_env.vpn_service;
    session_manager = session_manager factory;
  }

  -- TunnelManager::Start always succeeds.
  unfoldable pub init : Krypton D P K R → Krypton D P K R
  unfolding reconnector_env
  init w =
      let w1 = start reconnector_env w in record w1 { shared = post (to_app initialized) w1.shared }

  -- Stopped once: a second call finds nothing to stop.
  unfoldable pub stop_krypton : Krypton D P K R → Krypton D P K R
  unfolding reconnector_env
  stop_krypton w =
      let w1 = stop reconnector_env w in
      record w1 { shared = record w1.shared { tunnel = Tunnel.stop w1.shared.tunnel } }

  unfoldable pub force_tunnel_update : Krypton D P K R → Krypton D P K R
  force_tunnel_update w =
      let (m, h) = SessionManager.force_tunnel_update factory (w.session, w.shared) in
      record w { session = m; shared = h }

  unfoldable pub set_safe_disconnect : Bool → Krypton D P K R → Krypton D P K R
  set_safe_disconnect enable w = record w {
    shared = record w.shared { tunnel = set_safe_disconnect_enabled w.shared.tunnel enable };
  }

  -- `is_new` is what SessionManager::SetIpGeoLevel answers; the level itself goes into the
  -- configuration of the next session.
  unfoldable pub set_ip_geo_level : Bool → Krypton D P K R → Krypton D P K R
  unfolding reconnector_env
  set_ip_geo_level true w = force_reconnect reconnector_env w
  set_ip_geo_level false w = w

  -- A session hears something.
  unfoldable pub session_hears : SessionEvent R → Krypton D P K R → Krypton D P K R
  session_hears e w =
      let (m, h) = SessionManager.session_event factory e (w.session, w.shared) in
      record w { session = m; shared = h }

-- What can happen. The reconnector's events stand for Snooze, Resume, ExtendSnooze, SetNetwork,
-- SetNoNetworkAvailable and SetSimulatedNetworkFailure, which go to it as they are, for the
-- notifications of the session that reach it, and for the timers.
pub data KryptonEvent (R : Type 0) : Type 0 where
  initiated krypton_stopped tunnel_update_forced : KryptonEvent R
  safe_disconnect_set ip_geo_level_set : Bool → KryptonEvent R
  reconnector_event : Event → KryptonEvent R
  session_heard : SessionEvent R → KryptonEvent R

module _ {D P K T R : Type 0} (config : ReconnectorConfig)
    (factory : SessionFactory D P K T R) where
  unfoldable pub step : Krypton D P K R → KryptonEvent R → Krypton D P K R
  unfolding init stop_krypton force_tunnel_update set_safe_disconnect set_ip_geo_level session_hears
      reconnector_env
  step w initiated = init config factory w
  step w krypton_stopped = stop_krypton config factory w
  step w tunnel_update_forced = force_tunnel_update config factory w
  step w (safe_disconnect_set enable) = set_safe_disconnect config factory enable w
  step w (ip_geo_level_set is_new) = set_ip_geo_level config factory is_new w
  step w (reconnector_event e) = Snooze.step (reconnector_env config factory) w e
  step w (session_heard e) = session_hears config factory e w

  unfoldable pub run : Krypton D P K R → List (KryptonEvent R) → Krypton D P K R
  run w [] = w
  run w (e ∷ es) = run (step w e) es
