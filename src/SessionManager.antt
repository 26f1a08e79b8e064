-- ===== src/SessionManager.antt =====
-- krypton/session_manager.cc: which session there is, over Session and the tunnel manager. A session's
-- looper thread is joined before the session is stopped, so its events come before its end or not at
-- all.
pub mod KillSwitch
pub mod NullSafety
use vpn_libraries.Prelude.{
  ℕ, ◌≡◌, Bool, true, false, Option, none, some, List, [], ◌∷◌, if◌then◌else◌,
}
use vpn_libraries.Prelude.Int.{ℤ}
use vpn_libraries.Utils.Status.{Status, ok_status}
use vpn_libraries.Tunnel.{datapath_stopped, recreate_tunnel}
use vpn_libraries.Runtime.{NetworkInfo, Shared, SessionTimer}
use vpn_libraries.Session.Model
use vpn_libraries.Session.Model.{Session, SessionConfig, new_session}
use vpn_libraries.Session.Control
use vpn_libraries.Session.Handlers
use vpn_libraries.Session.Mtu
use vpn_libraries.Reconnector.World.{SessionManagerInterface}

-- What EstablishSession makes a session of: the datapath and the provisioning of the restart count,
-- and what the session reads of the configuration.
pub record SessionFactory (D P K T R : Type 0) : Type 0 where
  pub session_env : Model.Env D P K T R
  pub build_datapath : ℕ → D
  pub build_provision : ℕ → P
  pub session_config : SessionConfig

-- `now` is what absl::Now() shows.
pub record SessionManager (D P K R : Type 0) : Type 0 where
  pub session : Option (Session D P K R)
  pub session_created : Bool
  pub now : ℤ

-- What a session hears from its provisioning, its datapath and the MTU tracker.
pub data SessionEvent (R : Type 0) : Type 0 where
  egress_ready : ℕ → Bool → SessionEvent R
  provisioned : R → Bool → SessionEvent R
  provisioning_failed : Status → Bool → SessionEvent R
  datapath_up : SessionEvent R
  datapath_down datapath_gone : Status → SessionEvent R
  rekey_asked telemetry_collected health_check_started health_check_passed : SessionEvent R
  uplink_mtu_changed : ℤ → ℤ → SessionEvent R
  downlink_mtu_changed : ℤ → SessionEvent R

module _ {D P K T R : Type 0} (factory : SessionFactory D P K T R) where
  abbrev World : Type 0
  World = Model.World D P K R

  -- A call of the session, if there is one.
  on_session :
      Option (Session D P K R)
      → (World → World)
      → SessionManager D P K R × Shared
      → SessionManager D P K R × Shared
  on_session none f (m, h) = (m, h)
  on_session (some s) f (m, h) =
      let w = f (record { session = s; shared = h }) in
      (record m { session = some w.session }, w.shared)

  stop_session :
      Option (Session D P K R)
      → Bool
      → SessionManager D P K R × Shared
      → SessionManager D P K R × Shared
  stop_session none force (m, h) = (m, h)
  stop_session (some s) force (m, h) =
      let w = Control.stop factory.session_env force (record { session = s; shared = h }) in
      (record m { session = none }, w.shared)

  unfoldable pub terminate_session :
      Bool → SessionManager D P K R × Shared → SessionManager D P K R × Shared
  unfolding stop_session
  terminate_session force_fail_open (m, h) =
      let (m', h') = stop_session m.session force_fail_open (m, h) in
      if m.session_created
      then (record m' { session_created = false }, h')
      else (m, record h { tunnel = datapath_stopped h.tunnel force_fail_open })

  create_session :
      ℕ → Option NetworkInfo → SessionManager D P K R × Shared → SessionManager D P K R × Shared
  create_session restart_count network (m, h) =
      let s =
        new_session (factory.build_datapath restart_count) (factory.build_provision restart_count)
          factory.session_config network in
      let w = Control.start factory.session_env (record { session = s; shared = h }) in
      (record m { session = some w.session; session_created = true }, w.shared)

  unfoldable pub establish_session :
      ℕ → Option NetworkInfo → SessionManager D P K R × Shared → SessionManager D P K R × Shared
  unfolding create_session terminate_session
  establish_session restart_count network (m, h) =
      create_session restart_count network
        (if m.session_created then terminate_session false (m, h) else (m, h))

  unfoldable pub force_tunnel_update :
      SessionManager D P K R × Shared → SessionManager D P K R × Shared
  unfolding on_session
  force_tunnel_update (m, h) =
      let updated = on_session m.session (Control.force_tunnel_update factory.session_env) (m, h) in
      if m.session_created
      then updated
      else (m, record h { tunnel = (recreate_tunnel factory.session_env.vpn_service h.tunnel).0 })

  set_session_network :
      Option (Session D P K R)
      → NetworkInfo
      → SessionManager D P K R × Shared
      → (SessionManager D P K R × Shared) × Status
  set_session_network none network (m, h) = ((m, h), ok_status)
  set_session_network (some s) network (m, h) =
      let (w, status) =
        Handlers.set_network factory.session_env m.now network
          (record { session = s; shared = h }) in
      ((record m { session = some w.session }, w.shared), status)

  unfoldable pub set_network :
      NetworkInfo → SessionManager D P K R × Shared → (SessionManager D P K R × Shared) × Status
  unfolding set_session_network
  set_network network (m, h) = set_session_network m.session network (m, h)

  -- A session that has ended has cancelled its timers.
  unfoldable pub timer_expired :
      SessionTimer → SessionManager D P K R × Shared → SessionManager D P K R × Shared
  unfolding on_session
  timer_expired c (m, h) =
      on_session m.session (Handlers.timer_expired factory.session_env c) (m, h)

  session_step : ℤ → SessionEvent R → World → World
  session_step now (egress_ready random is_rekey) w =
      Control.ready_for_add_egress factory.session_env random is_rekey w
  session_step now (provisioned r is_rekey) w = Control.provisioned factory.session_env r is_rekey w
  session_step now (provisioning_failed status permanent) w =
      Control.provisioning_failure factory.session_env status permanent w
  session_step now datapath_up w = Handlers.datapath_established factory.session_env now w
  session_step now (datapath_down status) w = Handlers.datapath_failed factory.session_env status w
  session_step now (datapath_gone status) w =
      Handlers.datapath_permanent_failure factory.session_env status w
  session_step now rekey_asked w = Handlers.do_rekey factory.session_env w
  session_step now telemetry_collected w = (Handlers.collect_telemetry w).0
  session_step now health_check_started w = Handlers.datapath_health_check_starting w
  session_step now health_check_passed w = Handlers.datapath_health_check_succeeded w
  session_step now (uplink_mtu_changed uplink_mtu tunnel_mtu) w =
      Mtu.do_uplink_mtu_update factory.session_env uplink_mtu tunnel_mtu w
  session_step now (downlink_mtu_changed downlink_mtu) w =
      Mtu.do_downlink_mtu_update factory.session_env downlink_mtu w

  unfoldable pub session_event :
      SessionEvent R → SessionManager D P K R × Shared → SessionManager D P K R × Shared
  unfolding on_session session_step
  session_event e (m, h) = on_session m.session (session_step m.now e) (m, h)

  -- What the reconnector knows of it.
  unfoldable pub session_manager : SessionManagerInterface (SessionManager D P K R)
  session_manager = record {
    establish = establish_session;
    terminate = terminate_session;
    set_network = set_network;
    timer_expired = timer_expired;
  }

unfoldable pub new_session_manager : {D P K R : Type 0} → ℤ → SessionManager D P K R
new_session_manager now = record { session = none; session_created = false; now = now }
