-- ===== src/SessionManager/NullSafety.antt =====
-- That a session of krypton/session.cc follows no null pointer before it is stopped.
use vpn_libraries.Prelude.{ℕ, ◌≡◌, refl, false, Option, List, [], ◌∷◌}
use vpn_libraries.Prelude.Int.{ℤ}
use vpn_libraries.Utils.Status.{value}
use vpn_libraries.Runtime.{NetworkInfo, Shared, SessionTimer}
use vpn_libraries.Session.Model.{new_session}
use vpn_libraries.Session.Parts.NullSafety.{Sound}
use vpn_libraries.Session.Control
use vpn_libraries.Session.Control.NullSafety.{
  force_tunnel_update-Sound, rekey-Sound, ready_for_add_egress-Sound, provisioned-Sound,
  provisioning_failure-Sound,
}
use vpn_libraries.Session.Handlers
use vpn_libraries.Session.Handlers.NullSafety.{
  datapath_established-Sound, datapath_failed-Sound, datapath_permanent_failure-Sound,
  set_network-Sound, timer_expired-Sound,
}
use vpn_libraries.Session.Mtu.NullSafety.{do_uplink_mtu_update-Sound, do_downlink_mtu_update-Sound}
use vpn_libraries.SessionManager.{
  SessionFactory, SessionEvent, egress_ready, provisioned, provisioning_failed, datapath_up,
  datapath_down, datapath_gone, rekey_asked, telemetry_collected, health_check_started,
  health_check_passed, uplink_mtu_changed, downlink_mtu_changed, World, session_step,
}

-- Every call of a session but its stop, with what the clock shows then.
pub data SessionCall (R : Type 0) : Type 0 where
  heard : ℤ → SessionEvent R → SessionCall R
  expired : SessionTimer → SessionCall R
  told_network : ℤ → NetworkInfo → SessionCall R
  update_forced : SessionCall R

module _ {D P K T R : Type 0} (factory : SessionFactory D P K T R) where
  unfoldable pub call : World factory → SessionCall R → World factory
  unfolding session_step
  call w (heard now e) = session_step factory now e w
  call w (expired c) = Handlers.timer_expired factory.session_env c w
  call w (told_network now network) = (Handlers.set_network factory.session_env now network w).0
  call w update_forced = Control.force_tunnel_update factory.session_env w

  unfoldable pub calls : World factory → List (SessionCall R) → World factory
  calls w [] = w
  calls w (c ∷ cs) = calls (call w c) cs

  -- A new session, started, once its provisioning is ready for the first egress request.
  unfoldable pub keyed_session : ℕ → Option NetworkInfo → Shared → ℕ → World factory
  keyed_session restart_count network shared random =
      Control.ready_for_add_egress factory.session_env random false (
        Control.start factory.session_env (record {
          session =
              new_session (factory.build_datapath restart_count)
                (factory.build_provision restart_count) factory.session_config network;
          shared = shared;
        }))

  session_step-Sound :
      (now : ℤ) (e : SessionEvent R) (w : World factory)
      → Sound w
      → Sound (session_step factory now e w)
  unfolding session_step Handlers.do_rekey Handlers.collect_telemetry
      Handlers.datapath_health_check_starting Handlers.datapath_health_check_succeeded
  session_step-Sound now (egress_ready random is_rekey) w b =
      ready_for_add_egress-Sound factory.session_env random is_rekey w b
  session_step-Sound now (provisioned r is_rekey) w b =
      provisioned-Sound factory.session_env r is_rekey w b
  session_step-Sound now (provisioning_failed status permanent) w b =
      provisioning_failure-Sound factory.session_env status permanent w b
  session_step-Sound now datapath_up w b = datapath_established-Sound factory.session_env now w b
  session_step-Sound now (datapath_down status) w b =
      datapath_failed-Sound factory.session_env status w b
  session_step-Sound now (datapath_gone status) w b =
      datapath_permanent_failure-Sound factory.session_env status w b
  session_step-Sound now rekey_asked w b = rekey-Sound factory.session_env w b
  session_step-Sound now telemetry_collected w b = b
  session_step-Sound now health_check_started w b = b
  session_step-Sound now health_check_passed w b = b
  session_step-Sound now (uplink_mtu_changed uplink_mtu tunnel_mtu) w b =
      do_uplink_mtu_update-Sound factory.session_env uplink_mtu tunnel_mtu w b
  session_step-Sound now (downlink_mtu_changed downlink_mtu) w b =
      do_downlink_mtu_update-Sound factory.session_env downlink_mtu w b

  call-Sound : (c : SessionCall R) (w : World factory) → Sound w → Sound (call w c)
  unfolding call
  call-Sound (heard now e) w b = session_step-Sound now e w b
  call-Sound (expired c) w b = timer_expired-Sound factory.session_env c w b
  call-Sound (told_network now network) w b = set_network-Sound factory.session_env now network w b
  call-Sound update_forced w b = force_tunnel_update-Sound factory.session_env w b

  calls-Sound : (cs : List (SessionCall R)) (w : World factory) → Sound w → Sound (calls w cs)
  unfolding calls
  calls-Sound [] w b = b
  calls-Sound (c ∷ cs) w b = calls-Sound cs (call w c) (call-Sound c w b)

  keyed_session-Sound :
      (restart_count : ℕ) (network : Option NetworkInfo) (shared : Shared) (random : ℕ) {k : K}
      → factory.session_env.create_key_material random ≡ value k
      → Sound (keyed_session restart_count network shared random)
  unfolding keyed_session Control.ready_for_add_egress Control.start new_session
  keyed_session-Sound restart_count network shared random h =
      rw h (record { has_datapath = refl; has_key = refl; no_fault = refl })

  -- A session whose first key material could be created follows no null pointer afterwards, whatever
  -- its provisioning, its datapath, its timers, the networks and the tunnel updates do, in any order,
  -- until it is stopped.
  pub never_faults :
      (restart_count : ℕ) (network : Option NetworkInfo) (shared : Shared) (random : ℕ)
      (cs : List (SessionCall R)) {k : K}
      → factory.session_env.create_key_material random ≡ value k
      → (calls (keyed_session restart_count network shared random) cs).session.faulted ≡ false
  never_faults restart_count network shared random cs h =
      (calls-Sound cs _ (keyed_session-Sound restart_count network shared random h)).no_fault
