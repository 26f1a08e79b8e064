-- ===== src/SessionManager/KillSwitch.antt =====
-- Safe Disconnect through krypton/reconnector.cc, session_manager.cc, session.cc and
-- tunnel_manager.cc together.
use vpn_libraries.Prelude.{
  ℕ, ◌≡◌, sym, ◌∙◌, Bool, true, false, Option, none, some, is_some, arith, Bool-cases, inl, inr,
}
use vpn_libraries.Prelude.Int.{ℤ}
use vpn_libraries.Timer.Laws.{IsFresh}
use vpn_libraries.Tunnel.{
  is_tunnel_active, is_safe_disconnect_enabled, recreate_tunnel, VpnService, TunnelManager,
}
use vpn_libraries.Tunnel.Safety.{IsBlocking, datapath_stopped_active}
use vpn_libraries.Runtime.{NetworkInfo, Shared, SessionTimer}
use vpn_libraries.Session.Model.{Session}
use vpn_libraries.Session.Parts.KillSwitch.{Blocks, stopped-IsBlocking}
use vpn_libraries.Session.Control.KillSwitch.{
  stop-Blocks, stop-IsFresh, stop-closes, force_tunnel_update-Blocks, rekey-Blocks,
  ready_for_add_egress-Blocks, provisioned-Blocks, provisioning_failure-Blocks,
}
use vpn_libraries.Session.Mtu.KillSwitch.{
  do_uplink_mtu_update-Blocks, do_downlink_mtu_update-Blocks,
}
use vpn_libraries.Session.Handlers.KillSwitch.{
  datapath_established-Blocks, datapath_failed-Blocks, datapath_permanent_failure-Blocks,
  set_network-Blocks, timer_expired-Blocks,
}
use vpn_libraries.Session.Control
use vpn_libraries.Session.Handlers
use vpn_libraries.SessionManager.{
  SessionFactory, SessionManager, SessionEvent, egress_ready, provisioned, provisioning_failed,
  datapath_up, datapath_down, datapath_gone, rekey_asked, telemetry_collected, health_check_started,
  health_check_passed, uplink_mtu_changed, downlink_mtu_changed, World, on_session, stop_session,
  terminate_session, create_session, establish_session, force_tunnel_update, set_session_network,
  set_network, timer_expired, session_step, session_event, session_manager,
}
use vpn_libraries.Reconnector.World.{SessionManagerLaws}

recreated-IsBlocking :
    (vpn : VpnService) (t : TunnelManager) → IsBlocking t → IsBlocking (recreate_tunnel vpn t).0
unfolding recreate_tunnel is_tunnel_active is_safe_disconnect_enabled
recreated-IsBlocking vpn t b = ground arith

module _ {D P K T R : Type 0} (factory : SessionFactory D P K T R) where
  -- A call of the session that keeps a blocking tunnel keeps it through the manager.
  on_session-IsBlocking :
      (s : Option (Session D P K R)) (f : World factory → World factory)
      (m : SessionManager D P K R) (h : Shared)
      → ((w : World factory) → Blocks w → Blocks (f w))
      → IsBlocking h.tunnel
      → IsBlocking (on_session factory s f (m, h)).1.tunnel
  unfolding on_session
  on_session-IsBlocking none f m h k b = b
  on_session-IsBlocking (some s) f m h k b = k (record { session = s; shared = h }) b

  stop_session-IsBlocking :
      (s : Option (Session D P K R)) (m : SessionManager D P K R) (h : Shared)
      → IsBlocking h.tunnel
      → IsBlocking (stop_session factory s false (m, h)).1.tunnel
  unfolding stop_session
  stop_session-IsBlocking none m h b = b
  stop_session-IsBlocking (some s) m h b = stop-Blocks factory.session_env _ b

  terminate_session-IsBlocking :
      (m : SessionManager D P K R) (h : Shared)
      → IsBlocking h.tunnel
      → IsBlocking (terminate_session factory false (m, h)).1.tunnel
  unfolding terminate_session
  terminate_session-IsBlocking m h b =
      let s = stop_session-IsBlocking m.session m h b in
      let t = stopped-IsBlocking h.tunnel b in ground arith

  create_session-IsBlocking :
      (n : ℕ) (network : Option NetworkInfo) (x : SessionManager D P K R × Shared)
      → IsBlocking x.1.tunnel
      → IsBlocking (create_session factory n network x).1.tunnel
  unfolding create_session Control.start
  create_session-IsBlocking n network x b = b

  establish_session-IsBlocking :
      (n : ℕ) (network : Option NetworkInfo) (m : SessionManager D P K R) (h : Shared)
      → IsBlocking h.tunnel
      → IsBlocking (establish_session factory n network (m, h)).1.tunnel
  unfolding establish_session
  establish_session-IsBlocking n network m h b =
      let t = terminate_session-IsBlocking m h b in
      let ended = create_session-IsBlocking n network (terminate_session factory false (m, h)) t in
      let fresh = create_session-IsBlocking n network (m, h) b in
      elim (Bool-cases m.session_created) [ inl e ↦ ground arith | inr e ↦ ground arith ]

  set_session_network-IsBlocking :
      (s : Option (Session D P K R)) (network : NetworkInfo) (m : SessionManager D P K R)
      (h : Shared)
      → IsBlocking h.tunnel
      → IsBlocking (set_session_network factory s network (m, h)).0.1.tunnel
  unfolding set_session_network
  set_session_network-IsBlocking none network m h b = b
  set_session_network-IsBlocking (some s) network m h b =
      set_network-Blocks factory.session_env m.now network (record { session = s; shared = h }) b

  set_network-IsBlocking :
      (network : NetworkInfo) (m : SessionManager D P K R) (h : Shared)
      → IsBlocking h.tunnel
      → IsBlocking (set_network factory network (m, h)).0.1.tunnel
  unfolding set_network
  set_network-IsBlocking network m h b = set_session_network-IsBlocking m.session network m h b

  timer_expired-IsBlocking :
      (c : SessionTimer) (m : SessionManager D P K R) (h : Shared)
      → IsBlocking h.tunnel
      → IsBlocking (timer_expired factory c (m, h)).1.tunnel
  unfolding timer_expired
  timer_expired-IsBlocking c m h b =
      on_session-IsBlocking m.session _ m h (timer_expired-Blocks factory.session_env c) b

  stop_session-IsFresh :
      (s : Option (Session D P K R)) (force : Bool) (m : SessionManager D P K R) (h : Shared)
      → IsFresh h.timers
      → IsFresh (stop_session factory s force (m, h)).1.timers
  unfolding stop_session
  stop_session-IsFresh none force m h f = f
  stop_session-IsFresh (some s) force m h f = stop-IsFresh factory.session_env force _ f

  terminate_session-IsFresh :
      (force : Bool) (m : SessionManager D P K R) (h : Shared)
      → IsFresh h.timers
      → IsFresh (terminate_session factory force (m, h)).1.timers
  unfolding terminate_session
  terminate_session-IsFresh force m h f =
      let s = stop_session-IsFresh m.session force m h f in ground arith

  -- The session manager of the source keeps the laws that the reconnector relies on.
  pub session_manager_laws : SessionManagerLaws (session_manager factory)
  unfolding session_manager
  session_manager_laws = record {
    establish-IsBlocking = establish_session-IsBlocking;
    terminate-IsBlocking = terminate_session-IsBlocking;
    set_network-IsBlocking = set_network-IsBlocking;
    timer_expired-IsBlocking = timer_expired-IsBlocking;
    terminate-IsFresh = terminate_session-IsFresh;
  }

  session_step-Blocks :
      (now : ℤ) (e : SessionEvent R) (w : World factory)
      → Blocks w
      → Blocks (session_step factory now e w)
  unfolding session_step Handlers.do_rekey Handlers.collect_telemetry
      Handlers.datapath_health_check_starting Handlers.datapath_health_check_succeeded
  session_step-Blocks now (egress_ready random is_rekey) w b =
      ready_for_add_egress-Blocks factory.session_env random is_rekey w b
  session_step-Blocks now (provisioned r is_rekey) w b =
      provisioned-Blocks factory.session_env r is_rekey w b
  session_step-Blocks now (provisioning_failed status permanent) w b =
      provisioning_failure-Blocks factory.session_env status permanent w b
  session_step-Blocks now datapath_up w b = datapath_established-Blocks factory.session_env now w b
  session_step-Blocks now (datapath_down status) w b =
      datapath_failed-Blocks factory.session_env status w b
  session_step-Blocks now (datapath_gone status) w b =
      datapath_permanent_failure-Blocks factory.session_env status w b
  session_step-Blocks now rekey_asked w b = rekey-Blocks factory.session_env w b
  session_step-Blocks now telemetry_collected w b = b
  session_step-Blocks now health_check_started w b = b
  session_step-Blocks now health_check_passed w b = b
  session_step-Blocks now (uplink_mtu_changed uplink_mtu tunnel_mtu) w b =
      do_uplink_mtu_update-Blocks factory.session_env uplink_mtu tunnel_mtu w b
  session_step-Blocks now (downlink_mtu_changed downlink_mtu) w b =
      do_downlink_mtu_update-Blocks factory.session_env downlink_mtu w b

  pub session_event-IsBlocking :
      (e : SessionEvent R) (m : SessionManager D P K R) (h : Shared)
      → IsBlocking h.tunnel
      → IsBlocking (session_event factory e (m, h)).1.tunnel
  unfolding session_event
  session_event-IsBlocking e m h b =
      on_session-IsBlocking m.session _ m h (session_step-Blocks m.now e) b

  pub force_tunnel_update-IsBlocking :
      (m : SessionManager D P K R) (h : Shared)
      → IsBlocking h.tunnel
      → IsBlocking (force_tunnel_update factory (m, h)).1.tunnel
  unfolding force_tunnel_update
  force_tunnel_update-IsBlocking m h b =
      let s =
        on_session-IsBlocking m.session (Control.force_tunnel_update factory.session_env) m h
          (force_tunnel_update-Blocks factory.session_env) b in
      let r = recreated-IsBlocking factory.session_env.vpn_service h.tunnel b in ground arith

  stop_session-closes :
      (s : Option (Session D P K R)) (m : SessionManager D P K R) (h : Shared)
      → is_some s ≡ true
      → is_tunnel_active (stop_session factory s true (m, h)).1.tunnel ≡ false
  unfolding stop_session
  stop_session-closes none m h e = ground arith
  stop_session-closes (some s) m h e = stop-closes factory.session_env _

  -- A termination that is forced to fail open closes the tunnel, with a session or without.
  pub terminate_session-closes :
      (m : SessionManager D P K R) (h : Shared)
      → m.session_created ≡ is_some m.session
      → is_tunnel_active (terminate_session factory true (m, h)).1.tunnel ≡ false
  unfolding terminate_session
  terminate_session-closes m h v = elim (Bool-cases m.session_created) [
    | inl e ↦ let c = stop_session-closes m.session m h (sym v ∙ e) in ground arith
    | inr e ↦ let c = (datapath_stopped_active h.tunnel true).0 in ground arith
  ]
