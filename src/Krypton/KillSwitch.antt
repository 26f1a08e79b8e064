-- ===== src/Krypton/KillSwitch.antt =====
-- Safe Disconnect through the whole of krypton/: krypton.cc, reconnector.cc, session_manager.cc,
-- session.cc and tunnel_manager.cc, their events interleaved in any order.
use vpn_libraries.Prelude.{◌≡◌, ◌≢◌, true, false, is_some, List, [], ◌∷◌, All, arith}
use vpn_libraries.Prelude.Int.{ℤ}
use vpn_libraries.Tunnel.{is_tunnel_active}
use vpn_libraries.Tunnel.Safety.{IsBlocking}
use vpn_libraries.Reconnector.World.{State, SessionManagerLaws}
use vpn_libraries.Reconnector.Timers.{parts}
use vpn_libraries.Reconnector.Snooze.{snooze}
use vpn_libraries.Reconnector.KillSwitch.{
  IsNoSnooze, step-Blocks, force_reconnect-Blocks, establish_session-Blocks,
}
use vpn_libraries.Reconnector.Handlers.{start}
use vpn_libraries.SessionManager.{SessionFactory, session_manager}
use vpn_libraries.SessionManager.KillSwitch.{
  session_manager_laws, session_event-IsBlocking, force_tunnel_update-IsBlocking,
  terminate_session-closes,
}
use vpn_libraries.Krypton.{
  ReconnectorConfig, Krypton, reconnector_env, init, force_tunnel_update, set_ip_geo_level,
  session_hears, KryptonEvent, initiated, krypton_stopped, tunnel_update_forced,
  safe_disconnect_set, ip_geo_level_set, reconnector_event, session_heard, step, run,
}

-- The user's own decisions to let the traffic pass: a snooze, a change of the setting, and a stop.
abbrev pub IsNoRelease : {R : Type 0} → KryptonEvent R → Type 0
IsNoRelease krypton_stopped = ⊥
IsNoRelease (safe_disconnect_set enable) = ⊥
IsNoRelease (reconnector_event e) = IsNoSnooze e
IsNoRelease _ = Unit {0}

module _ {D P K T R : Type 0} (config : ReconnectorConfig)
    (factory : SessionFactory D P K T R) where
  laws : SessionManagerLaws (reconnector_env config factory).session_manager
  unfolding reconnector_env
  laws = session_manager_laws factory

  step-IsBlocking :
      (w : Krypton D P K R) (e : KryptonEvent R)
      → IsNoRelease e
      → IsBlocking w.shared.tunnel
      → IsBlocking (step config factory w e).shared.tunnel
  unfolding step init start force_tunnel_update set_ip_geo_level session_hears
  step-IsBlocking w initiated h b =
      establish_session-Blocks (reconnector_env config factory) laws w b
  step-IsBlocking w krypton_stopped h b = absurd h
  step-IsBlocking w tunnel_update_forced h b =
      force_tunnel_update-IsBlocking factory w.session w.shared b
  step-IsBlocking w (safe_disconnect_set enable) h b = absurd h
  step-IsBlocking w (ip_geo_level_set true) h b =
      force_reconnect-Blocks (reconnector_env config factory) laws w b
  step-IsBlocking w (ip_geo_level_set false) h b = b
  step-IsBlocking w (reconnector_event e) h b =
      step-Blocks (reconnector_env config factory) laws w e h b
  step-IsBlocking w (session_heard e) h b = session_event-IsBlocking factory e w.session w.shared b

  -- With Safe Disconnect on and a tunnel up, both stay so through any history of the application's
  -- calls, the reconnector's events, the timers and the session's events, in any order, with any
  -- datapath, provisioning, keys and platform, unless Krypton is snoozed or stopped or Safe Disconnect
  -- is set.
  pub kill_switch :
      (w : Krypton D P K R) (es : List (KryptonEvent R))
      → All IsNoRelease es
      → IsBlocking w.shared.tunnel
      → IsBlocking (run config factory w es).shared.tunnel
  unfolding run
  kill_switch w [] h b = b
  kill_switch w (e ∷ es) h b =
      kill_switch (step config factory w e) es h.1 (step-IsBlocking w e h.0 b)

  -- A snooze outside a permanent failure closes the tunnel, with Safe Disconnect too, where the
  -- manager's flag says whether there is a session.
  pub snooze_opens :
      (now d : ℤ) (w : Krypton D P K R)
      → w.reconnector.state ≢ State.permanent_failure
      → w.session.session_created ≡ is_some w.session.session
      → is_tunnel_active (snooze (reconnector_env config factory) now d w).0.shared.tunnel ≡ false
  unfolding snooze parts reconnector_env session_manager
  snooze_opens now d w h v =
      let closed = terminate_session-closes factory w.session w.shared v in ground arith
