-- ===== src/Datapath/Ipsec/Steps/Forwarder.antt =====
-- When a packet forwarder runs, in every history of krypton/datapath/android_ipsec/ipsec_datapath.cc.
use vpn_libraries.Prelude.{
  ℕ, ◌≡◌, refl, subst, Bool, true, false, Option, some, List, [], ◌∷◌, arith, is_some,
  if◌then◌else◌,
}
use vpn_libraries.Prelude.Int.{ℤ}
use vpn_libraries.Utils.IpRange.{NetLibrary}
use vpn_libraries.Timer.{TimerInterface, TimerManager}
use vpn_libraries.Datapath.MtuTracker.{MtuNotification, downlink_mtu_updated, uplink_mtu_updated}
use vpn_libraries.Datapath.HealthCheck as Health
use vpn_libraries.Datapath.HealthCheck.{HealthNotification}
use vpn_libraries.Datapath.Ipsec.{
  IpsecDatapath, IpsecConfig, DatapathNotification, datapath_failed, datapath_permanent_failure,
  new_ipsec_datapath, notify, stop,
}
use vpn_libraries.Datapath.Ipsec.Forwarder.{
  IsSound, may_run, stop-IsSound, prepare-IsSound, switch_tunnel-IsSound,
}
use vpn_libraries.Datapath.Ipsec.Network.Forwarder.{
  start-IsSound, switch_network-IsSound, set_key_materials-IsSound,
}
use vpn_libraries.Datapath.Ipsec.Steps.{
  Event, starts, stops, prepares, switches_network, switches_tunnel, sets_keys, fails,
  fails_permanently, connects, mtu_tells, health_tells, handle, run,
  is_forwarder_notification_valid, ipsec_packet_forwarder_failed,
  ipsec_packet_forwarder_permanent_failure, ipsec_packet_forwarder_connected, mtu_updated,
  health_check_told,
}

notify-IsSound : (n : DatapathNotification) (d : IpsecDatapath) → IsSound d → IsSound (notify n d)
unfolding notify IsSound
notify-IsSound n d h = h

if-IsSound : (c : Bool) (x y : IpsecDatapath) → IsSound x → IsSound y → IsSound (if c then x else y)
if-IsSound true x y h k = h
if-IsSound false x y h k = k

-- A failure of the forwarder, of either kind.
failed-IsSound :
    (n : DatapathNotification) (c : Bool) (d : IpsecDatapath)
    → IsSound d
    → IsSound (if c then notify n (stop d) else d)
failed-IsSound n c d h =
    if-IsSound c (notify n (stop d)) d (notify-IsSound n (stop d) (stop-IsSound d h)) h

connected-IsSound :
    (platform : TimerInterface) (id : ℕ) (d : IpsecDatapath)
    → IsSound d
    → IsSound (ipsec_packet_forwarder_connected platform id d)
unfolding ipsec_packet_forwarder_connected IsSound notify
connected-IsSound platform id d h = ground arith

mtu-IsSound : (n : MtuNotification) (d : IpsecDatapath) → IsSound d → IsSound (mtu_updated n d)
unfolding mtu_updated
mtu-IsSound (uplink_mtu_updated u t) d h = notify-IsSound _ d h
mtu-IsSound (downlink_mtu_updated m) d h = notify-IsSound _ d h

health-IsSound :
    (n : HealthNotification) (d : IpsecDatapath) → IsSound d → IsSound (health_check_told n d)
unfolding health_check_told
health-IsSound Health.health_check_starting d h = notify-IsSound _ d h
health-IsSound Health.health_check_succeeded d h = notify-IsSound _ d h
health-IsSound (Health.health_check_failed s) d h = notify-IsSound _ d h

runs-IsSound :
    (forwarder : Option ℕ) (id curr : ℕ) (socket : Option ℤ) (in_progress restart : Bool)
    → forwarder ≡ some id
    → may_run forwarder curr socket in_progress restart ≡ true
    → (id ≡ curr) × (is_some socket ≡ true) × (in_progress ≡ false)
runs-IsSound forwarder id curr socket in_progress restart e h =
    let k : may_run (some id) curr socket in_progress restart ≡ true =
      subst (λ f. may_run f curr socket in_progress restart ≡ true) e h in
    ground arith

module _ (lib : NetLibrary) (config : IpsecConfig) where
  handle-IsSound : (e : Event) (d : IpsecDatapath) → IsSound d → IsSound (handle lib config e d)
  unfolding handle ipsec_packet_forwarder_failed ipsec_packet_forwarder_permanent_failure
  handle-IsSound (starts r p) d h = start-IsSound lib r p d h
  handle-IsSound stops d h = stop-IsSound d h
  handle-IsSound prepares d h = prepare-IsSound d h
  handle-IsSound (switches_network service id e network) d h =
      switch_network-IsSound lib config service id e network d h
  handle-IsSound (switches_tunnel service) d h = switch_tunnel-IsSound service d h
  handle-IsSound (sets_keys service p) d h = set_key_materials-IsSound service p d h
  handle-IsSound (fails s id) d h =
      failed-IsSound (datapath_failed s) (is_forwarder_notification_valid id d) d h
  handle-IsSound (fails_permanently s id) d h =
      failed-IsSound (datapath_permanent_failure s) (is_forwarder_notification_valid id d) d h
  handle-IsSound (connects platform id) d h = connected-IsSound platform id d h
  handle-IsSound (mtu_tells n) d h = mtu-IsSound n d h
  handle-IsSound (health_tells n) d h = health-IsSound n d h

  run_from-IsSound :
      (es : List Event) (d : IpsecDatapath) → IsSound d → IsSound (run lib config es d)
  unfolding run
  run_from-IsSound [] d h = h
  run_from-IsSound (e ∷ es) d h = run_from-IsSound es (handle lib config e d) (handle-IsSound e d h)

  -- In every history of a new datapath, whatever the VPN service answers and whichever forwarder reports
  -- what, a packet forwarder runs only where it is the newest one, its network socket is open, and the
  -- datapath does not wait for the rekey that a network switch asks for.
  pub run_forwarder_is_sound :
      (es : List Event) (timers : TimerManager ℕ) (id : ℕ)
      → let d = run lib config es (new_ipsec_datapath config timers) in
        d.forwarder ≡ some id
        → (id ≡ d.curr_forwarder_id)
          × (is_some d.network_socket ≡ true)
          × (d.rekey_in_progress ≡ false)
  unfolding IsSound new_ipsec_datapath
  run_forwarder_is_sound es timers id e =
      let d0 = new_ipsec_datapath config timers in
      let d = run lib config es d0 in
      let s = run_from-IsSound es d0 (refl, refl) in
      runs-IsSound d.forwarder id d.curr_forwarder_id d.network_socket d.rekey_in_progress
        d.tunnel_switch_requires_restart e s.0
