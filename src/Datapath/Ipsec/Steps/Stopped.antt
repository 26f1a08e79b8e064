-- ===== src/Datapath/Ipsec/Steps/Stopped.antt =====
-- That krypton/datapath/android_ipsec/ipsec_datapath.cc ignores the forwarder that it has stopped.
use vpn_libraries.Prelude.{ℕ, ◌≡◌, refl, false, arith}
use vpn_libraries.Utils.Status.{Status}
use vpn_libraries.Timer.{TimerInterface}
use vpn_libraries.Datapath.Ipsec.{IpsecDatapath, stop}
use vpn_libraries.Datapath.Ipsec.Forwarder.{stop-IsCleared}
use vpn_libraries.Datapath.Ipsec.Steps.{
  is_forwarder_notification_valid, ipsec_packet_forwarder_failed,
  ipsec_packet_forwarder_permanent_failure, ipsec_packet_forwarder_connected,
}

invalid_after_stop :
    (id : ℕ) (d : IpsecDatapath) → is_forwarder_notification_valid id (stop d) ≡ false
unfolding is_forwarder_notification_valid
invalid_after_stop id d = ground (arith, stop-IsCleared d)

-- After Stop, a forwarder that still reports a failure of either kind, or that it is connected, changes
-- nothing, whichever forwarder it is.
pub stopped_ignores_forwarders :
    (d : IpsecDatapath) (s : Status) (platform : TimerInterface) (id : ℕ)
    → (ipsec_packet_forwarder_failed s id (stop d) ≡ stop d)
      × (ipsec_packet_forwarder_permanent_failure s id (stop d) ≡ stop d)
      × (ipsec_packet_forwarder_connected platform id (stop d) ≡ stop d)
unfolding ipsec_packet_forwarder_failed ipsec_packet_forwarder_permanent_failure
    ipsec_packet_forwarder_connected
stopped_ignores_forwarders d s platform id =
    let h = invalid_after_stop id d in (rw h refl, rw h refl, rw h refl)
