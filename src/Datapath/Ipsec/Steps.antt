-- ===== src/Datapath/Ipsec/Steps.antt =====
-- The notifications that krypton/datapath/android_ipsec/ipsec_datapath.cc receives from its forwarder, its
-- MTU trackers and its health check, and every history of a datapath.
pub mod Forwarder
pub mod Stopped
use vpn_libraries.Prelude.{
  ℕ, ◌==◌, ◌&&◌, ◌||◌, Bool, true, false, List, [], ◌∷◌, ◌++◌, if◌then◌else◌, is_some,
}
use vpn_libraries.Prelude.Int.{ℤ}
use vpn_libraries.Utils.Status.{Status}
use vpn_libraries.Utils.IpRange.{NetLibrary}
use vpn_libraries.Timer.{TimerInterface}
use vpn_libraries.Runtime.{NetworkInfo}
use vpn_libraries.Selector.{Endpoint}
use vpn_libraries.Provision.EgressResponse.{AddEgressResponse}
use vpn_libraries.Datapath.MtuTracker.{MtuNotification, downlink_mtu_updated, uplink_mtu_updated}
use vpn_libraries.Datapath.HealthCheck as Health
use vpn_libraries.Datapath.HealthCheck.{HealthNotification}
use vpn_libraries.Datapath.Ipsec.{
  IpsecDatapath, IpsecConfig, IpsecVpnService, TransformParams, DatapathNotification,
  datapath_established, datapath_failed, datapath_permanent_failure, do_uplink_mtu_update,
  do_downlink_mtu_update, health_check_starting, health_check_succeeded, notify, stop,
  prepare_for_tunnel_switch, switch_tunnel,
}
use vpn_libraries.Datapath.Ipsec.Network.{start, switch_network, set_key_materials}

unfoldable pub is_forwarder_notification_valid : ℕ → IpsecDatapath → Bool
is_forwarder_notification_valid id d =
    (is_some d.forwarder || d.tunnel_switch_in_progress) && id == d.curr_forwarder_id

unfoldable pub ipsec_packet_forwarder_failed : Status → ℕ → IpsecDatapath → IpsecDatapath
unfolding is_forwarder_notification_valid stop notify
ipsec_packet_forwarder_failed status id d =
    if is_forwarder_notification_valid id d then notify (datapath_failed status) (stop d) else d

unfoldable pub ipsec_packet_forwarder_permanent_failure : Status → ℕ → IpsecDatapath → IpsecDatapath
unfolding is_forwarder_notification_valid stop notify
ipsec_packet_forwarder_permanent_failure status id d =
    if is_forwarder_notification_valid id d
    then notify (datapath_permanent_failure status) (stop d)
    else d

unfoldable pub ipsec_packet_forwarder_connected : TimerInterface → ℕ → IpsecDatapath → IpsecDatapath
unfolding is_forwarder_notification_valid Health.start notify
ipsec_packet_forwarder_connected platform id d =
    if is_forwarder_notification_valid id d
    then (if d.datapath_established
        then d
        else notify datapath_established (record d {
          datapath_established = true;
          health_check = Health.start platform d.health_check;
        }))
    else d

-- UplinkMtuUpdated and DownlinkMtuUpdated.
unfoldable pub mtu_updated : MtuNotification → IpsecDatapath → IpsecDatapath
unfolding notify
mtu_updated (uplink_mtu_updated u t) d = notify (do_uplink_mtu_update u t) d
mtu_updated (downlink_mtu_updated m) d = notify (do_downlink_mtu_update m) d

-- HealthCheckStarting, HealthCheckSucceeded and HealthCheckFailed.
unfoldable pub health_check_told : HealthNotification → IpsecDatapath → IpsecDatapath
unfolding notify
health_check_told Health.health_check_starting d = notify health_check_starting d
health_check_told Health.health_check_succeeded d = notify health_check_succeeded d
health_check_told (Health.health_check_failed s) d = notify (datapath_failed s) d

-- A call of the session, with what the VPN service answers, or a notification.
pub data Event : Type 0 where
  starts : AddEgressResponse → TransformParams → Event
  stops prepares : Event
  switches_network : IpsecVpnService → ℕ → Endpoint → NetworkInfo → Event
  switches_tunnel : IpsecVpnService → Event
  sets_keys : IpsecVpnService → TransformParams → Event
  fails fails_permanently : Status → ℕ → Event
  connects : TimerInterface → ℕ → Event
  mtu_tells : MtuNotification → Event
  health_tells : HealthNotification → Event

module _ (lib : NetLibrary) (config : IpsecConfig) where
  unfoldable pub handle : Event → IpsecDatapath → IpsecDatapath
  unfolding start stop prepare_for_tunnel_switch switch_network switch_tunnel set_key_materials
      ipsec_packet_forwarder_failed ipsec_packet_forwarder_permanent_failure
      ipsec_packet_forwarder_connected mtu_updated health_check_told
  handle (starts r p) d = (start lib r p d).0
  handle stops d = stop d
  handle prepares d = prepare_for_tunnel_switch d
  handle (switches_network service id e network) d =
      (switch_network lib config service id e network d).0
  handle (switches_tunnel service) d = switch_tunnel service d
  handle (sets_keys service p) d = (set_key_materials service p d).0
  handle (fails s id) d = ipsec_packet_forwarder_failed s id d
  handle (fails_permanently s id) d = ipsec_packet_forwarder_permanent_failure s id d
  handle (connects platform id) d = ipsec_packet_forwarder_connected platform id d
  handle (mtu_tells n) d = mtu_updated n d
  handle (health_tells n) d = health_check_told n d

  unfoldable pub run : List Event → IpsecDatapath → IpsecDatapath
  unfolding handle
  run [] d = d
  run (e ∷ es) d = run es (handle e d)
