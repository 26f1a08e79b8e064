-- ===== src/Datapath/Ipsec.antt =====
-- krypton/datapath/android_ipsec/ipsec_datapath.h and ipsec_datapath.cc: the state of the datapath, and
-- how its packet forwarder is started and shut down. What the VPN service answers to the calls of one
-- method is an argument of it; a forwarder is its id, and a socket its file descriptor.
pub mod Network
pub mod Forwarder
pub mod Steps
use vpn_libraries.Prelude.{
  ℕ, ◌+◌, Bool, true, false, Option, none, some, List, [], ◌∷◌, ◌++◌, if◌then◌else◌, is_some,
}
use vpn_libraries.Prelude.Int.{ℤ, pos}
use vpn_libraries.Prelude.Text.{Text}
use vpn_libraries.Utils.Status.{Status, StatusOr, value, error, error_status, internal}
use vpn_libraries.Utils.TimeUtil.{ProtoDuration}
use vpn_libraries.Timer.{TimerManager}
use vpn_libraries.Runtime.{NetworkInfo, AddressFamily}
use vpn_libraries.Selector.{Endpoint, unknown_protocol}
use vpn_libraries.Datapath.MtuTracker.{MtuNotification}
use vpn_libraries.Datapath.HealthCheck as Health
use vpn_libraries.Datapath.HealthCheck.{HealthCheck, HealthConfig, new_health_check}

-- DatapathInterface::NotificationInterface, which the session implements.
pub data DatapathNotification : Type 0 where
  datapath_established do_rekey : DatapathNotification
  health_check_starting health_check_succeeded : DatapathNotification
  datapath_failed datapath_permanent_failure : Status → DatapathNotification
  do_uplink_mtu_update : ℤ → ℤ → DatapathNotification
  do_downlink_mtu_update : ℤ → DatapathNotification

pub record IpsecTransformParams : Type 0 where
  pub uplink_key : Text
  pub downlink_key : Text
  pub uplink_salt : Text
  pub downlink_salt : Text
  pub uplink_spi : ℕ
  pub downlink_spi : ℕ
  pub network_id : ℤ
  pub network_fd : ℤ
  pub destination_address : Text
  pub destination_address_family : Option AddressFamily
  pub destination_port : ℤ
  pub keepalive_interval_seconds : Option ℤ

-- The oneof of TransformParams.
pub data TransformParams : Type 0 where
  ipsec_params : IpsecTransformParams → TransformParams
  other_params : TransformParams

-- What the datapath reads of KryptonConfig.
pub record IpsecConfig : Type 0 where
  pub dynamic_mtu_enabled : Bool
  pub ipv4_keepalive_interval : Option ProtoDuration
  pub ipv6_keepalive_interval : Option ProtoDuration
  pub health : HealthConfig

-- IpSecVpnServiceInterface: GetTunnel says whether the tunnel is not null, and a socket may be null. The
-- endpoint for the detection of the MSS is there where the MTU is dynamic.
pub record IpsecVpnService : Type 0 where
  pub get_tunnel : StatusOr Bool
  pub create_protected_network_socket :
      NetworkInfo → Endpoint → Option Endpoint → StatusOr (Option ℤ)
  pub configure_ipsec : IpsecTransformParams → Status

-- `stopped_forwarders` and `closed_sockets` are the calls of Stop and Close, newest first; `mtu_posted` is
-- what the trackers of the sockets posted on the looper, and `posted` what was posted for the session,
-- oldest first.
pub record IpsecDatapath : Type 0 where
  pub ipv4_tcp_mss_endpoint : Endpoint
  pub ipv6_tcp_mss_endpoint : Endpoint
  pub rekey_needed : Bool
  pub rekey_in_progress : Bool
  pub datapath_established : Bool
  pub tunnel_switch_in_progress : Bool
  pub tunnel_switch_requires_restart : Bool
  pub key_material : Option IpsecTransformParams
  pub transport_mode_server_port : Option ℕ
  pub curr_forwarder_id : ℕ
  pub forwarder : Option ℕ
  pub network_socket : Option ℤ
  pub health_check : HealthCheck
  pub stopped_forwarders : List ℕ
  pub closed_sockets : List ℤ
  pub mtu_posted : List MtuNotification
  pub posted : List DatapathNotification

abbrev no_endpoint : Endpoint
no_endpoint = record { host_port = []; address = []; port = pos 0; ip_protocol = unknown_protocol }

-- The constructor.
unfoldable pub new_ipsec_datapath : IpsecConfig → TimerManager ℕ → IpsecDatapath
unfolding new_health_check
new_ipsec_datapath config timers = record {
  ipv4_tcp_mss_endpoint = no_endpoint;
  ipv6_tcp_mss_endpoint = no_endpoint;
  rekey_needed = false;
  rekey_in_progress = false;
  datapath_established = false;
  tunnel_switch_in_progress = false;
  tunnel_switch_requires_restart = false;
  key_material = none;
  transport_mode_server_port = none;
  curr_forwarder_id = 0;
  forwarder = none;
  network_socket = none;
  health_check = new_health_check config.health timers;
  stopped_forwarders = [];
  closed_sockets = [];
  mtu_posted = [];
  posted = [];
}

unfoldable pub notify : DatapathNotification → IpsecDatapath → IpsecDatapath
notify n d = record d { posted = d.posted ++ n ∷ [] }

close_at : Option ℤ → IpsecDatapath → IpsecDatapath
close_at none d = d
close_at (some fd) d = record d { network_socket = none; closed_sockets = fd ∷ d.closed_sockets }

unfoldable pub close_network_socket : IpsecDatapath → IpsecDatapath
unfolding close_at
close_network_socket d = close_at d.network_socket d

stop_at : Option ℕ → IpsecDatapath → IpsecDatapath
stop_at none d = d
stop_at (some id) d = record d { forwarder = none; stopped_forwarders = id ∷ d.stopped_forwarders }

unfoldable pub shut_down_ipsec_packet_forwarder : Bool → IpsecDatapath → IpsecDatapath
unfolding stop_at close_network_socket Health.stop
shut_down_ipsec_packet_forwarder close d =
    let d1 =
      stop_at d.forwarder
        (record d { tunnel_switch_in_progress = false; tunnel_switch_requires_restart = false }) in
    let d2 = if close then close_network_socket d1 else d1 in
    record d2 { health_check = Health.stop d2.health_check }

-- A new IpSecPacketForwarder with the next id, which is started.
unfoldable pub start_forwarder : IpsecDatapath → IpsecDatapath
start_forwarder d =
    let id = d.curr_forwarder_id + 1 in record d { curr_forwarder_id = id; forwarder = some id }

abbrev pub permanent_failure : Status → IpsecDatapath → IpsecDatapath
permanent_failure s d = notify (datapath_permanent_failure s) d

started_on : StatusOr Bool → IpsecDatapath → IpsecDatapath
unfolding notify start_forwarder
started_on (error s) d = permanent_failure s d
started_on (value false) d = permanent_failure (error_status internal "tunnel is null") d
started_on (value true) d =
    if is_some d.network_socket
    then start_forwarder d
    else permanent_failure (error_status internal "network socket is null") d

unfoldable pub start_up_ipsec_packet_forwarder : IpsecVpnService → IpsecDatapath → IpsecDatapath
unfolding started_on
start_up_ipsec_packet_forwarder service d =
    if d.rekey_in_progress then d else started_on service.get_tunnel d

unfoldable pub stop : IpsecDatapath → IpsecDatapath
unfolding shut_down_ipsec_packet_forwarder
stop d = shut_down_ipsec_packet_forwarder true d

unfoldable pub prepare_for_tunnel_switch : IpsecDatapath → IpsecDatapath
unfolding shut_down_ipsec_packet_forwarder
prepare_for_tunnel_switch d = record (shut_down_ipsec_packet_forwarder false d) {
  tunnel_switch_in_progress = true;
  tunnel_switch_requires_restart = is_some d.forwarder;
}

unfoldable pub switch_tunnel : IpsecVpnService → IpsecDatapath → IpsecDatapath
unfolding start_up_ipsec_packet_forwarder
switch_tunnel service d =
    let d1 =
      if d.tunnel_switch_requires_restart
      then start_up_ipsec_packet_forwarder service
          (record d { tunnel_switch_requires_restart = false })
      else d in
    record d1 { tunnel_switch_in_progress = false }
