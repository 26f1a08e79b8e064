-- ===== src/Examples/Datapath.antt =====
-- Runs of krypton/datapath/android_ipsec/ipsec_datapath.cc.
use vpn_libraries.Prelude.{ℕ, ◌≡◌, refl, true, false, some, none, List, [], ◌∷◌, is_some}
use vpn_libraries.Prelude.Int.{pos}
use vpn_libraries.Prelude.Text.{codes}
use vpn_libraries.Utils.Status.{value, ok_status}
use vpn_libraries.Timer.{TimerManager, new_timer_manager}
use vpn_libraries.Selector.{Endpoint, ip_v4}
use vpn_libraries.Provision.EgressResponse.{AddEgressResponse}
use vpn_libraries.Datapath.Ipsec.{
  IpsecConfig, IpsecVpnService, IpsecTransformParams, ipsec_params, new_ipsec_datapath,
}
use vpn_libraries.Datapath.Ipsec.Steps.{
  Event, starts, prepares, switches_network, switches_tunnel, run,
}
use vpn_libraries.Datapath.Ipsec.Steps.Forwarder.{run_forwarder_is_sound}
use vpn_libraries.Examples.Network.{net_library, wifi_network}
use vpn_libraries.Examples.Setup.{response}

abbrev config : IpsecConfig
config = record {
  dynamic_mtu_enabled = true;
  ipv4_keepalive_interval = some (record { seconds = pos 20; nanos = pos 0 });
  ipv6_keepalive_interval = none;
  health = record {
    periodic_health_check_enabled = false;
    periodic_health_check_duration = none;
    periodic_health_check_url = [];
    periodic_health_check_port = 80;
  };
}

-- A service that says yes to everything.
abbrev service : IpsecVpnService
service = record {
  get_tunnel = value true;
  create_protected_network_socket = λ network e mss. value (some (pos 7));
  configure_ipsec = λ k. ok_status;
}

abbrev egress : AddEgressResponse
egress = record {
  ppn_dataplane = some (record {
    dataplane = response;
    expiry = none;
    mss_detection_sock_addr = [];
    transport_mode_server_port = 0;
    control_plane_addr = [];
  });
  ike = none;
}

abbrev keys : IpsecTransformParams
keys = record {
  uplink_key = codes "up";
  downlink_key = codes "down";
  uplink_salt = codes "salt";
  downlink_salt = codes "salt";
  uplink_spi = 1;
  downlink_spi = 2;
  network_id = pos 0;
  network_fd = pos 0;
  destination_address = [];
  destination_address_family = none;
  destination_port = pos 0;
  keepalive_interval_seconds = none;
}

abbrev endpoint : Endpoint
endpoint = record {
  host_port = codes "64.9.240.165:2153";
  address = codes "64.9.240.165";
  port = pos 2153;
  ip_protocol = ip_v4;
}

-- The first forwarder is stopped for another tunnel, on which the second runs.
abbrev history : List Event
history =
    starts egress (ipsec_params keys)
    ∷ switches_network service 123 endpoint wifi_network
    ∷ prepares
    ∷ switches_tunnel service
    ∷ []

abbrev timers : TimerManager ℕ
timers = new_timer_manager

second_runs : (run net_library config history (new_ipsec_datapath config timers)).forwarder ≡ some 2
unfolding run new_ipsec_datapath new_timer_manager
second_runs = refl

run_forwarder_is_sound_example :
    let d = run net_library config history (new_ipsec_datapath config timers) in
    (2 ≡ d.curr_forwarder_id) × (is_some d.network_socket ≡ true) × (d.rekey_in_progress ≡ false)
run_forwarder_is_sound_example =
    run_forwarder_is_sound net_library config history timers 2 second_runs
