-- ===== src/Examples/Setup.antt =====
-- A session, a session manager and a Krypton for the examples, with a datapath, a provisioning and keys
-- that say yes to everything.
use vpn_libraries.Prelude.{ℕ, ◌+◌, true, false, some, none, [], ◌∷◌}
use vpn_libraries.Prelude.Int.{pos}
use vpn_libraries.Prelude.Text.{codes}
use vpn_libraries.Utils.Status.{Status, ok_status, error_status, unavailable, value}
use vpn_libraries.Timer.{new_timer_manager}
use vpn_libraries.Runtime.{Shared}
use vpn_libraries.Session.Model.{
  SessionConfig, State, Session, World, Env, ipsec, new_session, PpnDataplaneResponse, ipv4_range,
}
use vpn_libraries.SessionManager.{SessionFactory, SessionManager}
use vpn_libraries.Krypton.{ReconnectorConfig}
use vpn_libraries.Examples.Network.{net_library, wifi_network}
use vpn_libraries.Examples.Tunnel.{vpn_service, blocking}
use vpn_libraries.Examples.Timer.{timer_interface}

abbrev pub Nothing : Type 0
Nothing = Unit {0}

abbrev pub response : PpnDataplaneResponse
response = record {
  user_private_ip = ipv4_range (codes "10.2.2.123") ∷ [];
  egress_point_sock_addr = codes "64.9.240.165:2153" ∷ [];
  egress_point_public_value = codes "value";
  server_nonce = codes "nonce";
  uplink_spi = 123;
}

-- The provisioning counts the rekeys.
abbrev pub env : Env Nothing ℕ Nothing Nothing Nothing
env = record {
  datapath_protocol = ipsec;
  dynamic_mtu_enabled = true;
  selector_config = record { ipv6_enabled = true; bridge = false };
  net_library = net_library;
  timer_interface = timer_interface;
  vpn_service = vpn_service;
  datapath_start = λ r t d. (d, ok_status);
  datapath_stop = λ d. d;
  prepare_for_tunnel_switch = λ d. d;
  switch_tunnel = λ d. d;
  set_key_materials = λ t d. (d, ok_status);
  switch_network = λ spi ip network n d. (d, ok_status);
  provision_start = λ p. p;
  provision_stop = λ p. p;
  provision_rekey = λ p. p + 1;
  send_add_egress = λ is_rekey k p. p;
  get_apn_type = λ p. codes "ppn";
  get_control_plane_addr = λ p. value (codes "64.9.240.165:2153");
  create_key_material = λ random. value tt;
  public_value = λ k. codes "public";
  generate_signature = λ k s. value (codes "signature");
  set_signature = λ s k. k;
  set_remote_key_material = λ v n k. (k, ok_status);
  get_transform_params = λ k. value tt;
  ppn_dataplane_response = λ r. value response;
  path_info = λ spi mtu. codes "path_info;";
}

abbrev pub shared : Shared
shared = record { tunnel = blocking; timers = new_timer_manager; posted = [] }

abbrev pub lost : Status
lost = error_status unavailable "no route"

abbrev pub session_config : SessionConfig
session_config = record {
  rekey_duration = some (record { seconds = pos 3600; nanos = pos 0 });
  datapath_connecting_timer_enabled = true;
  datapath_connecting_timer_duration = none;
}

-- A new session on a wifi network, in a given state, with the ids of its timers.
abbrev pub session_in : State → Session Nothing ℕ Nothing Nothing
session_in s = record (new_session tt 0 session_config (some wifi_network)) {
  state = s;
  rekey_timer_id = 3;
  active_network_info = some wifi_network;
}

abbrev pub world_in : State → World Nothing ℕ Nothing Nothing
world_in s = record { session = session_in s; shared = shared }

abbrev pub factory : SessionFactory Nothing ℕ Nothing Nothing Nothing
factory = record {
  session_env = env;
  build_datapath = λ n. tt;
  build_provision = λ n. 0;
  session_config = session_config;
}

abbrev pub config : ReconnectorConfig
config = record { initial_time_to_reconnect_msec = 2000; session_connection_deadline_msec = 30000 }

abbrev pub manager : SessionManager Nothing ℕ Nothing Nothing
manager = record { session = none; session_created = false; now = pos 0 }

abbrev pub connected_manager : SessionManager Nothing ℕ Nothing Nothing
connected_manager = record {
  session = some (session_in State.data_plane_connected);
  session_created = true;
  now = pos 0;
}
