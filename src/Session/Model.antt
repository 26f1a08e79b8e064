-- ===== src/Session/Model.antt =====
-- The state of krypton/session.h, and what a session stands on: its provisioning, its keys and its
-- datapath, of which it knows an interface only. Counters of type int are numbers, and those of type
-- uint32_t are kept modulo 2^32.
use vpn_libraries.Prelude.{ℕ, Bool, false, Option, none, some, List, [], ◌^◌, ◌&&◌}
use vpn_libraries.Prelude.Int.{ℤ, pos, ltb_ℤ}
use vpn_libraries.Prelude.Text.{Text}
use vpn_libraries.Utils.Status.{Status, StatusOr, ok_status}
use vpn_libraries.Utils.TimeUtil.{ProtoDuration, Time, infinite_past, duration_from_proto}
use vpn_libraries.Utils.IpRange.{NetLibrary}
use vpn_libraries.Timer.{TimerInterface, invalid_timer_id}
use vpn_libraries.Tunnel.{VpnService}
use vpn_libraries.Runtime.{NetworkInfo, Shared, value_or}
use vpn_libraries.Selector.{Selector, SelectorConfig, Endpoint, new_selector}

pub data State : Type 0 where
  initialized egress_session_created control_plane_connected data_plane_connected : State
  stopped data_plane_error data_plane_permanent_error session_error permanent_error : State

-- net::common::proto::IpRange, a oneof.
pub data PrivateIp : Type 0 where
  ipv4_range ipv6_range : Text → PrivateIp
  range_not_set : PrivateIp

pub record PpnDataplaneResponse : Type 0 where
  pub user_private_ip : List PrivateIp
  pub egress_point_sock_addr : List Text
  pub egress_point_public_value : Text
  pub server_nonce : Text
  pub uplink_spi : ℕ

-- What is sent with an HTTP request to update the path.
pub record UpdatePathInfoRequest : Type 0 where
  pub session_id : ℕ
  pub downlink_mtu : ℤ
  pub apn_type : Text
  pub control_plane_sock_addr : Text
  pub mtu_update_signature : Text

pub data Protocol : Type 0 where
  default_protocol ipsec bridge ike : Protocol

-- The configuration that a session reads, and the components that it calls: a datapath with a state
-- D, a provisioning with a state P, key material K, transform parameters T and responses R to
-- AddEgress.
pub record Env (D P K T R : Type 0) : Type 0 where
  pub datapath_protocol : Protocol
  pub dynamic_mtu_enabled : Bool
  pub selector_config : SelectorConfig
  pub net_library : NetLibrary
  pub timer_interface : TimerInterface
  pub vpn_service : VpnService
  -- DatapathInterface
  pub datapath_start : R → T → D → D × Status
  pub datapath_stop : D → D
  pub prepare_for_tunnel_switch : D → D
  pub switch_tunnel : D → D
  pub set_key_materials : T → D → D × Status
  pub switch_network : ℕ → Endpoint → NetworkInfo → ℕ → D → D × Status
  -- Provision
  pub provision_start : P → P
  pub provision_stop : P → P
  pub provision_rekey : P → P
  pub send_add_egress : Bool → K → P → P
  pub get_apn_type : P → Text
  pub get_control_plane_addr : P → StatusOr Text
  -- crypto::SessionCrypto; creating one draws on randomness, given as a number
  pub create_key_material : ℕ → StatusOr K
  pub public_value : K → Text
  pub generate_signature : K → Text → StatusOr Text
  pub set_signature : Text → K → K
  pub set_remote_key_material : Text → Text → K → K × Status
  pub get_transform_params : K → StatusOr T
  -- AddEgressResponse
  pub ppn_dataplane_response : R → StatusOr PpnDataplaneResponse
  -- The text "path_info;" with the session id, the uplink MTU 0 and the downlink MTU
  pub path_info : ℕ → ℤ → Text

abbrev pub uint32_mod : ℕ
uint32_mod = 2 ^ 32

-- `faulted` is set where the source would follow a null pointer; what happens after that means
-- nothing. `path_updates` holds the requests sent, newest first.
pub record Session (D P K R : Type 0) : Type 0 where
  pub datapath : Option D
  pub released_datapaths : List D
  pub datapath_connecting_timer_enabled : Bool
  pub datapath_connecting_timer_duration : ℤ
  pub rekey_timer_duration : ℤ
  pub rekey_timer_id : ℕ
  pub datapath_reattempt_timer_id : ℕ
  pub datapath_connecting_timer_id : ℕ
  pub datapath_address_selector : Selector
  pub add_egress_response : Option R
  pub uplink_spi : ℕ
  pub egress_node_sock_addresses : List Text
  pub user_private_ip : List PrivateIp
  pub state : State
  pub latest_status : Status
  pub latest_datapath_status : Status
  pub active_network_info : Option NetworkInfo
  pub datapath_switch_network_counter : ℕ
  pub datapath_reattempt_count : ℕ
  pub network_switches_count : ℕ
  pub successful_network_switches : ℕ
  pub health_check_attempts : ℕ
  pub health_check_succeeded : ℕ
  pub network_switch_start_time : Time
  pub network_switch_latencies : List ProtoDuration
  pub uplink_mtu : ℤ
  pub downlink_mtu : ℤ
  pub tunnel_mtu : ℤ
  pub switching_network : Bool
  pub number_of_rekeys : ℕ
  pub key_material : Option K
  pub provision : P
  pub path_updates : List UpdatePathInfoRequest
  pub faulted : Bool

-- What the constructor reads of KryptonConfig.
pub record SessionConfig : Type 0 where
  pub rekey_duration : Option ProtoDuration
  pub datapath_connecting_timer_enabled : Bool
  pub datapath_connecting_timer_duration : Option ProtoDuration

-- kDefaultRekeyDuration, 24 hours.
abbrev default_rekey_duration : ℤ
default_rekey_duration = pos 86400000000000

-- kDefaultDatapathConnectingDuration, 20 seconds.
abbrev default_datapath_connecting_duration : ℤ
default_datapath_connecting_duration = pos 20000000000

-- A duration that is not set, or is not valid, leaves the default.
abbrev configured : Option ProtoDuration → ℤ → ℤ
configured none default_duration = default_duration
configured (some p) default_duration = value_or (duration_from_proto p) default_duration

-- The constructor. -1 as a uint32_t is 2^32 - 1.
unfoldable pub new_session :
    {D P K R : Type 0} → D → P → SessionConfig → Option NetworkInfo → Session D P K R
unfolding new_selector
new_session datapath provision config network =
    let connecting_duration =
      configured config.datapath_connecting_timer_duration default_datapath_connecting_duration in
    record {
      datapath = some datapath;
      released_datapaths = [];
      datapath_connecting_timer_enabled =
          config.datapath_connecting_timer_enabled && ltb_ℤ (pos 0) connecting_duration;
      datapath_connecting_timer_duration = connecting_duration;
      rekey_timer_duration = configured config.rekey_duration default_rekey_duration;
      rekey_timer_id = invalid_timer_id;
      datapath_reattempt_timer_id = invalid_timer_id;
      datapath_connecting_timer_id = invalid_timer_id;
      datapath_address_selector = new_selector;
      add_egress_response = none;
      uplink_spi = 4294967295;
      egress_node_sock_addresses = [];
      user_private_ip = [];
      state = initialized;
      latest_status = ok_status;
      latest_datapath_status = ok_status;
      active_network_info = network;
      datapath_switch_network_counter = 0;
      datapath_reattempt_count = 0;
      network_switches_count = 0;
      successful_network_switches = 0;
      health_check_attempts = 0;
      health_check_succeeded = 0;
      network_switch_start_time = infinite_past;
      network_switch_latencies = [];
      uplink_mtu = pos 0;
      downlink_mtu = pos 0;
      tunnel_mtu = pos 1395;
      switching_network = false;
      number_of_rekeys = 0;
      key_material = none;
      provision = provision;
      path_updates = [];
      faulted = false;
    }

-- A session and what it shares with the other components.
pub record World (D P K R : Type 0) : Type 0 where
  pub session : Session D P K R
  pub shared : Shared
