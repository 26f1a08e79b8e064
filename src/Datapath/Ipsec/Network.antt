-- ===== src/Datapath/Ipsec/Network.antt =====
-- Start, SwitchNetwork and SetKeyMaterials of krypton/datapath/android_ipsec/ipsec_datapath.cc.
pub mod Forwarder
use vpn_libraries.Prelude.{
  ℕ, ◌+◌, ◌^◌, ◌==◌, Bool, true, false, Option, none, some, List, [], ◌∷◌, ◌++◌, if◌then◌else◌, ltb,
}
use vpn_libraries.Prelude.Int.{ℤ, pos, ◌-ℤ◌}
use vpn_libraries.Prelude.Text.{Text}
use vpn_libraries.Utils.Status.{
  Status, StatusOr, value, error, ok_status, error_status, internal, invalid_argument,
  failed_precondition, is_ok,
}
use vpn_libraries.Utils.TimeUtil.{ProtoDuration}
use vpn_libraries.Utils.IpRange.{NetLibrary}
use vpn_libraries.Runtime.{NetworkInfo, AddressFamily, v4, v6}
use vpn_libraries.Selector.{
  Endpoint, IpProtocol, unknown_protocol, ip_v4, ip_v6, get_endpoint_from_host_port,
}
use vpn_libraries.Provision.EgressResponse.{
  AddEgressResponse, DataplaneResponse, ppn_dataplane_response, to_uint32,
}
use vpn_libraries.Datapath.MtuTracker as Mtu
use vpn_libraries.Datapath.MtuTracker.{new_mtu_tracker, default_mtu}
use vpn_libraries.Datapath.HealthCheck.{increment_network_switch_counter}
use vpn_libraries.Datapath.Ipsec.{
  IpsecDatapath, IpsecConfig, IpsecVpnService, IpsecTransformParams, TransformParams, ipsec_params,
  other_params, do_rekey, datapath_failed, notify, permanent_failure, start_forwarder,
  shut_down_ipsec_packet_forwarder, start_up_ipsec_packet_forwarder,
}

module _ (lib : NetLibrary) where
  abbrev set_mss_endpoint : Endpoint → IpProtocol → IpsecDatapath → IpsecDatapath
  set_mss_endpoint e ip_v4 d = record d { ipv4_tcp_mss_endpoint = e }
  set_mss_endpoint e ip_v6 d = record d { ipv6_tcp_mss_endpoint = e }
  set_mss_endpoint e unknown_protocol d = d

  -- The loop over the addresses ends at the first that is no endpoint.
  set_mss_endpoints : List (StatusOr Endpoint) → IpsecDatapath → IpsecDatapath × Status
  set_mss_endpoints [] d = (d, ok_status)
  set_mss_endpoints (error s ∷ es) d = (d, s)
  set_mss_endpoints (value e ∷ es) d = set_mss_endpoints es (set_mss_endpoint e e.ip_protocol d)

  abbrev endpoints : List Text → List (StatusOr Endpoint)
  endpoints [] = []
  endpoints (s ∷ ss) = get_endpoint_from_host_port lib s ∷ endpoints ss

  -- The port is set where every address was an endpoint, and it is not 0.
  set_port : ℕ → IpsecDatapath × Status → IpsecDatapath × Status
  set_port port (d, s) =
      if is_ok s
      then (if port == 0 then (d, s) else (record d { transport_mode_server_port = some port }, s))
      else (d, s)

  start_with : StatusOr DataplaneResponse → IpsecDatapath → IpsecDatapath × Status
  unfolding set_mss_endpoints set_port get_endpoint_from_host_port
  start_with (error s) d = (d, s)
  start_with (value r) d =
      set_port r.transport_mode_server_port
        (set_mss_endpoints (endpoints r.mss_detection_sock_addr) d)

  unfoldable pub start :
      AddEgressResponse → TransformParams → IpsecDatapath → IpsecDatapath × Status
  unfolding start_with ppn_dataplane_response
  start response other_params d =
      (d, error_status invalid_argument "IPSec datapath missing transform params")
  start response (ipsec_params k) d =
      start_with (ppn_dataplane_response response) (record d { key_material = some k })

  -- absl::Substitute of "$0:$1" or "[$0]:$1".
  abbrev host_port : Text → IpProtocol → ℕ → Text
  host_port address ip_v4 port = address ++ b':' ∷ lib.str_cat (pos port)
  host_port address ip_v6 port = b'[' ∷ (address ++ b']' ∷ b':' ∷ lib.str_cat (pos port))
  host_port address unknown_protocol port = b'[' ∷ (address ++ b']' ∷ b':' ∷ lib.str_cat (pos port))

  unfoldable pub transport_mode_endpoint : Endpoint → Option ℕ → StatusOr Endpoint
  unfolding get_endpoint_from_host_port
  transport_mode_endpoint e none = value e
  transport_mode_endpoint e (some port) =
      get_endpoint_from_host_port lib (host_port e.address e.ip_protocol port)

  module _ (config : IpsecConfig) (service : IpsecVpnService) where
    -- An int64 stored in an int32 field.
    abbrev to_int32 : ℤ → ℤ
    to_int32 z = let u = to_uint32 z in if ltb u (2 ^ 31) then pos u else pos u -ℤ pos (2 ^ 32)

    abbrev keepalive : Option ProtoDuration → IpsecTransformParams → IpsecTransformParams
    keepalive none k = k
    keepalive (some i) k = record k { keepalive_interval_seconds = some (to_int32 i.seconds) }

    -- Where the service was configured the new socket is kept, and the forwarder starts, unless keys
    -- were used on another network before.
    with_status : Status → ℤ → IpsecDatapath → IpsecDatapath × Status
    unfolding start_forwarder increment_network_switch_counter notify
    with_status status fd d =
        let d1 = record d {
          network_socket = some fd;
          health_check = increment_network_switch_counter d.health_check;
        } in
        let waiting = record d1 { rekey_in_progress = true } in
        if is_ok status
        then (
          if d.rekey_needed
              then (if d.rekey_in_progress then d1 else notify do_rekey waiting)
              else start_forwarder (record d1 { rekey_needed = true }),
          ok_status,
        )
        else (d, status)

    abbrev default_id : Option ℤ → ℤ
    default_id none = pos 0
    default_id (some i) = i

    configured : IpProtocol → ℤ → IpsecTransformParams → IpsecDatapath → IpsecDatapath × Status
    unfolding with_status to_uint32 ◌-ℤ◌
    configured unknown_protocol fd k d = (
      record d { key_material = some k },
      error_status internal "unsupported address family for endpoint",
    )
    configured ip_v4 fd k d =
        let k1 =
          keepalive config.ipv4_keepalive_interval
            (record k { destination_address_family = some v4 }) in
        with_status (service.configure_ipsec k1) fd (record d { key_material = some k1 })
    configured ip_v6 fd k d =
        let k1 =
          keepalive config.ipv6_keepalive_interval
            (record k { destination_address_family = some v6 }) in
        with_status (service.configure_ipsec k1) fd (record d { key_material = some k1 })

    with_socket :
        StatusOr (Option ℤ)
        → Endpoint
        → NetworkInfo
        → IpsecTransformParams
        → IpsecDatapath
        → IpsecDatapath × Status
    unfolding configured notify
    with_socket (error s) e network k d = (notify (datapath_failed s) d, ok_status)
    with_socket (value none) e network k d = (d, error_status internal "got a null network socket")
    with_socket (value (some fd)) e network k d =
        configured e.ip_protocol fd
          (record k {
            network_id = default_id network.network_id;
            network_fd = fd;
            destination_address = e.address;
            destination_port = e.port;
          })
          d

    abbrev tracked : IpProtocol → Mtu.IpProtocol
    tracked ip_v6 = Mtu.ipv6
    tracked ip_v4 = Mtu.ipv4
    tracked unknown_protocol = Mtu.ipv4

    abbrev initial_mtu : Option ℕ → ℤ
    initial_mtu none = default_mtu
    initial_mtu (some mtu) = to_int32 (pos mtu)

    abbrev mss_endpoint : IpProtocol → IpsecDatapath → Endpoint
    mss_endpoint ip_v4 d = d.ipv4_tcp_mss_endpoint
    mss_endpoint ip_v6 d = d.ipv6_tcp_mss_endpoint
    mss_endpoint unknown_protocol d = d.ipv6_tcp_mss_endpoint

    -- The tracker of a new socket posts the MTUs that it starts from.
    track : Endpoint → NetworkInfo → IpsecDatapath → IpsecDatapath
    unfolding new_mtu_tracker to_uint32 ◌-ℤ◌
    track e network d =
        let tracker = new_mtu_tracker (tracked e.ip_protocol) (initial_mtu network.mtu) in
        if config.dynamic_mtu_enabled
        then record d { mtu_posted = d.mtu_posted ++ tracker.posted }
        else d

    with_endpoint :
        StatusOr Endpoint
        → Endpoint
        → NetworkInfo
        → IpsecTransformParams
        → IpsecDatapath
        → IpsecDatapath × Status
    unfolding with_socket track notify
    with_endpoint (error s) e network k d = (permanent_failure s d, ok_status)
    with_endpoint (value t) e network k d =
        let mss =
          if config.dynamic_mtu_enabled then some (mss_endpoint e.ip_protocol d) else none in
        with_socket (service.create_protected_network_socket network t mss) e network k
          (track e network d)

    with_keys :
        Option IpsecTransformParams
        → ℕ
        → Endpoint
        → NetworkInfo
        → IpsecDatapath
        → IpsecDatapath × Status
    unfolding with_endpoint transport_mode_endpoint
    with_keys none session_id e network d =
        (d, error_status failed_precondition "Key Material is not set")
    with_keys (some k) session_id e network d =
        let k1 = record k { uplink_spi = session_id } in
        with_endpoint (transport_mode_endpoint e d.transport_mode_server_port) e network k1
          (record d { key_material = some k1 })

    with_tunnel :
        StatusOr Bool → ℕ → Endpoint → NetworkInfo → IpsecDatapath → IpsecDatapath × Status
    unfolding with_keys notify
    with_tunnel (error s) session_id e network d = (permanent_failure s d, ok_status)
    with_tunnel (value false) session_id e network d =
        (permanent_failure (error_status internal "tunnel is null") d, ok_status)
    with_tunnel (value true) session_id e network d =
        with_keys d.key_material session_id e network d

    unfoldable pub switch_network :
        ℕ → Endpoint → NetworkInfo → IpsecDatapath → IpsecDatapath × Status
    unfolding shut_down_ipsec_packet_forwarder with_tunnel
    switch_network session_id e network d =
        with_tunnel service.get_tunnel session_id e network
          (shut_down_ipsec_packet_forwarder true d)

module _ (service : IpsecVpnService) where
  abbrev rekeyed : IpsecTransformParams → IpsecTransformParams → IpsecTransformParams
  rekeyed new k = record k {
    downlink_spi = new.downlink_spi;
    uplink_key = new.uplink_key;
    downlink_key = new.downlink_key;
    uplink_salt = new.uplink_salt;
    downlink_salt = new.downlink_salt;
  }

  restarted : Status → IpsecDatapath → IpsecDatapath × Status
  unfolding start_up_ipsec_packet_forwarder
  restarted status d =
      if is_ok status then (start_up_ipsec_packet_forwarder service d, ok_status) else (d, status)

  with_material :
      Option IpsecTransformParams → IpsecTransformParams → IpsecDatapath → IpsecDatapath × Status
  unfolding restarted shut_down_ipsec_packet_forwarder
  with_material none new d = (d, error_status internal "key_material_ is not set")
  with_material (some k) new d =
      let k1 = rekeyed new k in
      restarted (service.configure_ipsec k1)
        (shut_down_ipsec_packet_forwarder false (record d { key_material = some k1 }))

  unfoldable pub set_key_materials : TransformParams → IpsecDatapath → IpsecDatapath × Status
  unfolding with_material
  set_key_materials other_params d = (
    record d { rekey_in_progress = false },
    error_status invalid_argument "Received key material that is not of type IPSEC",
  )
  set_key_materials (ipsec_params new) d =
      with_material d.key_material new (record d { rekey_in_progress = false })
