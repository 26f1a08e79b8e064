-- ===== src/Session/TunFdData.antt =====
-- The data of the tunnel, as krypton/session.cc builds them.
use vpn_libraries.Prelude.{ℕ, Bool, false, Option, none, some, List, [], ◌∷◌, if◌then◌else◌}
use vpn_libraries.Prelude.Int.{ℤ, pos}
use vpn_libraries.Prelude.Text.{Text, codes}
use vpn_libraries.Utils.Status.{
  StatusOr, value, error, error_status, failed_precondition, invalid_argument,
}
use vpn_libraries.Utils.ProtoComparison.{TunFdData, IpRange, ipv4, ipv6}
use vpn_libraries.Utils.IpRange
use vpn_libraries.Utils.IpRange.{NetLibrary, Family, af_inet, af_inet6, parse}
use vpn_libraries.Session.Model.{
  Session, Env, PrivateIp, ipv4_range, ipv6_range, range_not_set, PpnDataplaneResponse,
}

proto_family : Family → vpn_libraries.Utils.ProtoComparison.IpFamily
proto_family af_inet = ipv4
proto_family af_inet6 = ipv6

to_proto : StatusOr IpRange.IpRange → StatusOr IpRange
unfolding proto_family
to_proto (error s) = error s
to_proto (value r) =
    value (record { ip_family = proto_family r.family; ip_range = r.address; prefix = r.prefix })

-- ToTunFdIpRange, over ProtoIpRange.
unfoldable to_tun_fd_ip_range : NetLibrary → PrivateIp → StatusOr IpRange
unfolding to_proto
to_tun_fd_ip_range lib (ipv4_range ip) = to_proto (parse lib ip)
to_tun_fd_ip_range lib (ipv6_range ip) = to_proto (parse lib ip)
to_tun_fd_ip_range lib range_not_set =
    error (error_status invalid_argument "ip range is neither IPv4 nor IPv6")

consed : StatusOr IpRange → StatusOr (List IpRange) → StatusOr (List IpRange)
consed (error s) rest = error s
consed (value r) (error s) = error s
consed (value r) (value rs) = value (r ∷ rs)

-- The loop over the private addresses, which ends with the first that does not parse.
unfoldable to_tun_fd_ip_ranges : NetLibrary → List PrivateIp → StatusOr (List IpRange)
unfolding to_tun_fd_ip_range consed
to_tun_fd_ip_ranges lib [] = value []
to_tun_fd_ip_ranges lib (ip ∷ ips) =
    consed (to_tun_fd_ip_range lib ip) (to_tun_fd_ip_ranges lib ips)

add_dns : Text → vpn_libraries.Utils.ProtoComparison.IpFamily → ℕ → IpRange
add_dns dns_ip family prefix = record {
  ip_family = family;
  ip_range = dns_ip;
  prefix = some (pos prefix);
}

abbrev pub dns_addresses : List IpRange
unfolding add_dns
dns_addresses =
    add_dns (codes "8.8.8.8") ipv4 32
    ∷ add_dns (codes "8.8.4.4") ipv4 32
    ∷ add_dns (codes "2001:4860:4860::8888") ipv6 128
    ∷ add_dns (codes "2001:4860:4860::8844") ipv6 128
    ∷ []

-- add_tunnel_ip_addresses, once the addresses are read.
with_addresses : Bool → ℤ → StatusOr (List IpRange) → StatusOr TunFdData
with_addresses dynamic_mtu_enabled tunnel_mtu (error s) = error s
with_addresses dynamic_mtu_enabled tunnel_mtu (value addresses) = value (record {
  session_name = none;
  tunnel_ip_addresses = addresses;
  tunnel_dns_addresses = dns_addresses;
  mtu = if dynamic_mtu_enabled then some tunnel_mtu else none;
  is_metered = some false;
  send_buffer_size = none;
  receive_buffer_size = none;
})

with_response :
    NetLibrary → Bool → ℤ → List PrivateIp → StatusOr PpnDataplaneResponse → StatusOr TunFdData
unfolding to_tun_fd_ip_ranges with_addresses
with_response lib dynamic_mtu_enabled tunnel_mtu ips (error s) = error s
with_response lib dynamic_mtu_enabled tunnel_mtu [] (value info) =
    error (error_status invalid_argument "missing user_private_ip_")
with_response lib dynamic_mtu_enabled tunnel_mtu (ip ∷ ips) (value info) =
    with_addresses dynamic_mtu_enabled tunnel_mtu (to_tun_fd_ip_ranges lib (ip ∷ ips))

module _ {D P K T R : Type 0} (env : Env D P K T R) where
  tun_fd_data_of : Session D P K R → Option R → StatusOr TunFdData
  unfolding with_response
  tun_fd_data_of s none =
      error (error_status failed_precondition "AddEgressResponse is not initialized")
  tun_fd_data_of s (some r) =
      with_response env.net_library env.dynamic_mtu_enabled s.tunnel_mtu s.user_private_ip
        (env.ppn_dataplane_response r)

  unfoldable pub build_tun_fd_data : Session D P K R → StatusOr TunFdData
  unfolding tun_fd_data_of
  build_tun_fd_data s = tun_fd_data_of s s.add_egress_response
