-- ===== src/Selector.antt =====
-- krypton/endpoint.cc (GetEndpointFromHostPort) and krypton/datapath_address_selector.cc: the
-- addresses of the egress node, in the order in which they are tried.
pub mod Order
pub mod Attempts
use vpn_libraries.Prelude.{
  ℕ, zero, suc, ◌+◌, ◌≡◌, Bool, true, false, Option, none, some, List, [], ◌∷◌, ◌++◌, ◌&&◌, ◌||◌,
  not, ltb, ◌==◌, if◌then◌else◌, length, get_elem?,
}
use vpn_libraries.Prelude.Int.{ℤ}
use vpn_libraries.Prelude.Text.{Text}
use vpn_libraries.Utils.Status.{
  Status, StatusOr, value, error, error_status, invalid_argument, failed_precondition,
  resource_exhausted, internal,
}
use vpn_libraries.Utils.IpRange.{
  NetLibrary, parse_host_port, is_valid_v4_address, is_valid_v6_address,
}
use vpn_libraries.Runtime.{NetworkInfo, AddressFamily, v4, v6, v4v6}

pub data IpProtocol : Type 0 where
  unknown_protocol ip_v4 ip_v6 : IpProtocol

pub record Endpoint : Type 0 where
  pub host_port : Text
  pub address : Text
  pub port : ℤ
  pub ip_protocol : IpProtocol

module _ (lib : NetLibrary) where
  abbrev protocol_of : Text → IpProtocol
  protocol_of host_port =
      if is_valid_v4_address lib host_port
      then ip_v4
      else if is_valid_v6_address lib host_port
      then ip_v6
      else unknown_protocol

  numbered : Text → Text → IpProtocol → Option ℤ → StatusOr Endpoint
  numbered host_port host protocol none =
      error (error_status invalid_argument "endpoint has invalid port ")
  numbered host_port host protocol (some port) =
      value (record { host_port = host_port; address = host; port = port; ip_protocol = protocol })

  with_port : Text → Text → IpProtocol → Text → StatusOr Endpoint
  unfolding numbered
  with_port host_port host protocol [] =
      error (error_status invalid_argument "endpoint missing port")
  with_port host_port host protocol (c ∷ s) =
      numbered host_port host protocol (lib.simple_atoi (c ∷ s))

  with_protocol : Text → Text → Text → IpProtocol → StatusOr Endpoint
  unfolding with_port
  with_protocol host_port host port unknown_protocol =
      error (error_status invalid_argument "invalid endpoint: ")
  with_protocol host_port host port ip_v4 = with_port host_port host ip_v4 port
  with_protocol host_port host port ip_v6 = with_port host_port host ip_v6 port

  endpoint_of : Text → StatusOr (Text × Text) → StatusOr Endpoint
  unfolding with_protocol
  endpoint_of host_port (error s) = error s
  endpoint_of host_port (value (host, port)) =
      with_protocol host_port host port (protocol_of host_port)

  unfoldable pub get_endpoint_from_host_port : Text → StatusOr Endpoint
  unfolding endpoint_of
  get_endpoint_from_host_port host_port = endpoint_of host_port (parse_host_port host_port)

-- What the selector reads of KryptonConfig; `bridge` is datapath_protocol() == BRIDGE.
pub record SelectorConfig : Type 0 where
  pub ipv6_enabled : Bool
  pub bridge : Bool

pub record Selector : Type 0 where
  pub addresses : List Text
  pub datapath_attempts : ℕ

unfoldable pub new_selector : Selector
new_selector = record { addresses = []; datapath_attempts = 0 }

-- address_family() is V4 where it is not set.
abbrev family_of : Option AddressFamily → AddressFamily
family_of none = v4
family_of (some f) = f

-- Whether a network carries IPv4, or IPv6; with no network known either may do.
unfoldable pub carries_v4 : Option NetworkInfo → Bool
carries_v4 none = true
carries_v4 (some n) = elim (family_of n.address_family) [ v4 ↦ true | v6 ↦ false | v4v6 ↦ true ]

unfoldable pub carries_v6 : Option NetworkInfo → Bool
carries_v6 none = true
carries_v6 (some n) = elim (family_of n.address_family) [ v4 ↦ false | v6 ↦ true | v4v6 ↦ true ]

-- Alternates between the two, and gathers up what remains of the longer one.
unfoldable pub interlace : Bool → List Text → List Text → List Text
interlace prefer_ipv4 [] ipv4 = ipv4
interlace prefer_ipv4 (b ∷ ipv6) [] = b ∷ ipv6
interlace prefer_ipv4 (b ∷ ipv6) (a ∷ ipv4) =
    let rest = interlace prefer_ipv4 ipv6 ipv4 in if prefer_ipv4 then a ∷ b ∷ rest else b ∷ a ∷ rest

abbrev pub max_attempts_per_address_family : ℕ
max_attempts_per_address_family = 2

unfoldable pub repeated : ℕ → List Text → List Text
repeated zero ips = []
repeated (suc j) ips = ips ++ repeated j ips

module _ (lib : NetLibrary) (config : SelectorConfig) where
  -- Where an address of the list goes: among the IPv6 ones, or among the IPv4 ones.
  unfoldable pub takes_v6 : Option NetworkInfo → Text → Bool
  takes_v6 network ip = is_valid_v6_address lib ip && config.ipv6_enabled && carries_v6 network

  unfoldable pub takes_v4 : Option NetworkInfo → Text → Bool
  takes_v4 network ip =
      not (is_valid_v6_address lib ip)
      && is_valid_v4_address lib ip
      && (not config.ipv6_enabled || carries_v4 network)

  -- The loop that splits the addresses: (ipv6, ipv4).
  unfoldable pub split : Option NetworkInfo → List Text → List Text × List Text
  unfolding takes_v6 takes_v4
  split network [] = ([], [])
  split network (ip ∷ ips) =
      let (ipv6, ipv4) = split network ips in
      if takes_v6 network ip
      then (ip ∷ ipv6, ipv4)
      else if takes_v4 network ip
      then (ipv6, ip ∷ ipv4)
      else (ipv6, ipv4)

  unfoldable pub reset : List Text → Option NetworkInfo → Selector
  unfolding split interlace repeated
  reset addresses network =
      let (ipv6, ipv4) = split network addresses in
      record {
        addresses =
            repeated max_attempts_per_address_family (interlace (not config.bridge) ipv6 ipv4);
        datapath_attempts = 0;
      }

abbrev is_empty : List Text → Bool
is_empty [] = true
is_empty (ip ∷ ips) = false

module _ (lib : NetLibrary) where
  -- The index is below the size: the last case does not arise.
  endpoint_at : Option Text → StatusOr Endpoint
  endpoint_at none = error (error_status internal "index out of range")
  endpoint_at (some ip) = get_endpoint_from_host_port lib ip

  unfoldable pub select_datapath_address : Selector → Selector × StatusOr Endpoint
  unfolding endpoint_at
  select_datapath_address s =
      if is_empty s.addresses
      then (s, error (error_status failed_precondition "No Egress node socket address found"))
      else if not (ltb s.datapath_attempts (length s.addresses))
      then (
        s,
        error (
            error_status resource_exhausted
              "Max reattempts have been reached on both IPv4 and IPv6"),
      )
      else (
        record s { datapath_attempts = s.datapath_attempts + 1 },
        endpoint_at (get_elem? s.addresses s.datapath_attempts),
      )

unfoldable pub has_more_addresses : Selector → Bool
has_more_addresses s = ltb s.datapath_attempts (length s.addresses)
