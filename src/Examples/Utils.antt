-- ===== src/Examples/Utils.antt =====
-- Runs of krypton/utils.
use vpn_libraries.Prelude.{◌↔◌, ◌<◌, ◌+◌, ◌*◌, false, ◌≡◌, refl, some, none, ◌∷◌, ◌++◌}
use vpn_libraries.Prelude.Int.{ℤ, pos, negsuc, pos_part, neg_part}
use vpn_libraries.Prelude.Text.{codes}
use vpn_libraries.Utils.Status.{value}
use vpn_libraries.Utils.TimeUtil.{
  max_seconds, nanos_per_second, finite, ProtoDuration, to_proto_duration, duration_from_proto,
}
use vpn_libraries.Utils.TimeUtil.RoundTrip.{duration_round_trip, to_proto_duration_ok_iff}
use vpn_libraries.Utils.IpRange.{
  af_inet, IpRange, parse_host_port, host_port_string, parse, find, starts_with,
  is_valid_v4_address,
}
use vpn_libraries.Utils.IpRange.HostPort.{host_port_string_round_trip}
use vpn_libraries.Utils.IpRange.Prefix.{IsWellFormed, parse-IsWellFormed}
use vpn_libraries.Examples.Network.{net_library}

-- Minus a second and a half.
abbrev minus_duration : ℤ
minus_duration = negsuc 1499999999

abbrev minus_proto : ProtoDuration
minus_proto = record { seconds = negsuc 0; nanos = negsuc 499999999 }

minus_to_proto : to_proto_duration (finite minus_duration) ≡ value minus_proto
unfolding to_proto_duration
minus_to_proto = refl

duration_round_trip_example : duration_from_proto minus_proto ≡ value minus_duration
duration_round_trip_example = duration_round_trip minus_duration minus_to_proto

abbrev one_second : ProtoDuration
one_second = record { seconds = pos 1; nanos = pos 0 }

bare_start : starts_with b'[' (codes "10.0.0.1" ++ b':' ∷ codes "443") ≡ false
unfolding starts_with
bare_start = refl

bare_host : find b':' (codes "10.0.0.1") ≡ none
unfolding find
bare_host = refl

bare_port : find b':' (codes "443") ≡ none
unfolding find
bare_port = refl

abbrev range_24 : IpRange
range_24 = record { family = af_inet; address = codes "10.0.0.1"; prefix = some (pos 24) }

host_port_string_round_trip_example :
    parse_host_port (host_port_string net_library range_24 (pos 443))
    ≡ value (codes "10.0.0.1", codes "443")
host_port_string_round_trip_example =
    host_port_string_round_trip net_library range_24 (pos 443) (bare_start, bare_host, bare_port)

range_parses : parse net_library (codes "10.0.0.1/24") ≡ value range_24
unfolding parse is_valid_v4_address find parse_host_port
range_parses = refl

parse-IsWellFormed_example : IsWellFormed net_library range_24
parse-IsWellFormed_example = parse-IsWellFormed net_library (codes "10.0.0.1/24") range_parses

to_proto_duration_ok_iff_example :
    ((p : ProtoDuration) × (to_proto_duration (finite minus_duration) ≡ value p)) ↔ (
      (pos_part minus_duration < (max_seconds + 1) * nanos_per_second)
      × (neg_part minus_duration < (max_seconds + 1) * nanos_per_second))
to_proto_duration_ok_iff_example = to_proto_duration_ok_iff minus_duration
