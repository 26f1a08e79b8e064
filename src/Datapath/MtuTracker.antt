-- ===== src/Datapath/MtuTracker.antt =====
-- krypton/datapath/android_ipsec/mtu_tracker.cc: the MTUs of a path, which only go down.
pub mod Least
use vpn_libraries.Prelude.{ℕ, ◌+◌, Bool, List, [], ◌∷◌, ◌++◌, if◌then◌else◌}
use vpn_libraries.Prelude.Int.{ℤ, pos, ltb_ℤ, ◌-ℤ◌}

pub data IpProtocol : Type 0 where
  ipv4 ipv6 : IpProtocol

abbrev pub default_mtu : ℤ
default_mtu = pos 1500

abbrev aes_gcm128_overhead : ℕ
aes_gcm128_overhead = 27

abbrev generic_esp_overhead_max_v4 : ℕ
generic_esp_overhead_max_v4 = 78

abbrev generic_esp_overhead_max_v6 : ℕ
generic_esp_overhead_max_v6 = 50

abbrev pub overhead_of : IpProtocol → ℕ
overhead_of ipv6 = aes_gcm128_overhead + generic_esp_overhead_max_v6
overhead_of ipv4 = aes_gcm128_overhead + generic_esp_overhead_max_v4

-- MtuTrackerInterface's notifications.
pub data MtuNotification : Type 0 where
  downlink_mtu_updated : ℤ → MtuNotification
  uplink_mtu_updated : ℤ → ℤ → MtuNotification

-- `posted` is what was posted on the notification thread, oldest first.
pub record MtuTracker : Type 0 where
  pub tunnel_overhead : ℕ
  pub uplink_mtu : ℤ
  pub tunnel_mtu : ℤ
  pub downlink_mtu : ℤ
  pub posted : List MtuNotification

-- The constructor with an initial MTU of the path.
unfoldable pub new_mtu_tracker : IpProtocol → ℤ → MtuTracker
unfolding ◌-ℤ◌
new_mtu_tracker protocol initial_path_mtu =
    let tunnel_mtu = initial_path_mtu -ℤ pos (overhead_of protocol) in
    record {
      tunnel_overhead = overhead_of protocol;
      uplink_mtu = initial_path_mtu;
      tunnel_mtu = tunnel_mtu;
      downlink_mtu = initial_path_mtu;
      posted =
          downlink_mtu_updated initial_path_mtu
          ∷ uplink_mtu_updated initial_path_mtu tunnel_mtu
          ∷ [];
    }

unfoldable pub update_uplink_mtu : ℤ → MtuTracker → MtuTracker
unfolding ◌-ℤ◌
update_uplink_mtu uplink_mtu t =
    let tunnel_mtu = uplink_mtu -ℤ pos t.tunnel_overhead in
    if ltb_ℤ uplink_mtu t.uplink_mtu
    then record t {
      uplink_mtu = uplink_mtu;
      tunnel_mtu = tunnel_mtu;
      posted = t.posted ++ uplink_mtu_updated uplink_mtu tunnel_mtu ∷ [];
    }
    else t

unfoldable pub update_downlink_mtu : ℤ → MtuTracker → MtuTracker
update_downlink_mtu downlink_mtu t =
    if ltb_ℤ downlink_mtu t.downlink_mtu
    then record t {
      downlink_mtu = downlink_mtu;
      posted = t.posted ++ downlink_mtu_updated downlink_mtu ∷ [];
    }
    else t

pub data Event : Type 0 where
  uplink downlink : ℤ → Event

unfoldable pub handle : Event → MtuTracker → MtuTracker
unfolding update_uplink_mtu update_downlink_mtu
handle (uplink mtu) t = update_uplink_mtu mtu t
handle (downlink mtu) t = update_downlink_mtu mtu t

-- A history of updates, the first one first.
unfoldable pub run : List Event → MtuTracker → MtuTracker
unfolding handle
run [] t = t
run (e ∷ es) t = run es (handle e t)
