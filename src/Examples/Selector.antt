-- ===== src/Examples/Selector.antt =====
-- Runs of krypton/datapath_address_selector.cc.
use mathlib.Core.List.{Perm}
use vpn_libraries.Prelude.{◌≡◌, refl, true, false, some, [], ◌∷◌, get_elem?, arith}
use vpn_libraries.Prelude.Text.{Text, codes}
use vpn_libraries.Utils.Status.{resource_exhausted}
use vpn_libraries.Selector.{
  Selector, SelectorConfig, interlace, repeated, reset, select_datapath_address,
  get_endpoint_from_host_port, max_attempts_per_address_family,
}
use vpn_libraries.Selector.Order.{interlace-perm, is_usable, keep, reset-perm}
use vpn_libraries.Selector.Attempts.{select_times, code_of, selection, selection_refused}
use vpn_libraries.Examples.Network.{net_library, wifi_network}

abbrev config : SelectorConfig
config = record { ipv6_enabled = true; bridge = false }

abbrev four_address : Text
four_address = codes "10.0.0.1:443"

abbrev six_address : Text
six_address = codes "[::1]:443"

interlace-perm_example :
    Perm (interlace true (six_address ∷ []) (four_address ∷ [])) (six_address ∷ four_address ∷ [])
interlace-perm_example = interlace-perm true (six_address ∷ []) (four_address ∷ [])

reset-perm_example :
    Perm
      (reset net_library config (six_address ∷ four_address ∷ []) (some wifi_network)).addresses
      (repeated max_attempts_per_address_family
        (keep (is_usable net_library config (some wifi_network)) (six_address ∷ four_address ∷ [])))
reset-perm_example =
    reset-perm net_library config (six_address ∷ four_address ∷ []) (some wifi_network)

abbrev two_addresses : Selector
two_addresses = record { addresses = four_address ∷ six_address ∷ []; datapath_attempts = 0 }

selection_example :
    (ip : Text) × (get_elem? two_addresses.addresses 1 ≡ some ip)
    × ((select_datapath_address net_library (select_times net_library 1 two_addresses)).1
        ≡ get_endpoint_from_host_port net_library ip)
selection_example = selection net_library two_addresses 1 refl (omega arith)

selection_refused_example :
    code_of (select_datapath_address net_library (select_times net_library 3 two_addresses)).1
    ≡ some resource_exhausted
selection_refused_example = selection_refused net_library two_addresses 3 refl (omega arith)
