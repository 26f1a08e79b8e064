-- ===== src/Examples/Network.antt =====
-- A C library for the examples: dotted quads and colon forms are addresses, and the ports are known.
use vpn_libraries.Prelude.{ℕ, Bool, true, false, none, some, List, [], ◌∷◌, ◌==◌, if◌then◌else◌}
use vpn_libraries.Prelude.Int.{ℤ, pos}
use vpn_libraries.Prelude.Text.{Text, codes}
use vpn_libraries.Utils.IpRange.{NetLibrary, Family, af_inet, af_inet6}
use vpn_libraries.Runtime.{NetworkInfo, wifi, v4v6}

abbrev contains : ℕ → Text → Bool
contains c [] = false
contains c (x ∷ s) = if x == c then true else contains c s

abbrev looks_like : Family → Text → Bool
looks_like af_inet s = contains b'.' s
looks_like af_inet6 s = contains b':' s

abbrev cons_first : ℕ → List Text → List Text
cons_first c [] = (c ∷ []) ∷ []
cons_first c (s ∷ ss) = (c ∷ s) ∷ ss

abbrev split_at : Text → ℕ → List Text
split_at [] c = [] ∷ []
split_at (x ∷ s) c = let rest = split_at s c in if x == c then [] ∷ rest else cons_first x rest

abbrev digits : ℤ → Text → ℤ
digits acc [] = acc
digits acc (c ∷ s) = digits acc s

abbrev pub net_library : NetLibrary
net_library = record {
  inet_pton = λ f s. if looks_like f s then pos 1 else pos 0;
  str_split = split_at;
  simple_atoi = λ s. some (digits (pos 24) s);
  str_cat = λ n. codes "443";
}

abbrev pub wifi_network : NetworkInfo
wifi_network = record {
  network_type = some wifi;
  is_metered = some false;
  address_family = some v4v6;
  mtu = none;
  network_id = some (pos 100);
}
