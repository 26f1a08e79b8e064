-- ===== src/Utils/ProtoComparison.antt =====
-- krypton/utils/proto_comparison.cc over the messages of krypton/proto/tun_fd_data.proto. An optional
-- field is an Option; the getter of an unset field gives the type's default.
use vpn_libraries.Prelude.{
  ℕ, ◌≡◌, refl, Bool, true, false, Option, none, some, List, [], ◌∷◌, ◌&&◌, ◌==◌, arith, is_some,
}
use vpn_libraries.Prelude.Int.{ℤ, pos, eqb_ℤ, eqb_ℤ_refl}
use vpn_libraries.Prelude.Text.{Text, eqb_text, eqb_text_refl}

pub data IpFamily : Type 0 where
  unknown_family ipv4 ipv6 : IpFamily

pub record IpRange : Type 0 where
  pub ip_family : IpFamily
  pub ip_range : Text
  pub prefix : Option ℤ

pub record TunFdData : Type 0 where
  pub session_name : Option Text
  pub tunnel_ip_addresses : List IpRange
  pub tunnel_dns_addresses : List IpRange
  pub mtu : Option ℤ
  pub is_metered : Option Bool
  pub send_buffer_size : Option ℕ
  pub receive_buffer_size : Option ℕ

-- A getter: the value, or the default of an unset field.
abbrev get_or_default {ℓ} : {A : Type ℓ} → Option A → A → A
get_or_default none d = d
get_or_default (some a) d = a

eqb_family : IpFamily → IpFamily → Bool
eqb_family unknown_family unknown_family = true
eqb_family ipv4 ipv4 = true
eqb_family ipv6 ipv6 = true
eqb_family _ _ = false

abbrev eqb_bool : Bool → Bool → Bool
eqb_bool true b = b
eqb_bool false true = false
eqb_bool false false = true

ip_range_equiv : IpRange → IpRange → Bool
unfolding eqb_family
ip_range_equiv a b =
    eqb_family a.ip_family b.ip_family
    && eqb_text a.ip_range b.ip_range
    && eqb_ℤ (get_or_default a.prefix (pos 0)) (get_or_default b.prefix (pos 0))

-- The size test and the loop over the indices.
ip_ranges_equiv : List IpRange → List IpRange → Bool
ip_ranges_equiv [] [] = true
ip_ranges_equiv (a ∷ as') (b ∷ bs) = ip_range_equiv a b && ip_ranges_equiv as' bs
ip_ranges_equiv _ _ = false

unfoldable pub tun_fd_data_equiv : TunFdData → TunFdData → Bool
unfolding ip_range_equiv ip_ranges_equiv
tun_fd_data_equiv a b =
    eqb_bool (is_some a.session_name) (is_some b.session_name)
    && eqb_text (get_or_default a.session_name []) (get_or_default b.session_name [])
    && eqb_bool (is_some a.mtu) (is_some b.mtu)
    && eqb_ℤ (get_or_default a.mtu (pos 0)) (get_or_default b.mtu (pos 0))
    && eqb_bool (get_or_default a.is_metered false) (get_or_default b.is_metered false)
    && get_or_default a.send_buffer_size 0 == get_or_default b.send_buffer_size 0
    && get_or_default a.receive_buffer_size 0 == get_or_default b.receive_buffer_size 0
    && ip_ranges_equiv a.tunnel_ip_addresses b.tunnel_ip_addresses
    && ip_ranges_equiv a.tunnel_dns_addresses b.tunnel_dns_addresses

eqb_bool_refl : (b : Bool) → eqb_bool b b ≡ true
eqb_bool_refl true = refl
eqb_bool_refl false = refl

eqb_family_refl : (f : IpFamily) → eqb_family f f ≡ true
unfolding eqb_family
eqb_family_refl unknown_family = refl
eqb_family_refl _ = refl

ip_range_equiv_refl : (a : IpRange) → ip_range_equiv a a ≡ true
unfolding ip_range_equiv
ip_range_equiv_refl a = ground (
  arith,
  eqb_family_refl a.ip_family,
  eqb_text_refl a.ip_range,
  eqb_ℤ_refl (get_or_default a.prefix (pos 0)),
)

ip_ranges_equiv_refl : (as' : List IpRange) → ip_ranges_equiv as' as' ≡ true
unfolding ip_ranges_equiv
ip_ranges_equiv_refl [] = refl
ip_ranges_equiv_refl (a ∷ as') = ground (arith, ip_range_equiv_refl a, ip_ranges_equiv_refl as')

pub tun_fd_data_equiv_refl : (a : TunFdData) → tun_fd_data_equiv a a ≡ true
unfolding tun_fd_data_equiv
tun_fd_data_equiv_refl a =
    rw
      (
        eqb_bool_refl (is_some a.session_name),
        eqb_text_refl (get_or_default a.session_name []),
        eqb_bool_refl (is_some a.mtu),
        eqb_ℤ_refl (get_or_default a.mtu (pos 0)),
        eqb_bool_refl (get_or_default a.is_metered false),
        ip_ranges_equiv_refl a.tunnel_ip_addresses,
        ip_ranges_equiv_refl a.tunnel_dns_addresses,
      )
      (ground arith)
