-- ===== src/Provision/EgressResponse/Thrown.antt =====
-- Where the parser of krypton/add_egress_response.cc throws, which nothing catches.
use vpn_libraries.Prelude.{◌≡◌, refl, Bool, true, false, Option, none, some, List, ◌∷◌, arith}
use vpn_libraries.Prelude.Int.{ℤ}
use vpn_libraries.Prelude.Text.{Text, codes}
use vpn_libraries.Utils.Json.{JsonLibrary}
use vpn_libraries.Session.Model.{PrivateIp, ipv4_range}
use vpn_libraries.Provision.EgressResponse.{
  Outcome, returned, failed, thrown, to_string, range_of, ranges_of_element, ip_ranges,
  ip_range_field, json_get_ip_range_array,
}

abbrev pub is_thrown {ℓ} : {A : Type ℓ} → Outcome A → Bool
is_thrown thrown = true
is_thrown (returned a) = false
is_thrown (failed s) = false

module _ {J : Type 0} (json : JsonLibrary J) (parse_time : Text → Option ℤ) where
  range_thrown :
      (kind : Text → PrivateIp) (range : J)
      → json.as_string range ≡ none
      → range_of json parse_time kind (some range) ≡ thrown
  unfolding range_of to_string
  range_thrown kind range s = ground arith

  element_thrown :
      (element range : J)
      → json.is_object element ≡ true
      → json.find (codes "ipv4_range") element ≡ some range
      → json.as_string range ≡ none
      → ranges_of_element json parse_time element ≡ thrown
  unfolding ranges_of_element
  element_thrown element range o f s = rw o (rw f (rw (range_thrown ipv4_range range s) refl))

  field_thrown :
      (array element : J) (rest : List J)
      → json.elements array ≡ some (element ∷ rest)
      → ranges_of_element json parse_time element ≡ thrown
      → ip_range_field json parse_time (some array) ≡ thrown
  unfolding ip_range_field ip_ranges
  field_thrown array element rest e t = ground arith

  -- A list of ranges whose first element has an IPv4 range that is no string makes the parser throw.
  pub ip_range_array_throws :
      (key : Text) (j array element range : J) (rest : List J)
      → json.find key j ≡ some array
      → json.elements array ≡ some (element ∷ rest)
      → json.is_object element ≡ true
      → json.find (codes "ipv4_range") element ≡ some range
      → json.as_string range ≡ none
      → json_get_ip_range_array json parse_time key j ≡ thrown
  unfolding json_get_ip_range_array
  ip_range_array_throws key j array element range rest a e o f s =
      rw a (field_thrown array element rest e (element_thrown element range o f s))
