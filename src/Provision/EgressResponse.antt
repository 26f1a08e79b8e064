-- ===== src/Provision/EgressResponse.antt =====
-- krypton/add_egress_response.cc, with JsonGetIpRangeArray of krypton/utils/json_util.cc: the answer of the
-- egress server. Converting a JSON value that is no string to std::string throws, which nothing in the
-- program catches; the parser's outcome says so. absl::ParseTime is a parameter.
pub mod Thrown
use vpn_libraries.Prelude.{
  ℕ, ◌-◌, ◌%◌, ◌^◌, Option, none, some, List, [], ◌∷◌, ◌++◌, if◌then◌else◌, String,
}
use vpn_libraries.Prelude.Int.{ℤ, pos, negsuc}
use vpn_libraries.Prelude.Text.{Text, codes, string_is_empty}
use vpn_libraries.Utils.Status.{
  Status, StatusOr, value, error, error_status, invalid_argument, failed_precondition, HttpResponse,
}
use vpn_libraries.Utils.TimeUtil.{ProtoDuration, to_proto_time}
use vpn_libraries.Utils.Json.{
  JsonLibrary, string_to_json, json_get_int64, json_get_string, json_get_bytes,
  json_get_string_array,
}
use vpn_libraries.Session.Model.{PrivateIp, ipv4_range, ipv6_range, PpnDataplaneResponse}

pub data Outcome {ℓ} (A : Type ℓ) : Type ℓ where
  returned : A → Outcome A
  failed : Status → Outcome A
  thrown : Outcome A

infixl 5 ◌>>=◌
abbrev pub ◌>>=◌ {ℓ κ} : {A : Type ℓ} {B : Type κ} → Outcome A → (A → Outcome B) → Outcome B
returned a >>= f = f a
failed s >>= f = failed s
thrown >>= f = thrown

abbrev pub lift {ℓ} : {A : Type ℓ} → StatusOr A → Outcome A
lift (value a) = returned a
lift (error s) = failed s

-- net::common::proto::PpnDataplaneResponse: what the session reads, and the rest.
pub record DataplaneResponse : Type 0 where
  pub dataplane : PpnDataplaneResponse
  pub expiry : Option ProtoDuration
  pub mss_detection_sock_addr : List Text
  pub transport_mode_server_port : ℕ
  pub control_plane_addr : Text

-- The oneof of PpnIkeResponse.
pub data AuthMaterial : Type 0 where
  not_set : AuthMaterial
  shared_secret : Text → AuthMaterial
  certificates : Text → Text → AuthMaterial

pub record IkeResponse : Type 0 where
  pub client_id : Text
  pub auth_material : AuthMaterial
  pub server_address : Text

-- The class AddEgressResponse.
pub record AddEgressResponse : Type 0 where
  pub ppn_dataplane : Option DataplaneResponse
  pub ike : Option IkeResponse

dataplane_or : Option DataplaneResponse → StatusOr DataplaneResponse
dataplane_or none = error (error_status failed_precondition "No dataplane response found")
dataplane_or (some r) = value r

unfoldable pub ppn_dataplane_response : AddEgressResponse → StatusOr DataplaneResponse
unfolding dataplane_or
ppn_dataplane_response r = dataplane_or r.ppn_dataplane

-- An int64 stored in a uint32 field.
unfoldable pub to_uint32 : ℤ → ℕ
to_uint32 (pos n) = n % 2 ^ 32
to_uint32 (negsuc n) = 2 ^ 32 - 1 - n % 2 ^ 32

abbrev or_else {ℓ} : {A : Type ℓ} → Option A → A → A
or_else none a = a
or_else (some b) a = b

abbrev uint32_or_zero : Option ℤ → ℕ
uint32_or_zero none = 0
uint32_or_zero (some z) = to_uint32 z

module _ {J : Type 0} (json : JsonLibrary J) (parse_time : Text → Option ℤ) where
  to_string : J → Outcome Text
  to_string j = elim (json.as_string j) [ none ↦ thrown | some s ↦ returned s ]

  range_of : (Text → PrivateIp) → Option J → Outcome (List PrivateIp)
  unfolding to_string
  range_of kind none = returned []
  range_of kind (some j) = to_string j >>= λ s. returned (kind s ∷ [])

  -- An element can give an IPv4 range, an IPv6 range, both, or none.
  ranges_of_element : J → Outcome (List PrivateIp)
  unfolding range_of
  ranges_of_element j =
      let ranges = range_of ipv4_range (json.find (codes "ipv4_range") j) >>= λ v4.
      range_of ipv6_range (json.find (codes "ipv6_range") j) >>= λ v6. returned (v4 ++ v6) in
      if json.is_object j
      then ranges
      else failed (error_status invalid_argument " element is not of type object")

  ip_ranges : List J → Outcome (List PrivateIp)
  unfolding ranges_of_element
  ip_ranges [] = returned []
  ip_ranges (j ∷ js) =
      let rest = ip_ranges js in ranges_of_element j >>= λ r. rest >>= λ rs. returned (r ++ rs)

  ip_range_field : Option J → Outcome (Option (List PrivateIp))
  unfolding ip_ranges
  ip_range_field none = returned none
  ip_range_field (some j) = elim (json.elements j) [
    | none ↦ failed (error_status invalid_argument " is not of array type")
    | some js ↦ ip_ranges js >>= λ rs. returned (some rs)
  ]

  unfoldable pub json_get_ip_range_array : Text → J → Outcome (Option (List PrivateIp))
  unfolding ip_range_field
  json_get_ip_range_array key j = ip_range_field (json.find key j)

  timestamp_or : Option ℤ → StatusOr ℤ
  timestamp_or none = error (error_status invalid_argument "Unable to parse timestamp [")
  timestamp_or (some t) = value t

  -- utils::ParseTimestamp.
  unfoldable pub parse_timestamp : Text → StatusOr ℤ
  unfolding timestamp_or
  parse_timestamp s = timestamp_or (parse_time s)

  expiry_text : Text → Outcome (Option ProtoDuration)
  unfolding parse_timestamp
  expiry_text s = do
    t ← lift (parse_timestamp s)
    expiry ← lift (to_proto_time t)
    returned (some expiry)

  expiry_field : Option J → Outcome (Option ProtoDuration)
  unfolding expiry_text
  expiry_field none = returned none
  expiry_field (some j) = elim (json.as_string j) [
    | none ↦ failed (error_status invalid_argument "expiry timestamp is not a string")
    | some s ↦ expiry_text s
  ]

  unfoldable pub parse_ppn_dataplane_response : J → Outcome DataplaneResponse
  unfolding json_get_ip_range_array expiry_field
  parse_ppn_dataplane_response j = do
    ips ← json_get_ip_range_array (codes "user_private_ip") j
    addresses ← lift (json_get_string_array json (codes "egress_point_sock_addr") j)
    public_value ← lift (json_get_bytes json (codes "egress_point_public_value") j)
    nonce ← lift (json_get_bytes json (codes "server_nonce") j)
    spi ← lift (json_get_int64 json (codes "uplink_spi") j)
    mss ← lift (json_get_string_array json (codes "mss_detection_sock_addr") j)
    port ← lift (json_get_int64 json (codes "transport_mode_server_port") j)
    control ← lift (json_get_string json (codes "control_plane_addr") j)
    expiry ← expiry_field (json.find (codes "expiry") j)
    returned (record {
      dataplane = record {
        user_private_ip = or_else ips [];
        egress_point_sock_addr = or_else addresses [];
        egress_point_public_value = or_else public_value [];
        server_nonce = or_else nonce [];
        uplink_spi = uint32_or_zero spi;
      };
      expiry = expiry;
      mss_detection_sock_addr = or_else mss [];
      transport_mode_server_port = uint32_or_zero port;
      control_plane_addr = or_else control [];
    })

  abbrev secret_material : Option Text → AuthMaterial
  secret_material none = not_set
  secret_material (some s) = shared_secret s

  -- mutable_certificates() replaces a shared secret.
  abbrev with_ca : AuthMaterial → Option Text → AuthMaterial
  with_ca m none = m
  with_ca m (some ca) = certificates ca []

  abbrev with_client : AuthMaterial → Option Text → AuthMaterial
  with_client m none = m
  with_client (certificates ca _) (some c) = certificates ca c
  with_client m (some c) = certificates [] c

  certificates_field : AuthMaterial → Option J → Outcome AuthMaterial
  certificates_field m none = returned m
  certificates_field m (some j) = do
    ca ← lift (json_get_bytes json (codes "server_ca_certificate") j)
    client ← lift (json_get_bytes json (codes "client_certificate") j)
    returned (with_client (with_ca m ca) client)

  unfoldable pub parse_ike_response : J → Outcome IkeResponse
  unfolding certificates_field
  parse_ike_response j = do
    id ← lift (json_get_bytes json (codes "client_id") j)
    secret ← lift (json_get_bytes json (codes "shared_secret") j)
    material ← certificates_field (secret_material secret) (json.find (codes "certificates") j)
    address ← lift (json_get_string json (codes "server_address") j)
    returned (record {
      client_id = or_else id [];
      auth_material = material;
      server_address = or_else address [];
    })

  decode_ike : Option J → Outcome AddEgressResponse
  unfolding parse_ike_response
  decode_ike none =
      failed (error_status invalid_argument "No PPN dataplane found in the AddEgressResponse.")
  decode_ike (some j) =
      parse_ike_response j >>= λ r. returned (record { ppn_dataplane = none; ike = some r })

  decode_dataplane : Option J → J → Outcome AddEgressResponse
  unfolding parse_ppn_dataplane_response decode_ike
  decode_dataplane none j = decode_ike (json.find (codes "ike") j)
  decode_dataplane (some p) j = parse_ppn_dataplane_response p >>= λ r.
      returned (record { ppn_dataplane = some r; ike = none })

  unfoldable pub decode_json_body : J → Outcome AddEgressResponse
  unfolding decode_dataplane
  decode_json_body j =
      let decoded = decode_dataplane (json.find (codes "ppn_dataplane") j) j in
      if json.is_object j
      then decoded
      else failed (error_status invalid_argument "JSON body was not a JSON object.")

  abbrev body_text : Option String → String
  body_text none = ""
  body_text (some s) = s

  -- AddEgressResponse::FromProto.
  unfoldable pub add_egress_from_proto : HttpResponse → Outcome AddEgressResponse
  unfolding decode_json_body
  add_egress_from_proto response =
      let body = body_text response.json_body in
      let decoded = lift (string_to_json json body) >>= decode_json_body in
      if string_is_empty body
      then failed (error_status invalid_argument "No datapath found in the AddEgressResponse.")
      else decoded
