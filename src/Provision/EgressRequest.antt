-- ===== src/Provision/EgressRequest.antt =====
-- krypton/add_egress_request.cc: the request for an egress session. absl::Base64Escape is a parameter.
use vpn_libraries.Prelude.{ℕ, Bool, true, false, Option, none, some, String}
use vpn_libraries.Prelude.Int.{ℤ, pos}
use vpn_libraries.Prelude.Text.{Text, codes}
use vpn_libraries.Utils.Status.{StatusOr, value, error}
use vpn_libraries.Utils.Json.{Node, Fields, text, number, flag, object, no_fields, field}
use vpn_libraries.Session.Model.{Protocol, default_protocol, ipsec, bridge, ike}
use vpn_libraries.Provision.Requests.{HttpRequest, json_body, api_key_header}

-- What the request reads of crypto::SessionCrypto.
pub record SessionKeys : Type 0 where
  pub public_value : Text
  pub nonce : Text
  pub downlink_spi : ℕ
  pub rekey_verification_key : StatusOr Text
  pub rekey_signature : Option Text

pub data CryptoSuite : Type 0 where
  aes128_gcm aes256_gcm : CryptoSuite

pub data RequestDestination : Type 0 where
  brass beryllium : RequestDestination

-- AddEgressRequest::PpnDataplaneRequestParams. The expiration is in seconds, as the program sets it.
pub record PpnDataplaneRequestParams : Type 0 where
  pub crypto : Option SessionKeys
  pub control_plane_sockaddr : Text
  pub suite : CryptoSuite
  pub dataplane_protocol : Protocol
  pub is_rekey : Bool
  pub uplink_spi : ℕ
  pub blind_message : Text
  pub unblinded_token : Text
  pub unblinded_token_signature : Text
  pub dynamic_mtu_enabled : Bool
  pub apn_type : Text
  pub region_token_and_signature : Text
  pub message_mask : Text
  pub debug_mode : ℕ
  pub signing_key_version : ℤ
  pub country : Text
  pub city_geo_id : Text
  pub service_type : Text
  pub expiration : ℤ
  pub prefer_oasis : Bool
  pub use_reserved_ip_pool : Bool
  pub auth_method : ℕ
  pub client_id_type : ℕ

abbrev text_field : String → Text → Fields → Fields
text_field key s rest = field (codes key) (text s) rest

abbrev suite_name : CryptoSuite → Text
suite_name aes128_gcm = codes "AES128_GCM"
suite_name aes256_gcm = codes "AES256_GCM"

abbrev protocol_name : Protocol → Text
protocol_name default_protocol = codes "DEFAULT"
protocol_name ipsec = codes "IPSEC"
protocol_name bridge = codes "BRIDGE"
protocol_name ike = codes "IKE"

public_metadata_node : PpnDataplaneRequestParams → Node
public_metadata_node p = object (
    field (codes "exit_location")
      (object (text_field "country" p.country (text_field "city_geo_id" p.city_geo_id no_fields)))
      (text_field "service_type" p.service_type (
        field (codes "expiration")
          (object (
            field (codes "seconds") (number p.expiration)
              (field (codes "nanos") (number (pos 0)) no_fields)))
          (field (codes "debug_mode") (number (pos p.debug_mode)) no_fields))))

-- The fields of the body that go with the destination.
destination_fields : RequestDestination → PpnDataplaneRequestParams → Fields → Fields
unfolding public_metadata_node
destination_fields brass p rest = text_field "unblinded_token" p.blind_message rest
destination_fields beryllium p rest = field (codes "public_metadata") (public_metadata_node p) (
    field (codes "signing_key_version") (number p.signing_key_version) (
      text_field "message_mask" p.message_mask
        (text_field "unblinded_token" p.unblinded_token rest)))

destination_ppn_fields : RequestDestination → PpnDataplaneRequestParams → Fields → Fields
destination_ppn_fields brass p rest = rest
destination_ppn_fields beryllium p rest =
    field (codes "auth_method") (number (pos p.auth_method))
      (field (codes "client_id_type") (number (pos p.client_id_type)) rest)

module _ (base64_escape : Text → Text) where
  verification_field : StatusOr Text → Fields → Fields
  verification_field (error s) rest = rest
  verification_field (value key) rest = text_field "rekey_verification_key" (base64_escape key) rest

  signature_field : Option Text → Fields → Fields
  signature_field none rest = rest
  signature_field (some signature) rest =
      text_field "rekey_signature" (base64_escape signature) rest

  rekey_fields : Bool → SessionKeys → ℕ → Fields → Fields
  unfolding signature_field
  rekey_fields false k spi rest = rest
  rekey_fields true k spi rest =
      signature_field k.rekey_signature
        (field (codes "previous_uplink_spi") (number (pos spi)) rest)

  crypto_fields : Option SessionKeys → PpnDataplaneRequestParams → Fields → Fields
  unfolding verification_field rekey_fields
  crypto_fields none p rest = rest
  crypto_fields (some k) p rest = text_field "client_public_value" (base64_escape k.public_value) (
      text_field "client_nonce" (base64_escape k.nonce) (
        field (codes "downlink_spi") (number (pos k.downlink_spi)) (
          verification_field k.rekey_verification_key
            (rekey_fields p.is_rekey k p.uplink_spi rest))))

  mtu_field : Bool → Fields → Fields
  mtu_field false rest = rest
  mtu_field true rest = field (codes "dynamic_mtu_enabled") (flag true) rest

  ppn_fields : RequestDestination → PpnDataplaneRequestParams → Fields
  unfolding destination_ppn_fields crypto_fields mtu_field
  ppn_fields destination p = destination_ppn_fields destination p (
      crypto_fields p.crypto p (
        text_field "apn_type" p.apn_type (
          mtu_field p.dynamic_mtu_enabled (
            text_field "dataplane_protocol" (protocol_name p.dataplane_protocol) (
              text_field "suite" (suite_name p.suite) (
                text_field "control_plane_sock_addr" p.control_plane_sockaddr (
                  field (codes "prefer_oasis") (flag p.prefer_oasis) (
                    field (codes "use_reserved_ip_pool") (flag p.use_reserved_ip_pool)
                      no_fields))))))))

  -- The fields in the order in which they are assigned, with those of "ppn" under it.
  unfoldable pub build_body_json : RequestDestination → PpnDataplaneRequestParams → Fields
  unfolding destination_fields ppn_fields
  build_body_json destination p = destination_fields destination p (
      text_field "unblinded_token_signature" p.unblinded_token_signature (
        text_field "region_token_and_signature" p.region_token_and_signature
          (field (codes "ppn") (object (ppn_fields destination p)) no_fields)))

  -- EncodeToProtoForPpn, with the URL that is set afterwards.
  unfoldable pub add_egress_request :
      Option Text → RequestDestination → PpnDataplaneRequestParams → Text → HttpRequest
  unfolding build_body_json
  add_egress_request api_key destination p url = record {
    url = url;
    headers = api_key_header api_key;
    body = json_body (build_body_json destination p);
  }
