-- ===== src/Provision/Messages.antt =====
-- What provisioning reads of KryptonConfig (krypton/proto/krypton_config.proto), and the messages of
-- common/*.proto that it receives. The blobs of the token library are values of types of their own.
use vpn_libraries.Prelude.{ℕ, Bool, Option, List}
use vpn_libraries.Prelude.Int.{ℤ, pos}
use vpn_libraries.Prelude.Text.{Text}
use vpn_libraries.Utils.TimeUtil.{ProtoDuration}
use vpn_libraries.Session.Model.{Protocol}

pub data IpGeoLevel : Type 0 where
  unspecified country city : IpGeoLevel

pub record KryptonConfig : Type 0 where
  pub zinc_url : Text
  pub zinc_public_signing_key_url : Text
  pub initial_data_url : Text
  pub brass_url : Text
  pub service_type : Text
  pub copper_controller_address : Option Text
  pub copper_hostname_override : Option Text
  pub copper_hostname_suffix : List Text
  pub cipher_suite_key_length : ℕ
  pub enable_blind_signing : Bool
  pub datapath_protocol : Protocol
  pub integrity_attestation_enabled : Bool
  pub api_key : Option Text
  pub attach_oauth_token_as_header : Bool
  pub dynamic_mtu_enabled : Bool
  pub public_metadata_enabled : Bool
  pub ip_geo_level : IpGeoLevel
  pub debug_mode_allowed : Bool
  pub prefer_oasis : Bool
  pub use_reserved_ip_pool : Bool
  pub auth_method : ℕ
  pub client_id_type : ℕ

-- privacy::ppn::PublicMetadata; `country` and `city_geo_id` are its exit location's. The debug mode is an
-- open enum.
pub record PublicMetadata : Type 0 where
  pub country : Text
  pub city_geo_id : Text
  pub service_type : Text
  pub expiration : ProtoDuration
  pub debug_mode : ℤ

abbrev pub unspecified_debug_mode : ℤ
unspecified_debug_mode = pos 0

abbrev pub debug_all : ℤ
debug_all = pos 1

-- privacy::ppn::GetInitialDataResponse; its public key is kept as bytes, beside the key's version.
pub record GetInitialDataResponse : Type 0 where
  pub at_public_metadata_public_key : Text
  pub key_version : ℤ
  pub public_metadata : PublicMetadata
  pub attestation_nonce : Text

-- The messages of the token library: a token of AnonymousTokensSignRequest, one of
-- AnonymousTokensSignResponse, and RSABlindSignatureTokenWithInput.
pub record BlindedToken : Type 0 where
  pub use_case : Text
  pub key_version : ℤ
  pub public_metadata : Text
  pub serialized_token : Text

pub record AnonymousToken : Type 0 where
  pub blinded : BlindedToken
  pub serialized_token : Text
  pub do_not_use_rsa_public_exponent : Bool

pub record SignedToken : Type 0 where
  pub plaintext_message : Text
  pub token : Text
  pub message_mask : Text

-- PlaintextMessageWithPublicMetadata.
pub record PlaintextMessage : Type 0 where
  pub plaintext_message : Text
  pub public_metadata : Text

-- The message privacy::ppn::AuthAndSignResponse.
pub record AuthAndSignProto : Type 0 where
  pub blinded_token_signature : List Text
  pub region_token_and_signature : Text
  pub apn_type : Text
  pub copper_controller_hostname : Text
