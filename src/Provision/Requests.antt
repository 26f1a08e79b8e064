-- ===== src/Provision/Requests.antt =====
-- krypton/auth_and_sign_request.cc and add_egress_request.cc: the requests to the servers. A body is what
-- is written out as JSON text or as protobuf bytes.
use vpn_libraries.Prelude.{
  ℕ, Bool, true, false, Option, none, some, List, [], ◌∷◌, ◌++◌, if◌then◌else◌,
}
use vpn_libraries.Prelude.Int.{ℤ}
use vpn_libraries.Prelude.Text.{Text, codes}
use vpn_libraries.Utils.Json.{Node, Fields, text, flag, texts, no_fields, field}
use vpn_libraries.Provision.Messages.{PublicMetadata, IpGeoLevel, unspecified, country, city}

-- GetInitialDataRequest::LocationGranularity.
pub data Granularity : Type 0 where
  unknown country_granularity city_geos : Granularity

unfoldable pub get_location_granularity : IpGeoLevel → Granularity
get_location_granularity country = country_granularity
get_location_granularity city = city_geos
get_location_granularity unspecified = unknown

-- The fields that the program sets of the messages GetInitialDataRequest and AuthAndSignRequest.
pub record InitialDataFields : Type 0 where
  pub use_attestation : Bool
  pub service_type : Text
  pub location_granularity : Granularity
  pub validation_version : ℕ

pub record AuthAndSignFields : Type 0 where
  pub oauth_token : Option Text
  pub service_type : Text
  pub blinded_token : List Text
  pub public_key_hash : Option Text
  pub attestation : Option Text
  pub key_version : Option ℤ
  pub public_metadata : Option PublicMetadata
  pub do_not_use_rsa_public_exponent : Bool

pub data Body : Type 0 where
  json_body : Fields → Body
  initial_data_body : InitialDataFields → Body
  auth_and_sign_body : AuthAndSignFields → Body

pub record HttpRequest : Type 0 where
  pub url : Text
  pub headers : List (Text × Text)
  pub body : Body

abbrev pub api_key_header : Option Text → List (Text × Text)
api_key_header none = []
api_key_header (some key) = (codes "X-Goog-Api-Key", key) ∷ []

abbrev pub bearer_header : Text → List (Text × Text)
bearer_header token = (codes "Authorization", codes "Bearer " ++ token) ∷ []

-- PublicKeyRequest::EncodeToProto, sent to a URL.
unfoldable pub public_key_request : Bool → Option Text → Text → HttpRequest
public_key_request request_nonce api_key url = record {
  url = url;
  headers = api_key_header api_key;
  body = json_body (
      field (codes "get_public_key") (flag true)
        (if request_nonce then field (codes "request_nonce") (flag true) no_fields else no_fields));
}

-- InitialDataRequest::EncodeToProto.
unfoldable pub initial_data_request : Bool → Text → Granularity → ℕ → Text → Text → HttpRequest
initial_data_request use_attestation service_type granularity validation_version token url =
    record {
      url = url;
      headers = bearer_header token;
      body = initial_data_body (record {
        use_attestation = use_attestation;
        service_type = service_type;
        location_granularity = granularity;
        validation_version = validation_version;
      });
    }

-- The class AuthAndSignRequest.
pub record AuthAndSignRequest : Type 0 where
  pub auth_token : Text
  pub service_type : Text
  pub blinded_token : Option Text
  pub public_key_hash : Option Text
  pub attestation_data : Option Text
  pub attach_oauth_as_header : Bool

abbrev as_list : Option Text → List Text
as_list none = []
as_list (some s) = s ∷ []

abbrev optional : Text → Option Node → Fields → Fields
optional key none rest = rest
optional key (some n) rest = field key n rest

abbrev text_node : Option Text → Option Node
text_node none = none
text_node (some s) = some (text s)

abbrev texts_node : Option Text → Option Node
texts_node none = none
texts_node (some s) = some (texts (s ∷ []))

unfoldable pub build_auth_body_json : AuthAndSignRequest → Fields
build_auth_body_json r =
    let rest = field (codes "service_type") (text r.service_type) (
      optional (codes "blinded_token") (texts_node r.blinded_token)
        (optional (codes "public_key_hash") (text_node r.public_key_hash) no_fields)) in
    if r.attach_oauth_as_header then rest else field (codes "oauth_token") (text r.auth_token) rest

unfoldable pub build_auth_body_proto : AuthAndSignRequest → AuthAndSignFields
build_auth_body_proto r = record {
  oauth_token = if r.attach_oauth_as_header then none else some r.auth_token;
  service_type = r.service_type;
  blinded_token = as_list r.blinded_token;
  public_key_hash = r.public_key_hash;
  attestation = r.attestation_data;
  key_version = none;
  public_metadata = none;
  do_not_use_rsa_public_exponent = false;
}

auth_body : Option Text → AuthAndSignRequest → Body
unfolding build_auth_body_json build_auth_body_proto
auth_body none r = json_body (build_auth_body_json r)
auth_body (some data_) r = auth_and_sign_body (build_auth_body_proto r)

-- AuthAndSignRequest::EncodeToProto: as a proto where there is attestation data.
unfoldable pub auth_and_sign_request : AuthAndSignRequest → Text → HttpRequest
unfolding auth_body
auth_and_sign_request r url = record {
  url = url;
  headers = if r.attach_oauth_as_header then bearer_header r.auth_token else [];
  body = auth_body r.attestation_data r;
}
