-- ===== src/Provision/Responses.antt =====
-- krypton/auth_and_sign_response.h and auth_and_sign_response.cc: the answers of the authentication
-- server, as JSON or as a proto. Protobuf's ParseFromString is a parameter.
pub mod Allowed
use vpn_libraries.Prelude.{
  ◌-◌, Bool, false, Option, none, some, List, [], ◌∷◌, ◌&&◌, ◌||◌, not, leb, if◌then◌else◌, String,
  length, drop, is_some,
}
use vpn_libraries.Prelude.Text.{Text, codes, eqb_text, is_empty, string_is_empty}
use vpn_libraries.Utils.Status.{
  StatusOr, value, error, error_status, invalid_argument, ◌>>=◌, HttpResponse,
}
use vpn_libraries.Utils.Json.{JsonLibrary, string_to_json, json_get_string, json_get_string_array}
use vpn_libraries.Provision.Messages.{KryptonConfig, AuthAndSignProto, GetInitialDataResponse}

-- absl::EndsWith.
unfoldable pub ends_with : Text → Text → Bool
ends_with s suffix =
    leb (length suffix) (length s) && eqb_text (drop (length s - length suffix) s) suffix

unfoldable pub has_allowed_suffix : Text → List Text → Bool
unfolding ends_with
has_allowed_suffix hostname [] = false
has_allowed_suffix hostname (suffix ∷ suffixes) =
    ends_with hostname suffix || has_allowed_suffix hostname suffixes

-- The class AuthAndSignResponse.
pub record AuthAndSignResponse : Type 0 where
  pub copper_controller_hostname : Text
  pub region_token_and_signatures : Text
  pub apn_type : Text
  pub blinded_token_signatures : List Text

abbrev pub new_auth_and_sign_response : AuthAndSignResponse
new_auth_and_sign_response = record {
  copper_controller_hostname = [];
  region_token_and_signatures = [];
  apn_type = [];
  blinded_token_signatures = [];
}

unfoldable pub apn_type_is_expected : Text → Bool
apn_type_is_expected s = eqb_text s (codes "ppn") || eqb_text s (codes "bridge")

-- An empty hostname is no error, and leaves the response as it is.
unfoldable pub set_copper_hostname :
    Text → KryptonConfig → Bool → AuthAndSignResponse → StatusOr AuthAndSignResponse
unfolding has_allowed_suffix
set_copper_hostname hostname config enforce_copper_suffix r =
    if is_empty hostname
    then value r
    else if enforce_copper_suffix && not (has_allowed_suffix hostname config.copper_hostname_suffix)
    then error
        (error_status invalid_argument "copper_controller_hostname doesn't have allowed suffix: ")
    else value (record r { copper_controller_hostname = hostname })

-- The optional field of a message, where it is set.
abbrev or_else {ℓ} : {A : Type ℓ} → Option A → A → A
or_else none a = a
or_else (some b) a = b

decode_proto : Option AuthAndSignProto → KryptonConfig → Bool → StatusOr AuthAndSignResponse
unfolding apn_type_is_expected set_copper_hostname
decode_proto none config enforce_copper_suffix =
    error (error_status invalid_argument "Cannot parse response proto")
decode_proto (some p) config enforce_copper_suffix =
    if not (is_empty p.apn_type) && not (apn_type_is_expected p.apn_type)
    then error (error_status invalid_argument "unexpected apn_type")
    else set_copper_hostname p.copper_controller_hostname config enforce_copper_suffix (record {
      copper_controller_hostname = [];
      region_token_and_signatures = p.region_token_and_signature;
      apn_type = p.apn_type;
      blinded_token_signatures = p.blinded_token_signature;
    })

-- In JSON an apn_type that is there must be an expected one, an empty one too.
checked_apn_type : Option Text → StatusOr Text
unfolding apn_type_is_expected
checked_apn_type none = value []
checked_apn_type (some s) =
    if apn_type_is_expected s
    then value s
    else error (error_status invalid_argument "unexpected apn_type")

hostname_field :
    Option Text → KryptonConfig → Bool → AuthAndSignResponse → StatusOr AuthAndSignResponse
unfolding set_copper_hostname
hostname_field none config enforce_copper_suffix r = value r
hostname_field (some hostname) config enforce_copper_suffix r =
    set_copper_hostname hostname config enforce_copper_suffix r

-- The error of the parser is replaced.
parsed : {J : Type 0} → StatusOr J → StatusOr J
parsed (value j) = value j
parsed (error s) = error (error_status invalid_argument "Error parsing json body")

abbrev json_text : Option String → String
json_text none = ""
json_text (some s) = s

-- The fields in the order in which they are read; the first error ends the decoding.
decode_fields :
    StatusOr (Option (List Text))
    → StatusOr (Option Text)
    → StatusOr (Option Text)
    → StatusOr (Option Text)
    → KryptonConfig
    → Bool
    → StatusOr AuthAndSignResponse
unfolding checked_apn_type hostname_field
decode_fields signatures_field region_field apn_field hostname config enforce_copper_suffix = do
  signatures ← signatures_field
  region ← region_field
  field ← apn_field
  apn ← checked_apn_type field
  h ← hostname
  hostname_field h config enforce_copper_suffix (record {
    copper_controller_hostname = [];
    region_token_and_signatures = or_else region [];
    apn_type = apn;
    blinded_token_signatures = or_else signatures [];
  })

module _ {J : Type 0} (json : JsonLibrary J) where
  decode_json_object : J → KryptonConfig → Bool → StatusOr AuthAndSignResponse
  unfolding decode_fields
  decode_json_object body config enforce_copper_suffix =
      decode_fields (json_get_string_array json (codes "blinded_token_signature") body)
        (json_get_string json (codes "region_token_and_signature") body)
        (json_get_string json (codes "apn_type") body)
        (json_get_string json (codes "copper_controller_hostname") body) config
        enforce_copper_suffix

  unfoldable pub decode_json_body : J → KryptonConfig → Bool → StatusOr AuthAndSignResponse
  unfolding decode_json_object
  decode_json_body body config enforce_copper_suffix =
      let decoded = decode_json_object body config enforce_copper_suffix in
      if not (json.is_object body)
      then error (error_status invalid_argument "JSON body is not of type JSON object")
      else if is_some (json.find (codes "jwt") body)
      then error (error_status invalid_argument "jwt response is not supported")
      else decoded

  auth_from_json : String → KryptonConfig → Bool → StatusOr AuthAndSignResponse
  unfolding parsed decode_json_body
  auth_from_json body config enforce_copper_suffix =
      let decoded = parsed (string_to_json json body) >>= λ j.
      decode_json_body j config enforce_copper_suffix in
      if string_is_empty body
      then error (error_status invalid_argument "missing json body")
      else decoded

  -- AuthAndSignResponse::FromProto.
  unfoldable pub auth_and_sign_from_proto :
      (String → Option AuthAndSignProto)
      → HttpResponse
      → KryptonConfig
      → Bool
      → StatusOr AuthAndSignResponse
  unfolding auth_from_json decode_proto
  auth_and_sign_from_proto parse_proto response config enforce_copper_suffix =
      elim response.proto_body [
        | none ↦ auth_from_json (json_text response.json_body) config enforce_copper_suffix
        | some bytes ↦ decode_proto (parse_proto bytes) config enforce_copper_suffix
      ]

-- The class PublicKeyResponse.
pub record PublicKeyResponse : Type 0 where
  pub pem : Text
  pub nonce : Option Text

module _ {J : Type 0} (json : JsonLibrary J) where
  with_pem : Option Text → J → StatusOr PublicKeyResponse
  with_pem none body = error (error_status invalid_argument "missing pem")
  with_pem (some pem) body = do
    nonce ← json_get_string json (codes "attestation_nonce") body
    value (record { pem = pem; nonce = nonce })

  public_key_body : J → StatusOr PublicKeyResponse
  unfolding with_pem
  public_key_body body =
      let decoded = json_get_string json (codes "pem") body >>= λ pem. with_pem pem body in
      if not (json.is_object body)
      then error (error_status invalid_argument "JSON body is not a JSON object")
      else decoded

  -- PublicKeyResponse::DecodeFromProto, on a new response.
  unfoldable pub public_key_from_proto : HttpResponse → StatusOr PublicKeyResponse
  unfolding public_key_body parsed
  public_key_from_proto response =
      let body = json_text response.json_body in
      let decoded = parsed (string_to_json json body) >>= public_key_body in
      if string_is_empty body
      then error (error_status invalid_argument "response missing json body")
      else decoded

initial_data_from : Option GetInitialDataResponse → StatusOr GetInitialDataResponse
initial_data_from none = error (error_status invalid_argument "Error parsing proto_body")
initial_data_from (some r) = value r

unfoldable pub decode_get_initial_data_response :
    (String → Option GetInitialDataResponse) → HttpResponse → StatusOr GetInitialDataResponse
unfolding initial_data_from
decode_get_initial_data_response parse_proto response =
    if is_some response.json_body
    then error (error_status invalid_argument "Unable to process HttpResponse.json_body()")
    else elim response.proto_body [
      | none ↦ error (error_status invalid_argument "HttpResponse is missing proto_body")
      | some bytes ↦ initial_data_from (parse_proto bytes)
    ]
