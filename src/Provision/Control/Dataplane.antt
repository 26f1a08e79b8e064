-- ===== src/Provision/Control/Dataplane.antt =====
-- Provision::PpnDataplaneRequest of krypton/provision.cc: the request for an egress session, from the
-- results of the authentication.
pub mod Answers
pub mod Flagged
pub mod Flushed
use vpn_libraries.Prelude.{
  ℕ, Bool, true, false, Option, none, some, List, [], ◌∷◌, ◌++◌, ◌==◌, ◌&&◌, not, String,
  if◌then◌else◌, is_some,
}
use vpn_libraries.Prelude.Int.{ℤ, pos}
use vpn_libraries.Prelude.Text.{Text, codes, is_empty}
use vpn_libraries.Utils.Status.{
  Status, StatusOr, value, error, error_status, failed_precondition, ◌>>=◌,
}
use vpn_libraries.Utils.IpRange.{NetLibrary, IpRange, parse, host_port_string}
use vpn_libraries.Session.Model.{Protocol, default_protocol, ipsec, bridge, ike}
use vpn_libraries.Provision.Messages.{
  KryptonConfig, GetInitialDataResponse, PublicMetadata, SignedToken,
}
use vpn_libraries.Provision.Responses.{AuthAndSignResponse}
use vpn_libraries.Provision.EgressResponse.{to_uint32}
use vpn_libraries.Provision.EgressRequest.{
  SessionKeys, PpnDataplaneRequestParams, aes128_gcm, aes256_gcm,
}
use vpn_libraries.Provision.Crypto.{get_brass_unblinded_token}
use vpn_libraries.Provision.Auth.{Auth, AuthEnv}
use vpn_libraries.Provision.Egress.{EgressManager, get_egress_node_for_ppn_ip_sec}
use vpn_libraries.Provision.Control.{Provision, ProvisionEnv, fail_with_status, on_egress}

-- kDefaultCopperAddress and kControlPlanePort.
abbrev default_copper_address : Text
default_copper_address = codes "na4.p.g-tun.com"

abbrev control_plane_port : ℤ
control_plane_port = pos 1849

abbrev or_default : Option Text → Text
or_default none = default_copper_address
or_default (some s) = s

abbrev non_empty : Option Text → Option Text
non_empty none = none
non_empty (some s) = if is_empty s then none else some s

abbrev text_or : Option Text → Text → Text
text_or none t = t
text_or (some s) t = s

-- The override of the configuration, the response's hostname, the address of the configuration, or the
-- default, in this order.
unfoldable pub copper_hostname : KryptonConfig → AuthAndSignResponse → Text
copper_hostname config r = text_or (non_empty config.copper_hostname_override) (
    text_or (non_empty (some r.copper_controller_hostname))
      (or_default config.copper_controller_address))

-- What a request carries of the token: the token, its signature, and the mask of its message.
pub record TokenFields : Type 0 where
  pub unblinded_token : Text
  pub unblinded_token_signature : Text
  pub message_mask : Text

abbrev pub no_token : TokenFields
no_token = record { unblinded_token = []; unblinded_token_signature = []; message_mask = [] }

-- What a request carries of the public metadata.
pub record MetadataFields : Type 0 where
  pub signing_key_version : ℤ
  pub metadata : PublicMetadata

abbrev default_metadata : MetadataFields
default_metadata = record {
  signing_key_version = pos 0;
  metadata = record {
    country = [];
    city_geo_id = [];
    service_type = [];
    expiration = record { seconds = pos 0; nanos = pos 0 };
    debug_mode = pos 0;
  };
}

abbrev metadata_of : Option GetInitialDataResponse → MetadataFields
metadata_of none = default_metadata
metadata_of (some r) = record { signing_key_version = r.key_version; metadata = r.public_metadata }

abbrev is_ike : Protocol → Bool
is_ike default_protocol = false
is_ike ipsec = false
is_ike bridge = false
is_ike ike = true

module _ {J C X V B : Type 0} (env : ProvisionEnv J C X V B) where
  -- The address of the control plane, from a name.
  unfoldable pub resolve : Text → StatusOr Text
  resolve hostname = env.lookup_dns hostname >>= λ address. parse env.net_library address >>= λ r.
      value (host_port_string env.net_library r control_plane_port)

  one_signed_token : List SignedToken → StatusOr TokenFields
  one_signed_token [] =
      error (error_status failed_precondition "Incorrect number of signed tokens found")
  one_signed_token (t ∷ []) = value (record {
    unblinded_token = t.plaintext_message;
    unblinded_token_signature = env.auth_env.rsa.base64_escape t.token;
    message_mask = env.auth_env.rsa.base64_escape t.message_mask;
  })
  one_signed_token (t ∷ u ∷ ts) =
      error (error_status failed_precondition "Incorrect number of signed tokens found")

  brass_token : Option Text → StatusOr TokenFields
  brass_token none = error (error_status failed_precondition "No unblinded token signatures found")
  brass_token (some token) = value (record no_token { unblinded_token_signature = token })

  -- A signature that is no Base64 is passed over.
  brass_signature : Option Text → Auth C V B → StatusOr TokenFields
  unfolding brass_token
  brass_signature none a = value no_token
  brass_signature (some signature) a =
      brass_token (get_brass_unblinded_token env.auth_env.rsa signature a.key_material)

  token_from : List Text → Auth C V B → StatusOr TokenFields
  unfolding one_signed_token brass_signature
  token_from [] a = error (error_status failed_precondition "No blind token signatures found")
  token_from (signature ∷ signatures) a =
      if env.auth_env.config.public_metadata_enabled
      then a.signed_tokens >>= one_signed_token
      else brass_signature (env.auth_env.json.base64_unescape signature) a

  unfoldable pub token_fields : Auth C V B → StatusOr TokenFields
  unfolding token_from
  token_fields a =
      if env.auth_env.config.enable_blind_signing
      then token_from a.auth_and_sign_response.blinded_token_signatures a
      else value no_token

  request_params :
      Bool → Option SessionKeys → TokenFields → Provision C V B → PpnDataplaneRequestParams
  request_params is_rekey key_material token v =
      let c = env.auth_env.config in
      let r = v.auth.auth_and_sign_response in
      let m =
        if c.public_metadata_enabled
        then metadata_of v.auth.get_initial_data_response
        else default_metadata in
      record {
        crypto = key_material;
        control_plane_sockaddr = v.control_plane_addr;
        suite = if c.cipher_suite_key_length == 256 then aes256_gcm else aes128_gcm;
        dataplane_protocol = c.datapath_protocol;
        is_rekey = is_rekey;
        uplink_spi = v.egress_manager.uplink_spi;
        blind_message = if c.enable_blind_signing then v.auth.key_material.original_message else [];
        unblinded_token = token.unblinded_token;
        unblinded_token_signature = token.unblinded_token_signature;
        dynamic_mtu_enabled = c.dynamic_mtu_enabled;
        apn_type = r.apn_type;
        region_token_and_signature = r.region_token_and_signatures;
        message_mask = token.message_mask;
        debug_mode = to_uint32 m.metadata.debug_mode;
        signing_key_version = m.signing_key_version;
        country = m.metadata.country;
        city_geo_id = m.metadata.city_geo_id;
        service_type = m.metadata.service_type;
        expiration = m.metadata.expiration.seconds;
        prefer_oasis = c.prefer_oasis;
        use_reserved_ip_pool = c.use_reserved_ip_pool;
        auth_method = c.auth_method;
        client_id_type = c.client_id_type;
      }

  get_egress_node : ℤ → PpnDataplaneRequestParams → Provision C V B → Provision C V B
  unfolding on_egress get_egress_node_for_ppn_ip_sec
  get_egress_node now params v =
      on_egress
        (get_egress_node_for_ppn_ip_sec env.auth_env.config env.auth_env.json env.parse_time
          env.auth_env.parse_details env.auth_env.rsa.base64_escape now params)
        v

  with_token :
      StatusOr TokenFields → ℤ → Bool → Option SessionKeys → Provision C V B → Provision C V B
  unfolding request_params get_egress_node fail_with_status
  with_token (error s) now is_rekey key_material v = fail_with_status s v
  with_token (value token) now is_rekey key_material v =
      if not (is_ike env.auth_env.config.datapath_protocol) && not (is_some key_material)
      then fail_with_status (error_status failed_precondition "Key material is null") v
      else get_egress_node now (request_params is_rekey key_material token v) v

  with_address : StatusOr Text → ℤ → Bool → Option SessionKeys → Provision C V B → Provision C V B
  unfolding with_token fail_with_status
  with_address (error s) now is_rekey key_material v = fail_with_status s v
  with_address (value address) now is_rekey key_material v =
      with_token (token_fields v.auth) now is_rekey key_material
        (record v { control_plane_addr = address })

  -- A rekey uses the address that is there.
  unfoldable pub ppn_dataplane_request :
      ℤ → Bool → Option SessionKeys → Provision C V B → Provision C V B
  unfolding with_address
  ppn_dataplane_request now true key_material v =
      with_address (value v.control_plane_addr) now true key_material v
  ppn_dataplane_request now false key_material v =
      with_address (resolve (copper_hostname env.auth_env.config v.auth.auth_and_sign_response)) now
        false key_material v
