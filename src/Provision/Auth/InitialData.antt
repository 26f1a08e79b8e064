-- ===== src/Provision/Auth/InitialData.antt =====
-- Auth::HandleInitialDataResponse of krypton/auth.cc, and AuthenticatePublicMetadata after it.
pub mod Answers
pub mod Asked
use vpn_libraries.Prelude.{
  ℕ, Bool, true, false, Option, none, some, List, [], ◌∷◌, ◌&&◌, not, if◌then◌else◌, map, ◌==◌,
}
use vpn_libraries.Prelude.Int.{ℤ, pos, eqb_ℤ}
use vpn_libraries.Prelude.Text.{Text, eqb_text, is_empty}
use vpn_libraries.Utils.Status.{
  Status, StatusOr, value, error, ok_status, error_status, internal, HttpResponse, is_ok,
  get_status_for_http_response,
}
use vpn_libraries.Utils.TimeUtil.{at, verify_timestamp_is_rounded}
use vpn_libraries.Metadata.Serialize.{uint64_to_bytes}
use vpn_libraries.Metadata.Fingerprint.{fingerprint_public_metadata}
use vpn_libraries.Provision.Messages.{
  KryptonConfig, PublicMetadata, GetInitialDataResponse, BlindedToken, PlaintextMessage, IpGeoLevel,
  city, country, unspecified, unspecified_debug_mode,
}
use vpn_libraries.Provision.Responses.{decode_get_initial_data_response}
use vpn_libraries.Provision.Requests.{HttpRequest, auth_and_sign_body, bearer_header}
use vpn_libraries.Provision.Auth.{
  is_success, record_request_latency, Auth, AuthEnv, Platform, unauthenticated,
  auth_and_sign_response, authenticates_metadata, fail, send,
}

-- 15 minutes, in seconds.
abbrev expiry_increments : ℕ
expiry_increments = 900

abbrev is_city : IpGeoLevel → Bool
is_city city = true
is_city country = false
is_city unspecified = false

unfoldable pub verify_public_metadata : PublicMetadata → KryptonConfig → Status
unfolding verify_timestamp_is_rounded
verify_public_metadata m config =
    if not (is_ok (verify_timestamp_is_rounded m.expiration expiry_increments))
    then error_status internal "HandleInitialDataResponse failed due to unrounded expiry increment."
    else if not (is_city config.ip_geo_level) && not (is_empty m.city_geo_id)
    then error_status internal "Received city_geo_id when request specified other geo level."
    else if not (eqb_text m.service_type config.service_type)
    then error_status internal
        "HandleInitialDataResponse failed due to incorrect service type in response."
    else if not (eqb_ℤ m.debug_mode unspecified_debug_mode) && not config.debug_mode_allowed
    then error_status internal
        "HandleInitialDataResponse failed due to debug mode specified when not allowed."
    else ok_status

module _ {C V B : Type 0} where
  -- SetState(kUnauthenticated) and a return, with no notification.
  unfoldable pub fail_silently : Auth C V B → Auth C V B
  fail_silently a = record a { state = unauthenticated }

module _ {J C X V B : Type 0} (env : AuthEnv J C X V B) where
  metadata_request : GetInitialDataResponse → List BlindedToken → Text → Option Text → HttpRequest
  metadata_request r tokens token attestation = record {
    url = env.config.zinc_url;
    headers = if env.config.attach_oauth_token_as_header then bearer_header token else [];
    body = auth_and_sign_body (record {
      oauth_token = some token;
      service_type = r.public_metadata.service_type;
      blinded_token = map (λ (t : BlindedToken). env.rsa.base64_escape t.serialized_token) tokens;
      public_key_hash = none;
      attestation = attestation;
      key_version = some r.key_version;
      public_metadata = some r.public_metadata;
      do_not_use_rsa_public_exponent = true;
    });
  }

  send_metadata :
      GetInitialDataResponse → Text → Option Text → Platform → Bool → Auth C V B → Auth C V B
  unfolding metadata_request send
  send_metadata r token attestation p is_rekey a =
      send (metadata_request r a.at_sign_request token attestation)
        (auth_and_sign_response is_rekey) (record a { zinc_request_time = at p.now })

  metadata_attested :
      GetInitialDataResponse → Text → StatusOr Text → Platform → Bool → Auth C V B → Auth C V B
  unfolding send_metadata fail
  metadata_attested r token (error s) p is_rekey a =
      fail (error_status internal "Error fetching attestation data") a
  metadata_attested r token (value data_) p is_rekey a =
      send_metadata r token (some data_) p is_rekey a

  -- `r` is what get_initial_data_response_ holds.
  unfoldable pub authenticate_public_metadata :
      GetInitialDataResponse → Platform → Bool → Text → Option Text → Auth C V B → Auth C V B
  unfolding metadata_attested
  authenticate_public_metadata r p is_rekey token none a = send_metadata r token none p is_rekey a
  authenticate_public_metadata r p is_rekey token (some nonce) a =
      metadata_attested r token (p.attestation_data nonce) p is_rekey a

  abbrev nonce_of : GetInitialDataResponse → Option Text
  nonce_of r =
      if is_empty r.attestation_nonce
      then none
      else some (env.rsa.base64_escape r.attestation_nonce)

  requested_with :
      StatusOr (List BlindedToken)
      → C
      → GetInitialDataResponse
      → Bool
      → Text
      → Auth C V B
      → Auth C V B
  unfolding fail_silently
  requested_with (error s) client r is_rekey token a = fail_silently a
  requested_with (value tokens) client r is_rekey token a = record a {
    bssa_client = some client;
    at_sign_request = tokens;
    continuation = some (authenticates_metadata r is_rekey token (nonce_of r));
  }

  fingerprinted : StatusOr ℕ → C → GetInitialDataResponse → Bool → Text → Auth C V B → Auth C V B
  unfolding fail_silently requested_with
  fingerprinted (error s) client r is_rekey token a = fail_silently a
  fingerprinted (value fingerprint) client r is_rekey token a =
      let plaintext : PlaintextMessage = record {
        plaintext_message = a.key_material.original_message;
        public_metadata = uint64_to_bytes fingerprint;
      } in
      requested_with (env.create_request client plaintext) client r is_rekey token a

  client_with : StatusOr C → GetInitialDataResponse → Bool → Text → Auth C V B → Auth C V B
  unfolding fail_silently fingerprinted
  client_with (error s) r is_rekey token a = fail_silently a
  client_with (value client) r is_rekey token a =
      fingerprinted (fingerprint_public_metadata env.evp_sha256 env.str_cat r.public_metadata)
        client r is_rekey token a

  initial_data_decoded : StatusOr GetInitialDataResponse → Bool → Text → Auth C V B → Auth C V B
  unfolding client_with fail
  initial_data_decoded (error s) is_rekey token a = fail s a
  initial_data_decoded (value r) is_rekey token a =
      let status = verify_public_metadata r.public_metadata env.config in
      if not (is_ok status)
      then fail status a
      else client_with (env.create_bssa_client r.at_public_metadata_public_key) r is_rekey token
          (record a { get_initial_data_response = some r })

  abbrev cleared : ℤ → Text → Auth C V B → Auth C V B
  cleared code token a =
      if eqb_ℤ code (pos 401) then record a { cleared_tokens = token ∷ a.cleared_tokens } else a

  -- The section under the mutex; AuthenticatePublicMetadata comes after it.
  unfoldable pub handle_initial_data_response :
      Platform → Bool → Text → HttpResponse → Auth C V B → Auth C V B
  unfolding initial_data_decoded record_request_latency fail
  handle_initial_data_response p is_rekey token response a =
      let a1 = record_request_latency p.now a in
      let a2 = cleared response.status_code token a1 in
      if a1.stopped
      then a1
      else if not (is_success response.status_code)
      then fail (get_status_for_http_response env.parse_details response none) a2
      else initial_data_decoded (decode_get_initial_data_response env.parse_initial_data response)
          is_rekey token a2
