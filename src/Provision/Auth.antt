-- ===== src/Provision/Auth.antt =====
-- The state of krypton/auth.h, and how krypton/auth.cc starts and stops an authentication. The functions
-- of the token library, of the platform's OAuth and of protobuf are parameters; what the platform answers
-- to the calls of one handler, and the time of them, is an argument of that handler.
pub mod Tokens
pub mod InitialData
pub mod Handlers
pub mod Answers
pub mod Outcome
use vpn_libraries.Prelude.{
  ℕ, ◌^◌, Bool, true, false, Option, none, some, List, [], ◌∷◌, ◌++◌, String, if◌then◌else◌, map,
  ◌&&◌, not,
}
use vpn_libraries.Prelude.Int.{ℤ, pos, ltb_ℤ}
use vpn_libraries.Prelude.Text.{Text}
use vpn_libraries.Utils.Status.{
  Status, StatusOr, value, error, ok_status, error_status, internal, unknown, PpnStatusDetails,
  HttpResponse,
}
use vpn_libraries.Utils.TimeUtil.{ProtoDuration, Time, at, infinite_past, record_latency}
use vpn_libraries.Utils.Json.{JsonLibrary}
use vpn_libraries.HttpFetcher.{HttpFetcher, new_http_fetcher, post_json_async, cancel_async}
use vpn_libraries.Provision.Messages.{
  KryptonConfig, PublicMetadata, GetInitialDataResponse, AuthAndSignProto, BlindedToken,
  AnonymousToken, SignedToken, PlaintextMessage,
}
use vpn_libraries.Provision.Responses.{AuthAndSignResponse, new_auth_and_sign_response}
use vpn_libraries.Provision.Requests.{
  HttpRequest, AuthAndSignFields, auth_and_sign_body, public_key_request, initial_data_request,
  auth_and_sign_request, get_location_granularity, bearer_header,
}
use vpn_libraries.Provision.Crypto.{
  RsaLibrary, AuthCrypto, new_auth_crypto, get_zinc_blind_token, blind_signing_public_key_hash,
}

pub data State : Type 0 where
  authenticated unauthenticated : State

-- Auth::NotificationInterface.
pub data AuthNotification : Type 0 where
  auth_successful : Bool → AuthNotification
  auth_failure : Status → AuthNotification

-- The callback of a request, with what is bound to it: whether it is for a rekey, and the token.
pub data AuthCallback : Type 0 where
  auth_and_sign_response public_key_response : Bool → AuthCallback
  initial_data_response : Bool → Text → AuthCallback

-- What a handler still calls after it has released the mutex: Authenticate, or AuthenticatePublicMetadata
-- with the response that get_initial_data_response_ holds, which only this thread writes.
pub data Continuation : Type 0 where
  authenticates : Bool → Option Text → Continuation
  authenticates_metadata : GetInitialDataResponse → Bool → Text → Option Text → Continuation

-- J are JSON values, C clients of the token library; X, V and B belong to the RSA library.
pub record AuthEnv (J C X V B : Type 0) : Type 0 where
  pub config : KryptonConfig
  pub json : JsonLibrary J
  pub rsa : RsaLibrary X V B
  pub parse_details : String → Option PpnStatusDetails
  pub parse_auth_and_sign : String → Option AuthAndSignProto
  pub parse_initial_data : String → Option GetInitialDataResponse
  pub create_bssa_client : Text → StatusOr C
  pub create_request : C → PlaintextMessage → StatusOr (List BlindedToken)
  pub process_response : C → List AnonymousToken → StatusOr (List SignedToken)
  pub evp_sha256 : Text → Option Text
  pub str_cat : ℤ → Text

-- What a handler finds outside: the time, random bytes, and the answers of OAuthInterface.
pub record Platform : Type 0 where
  pub now : ℤ
  pub random : List ℕ
  pub oauth_token : StatusOr Text
  pub attestation_data : Text → StatusOr Text

-- `posted` is what was posted on the thread of the handler of the notifications, oldest first; and
-- `cleared_tokens` are the calls of ClearOAuthToken, newest first. `continuation` is
-- where the thread of Auth is between two sections under the mutex, and `faulted` is set where the source
-- would follow a null pointer.
pub record Auth (C V B : Type 0) : Type 0 where
  pub stopped : Bool
  pub state : State
  pub latest_status : Status
  pub auth_and_sign_response : AuthAndSignResponse
  pub get_initial_data_response : Option GetInitialDataResponse
  pub key_material : AuthCrypto V B
  pub bssa_client : Option C
  pub signed_tokens : StatusOr (List SignedToken)
  pub at_sign_request : List BlindedToken
  pub token_unblind_failure_count : ℕ
  pub latencies : List ProtoDuration
  pub oauth_latencies : List ProtoDuration
  pub zinc_latencies : List ProtoDuration
  pub request_time : Time
  pub zinc_request_time : Time
  pub http_fetcher : HttpFetcher AuthCallback HttpRequest HttpResponse
  pub posted : List AuthNotification
  pub continuation : Option Continuation
  pub cleared_tokens : List Text
  pub faulted : Bool

-- The constructor. An absl::StatusOr that is not set is an unknown error.
unfoldable pub new_auth : {C V B : Type 0} → List ℕ → Auth C V B
unfolding new_auth_crypto new_http_fetcher
new_auth random = record {
  stopped = false;
  state = unauthenticated;
  latest_status = ok_status;
  auth_and_sign_response = new_auth_and_sign_response;
  get_initial_data_response = none;
  key_material = new_auth_crypto random;
  bssa_client = none;
  signed_tokens = error (error_status unknown "");
  at_sign_request = [];
  token_unblind_failure_count = 0;
  latencies = [];
  oauth_latencies = [];
  zinc_latencies = [];
  request_time = infinite_past;
  zinc_request_time = infinite_past;
  http_fetcher = new_http_fetcher;
  posted = [];
  continuation = none;
  cleared_tokens = [];
  faulted = false;
}

-- A code from 200 to 299.
abbrev pub is_success : ℤ → Bool
is_success code = not (ltb_ℤ code (pos 200)) && ltb_ℤ code (pos 300)

-- kValidationVersion.
abbrev validation_version : ℕ
validation_version = 1

module _ {C V B : Type 0} where
  abbrev pub notify : AuthNotification → Auth C V B → Auth C V B
  notify n a = record a { posted = a.posted ++ n ∷ [] }

  unfoldable pub raise_auth_failure_notification : Status → Auth C V B → Auth C V B
  raise_auth_failure_notification status a =
      notify (auth_failure status) (record a { latest_status = status })

  -- SetState(kUnauthenticated), and the notification of the failure.
  unfoldable pub fail : Status → Auth C V B → Auth C V B
  unfolding raise_auth_failure_notification
  fail status a = raise_auth_failure_notification status (record a { state = unauthenticated })

  unfoldable pub send : HttpRequest → AuthCallback → Auth C V B → Auth C V B
  send request callback a = record a {
    http_fetcher = post_json_async request callback a.http_fetcher;
  }

  -- RecordLatency of a call of OAuth, which starts and ends now.
  unfoldable pub record_oauth_latency : ℤ → Auth C V B → Auth C V B
  unfolding record_latency
  record_oauth_latency now a = record a {
    oauth_latencies = (record_latency now (at now) a.oauth_latencies).1;
  }

  unfoldable pub record_request_latency : ℤ → Auth C V B → Auth C V B
  unfolding record_latency
  record_request_latency now a =
      let (start, latencies) = record_latency now a.request_time a.latencies in
      record a { request_time = start; latencies = latencies }

  unfoldable pub stop : Auth C V B → Auth C V B
  stop a = record a { stopped = true; http_fetcher = cancel_async a.http_fetcher }

module _ {J C X V B : Type 0} (env : AuthEnv J C X V B) where
  unfoldable pub request_key_for_blind_signing : Platform → Bool → Auth C V B → Auth C V B
  unfolding send
  request_key_for_blind_signing p is_rekey a =
      let c = env.config in
      let request =
        public_key_request c.integrity_attestation_enabled c.api_key
          c.zinc_public_signing_key_url in
      send request (public_key_response is_rekey) (record a { request_time = at p.now })

  initial_data_with : StatusOr Text → Platform → Bool → Auth C V B → Auth C V B
  unfolding send fail record_oauth_latency
  initial_data_with (error s) p is_rekey a =
      fail (error_status internal "Error fetching oauth token") a
  initial_data_with (value token) p is_rekey a =
      let c = env.config in
      let request =
        initial_data_request c.integrity_attestation_enabled c.service_type
          (get_location_granularity c.ip_geo_level) validation_version token c.initial_data_url in
      send request (initial_data_response is_rekey token)
        (record (record_oauth_latency p.now a) { request_time = at p.now })

  unfoldable pub request_for_initial_data : Platform → Bool → Auth C V B → Auth C V B
  unfolding initial_data_with
  request_for_initial_data p is_rekey a = initial_data_with p.oauth_token p is_rekey a

  abbrev when : Bool → Option Text → Option Text
  when enabled o = if enabled then o else none

  authenticate_with : StatusOr Text → Option Text → Platform → Bool → Auth C V B → Auth C V B
  unfolding send fail record_oauth_latency
  authenticate_with (error s) attestation p is_rekey a =
      fail (error_status internal "Error fetching oauth token") a
  authenticate_with (value token) attestation p is_rekey a =
      let c = env.config in
      let request =
        auth_and_sign_request
          (record {
            auth_token = token;
            service_type = c.service_type;
            blinded_token =
                when c.enable_blind_signing (get_zinc_blind_token env.rsa a.key_material);
            public_key_hash =
                when c.enable_blind_signing (blind_signing_public_key_hash env.rsa a.key_material);
            attestation_data = attestation;
            attach_oauth_as_header = c.attach_oauth_token_as_header;
          })
          c.zinc_url in
      send request (auth_and_sign_response is_rekey)
        (record (record_oauth_latency p.now a) { zinc_request_time = at p.now })

  authenticate_attested : StatusOr Text → Platform → Bool → Auth C V B → Auth C V B
  unfolding authenticate_with fail
  authenticate_attested (error s) p is_rekey a =
      fail (error_status internal "Error fetching attestation data") a
  authenticate_attested (value attestation) p is_rekey a =
      authenticate_with p.oauth_token (some attestation) p is_rekey a

  unfoldable pub authenticate : Platform → Bool → Option Text → Auth C V B → Auth C V B
  unfolding authenticate_attested
  authenticate p is_rekey none a = authenticate_with p.oauth_token none p is_rekey a
  authenticate p is_rekey (some nonce) a =
      authenticate_attested (p.attestation_data nonce) p is_rekey a

  unfoldable pub start : Platform → Bool → Auth C V B → Auth C V B
  unfolding new_auth_crypto request_key_for_blind_signing request_for_initial_data authenticate
  start p is_rekey a =
      let a1 = record a { key_material = new_auth_crypto p.random } in
      if env.config.enable_blind_signing
      then (if env.config.public_metadata_enabled
          then request_for_initial_data p is_rekey a1
          else request_key_for_blind_signing p is_rekey a1)
      else authenticate p is_rekey none a1
