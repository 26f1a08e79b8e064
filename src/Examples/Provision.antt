-- ===== src/Examples/Provision.antt =====
-- Runs of krypton/auth.cc, egress_manager.cc and provision.cc, over libraries that do little: the JSON
-- library reads no text, RSA is the identity, and the token library signs what it is given.
use mathlib.Core.Bool.{true≢false}
use vpn_libraries.Prelude.{
  ℕ, ◌+◌, ◌≡◌, ◌≢◌, refl, sym, ap, ◌∙◌, true, false, some, none, List, [], ◌∷◌, ◌++◌, length, ◌≤◌,
  ◌⊎◌, All,
}
use vpn_libraries.Prelude.Int.{ℤ, pos}
use vpn_libraries.Prelude.Text.{Text, codes, eqb_text}
use vpn_libraries.Utils.Status.{HttpResponse, StatusOr, value, ok_status}
use vpn_libraries.Utils.Json.{JsonLibrary}
use vpn_libraries.Session.Model.{ipsec}
use vpn_libraries.Provision.Messages.{
  KryptonConfig, GetInitialDataResponse, AuthAndSignProto, country,
}
use vpn_libraries.Provision.Responses.{AuthAndSignResponse, auth_and_sign_from_proto}
use vpn_libraries.Provision.Responses.Allowed.{IsAllowed, auth_and_sign_from_proto-IsAllowed}
use vpn_libraries.Provision.EgressResponse.{add_egress_from_proto, thrown}
use vpn_libraries.Provision.EgressResponse.Thrown.{is_thrown}
use vpn_libraries.Provision.Crypto.{RsaLibrary}
use vpn_libraries.Provision.Auth
use vpn_libraries.Provision.Auth.{
  AuthEnv, Platform, new_auth, start, authenticates, auth_and_sign_response,
}
use vpn_libraries.Provision.Auth.Answers.{Fails, Asks, start_answers}
use vpn_libraries.Provision.Crypto.{AuthCrypto, new_auth_crypto, set_blinding_public_key}
use vpn_libraries.Provision.Crypto.Message.{HasVerifier, set_blinding_public_key-HasVerifier}
use vpn_libraries.Provision.Auth.Tokens.{handle_auth_and_sign_response}
use vpn_libraries.Provision.Auth.Tokens.Answers.{unblinded_start_faults}
use vpn_libraries.Provision.Auth.Handlers.{resume}
use vpn_libraries.Provision.Auth.Handlers.Answers.{pending, resume_answers}
use vpn_libraries.Provision.Egress.{
  EgressNotification, new_egress_manager, decode_add_egress_response,
}
use vpn_libraries.Provision.Egress.Answers.{decode_add_egress_response_tells}
use vpn_libraries.Provision.Control.{Provision, ProvisionEnv, new_provision}
use vpn_libraries.Provision.Control.Flagged.{IsFlagged}
use vpn_libraries.Provision.Control.Dataplane.{ppn_dataplane_request}
use vpn_libraries.Provision.Control.Dataplane.Answers as Requested
use vpn_libraries.Provision.Control.Dataplane.Answers.{ppn_dataplane_request_answers}
use vpn_libraries.Provision.Control.Steps
use vpn_libraries.Provision.Control.Steps.{
  Event, starts, rekeys, sends, auth_requests, auth_answers, auth_runs, egress_requests,
  egress_answers, egress_runs, looper_runs,
}
use vpn_libraries.Provision.Control.Steps.Flagged.{run-IsFlagged}
use vpn_libraries.Provision.Control.Steps.Stopped.{stop_adds_at_most_one}
use vpn_libraries.Examples.Network.{net_library}

abbrev json : JsonLibrary ℤ
json = record {
  parse = λ s. none;
  is_object = λ j. false;
  find = λ key j. none;
  as_integer = λ j. some j;
  as_string = λ j. none;
  elements = λ j. none;
  base64_unescape = λ s. some s;
}

abbrev rsa : RsaLibrary Text Text Text
rsa = record {
  parse_rsa_public_key = λ pem. value (some pem);
  validate_modulus = λ key. ok_status;
  validate_public_exponent = λ key. ok_status;
  has_bssl_key = λ key. value true;
  new_verifier = λ key. value key;
  blind = λ message key. value message;
  sha256 = λ s. value s;
  blind_of = λ b. b;
  unblind = λ s b. value s;
  verify = λ v s message. ok_status;
  base64_escape = λ s. s;
}

-- Blind signing with public metadata.
abbrev config : KryptonConfig
config = record {
  zinc_url = codes "https://auth";
  zinc_public_signing_key_url = codes "https://key";
  initial_data_url = codes "https://initial";
  brass_url = codes "https://egress";
  service_type = codes "service";
  copper_controller_address = none;
  copper_hostname_override = none;
  copper_hostname_suffix = codes "g-tun.com" ∷ [];
  cipher_suite_key_length = 256;
  enable_blind_signing = true;
  datapath_protocol = ipsec;
  integrity_attestation_enabled = false;
  api_key = none;
  attach_oauth_token_as_header = false;
  dynamic_mtu_enabled = true;
  public_metadata_enabled = true;
  ip_geo_level = country;
  debug_mode_allowed = false;
  prefer_oasis = false;
  use_reserved_ip_pool = false;
  auth_method = 0;
  client_id_type = 0;
}

abbrev initial_data : GetInitialDataResponse
initial_data = record {
  at_public_metadata_public_key = codes "key";
  key_version = pos 1;
  public_metadata = record {
    country = codes "CH";
    city_geo_id = [];
    service_type = codes "service";
    expiration = record { seconds = pos 900; nanos = pos 0 };
    debug_mode = pos 0;
  };
  attestation_nonce = [];
}

abbrev signed : AuthAndSignProto
signed = record {
  blinded_token_signature = codes "signature" ∷ [];
  region_token_and_signature = codes "region";
  apn_type = codes "ppn";
  copper_controller_hostname = codes "eu.g-tun.com";
}

abbrev unsigned : AuthAndSignProto
unsigned = record signed { blinded_token_signature = [] }

abbrev env_with : KryptonConfig → AuthAndSignProto → StatusOr ℕ → AuthEnv ℤ ℕ Text Text Text
env_with config proto client = record {
  config = config;
  json = json;
  rsa = rsa;
  parse_details = λ s. none;
  parse_auth_and_sign = λ s. some proto;
  parse_initial_data = λ s. some initial_data;
  create_bssa_client = λ key. client;
  create_request = λ c m. value [];
  process_response = λ c tokens. value [];
  evp_sha256 = λ s. some (codes "01234567890123456789012345678901");
  str_cat = λ z. codes "0";
}

abbrev auth_env : AuthEnv ℤ ℕ Text Text Text
auth_env = env_with config signed (value 0)

-- Public metadata without blind signing.
abbrev unblinded_env : AuthEnv ℤ ℕ Text Text Text
unblinded_env = env_with (record config { enable_blind_signing = false }) unsigned (value 0)

abbrev platform : Platform
platform = record {
  now = pos 1000;
  random = 1 ∷ 2 ∷ [];
  oauth_token = value (codes "token");
  attestation_data = λ nonce. value nonce;
}

abbrev response : HttpResponse
response = record {
  status_code = pos 200;
  status_message = "OK";
  json_body = none;
  proto_body = some "bytes";
}

abbrev auth : Auth.Auth ℕ Text Text
auth = new_auth (1 ∷ 2 ∷ [])

abbrev decoded : List Text → AuthAndSignResponse
decoded signatures = record {
  copper_controller_hostname = codes "eu.g-tun.com";
  region_token_and_signatures = codes "region";
  apn_type = codes "ppn";
  blinded_token_signatures = signatures;
}

signed_decodes :
    auth_and_sign_from_proto json (λ s. some signed) response config true
    ≡ value (decoded (codes "signature" ∷ []))
unfolding auth_and_sign_from_proto eqb_text
signed_decodes = refl

auth_and_sign_from_proto-IsAllowed_example : IsAllowed config (decoded (codes "signature" ∷ []))
auth_and_sign_from_proto-IsAllowed_example =
    auth_and_sign_from_proto-IsAllowed json (λ s. some signed) response config
      (decoded (codes "signature" ∷ [])) signed_decodes

not_thrown : is_thrown (add_egress_from_proto json (λ s. none) response) ≡ false
unfolding add_egress_from_proto
not_thrown = refl

does_not_throw : add_egress_from_proto json (λ s. none) response ≢ thrown
does_not_throw e = absurd (true≢false (sym (ap is_thrown e) ∙ not_thrown))

egress_runs_on : new_egress_manager.stopped ≡ false
unfolding new_egress_manager
egress_runs_on = refl

decode_add_egress_response_tells_example :
    let f =
      decode_add_egress_response config json
        (λ s. none)
        (λ s. none)
        (λ s. s)
        (pos 1000)
        false
        response
        new_egress_manager in
    (n : EgressNotification) × ((f.posted ≡ new_egress_manager.posted ++ n ∷ [])
      × (f.http_fetcher ≡ new_egress_manager.http_fetcher))
decode_add_egress_response_tells_example =
    decode_add_egress_response_tells config json (λ s. none) (λ s. none) (λ s. s) (pos 1000) false
      response new_egress_manager egress_runs_on does_not_throw

abbrev env : ProvisionEnv ℤ ℕ Text Text Text
env = record {
  auth_env = auth_env;
  net_library = net_library;
  parse_time = λ s. none;
  lookup_dns = λ host. value (codes "64.9.240.165");
}

abbrev provision : Provision ℕ Text Text
provision = new_provision auth

-- Initial data, AuthAndSign, and a request for an egress session without keys, which fails.
abbrev history : List Event
history =
    starts platform
    ∷ auth_requests
    ∷ auth_answers response
    ∷ auth_runs platform
    ∷ auth_requests
    ∷ auth_answers response
    ∷ auth_runs platform
    ∷ looper_runs
    ∷ sends (pos 1000) false none
    ∷ []

run-IsFlagged_example : All IsFlagged (Steps.run env history provision).posted
run-IsFlagged_example = run-IsFlagged env history auth

-- The stop comes while the thread of Auth is between the response and the request that follows it.
abbrev before : List Event
before = starts platform ∷ auth_requests ∷ auth_answers response ∷ auth_runs platform ∷ []

abbrev later : List Event
later =
    auth_runs platform
    ∷ auth_requests
    ∷ auth_answers response
    ∷ auth_runs platform
    ∷ looper_runs
    ∷ []

stop_adds_at_most_one_example :
    let v = Steps.run env before (new_provision (new_auth (1 ∷ 2 ∷ []))) in
    let w = Steps.run env later (Steps.stop env v) in
    length w.posted + length w.looper
    ≤ length v.posted + length v.looper + pending v.auth.continuation
stop_adds_at_most_one_example =
    stop_adds_at_most_one env before later (1 ∷ 2 ∷ []) (tt, (tt, (tt, (tt, (tt, tt)))))

ppn_dataplane_request_answers_example :
    let w = ppn_dataplane_request env (pos 1000) false none provision in
    Requested.Fails provision w ⊎ Requested.Asks provision w
ppn_dataplane_request_answers_example =
    ppn_dataplane_request_answers env (pos 1000) false none provision

resume_answers_example :
    let b = resume auth_env platform (authenticates false none) auth in Fails auth b ⊎ Asks auth b
resume_answers_example = resume_answers auth_env platform (authenticates false none) auth

start_answers_example : let b = start auth_env platform false auth in Fails auth b ⊎ Asks auth b
start_answers_example = start_answers auth_env platform false auth

unsigned_decodes :
    auth_and_sign_from_proto json (λ s. some unsigned) response unblinded_env.config true
    ≡ value (decoded [])
unfolding auth_and_sign_from_proto eqb_text
unsigned_decodes = refl

unblinded_start_faults_example :
    let asked = start unblinded_env platform false auth in
    (length asked.http_fetcher.infos ≡ 1)
    × ((handle_auth_and_sign_response unblinded_env platform false response asked).faulted ≡ true)
unblinded_start_faults_example =
    unblinded_start_faults unblinded_env platform platform false (1 ∷ 2 ∷ []) (codes "token")
      response (decoded []) refl refl refl refl unsigned_decodes refl

abbrev keyless : AuthCrypto Text Text
keyless = new_auth_crypto (1 ∷ 2 ∷ [])

keyless-HasVerifier : HasVerifier keyless
unfolding new_auth_crypto
keyless-HasVerifier h = h

set_blinding_public_key-HasVerifier_example :
    HasVerifier (set_blinding_public_key rsa (codes "pem") keyless).0
set_blinding_public_key-HasVerifier_example =
    set_blinding_public_key-HasVerifier rsa (codes "pem") keyless keyless-HasVerifier
