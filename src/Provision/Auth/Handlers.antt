-- ===== src/Provision/Auth/Handlers.antt =====
-- Auth::HandlePublicKeyResponse of krypton/auth.cc, and a step of the thread of Auth.
pub mod Answers
use vpn_libraries.Prelude.{Bool, Option, none, some, List, [], ◌∷◌, not, if◌then◌else◌}
use vpn_libraries.Prelude.Text.{Text}
use vpn_libraries.Utils.Status.{
  Status, StatusOr, value, error, HttpResponse, is_ok, get_status_for_http_response,
}
use vpn_libraries.Provision.Responses.{PublicKeyResponse, public_key_from_proto}
use vpn_libraries.Provision.Crypto.{set_blinding_public_key}
use vpn_libraries.Provision.Auth.{
  is_success, record_request_latency, Auth, AuthEnv, Platform, AuthCallback, auth_and_sign_response,
  public_key_response, initial_data_response, fail, authenticate, Continuation, authenticates,
  authenticates_metadata,
}
use vpn_libraries.Provision.Auth.Tokens.{handle_auth_and_sign_response}
use vpn_libraries.Provision.Auth.InitialData.{
  authenticate_public_metadata, handle_initial_data_response,
}

module _ {J C X V B : Type 0} (env : AuthEnv J C X V B) where
  blinding_with : Option Text → Auth C V B × Status → Bool → Auth C V B
  unfolding fail
  blinding_with nonce (a, status) is_rekey =
      if is_ok status
      then record a { continuation = some (authenticates is_rekey nonce) }
      else fail status a

  -- SetBlindingPublicKey, on the key material.
  set_key : Text → Auth C V B → Auth C V B × Status
  set_key pem a =
      let (k, status) = set_blinding_public_key env.rsa pem a.key_material in
      (record a { key_material = k }, status)

  public_key_decoded : StatusOr PublicKeyResponse → Bool → Auth C V B → Auth C V B
  unfolding blinding_with set_key fail
  public_key_decoded (error s) is_rekey a = fail s a
  public_key_decoded (value r) is_rekey a = blinding_with r.nonce (set_key r.pem a) is_rekey

  -- The section under the mutex; Authenticate comes after it.
  unfoldable pub handle_public_key_response :
      Platform → Bool → HttpResponse → Auth C V B → Auth C V B
  unfolding public_key_decoded record_request_latency fail
  handle_public_key_response p is_rekey response a =
      let a1 = record_request_latency p.now a in
      if a1.stopped
      then a1
      else if not (is_success response.status_code)
      then fail (get_status_for_http_response env.parse_details response none) a1
      else public_key_decoded (public_key_from_proto env.json response) is_rekey a1

  -- A callback that the fetcher posted runs on the thread of Auth.
  unfoldable pub handle : Platform → AuthCallback → HttpResponse → Auth C V B → Auth C V B
  unfolding handle_auth_and_sign_response handle_public_key_response handle_initial_data_response
  handle p (auth_and_sign_response is_rekey) r a = handle_auth_and_sign_response env p is_rekey r a
  handle p (public_key_response is_rekey) r a = handle_public_key_response p is_rekey r a
  handle p (initial_data_response is_rekey token) r a =
      handle_initial_data_response env p is_rekey token r a

  run_first : List (AuthCallback × HttpResponse) → Platform → Auth C V B → Auth C V B
  unfolding handle
  run_first [] p a = a
  run_first ((callback, response) ∷ rest) p a =
      handle p callback response
        (record a { http_fetcher = record a.http_fetcher { notification_thread = rest } })

  -- What follows behind the mutex, on what the members hold by then.
  unfoldable pub resume : Platform → Continuation → Auth C V B → Auth C V B
  unfolding authenticate authenticate_public_metadata
  resume p (authenticates is_rekey nonce) a = authenticate env p is_rekey nonce a
  resume p (authenticates_metadata r is_rekey token nonce) a =
      authenticate_public_metadata env r p is_rekey token nonce a

  run_next : Option Continuation → Platform → Auth C V B → Auth C V B
  unfolding resume run_first
  run_next none p a = run_first a.http_fetcher.notification_thread p a
  run_next (some c) p a = resume p c (record a { continuation = none })

  -- A step of the thread of Auth: it goes on with the callback that it is in, or runs the first one that
  -- waits for it.
  unfoldable pub run_callback : Platform → Auth C V B → Auth C V B
  unfolding run_next
  run_callback p a = run_next a.continuation p a
