-- ===== src/Provision/Auth/InitialData/Answers.antt =====
-- What follows a response to the request for initial data in krypton/auth.cc.
use vpn_libraries.Prelude.{
  ◌≡◌, refl, Bool, true, false, Option, none, some, List, ◌∷◌, not, if◌then◌else◌,
}
use vpn_libraries.Prelude.Int.{pos, eqb_ℤ}
use vpn_libraries.Prelude.Text.{Text}
use vpn_libraries.Utils.Status.{
  StatusOr, value, error, HttpResponse, is_ok, get_status_for_http_response,
}
use vpn_libraries.Metadata.Fingerprint.{
  fingerprint_public_metadata, fingerprint_of, fingerprint_input,
}
use vpn_libraries.Provision.Messages.{GetInitialDataResponse, BlindedToken, PlaintextMessage}
use vpn_libraries.Provision.Responses.{decode_get_initial_data_response}
use vpn_libraries.Provision.Auth.{is_success, record_request_latency, Auth, AuthEnv, Platform, fail}
use vpn_libraries.Provision.Auth.Outcome.{
  goes_on, gives_up, client_refused, request_refused, digest_refused, ComesTo, Refusal,
  fail-ComesTo, if-ComesTo, else-ComesTo,
}
use vpn_libraries.Provision.Auth.InitialData.{
  verify_public_metadata, requested_with, fingerprinted, client_with, initial_data_decoded,
  handle_initial_data_response, fail_silently,
}

module _ {J C X V B : Type 0} (env : AuthEnv J C X V B) where
  silent-ComesTo : (a : Auth C V B) → Refusal env → ComesTo env a (fail_silently a)
  unfolding fail_silently
  silent-ComesTo a r = gives_up r refl refl refl

  requested-ComesTo :
      (d : StatusOr (List BlindedToken)) (c : C) (m : PlaintextMessage) (r : GetInitialDataResponse)
      (k : Bool) (t : Text) (a : Auth C V B)
      → env.create_request c m ≡ d
      → ComesTo env a (requested_with env d c r k t a)
  unfolding requested_with
  requested-ComesTo (error s) c m r k t a e = silent-ComesTo a (request_refused c m s e)
  requested-ComesTo (value d) c m r k t a e = goes_on _ refl refl refl

  digested-ComesTo :
      (o : Option Text) (c : C) (r : GetInitialDataResponse) (k : Bool) (t : Text) (a : Auth C V B)
      → env.evp_sha256 (fingerprint_input env.str_cat r.public_metadata) ≡ o
      → ComesTo env a (fingerprinted env (fingerprint_of env.evp_sha256 env.str_cat o) c r k t a)
  unfolding fingerprinted fingerprint_of
  digested-ComesTo none c r k t a e = silent-ComesTo a (digest_refused _ e)
  digested-ComesTo (some d) c r k t a e = requested-ComesTo _ c _ r k t a refl

  client-ComesTo :
      (d : StatusOr C) (key : Text) (r : GetInitialDataResponse) (k : Bool) (t : Text)
      (a : Auth C V B)
      → env.create_bssa_client key ≡ d
      → ComesTo env a (client_with env d r k t a)
  unfolding client_with fingerprint_public_metadata
  client-ComesTo (error s) key r k t a e = silent-ComesTo a (client_refused key s e)
  client-ComesTo (value c) key r k t a e = digested-ComesTo _ c r k t a refl

  decoded-ComesTo :
      (d : StatusOr GetInitialDataResponse) (k : Bool) (t : Text) (a : Auth C V B)
      → ComesTo env a (initial_data_decoded env d k t a)
  unfolding initial_data_decoded
  decoded-ComesTo (error s) k t a = fail-ComesTo env s a
  decoded-ComesTo (value r) k t a =
      if-ComesTo env a (not (is_ok (verify_public_metadata r.public_metadata env.config))) _ _
        (fail-ComesTo env _ a)
        (client-ComesTo _ r.at_public_metadata_public_key r k t
          (record a { get_initial_data_response = some r }) refl)

  -- What holds of every state holds of the one whose token was cleared, or not.
  cleared-ComesTo :
      (f : Auth C V B → Auth C V B) (t : Text) (c : Bool) (a : Auth C V B)
      → ((b : Auth C V B) → ComesTo env b (f b))
      → ComesTo env a (f (if c then record a { cleared_tokens = t ∷ a.cleared_tokens } else a))
  cleared-ComesTo f t true a h = h (record a { cleared_tokens = t ∷ a.cleared_tokens })
  cleared-ComesTo f t false a h = h a

  pub handle_initial_data-ComesTo :
      (p : Platform) (k : Bool) (t : Text) (response : HttpResponse) (a : Auth C V B)
      → a.stopped ≡ false
      → ComesTo env a (handle_initial_data_response env p k t response a)
  unfolding handle_initial_data_response record_request_latency
  handle_initial_data-ComesTo p k t response a h =
      let a1 = record_request_latency p.now a in
      let failure = get_status_for_http_response env.parse_details response none in
      let decoded = decode_get_initial_data_response env.parse_initial_data response in
      let bad = not (is_success response.status_code) in
      else-ComesTo env a a1.stopped _ _ h (
        cleared-ComesTo
          (λ b. if bad then fail failure b else initial_data_decoded env decoded k t b) t
          (eqb_ℤ response.status_code (pos 401)) a1
          (λ b.
            if-ComesTo env b bad _ _ (fail-ComesTo env failure b) (decoded-ComesTo decoded k t b)))
