-- ===== src/Provision/Auth/Tokens/Answers.antt =====
-- That Auth::HandleAuthAndSignResponse of krypton/auth.cc tells the outcome.
use vpn_libraries.Prelude.{
  ℕ, length, ◌≡◌, refl, arith, Bool, true, false, Option, none, some, List, [], not, ◌==◌,
  if◌then◌else◌,
}
use vpn_libraries.Prelude.Int.{pos, eqb_ℤ}
use vpn_libraries.Prelude.Text.{Text}
use vpn_libraries.HttpFetcher.{post_json_async, new_http_fetcher}
use vpn_libraries.Utils.Status.{error_status, internal, StatusOr, value, error, HttpResponse}
use vpn_libraries.Provision.Messages.{AnonymousToken, SignedToken}
use vpn_libraries.Provision.Responses.{AuthAndSignResponse, auth_and_sign_from_proto}
use vpn_libraries.Provision.Auth.{
  Auth, AuthEnv, Platform, new_auth, start, authenticate, authenticate_with, record_oauth_latency,
  send, fail, raise_auth_failure_notification,
}
use vpn_libraries.Provision.Auth.Outcome.{
  fails, faults, succeeds, ComesTo, fail-ComesTo, succeed-ComesTo, if-ComesTo, else-ComesTo,
}
use vpn_libraries.Provision.Auth.Tokens.{
  anonymous_tokens, record_zinc_latency, processed, unblind_anonymous_token, unblinded_with,
  auth_decoded, handle_auth_and_sign_response, succeed,
}

module _ {J C X V B : Type 0} (env : AuthEnv J C X V B) where
  unblinded-ComesTo :
      (u : StatusOr (List SignedToken)) (r : Bool) (a : Auth C V B)
      → ComesTo env a (unblinded_with env (some u) r a)
  unfolding unblinded_with fail raise_auth_failure_notification succeed
  unblinded-ComesTo (error s) r a = fails s refl refl
  unblinded-ComesTo (value t) r a = succeeds r refl refl

  null-ComesTo :
      (c : Option C) (t : StatusOr (List AnonymousToken)) (r : Bool) (a : Auth C V B)
      → a.bssa_client ≡ c
      → env.config.public_metadata_enabled ≡ true
      → ComesTo env a (unblinded_with env (processed env c t) r a)
  unfolding processed unblinded_with
  null-ComesTo c (error s) r a e m = unblinded-ComesTo (error s) r a
  null-ComesTo none (value t) r a e m = faults e m refl
  null-ComesTo (some c) (value t) r a e m = unblinded-ComesTo _ r a

  -- A condition under what is done with its result.
  if_unblinded :
      (c : Bool) (x y : Option (StatusOr (List SignedToken))) (r : Bool) (a : Auth C V B)
      → ComesTo env a (unblinded_with env x r a)
      → ComesTo env a (unblinded_with env y r a)
      → ComesTo env a (unblinded_with env (if c then x else y) r a)
  if_unblinded true x y r a h k = h
  if_unblinded false x y r a h k = k

  unblind-ComesTo :
      (r : Bool) (a : Auth C V B)
      → env.config.public_metadata_enabled ≡ true
      → ComesTo env a (unblinded_with env (unblind_anonymous_token env a) r a)
  unfolding unblind_anonymous_token
  unblind-ComesTo r a m =
      let signatures = a.auth_and_sign_response.blinded_token_signatures in
      let tokens = anonymous_tokens env signatures a.at_sign_request in
      let disabled =
        error_status internal "AT token unblinding only possible when public metadata is enabled" in
      let miscounted =
        error_status internal "Response signature size does not equal request tokens size" in
      let counts = not (length signatures == length a.at_sign_request) in
      let last = processed env a.bssa_client tokens in
      if_unblinded (not env.config.public_metadata_enabled) (some (error disabled))
        (if counts then some (error miscounted) else last) r a
        (unblinded-ComesTo (error disabled) r a)
        (if_unblinded counts (some (error miscounted)) last r a
          (unblinded-ComesTo (error miscounted) r a) (null-ComesTo a.bssa_client tokens r a refl m))

  where_enabled :
      (a : Auth C V B) (c : Bool) (x y : Auth C V B)
      → (c ≡ true → ComesTo env a x)
      → ComesTo env a y
      → ComesTo env a (if c then x else y)
  where_enabled a true x y h k = h refl
  where_enabled a false x y h k = k

  decoded-ComesTo :
      (d : StatusOr AuthAndSignResponse) (r : Bool) (a : Auth C V B)
      → ComesTo env a (auth_decoded env d r a)
  unfolding auth_decoded
  decoded-ComesTo (error s) r a = fail-ComesTo env s a
  decoded-ComesTo (value d) r a =
      let a1 = record a { auth_and_sign_response = d } in
      where_enabled a env.config.public_metadata_enabled _ _ (λ m. unblind-ComesTo r a1 m)
        (succeed-ComesTo env r a1)

  pub handle_auth_and_sign-ComesTo :
      (p : Platform) (r : Bool) (response : HttpResponse) (a : Auth C V B)
      → a.stopped ≡ false
      → ComesTo env a (handle_auth_and_sign_response env p r response a)
  unfolding handle_auth_and_sign_response record_zinc_latency
  handle_auth_and_sign-ComesTo p r response a h =
      let a1 = record_zinc_latency p.now a in
      else-ComesTo env a a1.stopped _ _ h (
        if-ComesTo env a (not (eqb_ℤ response.status_code (pos 200))) _ _ (fail-ComesTo env _ a1)
          (decoded-ComesTo _ r a1))

  -- Where public metadata is enabled but blind signing is not, Start asks for AuthAndSign at once; the
  -- first response that is accepted and holds no signatures makes the source follow a null pointer.
  pub unblinded_start_faults :
      (p p' : Platform) (k : Bool) (random : List ℕ) (token : Text) (response : HttpResponse)
      (r : AuthAndSignResponse)
      → env.config.public_metadata_enabled ≡ true
      → env.config.enable_blind_signing ≡ false
      → p.oauth_token ≡ value token
      → response.status_code ≡ pos 200
      → auth_and_sign_from_proto env.json env.parse_auth_and_sign response env.config true ≡ value r
      → r.blinded_token_signatures ≡ []
      → let asked = start env p k (new_auth random) in
        (length asked.http_fetcher.infos ≡ 1)
        × ((handle_auth_and_sign_response env p' k response asked).faulted ≡ true)
  unfolding handle_auth_and_sign_response record_zinc_latency auth_decoded unblinded_with
      unblind_anonymous_token processed anonymous_tokens start authenticate authenticate_with send
      record_oauth_latency new_auth post_json_async new_http_fetcher
  unblinded_start_faults p p' k random token response r m b t c d s = ground arith
