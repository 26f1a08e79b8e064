-- ===== src/Provision/Auth/Tokens.antt =====
-- Auth::HandleAuthAndSignResponse of krypton/auth.cc, and the unblinding of the tokens in it.
pub mod Answers
use vpn_libraries.Prelude.{
  ℕ, ◌+◌, ◌%◌, ◌^◌, Bool, true, Option, none, some, List, [], ◌∷◌, not, if◌then◌else◌, length, ◌==◌,
}
use vpn_libraries.Prelude.Int.{ℤ, pos, eqb_ℤ}
use vpn_libraries.Prelude.Text.{Text}
use vpn_libraries.Utils.Status.{
  StatusOr, value, error, error_status, internal, HttpResponse, get_status_for_http_response, ◌>>=◌,
}
use vpn_libraries.Utils.TimeUtil.{record_latency}
use vpn_libraries.Provision.Messages.{
  GetInitialDataResponse, BlindedToken, AnonymousToken, SignedToken, debug_all,
}
use vpn_libraries.Provision.Responses.{AuthAndSignResponse, auth_and_sign_from_proto}
use vpn_libraries.Provision.Auth.{
  Auth, AuthEnv, Platform, authenticated, auth_successful, notify, fail,
}

abbrev pub enforces_suffix : Option GetInitialDataResponse → Bool
enforces_suffix none = true
enforces_suffix (some r) = not (eqb_ℤ r.public_metadata.debug_mode debug_all)

abbrev uint32_mod : ℕ
uint32_mod = 2 ^ 32

module _ {C V B : Type 0} where
  unfoldable pub record_zinc_latency : ℤ → Auth C V B → Auth C V B
  unfolding record_latency
  record_zinc_latency now a =
      let (start, latencies) = record_latency now a.zinc_request_time a.zinc_latencies in
      record a { zinc_request_time = start; zinc_latencies = latencies }

  unfoldable pub succeed : Bool → Auth C V B → Auth C V B
  succeed is_rekey a = notify (auth_successful is_rekey) (record a { state = authenticated })

module _ {J C X V B : Type 0} (env : AuthEnv J C X V B) where
  -- One token of the response for each signature and the token that was sent at its place.
  unescaped : Option Text → BlindedToken → StatusOr AnonymousToken
  unescaped none b = error (error_status internal "Failed to unescape blinded token signature")
  unescaped (some s) b =
      value (record { blinded = b; serialized_token = s; do_not_use_rsa_public_exponent = true })

  anonymous_tokens : List Text → List BlindedToken → StatusOr (List AnonymousToken)
  unfolding unescaped
  anonymous_tokens [] bs = value []
  anonymous_tokens (s ∷ ss) [] = value []
  anonymous_tokens (s ∷ ss) (b ∷ bs) =
      let rest = anonymous_tokens ss bs in
      unescaped (env.json.base64_unescape s) b >>= λ t. rest >>= λ ts. value (t ∷ ts)

  checked_count : ℕ → List SignedToken → StatusOr (List SignedToken)
  checked_count n tokens =
      if length tokens == n
      then value tokens
      else error
          (error_status internal "ProcessResponse did not output the right number of signed tokens")

  -- ProcessResponse of the client, which is null where none was created.
  processed : Option C → StatusOr (List AnonymousToken) → Option (StatusOr (List SignedToken))
  unfolding checked_count
  processed client (error s) = some (error s)
  processed none (value tokens) = none
  processed (some client) (value tokens) =
      some (env.process_response client tokens >>= checked_count (length tokens))

  -- `none` where a null pointer is followed.
  unfoldable pub unblind_anonymous_token : Auth C V B → Option (StatusOr (List SignedToken))
  unfolding anonymous_tokens processed
  unblind_anonymous_token a =
      let signatures = a.auth_and_sign_response.blinded_token_signatures in
      let tokens = anonymous_tokens signatures a.at_sign_request in
      if not env.config.public_metadata_enabled
      then some (
          error (
            error_status internal
              "AT token unblinding only possible when public metadata is enabled"))
      else if not (length signatures == length a.at_sign_request)
      then some (
          error
            (error_status internal "Response signature size does not equal request tokens size"))
      else processed a.bssa_client tokens

  unblinded_with : Option (StatusOr (List SignedToken)) → Bool → Auth C V B → Auth C V B
  unfolding succeed fail
  unblinded_with none is_rekey a = record a { faulted = true }
  unblinded_with (some (error s)) is_rekey a =
      let a1 = fail s (record a { signed_tokens = error s }) in
      record a1 { token_unblind_failure_count = (a1.token_unblind_failure_count + 1) % uint32_mod }
  unblinded_with (some (value tokens)) is_rekey a =
      succeed is_rekey (record a { signed_tokens = value tokens })

  auth_decoded : StatusOr AuthAndSignResponse → Bool → Auth C V B → Auth C V B
  unfolding unblinded_with succeed fail unblind_anonymous_token
  auth_decoded (error s) is_rekey a = fail s a
  auth_decoded (value r) is_rekey a =
      let a1 = record a { auth_and_sign_response = r } in
      if env.config.public_metadata_enabled
      then unblinded_with (unblind_anonymous_token a1) is_rekey a1
      else succeed is_rekey a1

  unfoldable pub handle_auth_and_sign_response :
      Platform → Bool → HttpResponse → Auth C V B → Auth C V B
  unfolding auth_decoded record_zinc_latency fail
  handle_auth_and_sign_response p is_rekey response a =
      let a1 = record_zinc_latency p.now a in
      let enforce_copper_suffix = enforces_suffix a1.get_initial_data_response in
      let decoded =
        auth_and_sign_from_proto env.json env.parse_auth_and_sign response env.config
          enforce_copper_suffix in
      if a1.stopped
      then a1
      else if not (eqb_ℤ response.status_code (pos 200))
      then fail (get_status_for_http_response env.parse_details response none) a1
      else auth_decoded decoded is_rekey a1
