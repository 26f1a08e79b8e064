-- ===== src/Provision/Auth/Answers.antt =====
-- That krypton/auth.cc goes on: a call, and what a server answers, is followed by a request or by a
-- notification.
use vpn_libraries.Prelude.{
  ◌≡◌, refl, ap, ◌⊎◌, inl, inr, Bool, true, false, Option, none, some, [], ◌∷◌, ◌++◌, if◌then◌else◌,
}
use vpn_libraries.Prelude.Text.{Text}
use vpn_libraries.Utils.Status.{Status, StatusOr, value, error}
use vpn_libraries.HttpFetcher.{post_json_async}
use vpn_libraries.Provision.Requests.{HttpRequest}
use vpn_libraries.Provision.Crypto.{AuthCrypto, new_auth_crypto}
use vpn_libraries.Provision.Auth.{
  Auth, AuthEnv, Platform, AuthCallback, auth_failure, raise_auth_failure_notification, fail, send,
  record_oauth_latency, request_key_for_blind_signing, initial_data_with, request_for_initial_data,
  authenticate_with, authenticate_attested, authenticate, start,
}

module _ {C V B : Type 0} where
  -- One notification of a failure, and no request.
  abbrev pub Fails : Auth C V B → Auth C V B → Type 0
  Fails a b =
      (s : Status) × ((b.posted ≡ a.posted ++ auth_failure s ∷ [])
        × (b.http_fetcher ≡ a.http_fetcher))

  -- One request, for the callback that it names, and no notification.
  abbrev pub Asks : Auth C V B → Auth C V B → Type 0
  Asks a b =
      (c : AuthCallback) × ((b.posted ≡ a.posted)
        × (b.http_fetcher.infos
            ≡ a.http_fetcher.infos ++ record { cancelled = false; callback = some c } ∷ []))

  -- One of the two, with the other flags as they were.
  unfoldable pub Tries : Auth C V B → Auth C V B → Type 0
  Tries a b = (Fails a b ⊎ Asks a b) × (b.stopped ≡ a.stopped) × (b.continuation ≡ a.continuation)

  pub fail-Fails : (s : Status) (a : Auth C V B) → Fails a (fail s a)
  unfolding fail raise_auth_failure_notification
  fail-Fails s a = (s, (refl, refl))

  pub fail-Tries : (s : Status) (a : Auth C V B) → Tries a (fail s a)
  unfolding Tries fail raise_auth_failure_notification
  fail-Tries s a = (inl (fail-Fails s a), refl, refl)

  -- What is sent from a state that differs in other members.
  pub send-Tries :
      (a : Auth C V B) (q : HttpRequest) (c : AuthCallback) (b : Auth C V B)
      → b.posted ≡ a.posted
      → b.http_fetcher ≡ a.http_fetcher
      → b.stopped ≡ a.stopped
      → b.continuation ≡ a.continuation
      → Tries a (send q c b)
  unfolding Tries send post_json_async
  send-Tries a q c b p f s k = (
    inr (c, (p, ap (λ g. g.infos ++ record { cancelled = false; callback = some c } ∷ []) f)),
    s,
    k,
  )

  -- New key material changes nothing of it.
  keyed-Tries :
      (key : AuthCrypto V B) (a b : Auth C V B)
      → Tries (record a { key_material = key }) b
      → Tries a b
  unfolding Tries
  keyed-Tries key a b h = h

  pub if-Tries :
      (a : Auth C V B) (c : Bool) (x y : Auth C V B)
      → Tries a x
      → Tries a y
      → Tries a (if c then x else y)
  if-Tries a true x y h k = h
  if-Tries a false x y h k = k

module _ {J C X V B : Type 0} (env : AuthEnv J C X V B) where
  authenticate_with-Tries :
      (t : StatusOr Text) (n : Option Text) (p : Platform) (r : Bool) (a : Auth C V B)
      → Tries a (authenticate_with env t n p r a)
  unfolding authenticate_with record_oauth_latency
  authenticate_with-Tries (error s) n p r a = fail-Tries _ a
  authenticate_with-Tries (value t) n p r a = send-Tries a _ _ _ refl refl refl refl

  attested-Tries :
      (t : StatusOr Text) (p : Platform) (r : Bool) (a : Auth C V B)
      → Tries a (authenticate_attested env t p r a)
  unfolding authenticate_attested
  attested-Tries (error s) p r a = fail-Tries _ a
  attested-Tries (value t) p r a = authenticate_with-Tries p.oauth_token (some t) p r a

  pub authenticate-Tries :
      (p : Platform) (r : Bool) (n : Option Text) (a : Auth C V B)
      → Tries a (authenticate env p r n a)
  unfolding authenticate
  authenticate-Tries p r none a = authenticate_with-Tries p.oauth_token none p r a
  authenticate-Tries p r (some n) a = attested-Tries (p.attestation_data n) p r a

  request_for_initial_data-Tries :
      (t : StatusOr Text) (p : Platform) (r : Bool) (a : Auth C V B)
      → Tries a (initial_data_with env t p r a)
  unfolding initial_data_with record_oauth_latency
  request_for_initial_data-Tries (error s) p r a = fail-Tries _ a
  request_for_initial_data-Tries (value t) p r a = send-Tries a _ _ _ refl refl refl refl

  request_key-Tries :
      (p : Platform) (r : Bool) (a : Auth C V B) → Tries a (request_key_for_blind_signing env p r a)
  unfolding request_key_for_blind_signing
  request_key-Tries p r a = send-Tries a _ _ _ refl refl refl refl

  start-Tries : (p : Platform) (k : Bool) (a : Auth C V B) → Tries a (start env p k a)
  unfolding start request_for_initial_data
  start-Tries p k a =
      let a1 = record a { key_material = new_auth_crypto p.random } in
      keyed-Tries (new_auth_crypto p.random) a _ (
        if-Tries a1 env.config.enable_blind_signing _ _
          (if-Tries a1 env.config.public_metadata_enabled _ _
            (request_for_initial_data-Tries p.oauth_token p k a1) (request_key-Tries p k a1))
          (authenticate-Tries p k none a1))

  -- Start, whatever the configuration and the answers of the platform, either posts one notification of a
  -- failure and sends no request, or sends one request and posts nothing.
  pub start_answers :
      (p : Platform) (is_rekey : Bool) (a : Auth C V B)
      → let b = start env p is_rekey a in Fails a b ⊎ Asks a b
  unfolding Tries
  start_answers p is_rekey a = (start-Tries p is_rekey a).0
