-- ===== src/Provision/Auth/Outcome.antt =====
-- What a handler of krypton/auth.cc can come to on a response.
use vpn_libraries.Prelude.{
  ◌≡◌, refl, Bool, true, false, Option, none, some, List, [], ◌∷◌, ◌++◌, if◌then◌else◌, subst, sym,
}
use vpn_libraries.Prelude.Text.{Text}
use vpn_libraries.Utils.Status.{Status, HttpResponse, error}
use vpn_libraries.HttpFetcher.{HttpFetcher}
use vpn_libraries.Provision.Messages.{PlaintextMessage}
use vpn_libraries.Provision.Requests.{HttpRequest}
use vpn_libraries.Provision.Auth.{
  Auth, AuthEnv, AuthCallback, AuthNotification, auth_failure, auth_successful, Continuation,
  unauthenticated, raise_auth_failure_notification, fail,
}
use vpn_libraries.Provision.Auth.Tokens.{succeed}

-- A call of the token library, or of EVP_Digest, that fails.
pub data Refusal {J C X V B : Type 0} (env : AuthEnv J C X V B) : Type 0 where
  client_refused : (key : Text) (s : Status) → env.create_bssa_client key ≡ error s → Refusal env
  request_refused :
      (c : C) (m : PlaintextMessage) (s : Status) → env.create_request c m ≡ error s → Refusal env
  digest_refused : (input : Text) → env.evp_sha256 input ≡ none → Refusal env

abbrev pub Fetcher : Type 0
Fetcher = HttpFetcher AuthCallback HttpRequest HttpResponse

-- What was posted and asked before, and the client of the token library, against the state after: one
-- notification of a failure; one of success; neither, but the thread goes on behind the mutex; neither,
-- after a call that failed; or a call of a client that is null.
pub data Outcome {J C X V B : Type 0} (env : AuthEnv J C X V B) (posted : List AuthNotification)
    (fetcher : Fetcher) (client : Option C) (b : Auth C V B) : Type 0 where
  fails :
      (s : Status)
      → b.posted ≡ posted ++ auth_failure s ∷ []
      → b.http_fetcher ≡ fetcher
      → Outcome env posted fetcher client b
  succeeds :
      (is_rekey : Bool)
      → b.posted ≡ posted ++ auth_successful is_rekey ∷ []
      → b.http_fetcher ≡ fetcher
      → Outcome env posted fetcher client b
  goes_on :
      (k : Continuation)
      → b.continuation ≡ some k
      → b.posted ≡ posted
      → b.http_fetcher ≡ fetcher
      → Outcome env posted fetcher client b
  gives_up :
      Refusal env
      → b.state ≡ unauthenticated
      → b.posted ≡ posted
      → b.http_fetcher ≡ fetcher
      → Outcome env posted fetcher client b
  faults :
      client ≡ none
      → env.config.public_metadata_enabled ≡ true
      → b.faulted ≡ true
      → Outcome env posted fetcher client b

module _ {J C X V B : Type 0} (env : AuthEnv J C X V B) where
  -- The outcome of a step from one state to another.
  abbrev pub ComesTo : Auth C V B → Auth C V B → Type 0
  ComesTo a b = Outcome env a.posted a.http_fetcher a.bssa_client b

  pub fail-ComesTo : (s : Status) (a : Auth C V B) → ComesTo a (fail s a)
  unfolding fail raise_auth_failure_notification
  fail-ComesTo s a = fails s refl refl

  pub succeed-ComesTo : (r : Bool) (a : Auth C V B) → ComesTo a (succeed r a)
  unfolding succeed
  succeed-ComesTo r a = succeeds r refl refl

  -- A condition with an outcome on either side.
  pub if-ComesTo :
      (a : Auth C V B) (c : Bool) (x y : Auth C V B)
      → ComesTo a x
      → ComesTo a y
      → ComesTo a (if c then x else y)
  if-ComesTo a true x y h k = h
  if-ComesTo a false x y h k = k

  -- A condition that is known not to hold.
  pub else-ComesTo :
      (a : Auth C V B) (c : Bool) (x y : Auth C V B)
      → c ≡ false
      → ComesTo a y
      → ComesTo a (if c then x else y)
  else-ComesTo a c x y e h = subst (λ b. ComesTo a (if b then x else y)) (sym e) h
