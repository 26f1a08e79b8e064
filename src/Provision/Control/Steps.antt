-- ===== src/Provision/Control/Steps.antt =====
-- Everything that happens to a Provision of krypton/provision.cc: the calls of the session, the steps of
-- the fetchers' threads, and the steps of the loopers of Auth, EgressManager and Provision.
pub mod Flagged
pub mod Stopped
use vpn_libraries.Prelude.{ℕ, Bool, true, false, Option, none, some, List, [], ◌∷◌}
use vpn_libraries.Prelude.Int.{ℤ}
use vpn_libraries.Utils.Status.{HttpResponse}
use vpn_libraries.HttpFetcher.{begin, post_json_async_internal}
use vpn_libraries.Provision.EgressRequest.{SessionKeys}
use vpn_libraries.Provision.Auth.{Auth, Platform}
use vpn_libraries.Provision.Egress.{EgressManager}
use vpn_libraries.Provision.Control.{Provision, ProvisionEnv, on_auth, on_egress, run_looper}
use vpn_libraries.Provision.Control.Dataplane.{ppn_dataplane_request}
use vpn_libraries.Provision.Auth as Authentication
use vpn_libraries.Provision.Egress
use vpn_libraries.Provision.Auth.Handlers

pub data Event : Type 0 where
  starts rekeys : Platform → Event
  stops : Event
  sends : ℤ → Bool → Option SessionKeys → Event
  auth_requests egress_requests : Event
  auth_answers egress_answers : HttpResponse → Event
  auth_runs : Platform → Event
  egress_runs : ℤ → Event
  looper_runs : Event

module _ {J C X V B : Type 0} (env : ProvisionEnv J C X V B) where
  unfoldable pub start : Platform → Provision C V B → Provision C V B
  unfolding on_auth Authentication.start
  start p v = on_auth (Authentication.start env.auth_env p false) v

  unfoldable pub rekey : Platform → Provision C V B → Provision C V B
  unfolding on_auth Authentication.start
  rekey p v = on_auth (Authentication.start env.auth_env p true) v

  unfoldable pub stop : Provision C V B → Provision C V B
  unfolding on_auth on_egress Authentication.stop Egress.stop
  stop v = on_egress Egress.stop (on_auth Authentication.stop v)

  unfoldable pub send_add_egress : ℤ → Bool → Option SessionKeys → Provision C V B → Provision C V B
  unfolding ppn_dataplane_request
  send_add_egress now is_rekey key_material v =
      ppn_dataplane_request env now is_rekey key_material v

  -- The thread of a fetcher takes its next request, or gets the response to the one that runs.
  abbrev fetch_auth : Option HttpResponse → Auth C V B → Auth C V B
  fetch_auth none a = record a { http_fetcher = begin a.http_fetcher }
  fetch_auth (some r) a = record a { http_fetcher = post_json_async_internal r a.http_fetcher }

  abbrev fetch_egress : Option HttpResponse → EgressManager → EgressManager
  fetch_egress none e = record e { http_fetcher = begin e.http_fetcher }
  fetch_egress (some r) e = record e { http_fetcher = post_json_async_internal r e.http_fetcher }

  unfoldable pub handle : Event → Provision C V B → Provision C V B
  unfolding start rekey stop send_add_egress on_auth on_egress run_looper Handlers.run_callback
      Egress.run_callback
  handle (starts p) v = start p v
  handle (rekeys p) v = rekey p v
  handle stops v = stop v
  handle (sends now is_rekey key_material) v = send_add_egress now is_rekey key_material v
  handle auth_requests v = on_auth (fetch_auth none) v
  handle (auth_answers r) v = on_auth (fetch_auth (some r)) v
  handle egress_requests v = on_egress (fetch_egress none) v
  handle (egress_answers r) v = on_egress (fetch_egress (some r)) v
  handle (auth_runs p) v = on_auth (Handlers.run_callback env.auth_env p) v
  handle (egress_runs now) v =
      on_egress
        (Egress.run_callback env.auth_env.config env.auth_env.json env.parse_time
          env.auth_env.parse_details env.auth_env.rsa.base64_escape now)
        v
  handle looper_runs v = run_looper v

  -- A history, the first event first.
  unfoldable pub run : List Event → Provision C V B → Provision C V B
  unfolding handle
  run [] v = v
  run (e ∷ es) v = run es (handle e v)
