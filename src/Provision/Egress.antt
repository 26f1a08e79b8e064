-- ===== src/Provision/Egress.antt =====
-- krypton/egress_manager.h and egress_manager.cc: asking for an egress session, and keeping the answer.
pub mod Answers
use vpn_libraries.Prelude.{
  ℕ, Bool, true, false, Option, none, some, List, [], ◌∷◌, ◌++◌, not, ◌==◌, ltb, if◌then◌else◌,
  length, String,
}
use vpn_libraries.Prelude.Int.{ℤ, pos, eqb_ℤ}
use vpn_libraries.Prelude.Text.{Text}
use vpn_libraries.Utils.Status.{
  Status, StatusOr, value, error, ok_status, error_status, not_found, invalid_argument,
  HttpResponse, PpnStatusDetails, get_status_for_http_response,
}
use vpn_libraries.Utils.TimeUtil.{ProtoDuration, Time, at, infinite_past, since, to_proto_duration}
use vpn_libraries.Utils.Json.{JsonLibrary}
use vpn_libraries.HttpFetcher.{HttpFetcher, new_http_fetcher, post_json_async, cancel_async}
use vpn_libraries.Session.Model.{Protocol, default_protocol, ipsec, bridge, ike}
use vpn_libraries.Provision.Messages.{KryptonConfig}
use vpn_libraries.Provision.Requests.{HttpRequest}
use vpn_libraries.Provision.EgressRequest.{
  PpnDataplaneRequestParams, RequestDestination, brass, beryllium, add_egress_request,
}
use vpn_libraries.Provision.EgressResponse.{
  Outcome, returned, failed, thrown, AddEgressResponse, DataplaneResponse, ppn_dataplane_response,
  add_egress_from_proto,
}

pub data State : Type 0 where
  initialized egress_session_created egress_session_error : State

-- EgressManager::NotificationInterface.
pub data EgressNotification : Type 0 where
  egress_available : Bool → EgressNotification
  egress_unavailable : Status → EgressNotification

-- The callback of a request is bound to whether it is for a rekey. `posted` is what was posted for the
-- handler of the notifications, oldest first. `exception` is set where the parser throws.
pub record EgressManager : Type 0 where
  pub egress_node_response : Option AddEgressResponse
  pub stopped : Bool
  pub state : State
  pub latest_status : Status
  pub uplink_spi : ℕ
  pub latencies : List ProtoDuration
  pub request_time : Time
  pub http_fetcher : HttpFetcher Bool HttpRequest HttpResponse
  pub posted : List EgressNotification
  pub exception : Bool

-- The constructor. -1 as a uint32_t is 2^32 - 1.
unfoldable pub new_egress_manager : EgressManager
unfolding new_http_fetcher
new_egress_manager = record {
  egress_node_response = none;
  stopped = false;
  state = initialized;
  latest_status = ok_status;
  uplink_spi = 4294967295;
  latencies = [];
  request_time = infinite_past;
  http_fetcher = new_http_fetcher;
  posted = [];
  exception = false;
}

unfoldable pub stop : EgressManager → EgressManager
stop e = record e { stopped = true; http_fetcher = cancel_async e.http_fetcher }

details_or : Option AddEgressResponse → StatusOr AddEgressResponse
details_or none = error (error_status not_found "No Egress response found")
details_or (some r) = value r

unfoldable pub get_egress_session_details : EgressManager → StatusOr AddEgressResponse
unfolding details_or
get_egress_session_details e = details_or e.egress_node_response

unfoldable pub notify : EgressNotification → EgressManager → EgressManager
notify n e = record e { posted = e.posted ++ n ∷ [] }

-- SetState; an error is told with the latest status.
unfoldable pub set_state : State → EgressManager → EgressManager
unfolding notify
set_state egress_session_error e =
    notify (egress_unavailable e.latest_status) (record e { state = egress_session_error })
set_state egress_session_created e = record e { state = egress_session_created }
set_state initialized e = record e { state = initialized }

abbrev is_ike : Protocol → Bool
is_ike default_protocol = false
is_ike ipsec = false
is_ike bridge = false
is_ike ike = true

-- The status of SaveEgressDetails is only logged.
save_spi : StatusOr DataplaneResponse → EgressManager → EgressManager
save_spi (error s) e = e
save_spi (value r) e =
    if r.dataplane.uplink_spi == 0 then e else record e { uplink_spi = r.dataplane.uplink_spi }

unfoldable pub save_egress_details :
    KryptonConfig → AddEgressResponse → EgressManager → EgressManager
unfolding save_spi
save_egress_details config r e =
    if is_ike config.datapath_protocol then e else save_spi (ppn_dataplane_response r) e

abbrev latency_collection_limit : ℕ
latency_collection_limit = 5

abbrev collected : StatusOr ProtoDuration → List ProtoDuration → List ProtoDuration
collected (error s) latencies = latencies
collected (value d) latencies =
    if ltb (length latencies) latency_collection_limit then latencies ++ d ∷ [] else latencies

-- The latency of the request, whose time is forgotten in any case.
unfoldable pub record_latency : ℤ → EgressManager → EgressManager
unfolding to_proto_duration since
record_latency now e = record e {
  latencies = collected (to_proto_duration (since now e.request_time)) e.latencies;
  request_time = infinite_past;
}

module _ {J : Type 0} (config : KryptonConfig) (json : JsonLibrary J) (parse_time : Text → Option ℤ)
    (parse_details : String → Option PpnStatusDetails) (base64_escape : Text → Text) where
  created : Bool → AddEgressResponse → EgressManager → EgressManager
  unfolding save_egress_details set_state notify
  created is_rekey r e =
      let e1 =
        set_state egress_session_created
          (record e { latest_status = ok_status; egress_node_response = some r }) in
      notify (egress_available is_rekey) (if is_rekey then e1 else save_egress_details config r e1)

  unfoldable pub decoded : Outcome AddEgressResponse → Bool → EgressManager → EgressManager
  unfolding created set_state
  decoded thrown is_rekey e = record e { exception = true }
  decoded (failed s) is_rekey e = set_state egress_session_error (record e { latest_status = s })
  decoded (returned r) is_rekey e = created is_rekey r e

  unfoldable pub decode_add_egress_response :
      ℤ → Bool → HttpResponse → EgressManager → EgressManager
  unfolding decoded record_latency set_state
  decode_add_egress_response now is_rekey response e =
      let e1 = record_latency now e in
      let status =
        get_status_for_http_response parse_details response
          (some "AddEgressRequest failed with code ") in
      if e1.stopped
      then e1
      else if not (eqb_ℤ response.status_code (pos 200))
      then set_state egress_session_error (record e1 { latest_status = status })
      else decoded (add_egress_from_proto json parse_time response) is_rekey e1

  unfoldable pub get_egress_node_for_ppn_ip_sec :
      ℤ → PpnDataplaneRequestParams → EgressManager → EgressManager
  get_egress_node_for_ppn_ip_sec now params e =
      let destination = if config.public_metadata_enabled then beryllium else brass in
      let request =
        add_egress_request base64_escape config.api_key destination params config.brass_url in
      record e {
        request_time = at now;
        http_fetcher = post_json_async request params.is_rekey e.http_fetcher;
      }

  run_first : List (Bool × HttpResponse) → ℤ → EgressManager → EgressManager
  unfolding decode_add_egress_response
  run_first [] now e = e
  run_first ((is_rekey, response) ∷ rest) now e =
      decode_add_egress_response now is_rekey response
        (record e { http_fetcher = record e.http_fetcher { notification_thread = rest } })

  -- The thread of the egress manager runs the first callback that waits for it.
  unfoldable pub run_callback : ℤ → EgressManager → EgressManager
  unfolding run_first
  run_callback now e = run_first e.http_fetcher.notification_thread now e
