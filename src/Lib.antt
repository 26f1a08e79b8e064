-- ===== src/Lib.antt =====
-- A model of Krypton, the core of a VPN client (krypton/ of the repository), and what it guarantees.
--
-- Krypton keeps a tunnel of the platform up and, behind it, a session with an egress server. The
-- reconnector decides when there is a session; the session manager makes and ends it; a session runs
-- its provisioning, its keys and its datapath; the tunnel manager decides when the platform's tunnel is
-- opened and closed, and so whether traffic may pass outside the VPN (Safe Disconnect). They share a
-- timer manager and a notification thread, over which a session reports to the reconnector.
--
-- Which file models what:
-- Utils/Status is of krypton/utils/status.cc over absl::Status (GetStatusForHttpStatus,
--   GetStatusForHttpResponse, IsPermanentError, GetPpnStatusDetails, SetPpnStatusDetails).
-- Utils/TimeUtil is of krypton/utils/time_util.cc (ToProtoDuration, DurationFromProto, RecordLatency).
-- Utils/IpRange is of krypton/utils/ip_range.cc (ParseHostPort, IPRange::Parse, HostPortString).
-- Utils/ProtoComparison is of krypton/utils/proto_comparison.cc (TunFdDataEquiv).
-- Timer is of krypton/timer_manager.cc. Tunnel is of krypton/tunnel_manager.cc.
-- Runtime has the messages of krypton/proto and krypton/pal that travel between the components, and
--   `Shared`, what all components reach: the tunnel manager, the timer manager, and what was posted on
--   the notification thread.
-- Selector is of krypton/datapath_address_selector.cc and krypton/endpoint.cc.
-- Reconnector is of krypton/reconnector.cc, as World (state), Timers (private methods), Handlers and
--   Snooze (its methods, and `Event`, `step` and `run` over them).
-- Session is of krypton/session.cc, as Model (state), Parts (timers, states, notifications), TunFdData
--   and Tunnels (CreateTunnel to StartDatapath), Control (start to provisioning), Handlers (datapath,
--   networks, timers) and Mtu.
-- SessionManager is of krypton/session_manager.cc.
-- Utils/Looper is of krypton/utils/looper.cc, the thread of every component, as a machine of steps.
-- Utils/Json is of krypton/utils/json_util.cc. HttpFetcher is of krypton/http_fetcher.cc.
-- Provision is of what brings a session its keys and addresses: Messages (the protos), Requests and
--   Responses (auth_and_sign_request.cc, auth_and_sign_response.cc), EgressRequest and EgressResponse
--   (add_egress_request.cc, add_egress_response.cc), Crypto (crypto/auth_crypto.cc), Auth (auth.cc, with
--   its handlers in Tokens, InitialData and Handlers), Egress (egress_manager.cc), and Control
--   (provision.cc, with PpnDataplaneRequest in Dataplane and every interleaving in Steps).
-- Metadata is of common/cpp/public_metadata/serialize.cc and fingerprint.cc.
-- Datapath is of krypton/datapath/android_ipsec: MtuTracker (mtu_tracker.cc), HealthCheck
--   (health_check.cc), and Ipsec (ipsec_datapath.cc, with its calls of the VPN service in Network and its
--   notifications in Steps).
-- Krypton is of krypton/krypton.cc, where `run` interleaves the application's calls, the reconnector's
--   events and the session's events in any order.
-- Examples has runs at concrete inputs. Prelude has shared names, tests, lists, integers and texts.
--
-- How state and operations correspond: a class is a record with the fields of the source without their
-- trailing underscore; a method is a function from the state, and what it shares, to the same. A method
-- that holds its mutex from beginning to end is one step; threads are the order of the steps. Where a
-- handler of Auth releases its mutex and takes it again, it is two steps: the first leaves a
-- `continuation`, with which the thread goes on in its next step. A callback is a name of it (TimerCb,
-- SessionTimer, AuthCallback) which a dispatcher runs. LOG and the DCHECKs, which do nothing in a
-- release, are left out. absl::Now() is an argument.
--
-- Parameters: the platform's timer and VPN service, which may refuse any call; the datapath, the
-- provisioning, the key material and the responses of a session; inet_pton, StrSplit, SimpleAtoi and
-- StrCat of a number. Of Provision these are nlohmann::json (JsonLibrary), the RSA of Tink and BoringSSL
-- (RsaLibrary), the token library, SHA-256 and the parsers of protobuf (AuthEnv), OAuth (Platform), and
-- LookupDns (ProvisionEnv). An answer of a server, or of the VPN
-- service to the datapath, is an argument of the step that receives it. A
-- datapath's calls change the datapath only. The reconnector is proved over any session manager with the
-- laws of SessionManagerLaws, and SessionManager/KillSwitch proves these laws of the session manager of
-- the source.
--
-- Bounds: a timer id is an int, kept as its 32 bits, where -1 is 2^32 - 1; IsFresh says that the
-- counter has not come round to it. Counters of type uint32_t are kept modulo 2^32; those of type int
-- are numbers, as their overflow is undefined. Durations are whole nanoseconds without the saturation
-- of absl. No function takes fuel: every loop of the source that is modelled runs over a list.
--
-- An HTTP fetcher answers in the order of its requests. Where the source would follow a null pointer,
-- `faulted` is set, and where it would throw, the outcome is `thrown` and `exception` is set.
--
-- Not modelled: the text of JSON, which is the library's; the keys of IPsec and of a session, and the
-- extensions of public metadata, which are calls of BoringSSL; the sockets, tunnels and packets below the
-- IPsec datapath; URLs; and the bindings for Java, Android, iOS and the desktop. Session still takes its
-- provisioning and its datapath as parameters.
pub mod Prelude
pub mod Utils
pub mod Timer
pub mod Tunnel
pub mod Runtime
pub mod Selector
pub mod Reconnector
pub mod Session
pub mod SessionManager
pub mod HttpFetcher
pub mod Metadata
pub mod Provision
pub mod Datapath
pub mod Krypton
pub mod Examples
