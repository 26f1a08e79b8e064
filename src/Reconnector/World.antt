-- ===== src/Reconnector/World.antt =====
-- The state of krypton/reconnector.h, and what it stands on. Counters of type int and int32_t are
-- numbers: their overflow is undefined in the source. Times are nanoseconds since the Unix epoch.
use vpn_libraries.Prelude.{ℕ, Bool, false, Option, none, List, []}
use vpn_libraries.Prelude.Int.{ℤ, pos}
use vpn_libraries.Utils.Status.{Status}
use vpn_libraries.Utils.TimeUtil.{ProtoDuration, Time, infinite_past}
use vpn_libraries.Timer.{TimerInterface, invalid_timer_id}
use vpn_libraries.Timer.Laws.{IsFresh}
use vpn_libraries.Tunnel.{VpnService}
use vpn_libraries.Tunnel.Safety.{IsBlocking}
use vpn_libraries.Runtime.{NetworkInfo, Shared, SessionTimer}

pub data State : Type 0 where
  initial waiting_for_session_establishment waiting_to_reconnect : State
  connected permanent_failure paused snoozed : State

pub record TelemetryData : Type 0 where
  pub control_plane_failures : ℕ
  pub data_plane_failures : ℕ
  pub session_restarts : ℕ
  pub data_plane_connecting_attempts : ℕ
  pub data_plane_connecting_successes : ℕ
  pub control_plane_connecting_attempts : ℕ
  pub control_plane_connecting_successes : ℕ
  pub data_plane_connecting_latencies : List ProtoDuration
  pub control_plane_success_latencies : List ProtoDuration
  pub control_plane_failure_latencies : List ProtoDuration

unfoldable pub new_telemetry_data : TelemetryData
new_telemetry_data = record {
  control_plane_failures = 0;
  data_plane_failures = 0;
  session_restarts = 0;
  data_plane_connecting_attempts = 0;
  data_plane_connecting_successes = 0;
  control_plane_connecting_attempts = 0;
  control_plane_connecting_successes = 0;
  data_plane_connecting_latencies = [];
  control_plane_success_latencies = [];
  control_plane_failure_latencies = [];
}

pub record Reconnector : Type 0 where
  pub state : State
  pub session_restart_counter : ℕ
  pub reconnector_timer_id : ℕ
  pub connection_deadline_timer_id : ℕ
  pub snooze_timer_id : ℕ
  pub active_network_info : Option NetworkInfo
  pub set_network_called : Bool
  pub successive_control_plane_failures : ℕ
  pub successive_datapath_failures : ℕ
  pub successive_session_errors : ℕ
  pub telemetry_data : TelemetryData
  pub data_plane_connecting_start_time : Time
  pub control_plane_connecting_start_time : Time
  pub snooze_end_time : ℤ

-- absl::Time's default is the epoch.
unfoldable pub new_reconnector : Reconnector
unfolding new_telemetry_data
new_reconnector = record {
  state = initial;
  session_restart_counter = 0;
  reconnector_timer_id = invalid_timer_id;
  connection_deadline_timer_id = invalid_timer_id;
  snooze_timer_id = invalid_timer_id;
  active_network_info = none;
  set_network_called = false;
  successive_control_plane_failures = 0;
  successive_datapath_failures = 0;
  successive_session_errors = 0;
  telemetry_data = new_telemetry_data;
  data_plane_connecting_start_time = infinite_past;
  control_plane_connecting_start_time = infinite_past;
  snooze_end_time = pos 0;
}

-- krypton/session_manager_interface.h: a session manager with a state `S` of its own. Its calls may
-- use the tunnel, the timers and the notification thread.
pub record SessionManagerInterface (S : Type 0) : Type 0 where
  pub establish : ℕ → Option NetworkInfo → S × Shared → S × Shared
  pub terminate : Bool → S × Shared → S × Shared
  pub set_network : NetworkInfo → S × Shared → (S × Shared) × Status
  pub timer_expired : SessionTimer → S × Shared → S × Shared

-- What the reconnector relies on: unless it is told to fail open, a session manager leaves a blocking
-- tunnel up, and when it terminates a session it leaves no id in use that the counter has not passed.
pub record SessionManagerLaws {S : Type 0} (m : SessionManagerInterface S) : Type 0 where
  pub establish-IsBlocking :
      (n : ℕ) (net : Option NetworkInfo) (s : S) (h : Shared)
      → IsBlocking h.tunnel
      → IsBlocking (m.establish n net (s, h)).1.tunnel
  pub terminate-IsBlocking :
      (s : S) (h : Shared) → IsBlocking h.tunnel → IsBlocking (m.terminate false (s, h)).1.tunnel
  pub set_network-IsBlocking :
      (net : NetworkInfo) (s : S) (h : Shared)
      → IsBlocking h.tunnel
      → IsBlocking (m.set_network net (s, h)).0.1.tunnel
  pub timer_expired-IsBlocking :
      (c : SessionTimer) (s : S) (h : Shared)
      → IsBlocking h.tunnel
      → IsBlocking (m.timer_expired c (s, h)).1.tunnel
  pub terminate-IsFresh :
      (force : Bool) (s : S) (h : Shared)
      → IsFresh h.timers
      → IsFresh (m.terminate force (s, h)).1.timers

-- The configuration that the reconnector reads, the platform, and the session manager.
pub record Env (S : Type 0) : Type 0 where
  pub initial_time_to_reconnect_msec : ℕ
  pub session_connection_deadline_msec : ℕ
  pub timer_interface : TimerInterface
  pub vpn_service : VpnService
  pub session_manager : SessionManagerInterface S

pub record World (S : Type 0) : Type 0 where
  pub reconnector : Reconnector
  pub session : S
  pub shared : Shared
