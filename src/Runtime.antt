-- ===== src/Runtime.antt =====
-- What the components of krypton/ share: networks and notifications, the notification thread with
-- what was posted on it, the timer manager and the tunnel manager.
use vpn_libraries.Prelude.{ℕ, Bool, Option, String, List, ◌∷◌}
use vpn_libraries.Prelude.Int.{ℤ}
use vpn_libraries.Utils.Status.{Status, PpnStatusDetails, StatusOr, value, error}
use vpn_libraries.Utils.TimeUtil.{ProtoDuration}
use vpn_libraries.Timer.{TimerManager}
use vpn_libraries.Tunnel.{TunnelManager}

pub data NetworkType : Type 0 where
  unknown_type wifi cellular ethernet : NetworkType

pub data AddressFamily : Type 0 where
  v4 v6 v4v6 : AddressFamily

pub record NetworkInfo : Type 0 where
  pub network_type : Option NetworkType
  pub is_metered : Option Bool
  pub address_family : Option AddressFamily
  pub mtu : Option ℕ
  pub network_id : Option ℤ

-- krypton/proto/connection_status.proto; an optional field that is always set is its value.
pub record DisconnectionStatus : Type 0 where
  pub code : ℕ
  pub message : String
  pub is_blocking_traffic : Bool
  pub has_available_networks : Bool
  pub ppn_status_details : PpnStatusDetails

pub record ReconnectionStatus : Type 0 where
  pub is_blocking_traffic : Bool
  pub has_available_networks : Option Bool
  pub time_to_reconnect : ProtoDuration

pub record ResumeStatus : Type 0 where
  pub is_blocking_traffic : Bool
  pub has_available_networks : Bool

-- krypton/pal/krypton_notification_interface.h: what the application is told.
pub data Notification : Type 0 where
  initialized connected control_plane_connected : Notification
  connecting : Bool → Notification
  disconnected : DisconnectionStatus → Notification
  network_disconnected : NetworkInfo → Status → Notification
  permanent_failure : Status → Notification
  waiting_to_reconnect : ReconnectionStatus → Notification
  snoozed : ProtoDuration → Notification
  resumed : ResumeStatus → Notification

-- Session::NotificationInterface: what a session tells the reconnector.
pub data SessionNotification : Type 0 where
  control_plane_connecting control_plane_connected control_plane_failure : SessionNotification
  datapath_connecting datapath_connected : SessionNotification
  session_error permanent_failure : Status → SessionNotification
  datapath_disconnected : NetworkInfo → Status → SessionNotification

-- A closure on the notification thread calls one or the other.
pub data Posted : Type 0 where
  to_app : Notification → Posted
  to_reconnector : SessionNotification → Posted

-- The callbacks that wait in the timer manager, the reconnector's and the session's.
pub data SessionTimer : Type 0 where
  rekey datapath_reattempt datapath_connecting : SessionTimer

pub data TimerCb : Type 0 where
  reconnect_cb session_connection_cb snooze_cb : TimerCb
  session_timer : SessionTimer → TimerCb

-- `posted` holds what was posted on the notification thread, newest first.
pub record Shared : Type 0 where
  pub tunnel : TunnelManager
  pub timers : TimerManager TimerCb
  pub posted : List Posted

abbrev pub post : Posted → Shared → Shared
post p s = record s { posted = p ∷ s.posted }

abbrev pub value_or {ℓ} : {A : Type ℓ} → StatusOr A → A → A
value_or (value a) old = a
value_or (error s) old = old
