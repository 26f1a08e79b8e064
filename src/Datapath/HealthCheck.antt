-- ===== src/Datapath/HealthCheck.antt =====
-- krypton/datapath/android_ipsec/health_check.cc: a connection that is tried at intervals. The flags that
-- cancel a timer's closure are shared objects, kept in a store; the resolver and the sockets are
-- parameters of the step that uses them.
use vpn_libraries.Prelude.{
  ℕ, suc, zero, ◌+◌, ◌%◌, ◌^◌, Bool, true, false, Option, none, some, List, [], ◌∷◌, ◌++◌, ◌==◌,
  if◌then◌else◌, length, get_elem?,
}
use vpn_libraries.Prelude.Int.{ℤ, ltb_ℤ, pos}
use vpn_libraries.Prelude.Text.{Text, is_empty}
use vpn_libraries.Utils.Status.{
  Status, StatusOr, value, error, error_status, ok_status, internal, is_ok, ◌>>=◌,
}
use vpn_libraries.Utils.TimeUtil.{ProtoDuration, duration_from_proto}
use vpn_libraries.Utils.IpRange.{NetLibrary, IpRange, parse}
use vpn_libraries.Timer.{
  TimerManager, TimerInterface, start_timer, cancel_timer, timer_expiry, invalid_timer_id,
}

-- HealthCheck::NotificationInterface.
pub data HealthNotification : Type 0 where
  health_check_starting health_check_succeeded : HealthNotification
  health_check_failed : Status → HealthNotification

-- What the constructor reads of KryptonConfig.
pub record HealthConfig : Type 0 where
  pub periodic_health_check_enabled : Bool
  pub periodic_health_check_duration : Option ProtoDuration
  pub periodic_health_check_url : Text
  pub periodic_health_check_port : ℕ

pub record HealthCheckDebugInfo : Type 0 where
  pub health_check_successful : Bool
  pub network_switches_since_health_check : ℕ

-- A timer's callback, and the closure that it posts, carry the number of their flag. `looper` are the
-- closures that wait, and `posted` the notifications, oldest first.
pub record HealthCheck : Type 0 where
  pub enabled : Bool
  pub duration : ℤ
  pub url : Text
  pub port : ℕ
  pub health_check_timer_id : ℕ
  pub flags : List Bool
  pub health_check_cancelled : Option ℕ
  pub network_switches_since_health_check : ℕ
  pub health_check_info : List HealthCheckDebugInfo
  pub timers : TimerManager ℕ
  pub looper : List ℕ
  pub posted : List HealthNotification

configured : StatusOr ℤ → HealthConfig → HealthCheck → HealthCheck
configured (error s) config h = h
configured (value d) config h = record h {
  url = config.periodic_health_check_url;
  port = config.periodic_health_check_port;
  duration = d;
  enabled = true;
}

configure_with : Option ProtoDuration → HealthConfig → HealthCheck → HealthCheck
unfolding configured
configure_with none config h = h
configure_with (some d) config h =
    if is_empty config.periodic_health_check_url
    then h
    else configured (duration_from_proto d) config h

unfoldable pub configure_health_check : HealthConfig → HealthCheck → HealthCheck
unfolding configure_with
configure_health_check config h =
    if config.periodic_health_check_enabled
    then configure_with config.periodic_health_check_duration config h
    else h

-- The constructor, over the timer manager that it is given.
unfoldable pub new_health_check : HealthConfig → TimerManager ℕ → HealthCheck
unfolding configure_health_check
new_health_check config timers = configure_health_check config (record {
  enabled = false;
  duration = pos 0;
  url = [];
  port = 0;
  health_check_timer_id = invalid_timer_id;
  flags = [];
  health_check_cancelled = none;
  network_switches_since_health_check = 0;
  health_check_info = [];
  timers = timers;
  looper = [];
  posted = [];
})

-- *health_check_cancelled_ = true.
unfoldable pub set_flag : ℕ → List Bool → List Bool
set_flag i [] = []
set_flag zero (b ∷ bs) = true ∷ bs
set_flag (suc i) (b ∷ bs) = b ∷ set_flag i bs

set_flag_at : Option ℕ → List Bool → List Bool
unfolding set_flag
set_flag_at none flags = flags
set_flag_at (some i) flags = set_flag i flags

unfoldable pub cancel_health_check_timer : HealthCheck → HealthCheck
unfolding set_flag_at cancel_timer
cancel_health_check_timer h =
    let h1 = record h {
      flags = set_flag_at h.health_check_cancelled h.flags;
      health_check_cancelled = none;
    } in
    if h1.health_check_timer_id == invalid_timer_id then h1 else record h1 {
      timers = cancel_timer h1.timers h1.health_check_timer_id;
      health_check_timer_id = invalid_timer_id;
    }

-- A timer that does not start leaves the id as it was.
started : TimerManager ℕ × StatusOr ℕ → HealthCheck → HealthCheck
started (timers, error s) h = record h { timers = timers }
started (timers, value id) h = record h { timers = timers; health_check_timer_id = id }

-- The part of StartHealthCheckTimer behind the cancellation: a new flag, and a timer bound to it.
arm : TimerInterface → HealthCheck → HealthCheck
unfolding started start_timer
arm platform h =
    let flag = length h.flags in
    let h1 = record h { flags = h.flags ++ false ∷ []; health_check_cancelled = some flag } in
    started (start_timer platform h1.timers h1.duration flag "HealthCheck") h1

unfoldable pub start_health_check_timer : TimerInterface → Bool → HealthCheck → HealthCheck
unfolding cancel_health_check_timer arm
start_health_check_timer platform prev_timer_expired h =
    arm platform (if prev_timer_expired then h else cancel_health_check_timer h)

unfoldable pub start : TimerInterface → HealthCheck → HealthCheck
unfolding start_health_check_timer
start platform h = if h.enabled then start_health_check_timer platform false h else h

unfoldable pub stop : HealthCheck → HealthCheck
unfolding cancel_health_check_timer
stop h = cancel_health_check_timer h

abbrev pub notify : HealthNotification → HealthCheck → HealthCheck
notify n h = record h { posted = h.posted ++ n ∷ [] }

-- What the network answers to one check.
pub record Network : Type 0 where
  pub resolve_ip_address : Text → StatusOr Text
  pub generic_address : IpRange → ℕ → Status
  pub socket : ℤ
  pub connect : ℤ

connected : Network → Status
connected n =
    if ltb_ℤ n.socket (pos 0)
    then error_status internal "Failed to create socket for health check: "
    else if ltb_ℤ n.connect (pos 0)
    then error_status internal "Failed to connect to endpoint for health check: "
    else ok_status

addressed : Network → ℕ → StatusOr IpRange → Status
unfolding connected
addressed n port (error s) = s
addressed n port (value r) = let s = n.generic_address r port in if is_ok s then connected n else s

-- The status of CheckConnection.
unfoldable pub check_connection : NetLibrary → Network → HealthCheck → Status
unfolding addressed
check_connection lib n h = addressed n h.port (n.resolve_ip_address h.url >>= parse lib)

unfoldable pub build_debug_info : Bool → HealthCheck → HealthCheck
build_debug_info passed h = record h {
  health_check_info =
      h.health_check_info
      ++ record {
        health_check_successful = passed;
        network_switches_since_health_check = h.network_switches_since_health_check;
      }
        ∷ [];
  network_switches_since_health_check = 0;
}

checked : TimerInterface → Status → HealthCheck → HealthCheck
unfolding start_health_check_timer build_debug_info
checked platform status h =
    let h1 = build_debug_info (is_ok status) h in
    if is_ok status
    then start_health_check_timer platform true (notify health_check_succeeded h1)
    else notify (health_check_failed status) h1

-- A flag that is set; every closure's flag is in the store.
abbrev pub is_set : Option Bool → Bool
is_set none = true
is_set (some b) = b

-- The closure that HandleHealthCheckTimeout posts, with its flag.
unfoldable pub run_check : TimerInterface → NetLibrary → Network → ℕ → HealthCheck → HealthCheck
unfolding checked check_connection
run_check platform lib n flag h =
    if is_set (get_elem? h.flags flag)
    then h
    else checked platform (check_connection lib n h) (notify health_check_starting h)

expired : TimerManager ℕ × Option ℕ → HealthCheck → HealthCheck
expired (timers, none) h = record h { timers = timers }
expired (timers, some flag) h = record h { timers = timers; looper = h.looper ++ flag ∷ [] }

-- The platform reports that a timer expired: HandleHealthCheckTimeout posts a closure.
unfoldable pub handle_health_check_timeout : ℕ → HealthCheck → HealthCheck
unfolding expired timer_expiry
handle_health_check_timeout id h = expired (timer_expiry h.timers id) h

run_from : TimerInterface → NetLibrary → Network → List ℕ → HealthCheck → HealthCheck
unfolding run_check
run_from platform lib n [] h = h
run_from platform lib n (flag ∷ rest) h = run_check platform lib n flag (record h { looper = rest })

-- The looper of the health check runs its first closure.
unfoldable pub run_looper : TimerInterface → NetLibrary → Network → HealthCheck → HealthCheck
unfolding run_from
run_looper platform lib n h = run_from platform lib n h.looper h

unfoldable pub increment_network_switch_counter : HealthCheck → HealthCheck
increment_network_switch_counter h = record h {
  network_switches_since_health_check = (h.network_switches_since_health_check + 1) % 2 ^ 64;
}
