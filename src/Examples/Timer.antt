-- ===== src/Examples/Timer.antt =====
-- Runs of krypton/timer_manager.cc, with numbers for callbacks.
use vpn_libraries.Prelude.{ℕ, ◌≡◌, ◌≢◌, refl, some, none, ◌==◌, if◌then◌else◌}
use vpn_libraries.Prelude.Int.{pos}
use vpn_libraries.Utils.Status.{ok_status, value}
use vpn_libraries.Timer.{
  TimerManager, TimerInterface, new_timer_manager, start_timer, cancel_timer, timer_expiry,
  invalid_timer_id,
}
use vpn_libraries.Timer.Laws.{new-IsFresh}
use vpn_libraries.Timer.Once.{start_timer_fires_once, cancel_timer_never_fires}

abbrev pub timer_interface : TimerInterface
timer_interface id d = ok_status

abbrev no_timers : TimerManager ℕ
no_timers = new_timer_manager

first_id : no_timers.timer_id_counter ≡ 0
unfolding new_timer_manager
first_id = refl

start_timer_fires_once_example :
    let id = no_timers.timer_id_counter in
    let started = start_timer timer_interface no_timers (pos 500) 7 "Reconnect" in
    let fired = timer_expiry started.0 id in
    (started.1 ≡ value id)
    × (id ≢ invalid_timer_id)
    × (fired.1 ≡ some 7)
    × ((timer_expiry fired.0 id).1 ≡ none)
start_timer_fires_once_example =
    start_timer_fires_once timer_interface no_timers (pos 500) 7 "Reconnect" new-IsFresh refl

abbrev one_timer : TimerManager ℕ
one_timer = (start_timer timer_interface no_timers (pos 500) 7 "Reconnect").0

cancel_timer_never_fires_example :
    (timer_expiry (cancel_timer one_timer 0) 0).1
    ≡ (if 0 == 0 then none else (timer_expiry one_timer 0).1)
cancel_timer_never_fires_example = cancel_timer_never_fires one_timer 0 0
