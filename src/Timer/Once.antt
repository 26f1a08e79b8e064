-- ===== src/Timer/Once.antt =====
-- How long a timer of krypton/timer_manager.cc lives: it fires at most once, and never after it was
-- cancelled.
use vpn_libraries.Prelude.{ℕ, ◌≡◌, ◌≢◌, none, some, true, arith, String, ◌==◌, if◌then◌else◌}
use vpn_libraries.Prelude.Int.{ℤ}
use vpn_libraries.Utils.Status.{value, is_ok}
use vpn_libraries.Timer.{
  TimerManager, TimerInterface, start_timer, cancel_timer, timer_expiry, invalid_timer_id,
}
use vpn_libraries.Timer.Laws.{IsFresh, running-cancel_timer, timer_expiry_lem, start_timer_lem}

module _ {ℓ} {C : Type ℓ} where
  -- Where the ids are fresh, a timer that the platform accepts has an id other than -1; its expiry hands
  -- out its callback, and a second expiry of that id hands out nothing.
  pub start_timer_fires_once :
      (platform : TimerInterface) (t : TimerManager C) (d : ℤ) (cb : C) (label : String)
      → IsFresh t
      → is_ok (platform t.timer_id_counter d) ≡ true
      → let id = t.timer_id_counter in
        let started = start_timer platform t d cb label in
        let fired = timer_expiry started.0 id in
        (started.1 ≡ value id)
        × (id ≢ invalid_timer_id)
        × (fired.1 ≡ some cb)
        × ((timer_expiry fired.0 id).1 ≡ none)
  start_timer_fires_once platform t d cb label f h =
      let id = t.timer_id_counter in
      let s = start_timer platform t d cb label in
      let started = start_timer_lem platform t d cb label id f h in
      let fired = timer_expiry_lem s.0 id id in
      let again = timer_expiry_lem (timer_expiry s.0 id).0 id id in
      (
        started.0,
        omega (arith, f.not_wrapped),
        ground (arith, started, fired),
        ground (arith, again, fired),
      )

  -- After CancelTimer the expiry of the same id hands out nothing, and that of any other id the same
  -- callback as before.
  pub cancel_timer_never_fires :
      (t : TimerManager C) (id k : ℕ)
      → (timer_expiry (cancel_timer t id) k).1 ≡ (if id == k then none else (timer_expiry t k).1)
  cancel_timer_never_fires t id k = ground (
    arith,
    timer_expiry_lem (cancel_timer t id) k k,
    timer_expiry_lem t k k,
    running-cancel_timer t id k,
  )
