-- ===== src/Reconnector/Armed.antt =====
-- That krypton/reconnector.cc goes on: a session error is followed by a timer, and the timer by a new
-- session.
use vpn_libraries.Prelude.{ℕ, ◌+◌, ◌≡◌, ◌≢◌, refl, ◌⊎◌, true, false, some, arith, ap, ◌∙◌}
use vpn_libraries.Prelude.Int.{ℤ}
use vpn_libraries.Utils.Status.{Status, is_ok}
use vpn_libraries.Timer.{TimerInterface, invalid_timer_id}
use vpn_libraries.Timer.Laws.{
  IsFresh, running, start_timer_lem, cancel_timer-IsFresh, timer_expiry_lem,
}
use vpn_libraries.Runtime.{reconnect_cb}
use vpn_libraries.Reconnector.World.{State, World, Env, SessionManagerLaws}
use vpn_libraries.Reconnector.Timers.{
  parts, cancel_reconnector_timer_if_running, cancel_connection_deadline_timer_if_running,
  start_reconnector_timer, start_reconnection, get_reconnect_duration, milliseconds,
}
use vpn_libraries.Reconnector.Handlers.{session_error, note_session_error}
use vpn_libraries.Reconnector.Snooze.{timer_fires}

-- The platform starts every timer.
abbrev pub AcceptsAll : TimerInterface → Type 0
AcceptsAll platform = (id : ℕ) (d : ℤ) → is_ok (platform id d) ≡ true

module _ {S : Type 0} where
  cancel_reconnector-IsFresh :
      (w : World S)
      → IsFresh w.shared.timers
      → IsFresh (cancel_reconnector_timer_if_running w).shared.timers
  unfolding parts
  cancel_reconnector-IsFresh w f =
      ground (arith, cancel_timer-IsFresh w.shared.timers w.reconnector.reconnector_timer_id f)

  cancel_deadline-IsFresh :
      (w : World S)
      → IsFresh w.shared.timers
      → IsFresh (cancel_connection_deadline_timer_if_running w).shared.timers
  unfolding parts
  cancel_deadline-IsFresh w f =
      ground
        (arith, cancel_timer-IsFresh w.shared.timers w.reconnector.connection_deadline_timer_id f)

  note_session_error-IsFresh :
      (w : World S) (reason : Status)
      → IsFresh w.shared.timers
      → IsFresh (note_session_error reason w).shared.timers
  unfolding note_session_error
  note_session_error-IsFresh w reason f = cancel_deadline-IsFresh w f

  note_session_error_count :
      (w : World S) (reason : Status)
      → (note_session_error reason w).reconnector.session_restart_counter
        ≡ w.reconnector.session_restart_counter
  unfolding note_session_error parts
  note_session_error_count w reason = ground arith

module _ {S : Type 0} (env : Env S) (accepts : AcceptsAll env.timer_interface) where
  start_reconnector_timer_arms :
      (w : World S)
      → IsFresh w.shared.timers
      → let w' = (start_reconnector_timer env w).0 in
        running w'.shared.timers w'.reconnector.reconnector_timer_id ≡ some reconnect_cb
  unfolding parts
  start_reconnector_timer_arms w f =
      let w1 = cancel_reconnector_timer_if_running w in
      let d =
        milliseconds (get_reconnect_duration env.initial_time_to_reconnect_msec w.reconnector) in
      let id = w1.shared.timers.timer_id_counter in
      let s =
        start_timer_lem env.timer_interface w1.shared.timers d reconnect_cb "Reconnect" id
          (cancel_reconnector-IsFresh w f) (accepts id d) in
      ground (arith, s)

module _ {S : Type 0} (env : Env S) where
  -- When the reconnect timer of a world that waits to reconnect fires, a new session is waited for.
  fires_establishes :
      (w : World S)
      → w.reconnector.state ≡ State.waiting_to_reconnect
      → running w.shared.timers w.reconnector.reconnector_timer_id ≡ some reconnect_cb
      → let r = (timer_fires env w.reconnector.reconnector_timer_id w).reconnector in
        (r.state ≡ State.waiting_for_session_establishment)
        × (r.session_restart_counter ≡ w.reconnector.session_restart_counter + 1)
  unfolding timer_fires parts
  fires_establishes w h e =
      let id = w.reconnector.reconnector_timer_id in
      let fired = timer_expiry_lem w.shared.timers id id in ground (arith, fired)

  start_reconnection-arms :
      (laws : SessionManagerLaws env.session_manager)
      → AcceptsAll env.timer_interface
      → (w : World S) → IsFresh w.shared.timers
      → let w' = start_reconnection env w in
        (w'.reconnector.state ≡ State.waiting_to_reconnect)
        × (w'.reconnector.session_restart_counter ≡ w.reconnector.session_restart_counter)
        × (running w'.shared.timers w'.reconnector.reconnector_timer_id ≡ some reconnect_cb)
  unfolding start_reconnection
  start_reconnection-arms laws accepts w f = (
    unfold parts in refl,
    unfold parts in (ground arith),
    unfold parts in
        start_reconnector_timer_arms env accepts _
          (laws.terminate-IsFresh false w.session w.shared f),
  )

  session_error_lem :
      (w : World S) (reason : Status)
      → (w.reconnector.state ≡ State.connected)
        ⊎ (w.reconnector.connection_deadline_timer_id ≢ invalid_timer_id)
      → session_error env reason w ≡ start_reconnection env (note_session_error reason w)
  unfolding session_error
  session_error_lem w reason h = ground arith

  -- Where the platform starts every timer, the session manager keeps SessionManagerLaws and the timer
  -- ids are fresh, a session error while connected, or while the connection deadline runs, leaves the
  -- reconnect timer running; and once that timer fires, the next session is waited for, under the next
  -- number.
  pub session_error_reconnects :
      (laws : SessionManagerLaws env.session_manager) (w : World S) (reason : Status)
      → AcceptsAll env.timer_interface
      → IsFresh w.shared.timers
      → (w.reconnector.state ≡ State.connected)
        ⊎ (w.reconnector.connection_deadline_timer_id ≢ invalid_timer_id)
      → let w' = session_error env reason w in
        let r = (timer_fires env w'.reconnector.reconnector_timer_id w').reconnector in
        (running w'.shared.timers w'.reconnector.reconnector_timer_id ≡ some reconnect_cb)
        × (r.state ≡ State.waiting_for_session_establishment)
        × (r.session_restart_counter ≡ w.reconnector.session_restart_counter + 1)
  session_error_reconnects laws w reason accepts f h =
      let noted = note_session_error reason w in
      let (waits, count, arms) =
        start_reconnection-arms laws accepts noted (note_session_error-IsFresh w reason f) in
      let (state, next) = fires_establishes (start_reconnection env noted) waits arms in
      rw (session_error_lem w reason h)
        (arms, state, next ∙ ap (λ (n : ℕ). n + 1) (count ∙ note_session_error_count w reason))
