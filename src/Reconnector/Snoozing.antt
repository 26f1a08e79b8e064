-- ===== src/Reconnector/Snoozing.antt =====
-- Snooze, Resume and the backoff of krypton/reconnector.cc, branch by branch.
use vpn_libraries.Prelude.{
  ℕ, zero, suc, ◌+◌, ◌*◌, ◌^◌, ◌≤◌, ◌<◌, min, max, ◌≡◌, ◌≢◌, ◌⊎◌, none, some, arith,
}
use vpn_libraries.Prelude.Int.{ℤ, ◌+ℤ◌}
use native.Mathlib.Nat.{pow-suc}
use vpn_libraries.Utils.Status.{Status, ok_status, failed_precondition}
use vpn_libraries.Timer.{invalid_timer_id}
use vpn_libraries.Runtime.{NetworkInfo}
use vpn_libraries.Reconnector.World.{State, Reconnector, World, Env}
use vpn_libraries.Reconnector.Timers.{parts, get_reconnect_duration, max_duration_msec}
use vpn_libraries.Reconnector.Handlers.{datapath_disconnected}
use vpn_libraries.Reconnector.Snooze.{snooze, resume, set_network}

pow_pos : (n : ℕ) → 1 ≤ 2 ^ n
pow_pos zero = omega arith
pow_pos (suc n) = omega (arith, pow_pos n, pow-suc 2 n)

le-mul_of_pos : (a p : ℕ) → 1 ≤ p → a ≤ a * p
le-mul_of_pos a p h = grind arith

-- The backoff waits at least the initial time (or a day, if that is less), and never more than a day.
pub backoff_bounds :
    (initial_msec : ℕ) (r : Reconnector)
    → (min initial_msec max_duration_msec ≤ get_reconnect_duration initial_msec r)
      × (get_reconnect_duration initial_msec r ≤ max_duration_msec)
unfolding get_reconnect_duration
backoff_bounds initial_msec r =
    let n = max r.successive_session_errors r.successive_datapath_failures in
    let grows = le-mul_of_pos initial_msec (2 ^ n) (pow_pos n) in (ground arith, ground arith)

mul_left : (a p : ℕ) → a * (p * 2) ≡ 2 * (a * p)
mul_left a p = grind arith

-- One more failure of the kind that has failed most doubles the wait, up to a day. (Below 1023
-- failures, since from 1024 on the factor is infinite.)
pub backoff_doubles :
    (initial_msec : ℕ) (r : Reconnector)
    → r.successive_datapath_failures ≤ r.successive_session_errors
    → r.successive_session_errors < 1023
    → get_reconnect_duration initial_msec
        (record r { successive_session_errors = r.successive_session_errors + 1 })
      ≡ min (2 * get_reconnect_duration initial_msec r) max_duration_msec
unfolding get_reconnect_duration
backoff_doubles initial_msec r h k =
    let n = r.successive_session_errors in
    let now : max n r.successive_datapath_failures ≡ n = omega arith in
    let then' : max (n + 1) r.successive_datapath_failures ≡ suc n = omega arith in
    rw (now, then', pow-suc 2 n) (ground (arith, mul_left initial_msec (2 ^ n)))

module _ {S : Type 0} (env : Env S) where
  -- A snooze in a permanent failure is refused and changes nothing. In any other state it leaves
  -- the state snoozed with no reconnect and no deadline timer running, and notes when it ends.
  pub snooze_branches :
      (now d : ℤ) (w : World S)
      → let (w', status) = snooze env now d w in
        ((w.reconnector.state ≡ State.permanent_failure)
          × (w' ≡ w)
          × (status.code ≡ failed_precondition))
        ⊎ ((w'.reconnector.state ≡ State.snoozed)
            × (w'.reconnector.reconnector_timer_id ≡ invalid_timer_id)
            × (w'.reconnector.connection_deadline_timer_id ≡ invalid_timer_id)
            × (w'.reconnector.snooze_end_time ≡ now +ℤ d))
  unfolding snooze parts
  snooze_branches now d w = ground arith

  -- Resuming succeeds exactly in the state snoozed, and then waits for a new session; in any other
  -- state the state stays. Either way no snooze timer is left.
  pub resume_branches :
      (w : World S)
      → let (w', status) = resume env w in
        (w'.reconnector.snooze_timer_id ≡ invalid_timer_id)
        × (((w.reconnector.state ≡ State.snoozed)
              × (status ≡ ok_status)
              × (w'.reconnector.state ≡ State.waiting_for_session_establishment))
            ⊎ ((w.reconnector.state ≢ State.snoozed)
                × (status.code ≡ failed_precondition)
                × (w'.reconnector.state ≡ w.reconnector.state)))
  unfolding resume parts
  resume_branches w = (ground arith, ground arith)

  -- A permanent failure is left by losing the network and getting one: the state goes to paused, and
  -- from there to waiting to reconnect.
  pub permanent_failure_left :
      (w : World S) (network : NetworkInfo)
      → w.reconnector.state ≡ State.permanent_failure
      → let w' = (set_network env none w).0 in
        (w'.reconnector.state ≡ State.paused)
        × ((set_network env (some network) w').0.reconnector.state ≡ State.waiting_to_reconnect)
  unfolding set_network parts
  permanent_failure_left w network h = ground arith

  -- A loss of the datapath that is reported while snoozed ends the snooze: the state waits to
  -- reconnect, while the id of the snooze timer stays set.
  pub datapath_disconnected_ends_snooze :
      (w : World S) (network : NetworkInfo) (reason : Status)
      → w.reconnector.state ≡ State.snoozed
      → let r = (datapath_disconnected env network reason w).reconnector in
        (r.state ≡ State.waiting_to_reconnect) × (r.snooze_timer_id ≡ w.reconnector.snooze_timer_id)
  unfolding datapath_disconnected parts
  datapath_disconnected_ends_snooze w network reason h = ground arith
