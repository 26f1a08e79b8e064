-- ===== src/Timer.antt =====
-- krypton/timer_manager.h and timer_manager.cc: the outstanding timers of Krypton. The platform's
-- timer (pal/timer_interface.h) is a parameter, which says with what status a start is answered,
-- and the calls of it are kept in a log, newest first.
pub mod Laws
pub mod Once
use vpn_libraries.Prelude.{
  ℕ, ◌+◌, ◌%◌, ◌^◌, ◌≡◌, Bool, true, false, Option, none, some, List, [], ◌∷◌, ◌==◌, if◌then◌else◌,
  String, is_some,
}
use vpn_libraries.Prelude.Int.{ℤ}
use vpn_libraries.Utils.Status.{Status, StatusOr, value, error, is_ok}

-- A timer id is an int, kept as its 32 bits; -1 is `invalid_timer_id`.
abbrev pub int_mod : ℕ
int_mod = 2 ^ 32

abbrev pub invalid_timer_id : ℕ
invalid_timer_id = 4294967295

abbrev timer_increment_value : ℕ
timer_increment_value = 1

pub data TimerCall : Type 0 where
  start_call : ℕ → ℤ → TimerCall
  cancel_call : ℕ → TimerCall

-- What TimerInterface::StartTimer answers for an id and a duration.
abbrev pub TimerInterface : Type 0
TimerInterface = ℕ → ℤ → Status

-- The callbacks are values of a type `C`, which names what is to be run.
pub record TimerDetails {ℓ} (C : Type ℓ) : Type ℓ where
  pub timer_cb : C
  pub label : String

module _ {ℓ} {V : Type ℓ} where
  unfoldable pub find : ℕ → List (ℕ × V) → Option V
  find k [] = none
  find k ((j, v) ∷ m) = if j == k then some v else find k m

  unfoldable pub erase : ℕ → List (ℕ × V) → List (ℕ × V)
  erase k [] = []
  erase k ((j, v) ∷ m) = let rest = erase k m in if j == k then rest else (j, v) ∷ rest

  -- std::map::emplace keeps the entry that is there.
  unfoldable pub emplace : ℕ → V → List (ℕ × V) → List (ℕ × V)
  unfolding find
  emplace k v m = if is_some (find k m) then m else (k, v) ∷ m

pub record TimerManager {ℓ} (C : Type ℓ) : Type ℓ where
  pub timer_map : List (ℕ × TimerDetails C)
  pub timer_id_counter : ℕ
  pub calls : List TimerCall

module _ {ℓ} {C : Type ℓ} where
  unfoldable pub new_timer_manager : TimerManager C
  new_timer_manager = record { timer_map = []; timer_id_counter = 0; calls = [] }

  start_with : Status → TimerManager C → ℕ → C → String → TimerManager C × StatusOr ℕ
  unfolding emplace
  start_with s t id callback label =
      if is_ok s
      then (
        record t {
          timer_map = emplace id (record { timer_cb = callback; label = label }) t.timer_map;
        },
        value id,
      )
      else (t, error s)

  -- The counter is fetched and stepped before the platform is asked, and steps on a refusal too.
  unfoldable pub start_timer :
      TimerInterface → TimerManager C → ℤ → C → String → TimerManager C × StatusOr ℕ
  unfolding start_with
  start_timer platform t duration callback label =
      let id = t.timer_id_counter in
      let asked = record t {
        timer_id_counter = (id + timer_increment_value) % int_mod;
        calls = start_call id duration ∷ t.calls;
      } in
      start_with (platform id duration) asked id callback label

  -- An id that is not running is only passed on to the platform.
  unfoldable pub cancel_timer : TimerManager C → ℕ → TimerManager C
  unfolding erase
  cancel_timer t id = record t {
    timer_map = erase id t.timer_map;
    calls = cancel_call id ∷ t.calls;
  }

  expire_with : Option (TimerDetails C) → TimerManager C → ℕ → TimerManager C × Option C
  unfolding erase
  expire_with none t id = (t, none)
  expire_with (some d) t id = (record t { timer_map = erase id t.timer_map }, some d.timer_cb)

  -- The timer leaves the map first; the callback to run is returned.
  unfoldable pub timer_expiry : TimerManager C → ℕ → TimerManager C × Option C
  unfolding expire_with find
  timer_expiry t id = expire_with (find id t.timer_map) t id
