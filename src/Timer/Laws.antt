-- ===== src/Timer/Laws.antt =====
-- The timer map of krypton/timer_manager.cc as a finite map, and the freshness of its ids.
use vpn_libraries.Prelude.{
  ℕ, ◌+◌, ◌%◌, ◌≤◌, ◌<◌, ◌≡◌, refl, Option, none, some, List, [], ◌∷◌, ◌==◌, if◌then◌else◌, arith,
  Option-cases, inl, inr, true, String,
}
use vpn_libraries.Prelude.Int.{ℤ}
use vpn_libraries.Utils.Status.{value, is_ok}
use vpn_libraries.Timer.{
  TimerManager, TimerInterface, TimerDetails, find, erase, emplace, start_timer, cancel_timer,
  timer_expiry, new_timer_manager, invalid_timer_id, int_mod,
}

module _ {ℓ} {V : Type ℓ} where
  find-erase :
      (k j : ℕ) (m : List (ℕ × V)) → find j (erase k m) ≡ (if k == j then none else find j m)
  unfolding find erase
  find-erase k j [] = ground arith
  find-erase k j ((i, v) ∷ m) = ground (arith, find-erase k j m)

  find-emplace :
      (k j : ℕ) (v : V) (m : List (ℕ × V))
      → find k m ≡ none
      → find j (emplace k v m) ≡ (if k == j then some v else find j m)
  unfolding find emplace
  find-emplace k j v m h = ground arith

-- Every id of the map lies below `n`.
abbrev Below {ℓ} : {V : Type ℓ} → ℕ → List (ℕ × V) → Type 0
Below n [] = Unit {0}
Below n ((j, v) ∷ m) = (j < n) × Below n m

module _ {ℓ} {V : Type ℓ} where
  Below-mono : (n k : ℕ) (m : List (ℕ × V)) → n ≤ k → Below n m → Below k m
  Below-mono n k [] h b = tt
  Below-mono n k ((j, v) ∷ m) h b = (omega arith, Below-mono n k m h b.1)

  Below-erase : (n k : ℕ) (m : List (ℕ × V)) → Below n m → Below n (erase k m)
  unfolding erase
  Below-erase n k [] b = tt
  Below-erase n k ((j, v) ∷ m) b = ground (arith, Below-erase n k m b.1)

  find_above : (n k : ℕ) (m : List (ℕ × V)) → Below n m → n ≤ k → find k m ≡ none
  unfolding find
  find_above n k [] b h = refl
  find_above n k ((j, v) ∷ m) b h = ground (arith, find_above n k m b.1)

-- The ids in use lie below the counter, and the counter has not come round to -1.
pub record IsFresh {ℓ} {C : Type ℓ} (t : TimerManager C) : Type ℓ where
  pub below : Below t.timer_id_counter t.timer_map
  pub not_wrapped : t.timer_id_counter < invalid_timer_id

-- The callback that waits under an id: the view of the manager as a partial map.
abbrev callback_of {ℓ} : {C : Type ℓ} → Option (TimerDetails C) → Option C
callback_of none = none
callback_of (some d) = some d.timer_cb

unfoldable pub running {ℓ} : {C : Type ℓ} → TimerManager C → ℕ → Option C
running t k = callback_of (find k t.timer_map)

module _ {ℓ} {C : Type ℓ} where
  pub new-IsFresh : IsFresh (new_timer_manager {C = C})
  unfolding new_timer_manager
  new-IsFresh = record { below = tt; not_wrapped = omega arith }

  pub cancel_timer-IsFresh : (t : TimerManager C) (id : ℕ) → IsFresh t → IsFresh (cancel_timer t id)
  unfolding cancel_timer
  cancel_timer-IsFresh t id f = record {
    below = Below-erase t.timer_id_counter id t.timer_map f.below;
    not_wrapped = f.not_wrapped;
  }

  pub timer_expiry-IsFresh :
      (t : TimerManager C) (id : ℕ) → IsFresh t → IsFresh (timer_expiry t id).0
  unfolding timer_expiry
  timer_expiry-IsFresh t id f = elim (Option-cases (find id t.timer_map)) [
    | inl e ↦ rw (e, timer_expiry) f
    | inr (d, e) ↦
        rw (e, timer_expiry)
          (record {
            below = Below-erase t.timer_id_counter id t.timer_map f.below;
            not_wrapped = f.not_wrapped;
          })
  ]

  -- A start takes the counter's value for its id, whatever the platform answers.
  pub start_timer-IsFresh :
      (platform : TimerInterface) (t : TimerManager C) (d : ℤ) (cb : C) (label : String)
      → IsFresh t
      → t.timer_id_counter + 1 < invalid_timer_id
      → IsFresh (start_timer platform t d cb label).0
  unfolding start_timer emplace
  start_timer-IsFresh platform t d cb label f h =
      ground (arith, Below-mono t.timer_id_counter ((t.timer_id_counter + 1) % int_mod) t.timer_map)

  -- Cancelling takes away the timer of this id and no other.
  pub running-cancel_timer :
      (t : TimerManager C) (id k : ℕ)
      → running (cancel_timer t id) k ≡ (if id == k then none else running t k)
  unfolding running cancel_timer
  running-cancel_timer t id k = ground (arith, find-erase id k t.timer_map)

  -- Expiry hands out the callback of this id, and takes away this timer and no other.
  pub timer_expiry_lem :
      (t : TimerManager C) (id k : ℕ)
      → ((timer_expiry t id).1 ≡ running t id)
        × (running (timer_expiry t id).0 k ≡ (if id == k then none else running t k))
  unfolding running timer_expiry
  timer_expiry_lem t id k = (ground arith, ground (arith, find-erase id k t.timer_map))

  -- A start that the platform accepts returns an id that was not running, and adds its timer.
  pub start_timer_lem :
      (platform : TimerInterface) (t : TimerManager C) (d : ℤ) (cb : C) (label : String) (k : ℕ)
      → IsFresh t
      → is_ok (platform t.timer_id_counter d) ≡ true
      → ((start_timer platform t d cb label).1 ≡ value t.timer_id_counter)
        × (running t t.timer_id_counter ≡ none)
        × (running (start_timer platform t d cb label).0 k
            ≡ (if t.timer_id_counter == k then some cb else running t k))
  unfolding running start_timer
  start_timer_lem platform t d cb label k f h =
      let unused =
        find_above t.timer_id_counter t.timer_id_counter t.timer_map f.below (omega arith) in
      (
        rw h,
        rw unused,
        ground (
          arith,
          find-emplace t.timer_id_counter k (record { timer_cb = cb; label = label }) t.timer_map
              unused,
        ),
      )
