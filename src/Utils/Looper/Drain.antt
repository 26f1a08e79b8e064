-- ===== src/Utils/Looper/Drain.antt =====
-- That the thread of krypton/utils/looper.cc ends after a stop, so that Join returns.
use vpn_libraries.Prelude.{
  append_nil, ℕ, suc, zero, ◌+◌, ◌≤◌, ◌-◌, ◌≡◌, refl, sym, ◌∙◌, ap, true, List, [], ◌∷◌, ◌++◌,
  arith, length,
}
use vpn_libraries.Utils.Looper.{
  LooperThread, Event, Phase, cleaning, stopping, returned, fatal, entering, dispatching, handle,
  run, loop, loop_at, new_looper, begin, dispatch, dequeue, dequeue_from, clean, clean_from,
  loops_for,
}
use vpn_libraries.Utils.Looper.Order.{taken, Keeps, loop-Keeps}
use vpn_libraries.Utils.Looper.Joined.{
  At, Inv, step-Inv, history-Inv, empty_is_nil, stopped_is_empty,
}

module _ {ℓ} {C : Type ℓ} where
  -- The steps that a thread of a looper in lame-duck mode still takes.
  remaining_at : Phase → LooperThread C → ℕ
  remaining_at entering l = 4 + length l.queue + length l.cleanup_queue
  remaining_at dispatching l = 3 + length l.queue + length l.cleanup_queue
  remaining_at cleaning l = 2 + length l.cleanup_queue
  remaining_at stopping l = 1
  remaining_at returned l = 0
  remaining_at fatal l = 0

  remaining : LooperThread C → ℕ
  unfolding remaining_at
  remaining l = remaining_at l.phase l

  remaining-dispatch :
      (queue : List C) (l : LooperThread C)
      → l.queue ≡ queue
      → l.phase ≡ dispatching
      → remaining (dispatch (dequeue_from queue true) l) + 1 ≤ remaining_at dispatching l
  unfolding remaining dispatch dequeue_from
  remaining-dispatch [] l e p = rw e (omega arith)
  remaining-dispatch (c ∷ queue) l e p = rw p (rw e (omega arith))

  remaining-clean :
      (queue : List C) (l : LooperThread C)
      → l.cleanup_queue ≡ queue
      → l.phase ≡ cleaning
      → remaining (clean_from queue l) + 1 ≤ remaining_at cleaning l
  unfolding remaining clean_from
  remaining-clean [] l e p = omega arith
  remaining-clean (c ∷ queue) l e p = rw p (rw e (omega arith))

  remaining-loop :
      (p : Phase) (l : LooperThread C)
      → l.phase ≡ p
      → At p l
      → l.lameduck ≡ true
      → remaining (loop_at p l) ≤ remaining_at p l - 1
  unfolding remaining loop_at At begin clean dequeue
  remaining-loop entering l p h d = ground arith
  remaining-loop dispatching l p h d = rw d (ground (arith, remaining-dispatch l.queue l refl p))
  remaining-loop cleaning l p h d = ground (arith, remaining-clean l.cleanup_queue l refl p)
  remaining-loop stopping l p h d = omega arith
  remaining-loop returned l p h d = rw p (omega arith)
  remaining-loop fatal l p h d = absurd h

  remaining_falls :
      (l : LooperThread C) → Inv l → l.lameduck ≡ true → remaining (loop l) ≤ remaining l - 1
  unfolding Inv remaining loop
  remaining_falls l h d = remaining-loop l.phase l refl h d

  shrinks :
      (n : ℕ) (l : LooperThread C)
      → Inv l
      → l.lameduck ≡ true
      → remaining l ≤ suc n
      → remaining (loop l) ≤ n
  shrinks n l h d r = omega (arith, remaining_falls l h d)

  At-end : (p : Phase) (l : LooperThread C) → At p l → remaining_at p l ≤ 0 → l.stopped ≡ true
  unfolding At remaining_at
  At-end entering l h r = absurd (omega arith)
  At-end dispatching l h r = absurd (omega arith)
  At-end cleaning l h r = absurd (omega arith)
  At-end stopping l h r = absurd (omega arith)
  At-end returned l h r = h.2
  At-end fatal l h r = absurd h

  Drained : LooperThread C → LooperThread C → Type ℓ
  Drained l m = (m.stopped ≡ true) × (m.ran ≡ taken l)

  drains_from :
      (n : ℕ) (l : LooperThread C)
      → Inv l
      → l.lameduck ≡ true
      → remaining l ≤ n
      → Drained l (run (loops_for n) l)
  unfolding loops_for run handle Drained Keeps Inv remaining
  drains_from zero l h d r =
      let s = At-end l.phase l h r in
      let e = empty_is_nil l.queue (stopped_is_empty l.phase l h s) in
      (s, sym (append_nil l.ran) ∙ ap (l.ran ++◌) (sym e))
  drains_from (suc n) l h d r =
      let k = loop-Keeps l in
      let ih = drains_from n (loop l) (step-Inv l h) (k.1 ∙ d) (shrinks n l h d r) in
      (ih.0, ih.1 ∙ k.0)

  abbrev steps : LooperThread C → ℕ
  steps l = 4 + length l.queue + length l.cleanup_queue

  remaining_le_steps : (p : Phase) (l : LooperThread C) → remaining_at p l ≤ steps l
  unfolding remaining_at
  remaining_le_steps entering l = omega arith
  remaining_le_steps dispatching l = omega arith
  remaining_le_steps cleaning l = omega arith
  remaining_le_steps stopping l = omega arith
  remaining_le_steps returned l = omega arith
  remaining_le_steps fatal l = omega arith

  -- Once a looper was told to stop, 4 steps of its thread more than it has closures and cleanup handlers
  -- in its queues are enough: it has stopped then, and has run the closures of its queue in their order.
  pub looper_drains :
      (es : List (Event C))
      → (run es new_looper).lameduck ≡ true
      → let l = run es new_looper in
        let m = run (loops_for (4 + length l.queue + length l.cleanup_queue)) l in
        (m.stopped ≡ true) × (m.ran ≡ l.ran ++ l.queue)
  unfolding Drained remaining
  looper_drains es d =
      let l = run es new_looper in
      drains_from (steps l) l (history-Inv es) d (remaining_le_steps l.phase l)
