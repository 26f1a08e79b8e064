-- ===== src/Utils/Looper/Joined.antt =====
-- What holds when krypton/utils/looper.cc is joined: everything accepted has run.
use vpn_libraries.Prelude.{
  append_nil, ◌≡◌, ◌≢◌, refl, sym, ◌∙◌, ap, subst, Bool, true, false, List, [], ◌∷◌, ◌++◌, arith,
}
use vpn_libraries.Utils.Looper.{
  LooperThread, Event, posts, adds_cleanup, stops, loops, Phase, cleaning, stopping, returned,
  fatal, entering, dispatching, handle, run, loop, loop_at, new_looper, begin, dispatch, dequeue,
  dequeue_from, clean, clean_from, post, stop, add_cleanup_handler,
}
use vpn_libraries.Utils.Looper.Order.{accepted, run_in_order}

module _ {ℓ} {C : Type ℓ} where
  abbrev pub is_empty : List C → Bool
  is_empty [] = true
  is_empty (c ∷ cs) = false

  -- What holds of the thread at each place of its code; the place after LOG(FATAL) is never reached.
  unfoldable pub At : Phase → LooperThread C → Type 0
  At entering l = (l.stopped ≡ false) × (l.started ≡ false)
  At dispatching l = l.stopped ≡ false
  At cleaning l = (l.stopped ≡ false) × (l.lameduck ≡ true) × (is_empty l.queue ≡ true)
  At stopping l = (l.lameduck ≡ true) × (is_empty l.queue ≡ true)
  At returned l = (l.lameduck ≡ true) × (is_empty l.queue ≡ true) × (l.stopped ≡ true)
  At fatal l = ⊥

  unfoldable pub Inv : LooperThread C → Type 0
  unfolding At
  Inv l = At l.phase l

  post-At : (p : Phase) (c : C) (l : LooperThread C) → At p l → At p (post c l).0
  unfolding At post
  post-At entering c l h = ground arith
  post-At dispatching c l h = ground arith
  post-At cleaning c l h = ground arith
  post-At stopping c l h = ground arith
  post-At returned c l h = ground arith
  post-At fatal c l h = h

  stop-At : (p : Phase) (l : LooperThread C) → At p l → At p (stop l)
  unfolding At stop
  stop-At entering l h = ground arith
  stop-At dispatching l h = ground arith
  stop-At cleaning l h = ground arith
  stop-At stopping l h = ground arith
  stop-At returned l h = ground arith
  stop-At fatal l h = h

  cleanup-At : (p : Phase) (c : C) (l : LooperThread C) → At p l → At p (add_cleanup_handler c l)
  unfolding At add_cleanup_handler
  cleanup-At entering c l h = ground arith
  cleanup-At dispatching c l h = ground arith
  cleanup-At cleaning c l h = ground arith
  cleanup-At stopping c l h = ground arith
  cleanup-At returned c l h = ground arith
  cleanup-At fatal c l h = h

  dispatch-Inv :
      (queue : List C) (b : Bool) (l : LooperThread C)
      → l.queue ≡ queue
      → l.lameduck ≡ b
      → l.phase ≡ dispatching
      → l.stopped ≡ false
      → Inv (dispatch (dequeue_from queue b) l)
  unfolding Inv dispatch dequeue_from
  dispatch-Inv [] true l e f p h = (h, f, ap is_empty e)
  dispatch-Inv [] false l e f p h = rw p h
  dispatch-Inv (c ∷ queue) b l e f p h = rw p h

  clean-Inv :
      (queue : List C) (l : LooperThread C)
      → l.phase ≡ cleaning
      → At cleaning l
      → Inv (clean_from queue l)
  unfolding Inv clean_from
  clean-Inv [] l p h = (h.1, h.2)
  clean-Inv (c ∷ queue) l p h = rw p h

  loop-Inv : (p : Phase) (l : LooperThread C) → l.phase ≡ p → At p l → Inv (loop_at p l)
  unfolding Inv loop_at begin dequeue clean
  loop-Inv entering l p h = ground arith
  loop-Inv dispatching l p h = dispatch-Inv l.queue l.lameduck l refl refl p h
  loop-Inv cleaning l p h = ground (arith, clean-Inv l.cleanup_queue l p h)
  loop-Inv stopping l p h = (h.0, h.1, refl)
  loop-Inv returned l p h = rw p h
  loop-Inv fatal l p h = absurd h

  pub step-Inv : (l : LooperThread C) → Inv l → Inv (loop l)
  unfolding Inv loop
  step-Inv l h = loop-Inv l.phase l refl h

  post_phase : (c : C) (l : LooperThread C) → (post c l).0.phase ≡ l.phase
  unfolding post
  post_phase c l = ground arith

  stop_phase : (l : LooperThread C) → (stop l).phase ≡ l.phase
  unfolding stop
  stop_phase l = ground arith

  cleanup_phase : (c : C) (l : LooperThread C) → (add_cleanup_handler c l).phase ≡ l.phase
  unfolding add_cleanup_handler
  cleanup_phase c l = ground arith

  handle-Inv : (e : Event C) (l : LooperThread C) → Inv l → Inv (handle e l)
  unfolding Inv handle loop post
  handle-Inv (posts c) l h =
      subst (λ p. At p (post c l).0) (sym (post_phase c l)) (post-At l.phase c l h)
  handle-Inv (adds_cleanup c) l h =
      subst (λ p. At p (add_cleanup_handler c l)) (sym (cleanup_phase c l))
        (cleanup-At l.phase c l h)
  handle-Inv stops l h = subst (λ p. At p (stop l)) (sym (stop_phase l)) (stop-At l.phase l h)
  handle-Inv loops l h = step-Inv l h

  run-Inv : (es : List (Event C)) (l : LooperThread C) → Inv l → Inv (run es l)
  unfolding run
  run-Inv [] l h = h
  run-Inv (e ∷ es) l h = run-Inv es (handle e l) (handle-Inv e l h)

  -- Every history of a new looper.
  pub history-Inv : (es : List (Event C)) → Inv (run es new_looper)
  unfolding Inv At new_looper
  history-Inv es = run-Inv es new_looper (refl, refl)

  pub stopped_is_empty :
      (p : Phase) (l : LooperThread C) → At p l → l.stopped ≡ true → is_empty l.queue ≡ true
  unfolding At
  stopped_is_empty entering l h s = ground arith
  stopped_is_empty dispatching l h s = ground arith
  stopped_is_empty cleaning l h s = h.2
  stopped_is_empty stopping l h s = h.1
  stopped_is_empty returned l h s = h.1
  stopped_is_empty fatal l h s = absurd h

  pub empty_is_nil : (cs : List C) → is_empty cs ≡ true → cs ≡ []
  empty_is_nil [] h = refl
  empty_is_nil (c ∷ cs) h = ground arith

  -- When a looper has stopped, which is what Join waits for, it has run exactly the closures that were
  -- posted before the first stop, in the order of the posts.
  pub joined_ran_all :
      (es : List (Event C))
      → (run es new_looper).stopped ≡ true
      → (run es new_looper).ran ≡ accepted false es
  unfolding Inv
  joined_ran_all es h =
      let l = run es new_looper in
      let i = history-Inv es in
      let e = empty_is_nil l.queue (stopped_is_empty l.phase l i h) in
      sym (append_nil l.ran) ∙ sym (ap (l.ran ++◌) e) ∙ run_in_order es

  not_fatal : (p : Phase) (l : LooperThread C) → At p l → p ≢ fatal
  unfolding At
  not_fatal p l h e = subst (λ q. At q l) e h

  -- A looper never comes to the LOG(FATAL) of DequeueCleanupHandler.
  pub run_not_fatal : (es : List (Event C)) → (run es new_looper).phase ≢ fatal
  unfolding Inv
  run_not_fatal es = not_fatal _ _ (history-Inv es)
