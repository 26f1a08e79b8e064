-- ===== src/Utils/Looper/Order.antt =====
-- That krypton/utils/looper.cc is a queue: what was posted before the stop runs in that order, and all
-- of it before the looper counts as stopped.
use vpn_libraries.Prelude.{
  append_assoc, append_nil, ◌≡◌, refl, sym, ◌∙◌, ap, Bool, true, false, List, [], ◌∷◌, ◌++◌, arith,
}
use vpn_libraries.Utils.Looper.{
  LooperThread, Event, posts, adds_cleanup, stops, loops, Phase, cleaning, stopping, returned,
  fatal, entering, dispatching, handle, run, loop, loop_at, new_looper, begin, dispatch, dequeue,
  dequeue_from, clean, clean_from, post, stop, add_cleanup_handler,
}

module _ {ℓ} {C : Type ℓ} where
  -- The specification: the closures posted before the first stop.
  abbrev pub accepted : Bool → List (Event C) → List C
  accepted true es = []
  accepted false [] = []
  accepted false (posts c ∷ es) = c ∷ accepted false es
  accepted false (adds_cleanup c ∷ es) = accepted false es
  accepted false (stops ∷ es) = []
  accepted false (loops ∷ es) = accepted false es

  abbrev pub taken : LooperThread C → List C
  taken l = l.ran ++ l.queue

  -- A step keeps what was taken, run or not, and the lame-duck mode.
  unfoldable pub Keeps : LooperThread C → LooperThread C → Type ℓ
  Keeps l l' = (taken l' ≡ taken l) × (l'.lameduck ≡ l.lameduck)

  dispatch-Keeps :
      (queue : List C) (b : Bool) (l : LooperThread C)
      → l.queue ≡ queue
      → Keeps l (dispatch (dequeue_from queue b) l)
  unfolding dispatch dequeue_from Keeps
  dispatch-Keeps [] true l e = (refl, refl)
  dispatch-Keeps [] false l e = (refl, refl)
  dispatch-Keeps (c ∷ queue) b l e =
      (append_assoc l.ran (c ∷ []) queue ∙ ap (◌++◌ l.ran) (sym e), refl)

  clean-Keeps : (queue : List C) (l : LooperThread C) → Keeps l (clean_from queue l)
  unfolding clean_from Keeps
  clean-Keeps [] l = (refl, refl)
  clean-Keeps (c ∷ queue) l = (refl, refl)

  loop_at-Keeps : (p : Phase) (l : LooperThread C) → Keeps l (loop_at p l)
  unfolding loop_at begin dequeue clean Keeps
  loop_at-Keeps entering l = ground arith
  loop_at-Keeps dispatching l = dispatch-Keeps l.queue l.lameduck l refl
  loop_at-Keeps cleaning l = ground (arith, clean-Keeps l.cleanup_queue l)
  loop_at-Keeps stopping l = (refl, refl)
  loop_at-Keeps returned l = (refl, refl)
  loop_at-Keeps fatal l = (refl, refl)

  pub loop-Keeps : (l : LooperThread C) → Keeps l (loop l)
  unfolding loop
  loop-Keeps l = loop_at-Keeps l.phase l

  handle_posts_refused : (c : C) (l : LooperThread C) → l.lameduck ≡ true → handle (posts c) l ≡ l
  unfolding handle post
  handle_posts_refused c l e = ground arith

  handle_posts_accepted :
      (c : C) (l : LooperThread C)
      → l.lameduck ≡ false
      → handle (posts c) l ≡ record l { queue = l.queue ++ c ∷ [] }
  unfolding handle post
  handle_posts_accepted c l e = ground arith

  handle_stops : (l : LooperThread C) → Keeps (record l { lameduck = true }) (handle stops l)
  unfolding handle stop Keeps
  handle_stops l = ground arith

  handle_adds_cleanup : (c : C) (l : LooperThread C) → Keeps l (handle (adds_cleanup c) l)
  unfolding handle add_cleanup_handler Keeps
  handle_adds_cleanup c l = ground arith

  -- What a history takes, from what it takes after an event that keeps what was taken.
  run_kept :
      (es : List (Event C)) (b : Bool) (l l' : LooperThread C)
      → Keeps l l'
      → taken (run es l') ≡ taken l' ++ accepted b es
      → taken (run es l') ≡ taken l ++ accepted b es
  unfolding Keeps
  run_kept es b l l' k h = h ∙ ap (◌++ accepted b es) k.0

  run_from :
      (es : List (Event C)) (b : Bool) (l : LooperThread C)
      → l.lameduck ≡ b
      → taken (run es l) ≡ taken l ++ accepted b es
  unfolding run Keeps
  run_from [] true l e = sym (append_nil (taken l))
  run_from [] false l e = sym (append_nil (taken l))
  run_from (posts c ∷ es) true l e =
      ap (λ m. taken (run es m)) (handle_posts_refused c l e) ∙ run_from es true l e
  run_from (posts c ∷ es) false l e =
      ap (λ m. taken (run es m)) (handle_posts_accepted c l e)
      ∙ run_from es false (record l { queue = l.queue ++ c ∷ [] }) e
      ∙ ap (◌++ accepted false es) (sym (append_assoc l.ran l.queue (c ∷ [])))
      ∙ append_assoc (taken l) (c ∷ []) (accepted false es)
  run_from (adds_cleanup c ∷ es) true l e =
      run_kept es true l _ (handle_adds_cleanup c l)
        (run_from es true _ ((handle_adds_cleanup c l).1 ∙ e))
  run_from (adds_cleanup c ∷ es) false l e =
      run_kept es false l _ (handle_adds_cleanup c l)
        (run_from es false _ ((handle_adds_cleanup c l).1 ∙ e))
  run_from (stops ∷ es) true l e =
      run_kept es true (record l { lameduck = true }) _ (handle_stops l)
        (run_from es true _ ((handle_stops l).1 ∙ refl))
  run_from (stops ∷ es) false l e =
      run_kept es true (record l { lameduck = true }) _ (handle_stops l)
        (run_from es true _ ((handle_stops l).1 ∙ refl))
  run_from (loops ∷ es) true l e =
      run_kept es true l _ (loop-Keeps l) (run_from es true _ ((loop-Keeps l).1 ∙ e))
  run_from (loops ∷ es) false l e =
      run_kept es false l _ (loop-Keeps l) (run_from es false _ ((loop-Keeps l).1 ∙ e))

  -- Whatever the order of posts, stops and steps of the looper's thread, what a new looper ran and then
  -- what is still in its queue are the closures posted before the first stop, in the order of the posts.
  pub run_in_order : (es : List (Event C)) → taken (run es new_looper) ≡ accepted false es
  unfolding new_looper
  run_in_order es = run_from es false new_looper refl
