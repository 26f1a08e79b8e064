-- ===== src/HttpFetcher/Cancel.antt =====
-- What a cancellation does in krypton/http_fetcher.cc, and whose callback gets a response.
use vpn_libraries.Prelude.{
  append_assoc, ℕ, suc, zero, ◌≡◌, refl, sym, ◌∙◌, ap, subst, Bool, true, false, Option, none, some,
  List, [], ◌∷◌, ◌++◌, arith, length, get_elem?, All,
}
use vpn_libraries.HttpFetcher.{
  HttpFetcher, CallbackInfo, Event, posts, cancels, begins, answers, cancel_info, cancel_async,
  post_json_async, begin, begin_with, post_json_async_internal, finish_with, deliver_at,
  deliver_info, deliver, handle, run, cancel_at, calls, call_first, call_from,
}

module _ {ℓ} {Q : Type ℓ} where
  abbrev Is : Option ℕ → Option (Q × Option ℕ) → Type 0
  Is i none = Unit
  Is i (some (q, j)) = j ≡ i

module _ {ℓ} {C : Type ℓ} where
  -- Whether an object takes no response; there is none behind the end of the store.
  abbrev info_is_silent : Option (CallbackInfo C) → Bool
  info_is_silent none = true
  info_is_silent (some info) = info.cancelled

  abbrev is_silent : Option ℕ → List (CallbackInfo C) → Bool
  is_silent none infos = true
  is_silent (some i) infos = info_is_silent (get_elem? infos i)

  cancel_info_silences :
      (i : ℕ) (infos : List (CallbackInfo C)) → is_silent (some i) (cancel_info i infos) ≡ true
  unfolding cancel_info
  cancel_info_silences i [] = refl
  cancel_info_silences zero (x ∷ xs) = refl
  cancel_info_silences (suc i) (x ∷ xs) = cancel_info_silences i xs

  cancel_at_silences :
      (p : Option ℕ) (infos : List (CallbackInfo C)) → is_silent p (cancel_at p infos) ≡ true
  unfolding cancel_at
  cancel_at_silences none infos = refl
  cancel_at_silences (some i) infos = cancel_info_silences i infos

  get_last :
      (xs : List (CallbackInfo C)) (x : CallbackInfo C)
      → get_elem? (xs ++ x ∷ []) (length xs) ≡ some x
  get_last [] x = refl
  get_last (y ∷ xs) x = get_last xs x

  cancel_last :
      (xs : List (CallbackInfo C)) (x y : CallbackInfo C)
      → get_elem? (cancel_info (length (xs ++ x ∷ [])) ((xs ++ x ∷ []) ++ y ∷ [])) (length xs)
        ≡ some x
  unfolding cancel_info
  cancel_last [] x y = refl
  cancel_last (z ∷ xs) x y = cancel_last xs x y

module _ {ℓ} {C Q R : Type ℓ} where
  -- A step of the thread, and no call.
  abbrev IsStep : Event C Q R → Type 0
  IsStep (posts q c) = ⊥
  IsStep cancels = ⊥
  IsStep begins = Unit
  IsStep calls = Unit
  IsStep (answers r) = Unit

  -- What runs, runs with the callback that was posted last.
  abbrev pub IsCurrent : HttpFetcher C Q R → Type 0
  IsCurrent f = Is f.callback_info f.running

  Silent : HttpFetcher C Q R → Type 0
  Silent f = (is_silent f.callback_info f.infos ≡ true) × IsCurrent f

  deliver_info_silent :
      (o : Option (CallbackInfo C)) (r : R) (f : HttpFetcher C Q R)
      → info_is_silent o ≡ true
      → deliver_info o r f ≡ f
  unfolding deliver_info
  deliver_info_silent none r f h = refl
  deliver_info_silent (some info) r f h = ground arith

  deliver_at_silent :
      (p : Option ℕ) (r : R) (f : HttpFetcher C Q R)
      → is_silent p f.infos ≡ true
      → deliver_at p r f ≡ f
  unfolding deliver_at
  deliver_at_silent none r f h = refl
  deliver_at_silent (some i) r f h = deliver_info_silent (get_elem? f.infos i) r f h

  -- What was called, and what waits to be called.
  abbrev pub heard : HttpFetcher C Q R → List (C × R)
  heard f = f.called ++ f.notification_thread

  -- A step that leaves the fetcher silent and posts nothing.
  Quiet : HttpFetcher C Q R → HttpFetcher C Q R → Type ℓ
  unfolding Silent
  Quiet f g = Silent g × (heard g ≡ heard f)

  finish-Quiet :
      (o : Option (Q × Option ℕ)) (r : R) (f : HttpFetcher C Q R)
      → f.running ≡ o
      → Silent f
      → Quiet f (finish_with o r f)
  unfolding Quiet Silent finish_with
  finish-Quiet none r f e h = (h, refl)
  finish-Quiet (some (q, p)) r f e h =
      let g = record f { running = none } in
      let p_is : p ≡ f.callback_info = subst (Is f.callback_info) e h.1 in
      let d : deliver_at p r g ≡ g =
        deliver_at_silent p r g (ap (λ x. is_silent x f.infos) p_is ∙ h.0) in
      subst (λ x. Quiet f x) (sym d) ((h.0, tt), refl)

  begin-Quiet :
      (t : List Q) (o : Option (Q × Option ℕ)) (f : HttpFetcher C Q R)
      → Silent f
      → Quiet f (begin_with t o f)
  unfolding Quiet Silent begin_with
  begin-Quiet t (some r) f h = (h, refl)
  begin-Quiet [] none f h = (h, refl)
  begin-Quiet (q ∷ t) none f h = ((h.0, refl), refl)

  call-Quiet :
      (cs : List (C × R)) (f : HttpFetcher C Q R)
      → f.notification_thread ≡ cs
      → Silent f
      → Quiet f (call_from cs f)
  unfolding Quiet Silent call_from
  call-Quiet [] f e h = (h, refl)
  call-Quiet (c ∷ cs) f e h = (h, append_assoc f.called (c ∷ []) cs ∙ ap (f.called ++◌) (sym e))

  step-Quiet :
      (e : Event C Q R) (f : HttpFetcher C Q R) → IsStep e → Silent f → Quiet f (handle e f)
  unfolding handle begin post_json_async_internal call_first
  step-Quiet (posts q c) f s h = absurd s
  step-Quiet cancels f s h = absurd s
  step-Quiet begins f s h = begin-Quiet f.thread f.running f h
  step-Quiet calls f s h = call-Quiet f.notification_thread f refl h
  step-Quiet (answers r) f s h = finish-Quiet f.running r f refl h

  run-Quiet :
      (es : List (Event C Q R)) (f : HttpFetcher C Q R)
      → All IsStep es
      → Silent f
      → heard (run es f) ≡ heard f
  unfolding run Quiet
  run-Quiet [] f s h = refl
  run-Quiet (e ∷ es) f s h = let q = step-Quiet e f s.0 h in run-Quiet es (handle e f) s.1 q.0 ∙ q.1

  -- Where nothing runs with the callback of an earlier request, a cancellation keeps every response that
  -- does not wait on the notification thread yet from being called, whatever the threads still do until
  -- something is posted again. What waits there already is called all the same: what was called, with what
  -- waits, stays what it was.
  pub cancel_async_silences :
      (f : HttpFetcher C Q R) (es : List (Event C Q R))
      → IsCurrent f
      → All IsStep es
      → (run es (cancel_async f)).called ++ (run es (cancel_async f)).notification_thread
        ≡ f.called ++ f.notification_thread
  unfolding cancel_async Silent
  cancel_async_silences f es h s =
      run-Quiet es (cancel_async f) s (cancel_at_silences f.callback_info f.infos, h)

  -- On an idle fetcher a request is answered to its own callback, once.
  pub post_json_async_answers :
      (f : HttpFetcher C Q R) (q : Q) (c : C) (r r' : R)
      → f.thread ≡ []
      → f.running ≡ none
      → (run (posts q c ∷ begins ∷ answers r ∷ begins ∷ answers r' ∷ []) f).notification_thread
        ≡ f.notification_thread ++ (c, r) ∷ []
  unfolding run handle post_json_async begin begin_with post_json_async_internal finish_with
      deliver_at deliver_info deliver
  post_json_async_answers f q c r r' t e =
      let g = get_last f.infos (record { cancelled = false; callback = some c }) in
      ground (arith, g)

  -- Where a second request is posted before the thread starts on the first, an idle fetcher gives both
  -- responses to the second callback, and none to the first.
  pub post_json_async_overtakes :
      (f : HttpFetcher C Q R) (q q' : Q) (c c' : C) (r r' : R)
      → f.thread ≡ []
      → f.running ≡ none
      → (run
          (posts q c ∷ posts q' c' ∷ begins ∷ answers r ∷ begins ∷ answers r' ∷ [])
          f).notification_thread
        ≡ f.notification_thread ++ (c', r) ∷ (c', r') ∷ []
  unfolding run handle post_json_async begin begin_with post_json_async_internal finish_with
      deliver_at deliver_info deliver
  post_json_async_overtakes f q q' c c' r r' t e =
      let first = f.infos ++ record { cancelled = false; callback = some c } ∷ [] in
      let g = get_last first (record { cancelled = false; callback = some c' }) in
      ground (arith, g, append_assoc f.notification_thread ((c', r) ∷ []) ((c', r') ∷ []))

  -- A cancellation reaches the last request alone: the one that is running when another is posted still
  -- gets its response posted after it.
  pub cancel_async_misses_running :
      (f : HttpFetcher C Q R) (q q' : Q) (c c' : C) (r : R)
      → f.thread ≡ []
      → f.running ≡ none
      → (run (posts q c ∷ begins ∷ posts q' c' ∷ cancels ∷ answers r ∷ []) f).notification_thread
        ≡ f.notification_thread ++ (c, r) ∷ []
  unfolding run handle post_json_async begin begin_with post_json_async_internal finish_with
      deliver_at deliver_info deliver cancel_async cancel_at
  cancel_async_misses_running f q q' c c' r t e =
      let x : CallbackInfo C = record { cancelled = false; callback = some c } in
      let y : CallbackInfo C = record { cancelled = false; callback = some c' } in
      ground (arith, cancel_last f.infos x y)
