-- ===== src/Provision/Auth/Handlers/Answers.antt =====
-- That every response leads on in krypton/auth.cc, and what still happens after the stop.
use vpn_libraries.Prelude.{
  ℕ, ◌+◌, ◌≤◌, ◌<◌, ◌≡◌, refl, sym, ◌∙◌, ap, subst, ◌⊎◌, inl, inr, arith, Bool, true, false, Option,
  none, some, List, [], ◌∷◌, ◌++◌, if◌then◌else◌, length, length-append,
}
use vpn_libraries.Prelude.Int.{pos}
use vpn_libraries.Prelude.Text.{Text}
use vpn_libraries.Utils.Status.{Status, HttpResponse, is_ok, get_status_for_http_response}
use vpn_libraries.Utils.Status.Http.{http_ok_response}
use vpn_libraries.Provision.Auth.{
  record_request_latency, Auth, AuthEnv, Platform, AuthCallback, auth_and_sign_response,
  public_key_response, initial_data_response, auth_failure, raise_auth_failure_notification, fail,
  Continuation, authenticates, authenticates_metadata,
}
use vpn_libraries.Provision.Auth.Answers.{Fails, Asks, Tries, authenticate-Tries}
use vpn_libraries.Provision.Auth.Tokens.{record_zinc_latency, handle_auth_and_sign_response}
use vpn_libraries.Provision.Auth.InitialData.{handle_initial_data_response}
use vpn_libraries.Provision.Auth.InitialData.Asked.{metadata-Tries}
use vpn_libraries.Provision.Auth.Handlers.{
  handle_public_key_response, handle, resume, run_next, run_first, run_callback,
}

-- 1 where the thread of Auth is between two sections under the mutex.
abbrev pub pending : Option Continuation → ℕ
pending none = 0
pending (some c) = 1

-- What was told and what may still be: after the stop it does not grow.
abbrev pub AtMost : {C V B : Type 0} → Auth C V B → Auth C V B → Type 0
AtMost a b =
    (length b.posted + pending b.continuation ≤ length a.posted + pending a.continuation)
    × (b.stopped ≡ true)

module _ {J C X V B : Type 0} (env : AuthEnv J C X V B) where
  resume-Tries : (p : Platform) (c : Continuation) (a : Auth C V B) → Tries a (resume env p c a)
  unfolding resume
  resume-Tries p (authenticates k n) a = authenticate-Tries env p k n a
  resume-Tries p (authenticates_metadata r k t n) a = metadata-Tries env r p k t n a

  -- What the thread goes on to behind the mutex either posts one notification of a failure and sends no
  -- request, or sends one request and posts nothing. The stop is not asked for: this holds after it too.
  pub resume_answers :
      (p : Platform) (c : Continuation) (a : Auth C V B)
      → let b = resume env p c a in Fails a b ⊎ Asks a b
  unfolding Tries
  resume_answers p c a = (resume-Tries p c a).0

  -- What a response that comes too late leaves as it is.
  Kept : Auth C V B → Auth C V B → Type 0
  Kept a b = (b.posted ≡ a.posted) × (b.continuation ≡ a.continuation) × (b.stopped ≡ true)

  then-Kept : (a x y : Auth C V B) (c : Bool) → c ≡ true → Kept a x → Kept a (if c then x else y)
  then-Kept a x y c e h = subst (λ b. Kept a (if b then x else y)) (sym e) h

  handle-Kept :
      (p : Platform) (callback : AuthCallback) (response : HttpResponse) (a : Auth C V B)
      → a.stopped ≡ true
      → Kept a (handle env p callback response a)
  unfolding handle handle_public_key_response handle_auth_and_sign_response
      handle_initial_data_response record_zinc_latency record_request_latency Kept
  handle-Kept p (auth_and_sign_response k) r a h =
      then-Kept a (record_zinc_latency p.now a) _ a.stopped h (refl, refl, h)
  handle-Kept p (public_key_response k) r a h =
      then-Kept a (record_request_latency p.now a) _ a.stopped h (refl, refl, h)
  handle-Kept p (initial_data_response k t) r a h =
      then-Kept a (record_request_latency p.now a) _ a.stopped h (refl, refl, h)

  Kept-AtMost : (a b : Auth C V B) → Kept a b → AtMost a b
  unfolding Kept
  Kept-AtMost a b h = let e = ap length h.0 in let f = ap pending h.1 in (omega (arith, e, f), h.2)

  Tries-AtMost :
      (c : Continuation) (a b : Auth C V B)
      → a.continuation ≡ some c
      → a.stopped ≡ true
      → Tries (record a { continuation = none }) b
      → AtMost a b
  unfolding Tries
  Tries-AtMost c a b e h (inl (s, (p, f)), t, k) =
      let l = ap length p ∙ length-append a.posted (auth_failure s ∷ []) in
      let x = ap pending e in let y = ap pending k in (omega (arith, l, x, y), t ∙ h)
  Tries-AtMost c a b e h (inr (s, (p, f)), t, k) =
      let l = ap length p in
      let x = ap pending e in let y = ap pending k in (omega (arith, l, x, y), t ∙ h)

  first-AtMost :
      (rs : List (AuthCallback × HttpResponse)) (p : Platform) (a : Auth C V B)
      → a.stopped ≡ true
      → AtMost a (run_first env rs p a)
  unfolding run_first
  first-AtMost [] p a h = (omega arith, h)
  first-AtMost ((c, r) ∷ rs) p a h =
      let f = record a.http_fetcher { notification_thread = rs } in
      Kept-AtMost (record a { http_fetcher = f }) _
        (handle-Kept p c r (record a { http_fetcher = f }) h)

  next-AtMost :
      (o : Option Continuation) (p : Platform) (a : Auth C V B)
      → a.continuation ≡ o
      → a.stopped ≡ true
      → AtMost a (run_next env o p a)
  unfolding run_next
  next-AtMost none p a e h = first-AtMost a.http_fetcher.notification_thread p a h
  next-AtMost (some c) p a e h =
      Tries-AtMost c a _ e h (resume-Tries p c (record a { continuation = none }))

  pub run_callback-AtMost :
      (p : Platform) (a : Auth C V B) → a.stopped ≡ true → AtMost a (run_callback env p a)
  unfolding run_callback
  run_callback-AtMost p a h = next-AtMost a.continuation p a refl h

  -- An answer to AuthAndSign with a code from 201 to 299 is reported as a failure whose status is OK.
  pub handle_auth_and_sign_ok_failure :
      (p : Platform) (k : Bool) (response : HttpResponse) (a : Auth C V B) (n : ℕ)
      → a.stopped ≡ false
      → response.status_code ≡ pos n
      → 201 ≤ n
      → n < 300
      → (s : Status) × ((handle_auth_and_sign_response env p k response a).posted
          ≡ a.posted ++ auth_failure s ∷ [])
        × (is_ok s ≡ true)
  unfolding handle_auth_and_sign_response record_zinc_latency fail raise_auth_failure_notification
  handle_auth_and_sign_ok_failure p k response a n h e lo hi =
      let s = get_status_for_http_response env.parse_details response none in
      (s, ground arith, http_ok_response env.parse_details response n e (omega arith) hi)
