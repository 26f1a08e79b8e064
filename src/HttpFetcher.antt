-- ===== src/HttpFetcher.antt =====
-- krypton/http_fetcher.h and http_fetcher.cc: asynchronous requests. The fetcher's thread runs one closure
-- after another; a closure reads `callback_info_` when it starts, not when it was posted, so the objects
-- that the pointer refers to are kept in a store. What the platform's PostJson answers is an argument of
-- the step in which it returns.
pub mod Cancel
use vpn_libraries.Prelude.{
  ℕ, suc, zero, Bool, true, false, Option, none, some, List, [], ◌∷◌, ◌++◌, if◌then◌else◌, length,
  get_elem?,
}

-- Callbacks are values of a type C.
pub record CallbackInfo {ℓ} (C : Type ℓ) : Type ℓ where
  pub cancelled : Bool
  pub callback : Option C

-- Q are the requests and R the responses. `running` is the request that PostJson is performing, with the
-- pointer that was handed to it; `notification_thread` is what was posted on the notification thread, oldest
-- first.
pub record HttpFetcher {ℓ} (C Q R : Type ℓ) : Type ℓ where
  pub infos : List (CallbackInfo C)
  pub callback_info : Option ℕ
  pub thread : List Q
  pub running : Option (Q × Option ℕ)
  pub notification_thread : List (C × R)
  pub called : List (C × R)

module _ {ℓ} {C : Type ℓ} where
  -- CancelAsync writes into the object that the pointer refers to.
  unfoldable pub cancel_info : ℕ → List (CallbackInfo C) → List (CallbackInfo C)
  cancel_info i [] = []
  cancel_info zero (x ∷ xs) = record { cancelled = true; callback = none } ∷ xs
  cancel_info (suc i) (x ∷ xs) = x ∷ cancel_info i xs

  cancel_at : Option ℕ → List (CallbackInfo C) → List (CallbackInfo C)
  unfolding cancel_info
  cancel_at none infos = infos
  cancel_at (some i) infos = cancel_info i infos

-- What happens to a fetcher: a call, or a step of its thread.
pub data Event {ℓ} (C Q R : Type ℓ) : Type ℓ where
  posts : Q → C → Event C Q R
  cancels begins calls : Event C Q R
  answers : R → Event C Q R

module _ {ℓ} {C Q R : Type ℓ} where
  unfoldable pub new_http_fetcher : HttpFetcher C Q R
  new_http_fetcher = record {
    infos = [];
    callback_info = none;
    thread = [];
    running = none;
    notification_thread = [];
    called = [];
  }

  unfoldable pub cancel_async : HttpFetcher C Q R → HttpFetcher C Q R
  unfolding cancel_at
  cancel_async f = record f { infos = cancel_at f.callback_info f.infos }

  unfoldable pub post_json_async : Q → C → HttpFetcher C Q R → HttpFetcher C Q R
  post_json_async request callback f = record f {
    infos = f.infos ++ record { cancelled = false; callback = some callback } ∷ [];
    callback_info = some (length f.infos);
    thread = f.thread ++ request ∷ [];
  }

  begin_with : List Q → Option (Q × Option ℕ) → HttpFetcher C Q R → HttpFetcher C Q R
  begin_with thread (some r) f = f
  begin_with [] none f = f
  begin_with (request ∷ thread) none f = record f {
    thread = thread;
    running = some (request, f.callback_info);
  }

  -- The thread takes its next closure, once it is done with the one before.
  unfoldable pub begin : HttpFetcher C Q R → HttpFetcher C Q R
  unfolding begin_with
  begin f = begin_with f.thread f.running f

  deliver : Option C → R → HttpFetcher C Q R → HttpFetcher C Q R
  deliver none response f = f
  deliver (some callback) response f = record f {
    notification_thread = f.notification_thread ++ (callback, response) ∷ [];
  }

  deliver_info : Option (CallbackInfo C) → R → HttpFetcher C Q R → HttpFetcher C Q R
  unfolding deliver
  deliver_info none response f = f
  deliver_info (some info) response f =
      if info.cancelled then f else deliver info.callback response f

  deliver_at : Option ℕ → R → HttpFetcher C Q R → HttpFetcher C Q R
  unfolding deliver_info
  deliver_at none response f = f
  deliver_at (some i) response f = deliver_info (get_elem? f.infos i) response f

  finish_with : Option (Q × Option ℕ) → R → HttpFetcher C Q R → HttpFetcher C Q R
  unfolding deliver_at
  finish_with none response f = f
  finish_with (some (request, info)) response f =
      deliver_at info response (record f { running = none })

  -- PostJson returns, and the rest of PostJsonAsyncInternal runs.
  unfoldable pub post_json_async_internal : R → HttpFetcher C Q R → HttpFetcher C Q R
  unfolding finish_with
  post_json_async_internal response f = finish_with f.running response f

  call_from : List (C × R) → HttpFetcher C Q R → HttpFetcher C Q R
  call_from [] f = f
  call_from (c ∷ rest) f = record f { notification_thread = rest; called = f.called ++ c ∷ [] }

  -- The notification thread runs its first closure, which calls the callback.
  unfoldable pub call_first : HttpFetcher C Q R → HttpFetcher C Q R
  unfolding call_from
  call_first f = call_from f.notification_thread f

  unfoldable pub handle : Event C Q R → HttpFetcher C Q R → HttpFetcher C Q R
  unfolding post_json_async cancel_async begin post_json_async_internal call_first
  handle (posts request callback) f = post_json_async request callback f
  handle cancels f = cancel_async f
  handle begins f = begin f
  handle calls f = call_first f
  handle (answers response) f = post_json_async_internal response f

  unfoldable pub run : List (Event C Q R) → HttpFetcher C Q R → HttpFetcher C Q R
  unfolding handle
  run [] f = f
  run (e ∷ es) f = run es (handle e f)
