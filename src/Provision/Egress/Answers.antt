-- ===== src/Provision/Egress/Answers.antt =====
-- What follows the answer of the egress server in krypton/egress_manager.cc.
use vpn_libraries.Prelude.{
  Bool, true, false, Option, some, List, [], ◌∷◌, ◌++◌, not, if◌then◌else◌, length, String,
}
use vpn_libraries.Prelude.Int.{ℤ, pos, eqb_ℤ}
use vpn_libraries.Prelude.Text.{Text}
use vpn_libraries.Utils.Status.{Status, ok_status, HttpResponse, PpnStatusDetails}
use vpn_libraries.Utils.Json.{JsonLibrary}
use vpn_libraries.HttpFetcher.{post_json_async}
use vpn_libraries.Provision.Messages.{KryptonConfig}
use vpn_libraries.Provision.EgressRequest.{PpnDataplaneRequestParams}
use vpn_libraries.Provision.EgressResponse.{
  Outcome, returned, failed, thrown, AddEgressResponse, add_egress_from_proto,
}
use vpn_libraries.Prelude.{ap, length-append, ◌≡◌, refl, sym, subst, arith, ◌+◌, ◌≢◌}
use vpn_libraries.Provision.Egress.{
  run_first, run_callback, EgressManager, EgressNotification, egress_available, egress_unavailable,
  egress_session_error, egress_session_created, notify, set_state, save_spi, save_egress_details,
  record_latency, created, decoded, decode_add_egress_response, get_egress_node_for_ppn_ip_sec,
}

-- A notification more, and none before it changed; the request stays alone.
Told : EgressManager → EgressManager → EgressNotification → Type 0
Told e f n = (f.posted ≡ e.posted ++ n ∷ []) × (f.http_fetcher ≡ e.http_fetcher)

save-posted :
    (config : KryptonConfig) (r : AddEgressResponse) (e : EgressManager)
    → ((save_egress_details config r e).posted ≡ e.posted)
      × ((save_egress_details config r e).http_fetcher ≡ e.http_fetcher)
unfolding save_egress_details save_spi
save-posted config r e = ground arith

Tells : EgressManager → EgressManager → Type 0
unfolding Told
Tells e f = (n : EgressNotification) × Told e f n

then-Tells :
    (e x y : EgressManager) (c : Bool) → Tells e x → Tells e y → Tells e (if c then x else y)
then-Tells e x y true h k = h
then-Tells e x y false h k = k

else-Tells :
    (e x y : EgressManager) (c : Bool) → c ≡ false → Tells e y → Tells e (if c then x else y)
else-Tells e x y c h k = subst (λ b. Tells e (if b then x else y)) (sym h) k

error-Tells :
    (s : Status) (e : EgressManager)
    → Tells e (set_state egress_session_error (record e { latest_status = s }))
unfolding Tells Told set_state notify
error-Tells s e = (egress_unavailable s, (refl, refl))

module _ {J : Type 0} (config : KryptonConfig) (json : JsonLibrary J) (parse_time : Text → Option ℤ)
    (parse_details : String → Option PpnStatusDetails) (base64_escape : Text → Text) where
  created-Tells :
      (k : Bool) (r : AddEgressResponse) (e : EgressManager)
      → Tells e (created config json parse_time parse_details base64_escape k r e)
  unfolding created Tells Told set_state notify
  created-Tells true r e = (egress_available true, (refl, refl))
  created-Tells false r e =
      let e1 =
        set_state egress_session_created
          (record e { latest_status = ok_status; egress_node_response = some r }) in
      let s = save-posted config r e1 in
      (egress_available false, (ap (◌++ egress_available false ∷ []) s.0, s.1))

  decoded-Tells :
      (d : Outcome AddEgressResponse) (k : Bool) (e : EgressManager)
      → d ≢ thrown
      → Tells e (decoded config json parse_time parse_details base64_escape d k e)
  unfolding decoded
  decoded-Tells thrown k e h = absurd (h refl)
  decoded-Tells (failed s) k e h = error-Tells s e
  decoded-Tells (returned r) k e h = created-Tells k r e

  answer-Tells :
      (now : ℤ) (k : Bool) (response : HttpResponse) (e : EgressManager)
      → e.stopped ≡ false
      → add_egress_from_proto json parse_time response ≢ thrown
      → Tells e (
          decode_add_egress_response config json parse_time parse_details base64_escape now k
            response e)
  unfolding decode_add_egress_response record_latency Tells
  answer-Tells now k response e h t =
      let e1 = record_latency now e in
      else-Tells e _ _ e1.stopped h (
        then-Tells e _ _ (not (eqb_ℤ response.status_code (pos 200))) (error-Tells _ e1)
          (decoded-Tells (add_egress_from_proto json parse_time response) k e1 t))

  -- An answer of the egress server that arrives before the stop, and on which the parser does not throw,
  -- is followed by exactly one notification and by no request.
  pub decode_add_egress_response_tells :
      (now : ℤ) (k : Bool) (response : HttpResponse) (e : EgressManager)
      → e.stopped ≡ false
      → add_egress_from_proto json parse_time response ≢ thrown
      → let f =
          decode_add_egress_response config json parse_time parse_details base64_escape now k
            response e in
        (n : EgressNotification) × ((f.posted ≡ e.posted ++ n ∷ [])
          × (f.http_fetcher ≡ e.http_fetcher))
  unfolding Tells Told
  decode_add_egress_response_tells now k response e h t = answer-Tells now k response e h t

  -- After the stop an answer leads to nothing.
  pub decode_add_egress_response_stopped :
      (now : ℤ) (k : Bool) (response : HttpResponse) (e : EgressManager)
      → e.stopped ≡ true
      → let f =
          decode_add_egress_response config json parse_time parse_details base64_escape now k
            response e in
        (f.posted ≡ e.posted) × (f.stopped ≡ true)
  unfolding decode_add_egress_response record_latency Tells
  decode_add_egress_response_stopped now k response e h = ground arith

  run_first_stopped :
      (rs : List (Bool × HttpResponse)) (now : ℤ) (e : EgressManager)
      → e.stopped ≡ true
      → let f = run_first config json parse_time parse_details base64_escape rs now e in
        (f.posted ≡ e.posted) × (f.stopped ≡ true)
  unfolding run_first
  run_first_stopped [] now e h = (refl, h)
  run_first_stopped ((k, r) ∷ rs) now e h =
      decode_add_egress_response_stopped now k r
        (record e { http_fetcher = record e.http_fetcher { notification_thread = rs } }) h

  pub egress_run_stopped :
      (now : ℤ) (e : EgressManager)
      → e.stopped ≡ true
      → let f = run_callback config json parse_time parse_details base64_escape now e in
        (f.posted ≡ e.posted) × (f.stopped ≡ true)
  unfolding run_callback
  egress_run_stopped now e h = run_first_stopped e.http_fetcher.notification_thread now e h

  pub request_outcomes :
      (now : ℤ) (params : PpnDataplaneRequestParams) (e : EgressManager)
      → let f =
          get_egress_node_for_ppn_ip_sec config json parse_time parse_details base64_escape now
            params e in
        (f.posted ≡ e.posted) × (length f.http_fetcher.infos ≡ length e.http_fetcher.infos + 1)
  unfolding get_egress_node_for_ppn_ip_sec post_json_async
  request_outcomes now params e = (
    refl,
    length-append e.http_fetcher.infos
        (record { cancelled = false; callback = some params.is_rekey } ∷ []),
  )
