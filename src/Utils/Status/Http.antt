-- ===== src/Utils/Status/Http.antt =====
-- What the HTTP statuses of krypton/utils/status.cc come to.
use vpn_libraries.Prelude.{ℕ, ◌≤◌, ◌<◌, ◌≡◌, ◌⊎◌, ◌↔◌, true, String, arith, Option, none}
use vpn_libraries.Prelude.Int.{ℤ, pos}
use vpn_libraries.Utils.Status.{
  is_ok, is_permanent_error, get_status_for_http_status, get_status_for_http_response, HttpResponse,
  PpnStatusDetails,
}

-- An HTTP status is turned into OK exactly when it lies in the range 200 to 299.
pub http_ok_iff :
    (n : ℕ) (m : String)
    → (is_ok (get_status_for_http_status (pos n) m) ≡ true) ↔ ((200 ≤ n) × (n < 300))
unfolding get_status_for_http_status
http_ok_iff n m = (λ h. (ground arith, ground arith), λ h. ground arith)

-- Of all HTTP statuses, the negative ones included, exactly 403 and 412 give a permanent error.
pub http_permanent_iff :
    (n : ℤ) (m : String)
    → (is_permanent_error (get_status_for_http_status n m) ≡ true) ↔ ((n ≡ pos 403) ⊎ (n ≡ pos 412))
unfolding get_status_for_http_status is_permanent_error
http_permanent_iff n m = (λ h. ground arith, λ h. ground arith)

-- A response with a code in the range gives OK, whatever its body says.
pub http_ok_response :
    (parse_details : String → Option PpnStatusDetails) (r : HttpResponse) (n : ℕ)
    → r.status_code ≡ pos n
    → 200 ≤ n
    → n < 300
    → is_ok (get_status_for_http_response parse_details r none) ≡ true
unfolding get_status_for_http_response
http_ok_response parse_details r n e lo hi =
    let k : is_ok (get_status_for_http_status r.status_code r.status_message) ≡ true =
      rw e ((http_ok_iff n r.status_message).1 (lo, hi)) in
    ground (arith, k)
