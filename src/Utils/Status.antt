-- ===== src/Utils/Status.antt =====
-- krypton/utils/status.cc over absl::Status: a code, a message and at most one payload, the
-- PpnStatusDetails (protobuf's encoding of the payload is not modelled: the payload is its value).
-- A message that the source assembles at run time is kept only in its constant part.
pub mod Http
use vpn_libraries.Prelude.{
  ℕ, ◌≡◌, Bool, true, false, Option, none, some, ◌∷◌, ◌&&◌, ◌||◌, ltb, leb, ◌==◌, if◌then◌else◌,
  String, List,
}
use vpn_libraries.Prelude.Int.{ℤ, pos, negsuc}

-- absl::StatusCode.
pub data StatusCode : Type 0 where
  ok cancelled unknown invalid_argument deadline_exceeded not_found : StatusCode
  already_exists permission_denied resource_exhausted failed_precondition : StatusCode
  aborted out_of_range unimplemented internal unavailable data_loss unauthenticated : StatusCode

-- The number of a code, as absl::Status::raw_code returns it.
unfoldable pub raw_code : StatusCode → ℕ
raw_code ok = 0
raw_code cancelled = 1
raw_code unknown = 2
raw_code invalid_argument = 3
raw_code deadline_exceeded = 4
raw_code not_found = 5
raw_code already_exists = 6
raw_code permission_denied = 7
raw_code resource_exhausted = 8
raw_code failed_precondition = 9
raw_code aborted = 10
raw_code out_of_range = 11
raw_code unimplemented = 12
raw_code internal = 13
raw_code unavailable = 14
raw_code data_loss = 15
raw_code unauthenticated = 16

-- The enum of the proto is open: any number can arrive.
pub record PpnStatusDetails : Type 0 where
  pub detailed_error_code : ℕ
  pub auth_internal_error_code : ℕ

abbrev disallowed_country : ℕ
disallowed_country = 1

abbrev library_not_found : ℕ
library_not_found = 2

abbrev pub vpn_permission_revoked : ℕ
vpn_permission_revoked = 4

abbrev oasis_disabled : ℕ
oasis_disabled = 5

-- PpnStatusDetails_DetailedErrorCode_IsValid: the enum has the numbers 0 to 5.
abbrev error_code_is_valid : ℕ → Bool
error_code_is_valid n = leb n 5

abbrev default_details : PpnStatusDetails
default_details = record { detailed_error_code = 0; auth_internal_error_code = 0 }

pub record Status : Type 0 where
  pub code : StatusCode
  pub message : String
  pub payload : Option PpnStatusDetails

abbrev pub ok_status : Status
ok_status = record { code = ok; message = ""; payload = none }

-- An error of code `c`, with no payload.
abbrev pub error_status : StatusCode → String → Status
error_status c m = record { code = c; message = m; payload = none }

abbrev pub is_ok_code : StatusCode → Bool
is_ok_code ok = true
is_ok_code _ = false

abbrev pub is_ok : Status → Bool
is_ok s = is_ok_code s.code

-- absl::StatusOr.
pub data StatusOr {ℓ} (A : Type ℓ) : Type ℓ where
  value : A → StatusOr A
  error : Status → StatusOr A

-- PPN_ASSIGN_OR_RETURN: an error is returned as it is.
infixl 5 ◌>>=◌
abbrev pub ◌>>=◌ {ℓ κ} : {A : Type ℓ} {B : Type κ} → StatusOr A → (A → StatusOr B) → StatusOr B
value a >>= f = f a
error s >>= f = error s

-- absl::Status::SetPayload does nothing to an OK status.
unfoldable pub set_ppn_status_details : Status → PpnStatusDetails → Status
set_ppn_status_details s d = if is_ok s then s else record s { payload = some d }

abbrev details_of : Option PpnStatusDetails → PpnStatusDetails
details_of none = default_details
details_of (some d) = d

unfoldable pub get_ppn_status_details : Status → PpnStatusDetails
get_ppn_status_details s = details_of s.payload

abbrev permanent_detail : ℕ → Bool
permanent_detail n = n == disallowed_country || n == library_not_found || n == oasis_disabled

is_permanent_code : StatusCode → Status → Bool
unfolding get_ppn_status_details
is_permanent_code permission_denied s = true
is_permanent_code failed_precondition s =
    permanent_detail (get_ppn_status_details s).detailed_error_code
is_permanent_code _ s = false

unfoldable pub is_permanent_error : Status → Bool
unfolding is_permanent_code
is_permanent_error s = is_permanent_code s.code s

create_disallowed_country_status : String → Status
unfolding set_ppn_status_details
create_disallowed_country_status message =
    set_ppn_status_details (error_status failed_precondition message)
      (record { detailed_error_code = disallowed_country; auth_internal_error_code = 0 })

-- The `switch`, and the ranges behind it. An int is an integer; a negative one is none of these.
http_status_of_nat : ℕ → String → Status
unfolding create_disallowed_country_status
http_status_of_nat n message =
    if n == 200
    then ok_status
    else if n == 400
    then error_status invalid_argument message
    else if n == 401
    then error_status unauthenticated message
    else if n == 403
    then error_status permission_denied message
    else if n == 404
    then error_status not_found message
    else if n == 409
    then error_status aborted message
    else if n == 412
    then create_disallowed_country_status message
    else if n == 429
    then error_status resource_exhausted message
    else if n == 499
    then error_status cancelled message
    else if n == 500
    then error_status internal message
    else if n == 501
    then error_status unimplemented message
    else if n == 503
    then error_status unavailable message
    else if n == 504
    then error_status deadline_exceeded message
    else if leb 200 n && ltb n 300
    then ok_status
    else if leb 400 n && ltb n 500
    then error_status failed_precondition message
    else if leb 500 n && ltb n 600
    then error_status internal message
    else error_status unknown message

unfoldable pub get_status_for_http_status : ℤ → String → Status
unfolding http_status_of_nat
get_status_for_http_status (pos n) message = http_status_of_nat n message
get_status_for_http_status (negsuc n) message = error_status unknown message

pub record HttpResponse : Type 0 where
  pub status_code : ℤ
  pub status_message : String
  pub json_body : Option String
  pub proto_body : Option String

-- PpnStatusDetails::ParseFromString of protobuf is a parameter.
module _ (parse_details : String → Option PpnStatusDetails) where
  attach_details : Status → Option PpnStatusDetails → Status
  unfolding set_ppn_status_details
  attach_details s none = s
  attach_details s (some d) =
      if error_code_is_valid d.detailed_error_code then set_ppn_status_details s d else s

  attach_body : Status → Option String → Status
  unfolding attach_details
  attach_body s none = s
  attach_body s (some body) = attach_details s (parse_details body)

  abbrev message_or : Option String → String → String
  message_or none m = m
  message_or (some alternate) m = alternate

  unfoldable pub get_status_for_http_response : HttpResponse → Option String → Status
  unfolding get_status_for_http_status attach_body
  get_status_for_http_response r alternate_message =
      let status =
        get_status_for_http_status r.status_code (message_or alternate_message r.status_message) in
      if is_ok status then status else attach_body status r.proto_body
