-- ===== src/Provision/Control.antt =====
-- krypton/provision.h and provision.cc: authentication and egress put together. The closures that Auth and
-- EgressManager post wait on the looper of Provision; what Provision posts for the session is kept in a
-- list, oldest first.
pub mod Flagged
pub mod Told
pub mod Dataplane
pub mod Steps
use vpn_libraries.Prelude.{
  ℕ, Bool, true, false, Option, none, some, List, [], ◌∷◌, ◌++◌, map, String, if◌then◌else◌,
}
use vpn_libraries.Prelude.Int.{ℤ}
use vpn_libraries.Prelude.Text.{Text, is_empty}
use vpn_libraries.Utils.Status.{
  Status, StatusOr, value, error, error_status, failed_precondition, is_permanent_error,
}
use vpn_libraries.Utils.IpRange.{NetLibrary}
use vpn_libraries.Provision.EgressResponse.{
  AddEgressResponse, DataplaneResponse, ppn_dataplane_response,
}
use vpn_libraries.Provision.Auth.{
  Auth, AuthEnv, Platform, AuthNotification, auth_successful, auth_failure,
}
use vpn_libraries.Provision.Egress.{
  EgressManager, EgressNotification, egress_available, egress_unavailable,
  get_egress_session_details, new_egress_manager,
}

-- Provision::NotificationInterface: what the session is told.
pub data ProvisionNotification : Type 0 where
  ready_for_add_egress : Bool → ProvisionNotification
  provisioned : AddEgressResponse → Bool → ProvisionNotification
  provisioning_failure : Status → Bool → ProvisionNotification

-- A closure on the looper of Provision.
pub data Closure : Type 0 where
  from_auth : AuthNotification → Closure
  from_egress : EgressNotification → Closure

-- The libraries, and the platform's LookupDns.
pub record ProvisionEnv (J C X V B : Type 0) : Type 0 where
  pub auth_env : AuthEnv J C X V B
  pub net_library : NetLibrary
  pub parse_time : Text → Option ℤ
  pub lookup_dns : Text → StatusOr Text

pub record Provision (C V B : Type 0) : Type 0 where
  pub auth : Auth C V B
  pub egress_manager : EgressManager
  pub looper : List Closure
  pub control_plane_addr : Text
  pub posted : List ProvisionNotification

module _ {C V B : Type 0} where
  unfoldable pub new_provision : Auth C V B → Provision C V B
  unfolding new_egress_manager
  new_provision auth = record {
    auth = auth;
    egress_manager = new_egress_manager;
    looper = [];
    control_plane_addr = [];
    posted = [];
  }

  unfoldable pub notify : ProvisionNotification → Provision C V B → Provision C V B
  notify n v = record v { posted = v.posted ++ n ∷ [] }

  unfoldable pub fail_with_status : Status → Provision C V B → Provision C V B
  unfolding notify
  fail_with_status status v = notify (provisioning_failure status (is_permanent_error status)) v

  -- A step of Auth: what it posts goes to the looper of Provision.
  unfoldable pub on_auth : (Auth C V B → Auth C V B) → Provision C V B → Provision C V B
  on_auth f v =
      let a = f v.auth in
      record v { auth = record a { posted = [] }; looper = v.looper ++ map from_auth a.posted }

  unfoldable pub on_egress : (EgressManager → EgressManager) → Provision C V B → Provision C V B
  on_egress f v =
      let e = f v.egress_manager in
      record v {
        egress_manager = record e { posted = [] };
        looper = v.looper ++ map from_egress e.posted;
      }

  unfoldable pub get_apn_type : Provision C V B → Text
  get_apn_type v = v.auth.auth_and_sign_response.apn_type

  unfoldable pub get_control_plane_addr : Provision C V B → StatusOr Text
  get_control_plane_addr v =
      if is_empty v.control_plane_addr
      then error (error_status failed_precondition "Control plane addr not set")
      else value v.control_plane_addr

  -- Provision::AuthSuccessful and AuthFailure.
  unfoldable pub handle_auth : AuthNotification → Provision C V B → Provision C V B
  unfolding notify fail_with_status
  handle_auth (auth_successful is_rekey) v = notify (ready_for_add_egress is_rekey) v
  handle_auth (auth_failure status) v = fail_with_status status v

  unfoldable pub parse_control_plane_sockaddr :
      DataplaneResponse → Provision C V B → Provision C V B
  parse_control_plane_sockaddr r v =
      if is_empty r.control_plane_addr
      then v
      else record v { control_plane_addr = r.control_plane_addr }

  control_plane_from : StatusOr DataplaneResponse → Provision C V B → Provision C V B
  unfolding parse_control_plane_sockaddr
  control_plane_from (error s) v = v
  control_plane_from (value r) v = parse_control_plane_sockaddr r v

  available_with : StatusOr AddEgressResponse → Bool → Provision C V B → Provision C V B
  unfolding control_plane_from notify fail_with_status
  available_with (error s) is_rekey v = fail_with_status s v
  available_with (value r) is_rekey v =
      notify (provisioned r is_rekey)
        (if is_rekey then v else control_plane_from (ppn_dataplane_response r) v)

  -- Provision::EgressAvailable and EgressUnavailable.
  unfoldable pub handle_egress : EgressNotification → Provision C V B → Provision C V B
  unfolding available_with fail_with_status
  handle_egress (egress_available is_rekey) v =
      available_with (get_egress_session_details v.egress_manager) is_rekey v
  handle_egress (egress_unavailable status) v = fail_with_status status v

  unfoldable pub run_closure : Closure → Provision C V B → Provision C V B
  unfolding handle_auth handle_egress
  run_closure (from_auth n) v = handle_auth n v
  run_closure (from_egress n) v = handle_egress n v

  run_from : List Closure → Provision C V B → Provision C V B
  unfolding run_closure
  run_from [] v = v
  run_from (c ∷ rest) v = run_closure c (record v { looper = rest })

  -- The looper of Provision runs its first closure.
  unfoldable pub run_looper : Provision C V B → Provision C V B
  unfolding run_from
  run_looper v = run_from v.looper v
