-- ===== src/Tunnel.antt =====
-- krypton/tunnel_manager.h and tunnel_manager.cc: who may close the tunnel, and when. The platform's
-- VpnServiceInterface is a parameter: what CreateTunnel answers may depend on all the calls before
-- it. The calls are kept in a log, newest first, each creation with whether it succeeded.
pub mod Safety
pub mod Platform
use vpn_libraries.Prelude.{
  ◌≡◌, Bool, true, false, Option, none, some, List, [], ◌∷◌, ◌&&◌, ◌||◌, not, if◌then◌else◌,
}
use vpn_libraries.Utils.Status.{Status, ok_status, error_status, internal, is_ok}
use vpn_libraries.Utils.ProtoComparison.{TunFdData, tun_fd_data_equiv}

pub data VpnCall : Type 0 where
  created refused : TunFdData → VpnCall
  closed : VpnCall

-- What VpnServiceInterface::CreateTunnel answers, after the calls so far.
abbrev pub VpnService : Type 0
VpnService = List VpnCall → TunFdData → Status

pub record TunnelManager : Type 0 where
  pub vpn_calls : List VpnCall
  pub tunnel_is_up : Bool
  pub active_tunnel_data : Option TunFdData
  pub safe_disconnect_enabled : Bool
  pub datapath_active : Bool

unfoldable pub new_tunnel_manager : Bool → TunnelManager
new_tunnel_manager safe_disconnect_enabled = record {
  vpn_calls = [];
  tunnel_is_up = false;
  active_tunnel_data = none;
  safe_disconnect_enabled = safe_disconnect_enabled;
  datapath_active = false;
}

-- vpn_service_->CloseTunnel(), and the flag that goes with it.
abbrev close_tunnel : TunnelManager → TunnelManager
close_tunnel t = record t { vpn_calls = closed ∷ t.vpn_calls; tunnel_is_up = false }

unfoldable pub stop : TunnelManager → TunnelManager
stop t = record (close_tunnel t) { datapath_active = false }

unfoldable pub set_safe_disconnect_enabled : TunnelManager → Bool → TunnelManager
set_safe_disconnect_enabled t enable =
    let t' = record t { safe_disconnect_enabled = enable } in
    if not t'.datapath_active && t'.tunnel_is_up then close_tunnel t' else t'

unfoldable pub is_safe_disconnect_enabled : TunnelManager → Bool
is_safe_disconnect_enabled t = t.safe_disconnect_enabled

unfoldable pub datapath_started : TunnelManager → TunnelManager
datapath_started t = record t { datapath_active = true }

unfoldable pub datapath_stopped : TunnelManager → Bool → TunnelManager
datapath_stopped t force_fail_open =
    let t' =
      if t.tunnel_is_up && (force_fail_open || not t.safe_disconnect_enabled)
      then close_tunnel t
      else t in
    record t' { datapath_active = false }

unfoldable pub is_tunnel_active : TunnelManager → Bool
is_tunnel_active t = t.tunnel_is_up

-- tunnel_is_up_ && active_tunnel_data_.has_value() && TunFdDataEquiv(…).
same_tunnel : TunnelManager → TunFdData → Option TunFdData → Bool
same_tunnel t d none = false
same_tunnel t d (some active) = t.tunnel_is_up && tun_fd_data_equiv d active

module _ (vpn : VpnService) where
  -- Asks the platform; on success `done` is the new state, with the call in its log.
  request : TunnelManager → TunFdData → (TunnelManager → TunnelManager) → TunnelManager × Status
  request t d done =
      let s = vpn t.vpn_calls d in
      if is_ok s
      then (done (record t { vpn_calls = created d ∷ t.vpn_calls }), ok_status)
      else (record t { vpn_calls = refused d ∷ t.vpn_calls }, s)

  unfoldable pub create_tunnel : TunnelManager → TunFdData → Bool → TunnelManager × Status
  unfolding request same_tunnel
  create_tunnel t tunnel_data force_tunnel_update =
      if same_tunnel t tunnel_data t.active_tunnel_data && not force_tunnel_update
      then (t, ok_status)
      else request t tunnel_data
          (λ t'. record t' { tunnel_is_up = true; active_tunnel_data = some tunnel_data })

  resume_data : TunnelManager → Option TunFdData → TunnelManager × Status
  unfolding request
  resume_data t none = (t, ok_status)
  resume_data t (some d) = request t d (λ t'. record t' { tunnel_is_up = true })

  unfoldable pub resume_tunnel : TunnelManager → TunnelManager × Status
  unfolding resume_data
  resume_tunnel t =
      if not t.safe_disconnect_enabled
      then (t, ok_status)
      else if t.tunnel_is_up
      then (t, ok_status)
      else resume_data t t.active_tunnel_data

  recreate_data : TunnelManager → Option TunFdData → TunnelManager × Status
  unfolding request
  recreate_data t none = (t, error_status internal "Missing tunnel data to recreate.")
  recreate_data t (some d) = request t d (λ t'. t')

  unfoldable pub recreate_tunnel : TunnelManager → TunnelManager × Status
  unfolding recreate_data
  recreate_tunnel t =
      if not t.tunnel_is_up then (t, ok_status) else recreate_data t t.active_tunnel_data

-- The calls that other components make, one constructor for each.
pub data TunnelOp : Type 0 where
  start_datapath stop_all resume recreate : TunnelOp
  create : TunFdData → Bool → TunnelOp
  stop_datapath set_safe_disconnect : Bool → TunnelOp

module _ (vpn : VpnService) where
  unfoldable pub step : TunnelManager → TunnelOp → TunnelManager
  unfolding datapath_started stop resume_tunnel recreate_tunnel create_tunnel datapath_stopped
      set_safe_disconnect_enabled
  step t start_datapath = datapath_started t
  step t stop_all = stop t
  step t resume = (resume_tunnel vpn t).0
  step t recreate = (recreate_tunnel vpn t).0
  step t (create d force) = (create_tunnel vpn t d force).0
  step t (stop_datapath force) = datapath_stopped t force
  step t (set_safe_disconnect enable) = set_safe_disconnect_enabled t enable

  unfoldable pub run : TunnelManager → List TunnelOp → TunnelManager
  run t [] = t
  run t (o ∷ os) = run (step t o) os
