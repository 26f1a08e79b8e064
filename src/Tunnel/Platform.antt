-- ===== src/Tunnel/Platform.antt =====
-- The tunnel that the platform holds, against what krypton/tunnel_manager.cc believes.
use vpn_libraries.Prelude.{
  ◌≡◌, refl, ◌⊎◌, inl, inr, Bool, true, false, Option, none, some, List, [], ◌∷◌, is_some, arith,
  Bool-cases, Option-cases, if◌then◌else◌,
}
use vpn_libraries.Utils.ProtoComparison.{TunFdData}
use vpn_libraries.Utils.Status.{is_ok, ok_status}
use vpn_libraries.Tunnel.{
  TunnelManager, VpnService, VpnCall, created, refused, closed, TunnelOp, start_datapath, stop_all,
  resume, recreate, create, stop_datapath, set_safe_disconnect, step, run, new_tunnel_manager,
  recreate_tunnel,
}

-- The platform's tunnel after the calls, newest first: the last one created and not closed. A refused
-- creation leaves it on the platforms that allow it (krypton/pal/vpn_service_interface.h), which is what
-- `keeps` says of a platform.
abbrev pub platform_tunnel : Bool → List VpnCall → Option TunFdData
platform_tunnel keeps [] = none
platform_tunnel keeps (created d ∷ calls) = some d
platform_tunnel keeps (refused d ∷ calls) = if keeps then platform_tunnel keeps calls else none
platform_tunnel keeps (closed ∷ calls) = none

-- The last call of the platform was a creation that it refused.
abbrev pub was_refused : List VpnCall → Bool
was_refused [] = false
was_refused (created d ∷ calls) = false
was_refused (refused d ∷ calls) = true
was_refused (closed ∷ calls) = false

pub record Agrees (keeps : Bool) (t : TunnelManager) : Type 0 where
  pub same :
      (platform_tunnel keeps t.vpn_calls ≡ (if t.tunnel_is_up then t.active_tunnel_data else none))
      ⊎ ((keeps ≡ false)
          × (was_refused t.vpn_calls ≡ true)
          × (platform_tunnel keeps t.vpn_calls ≡ none))
  pub has_data : (t.tunnel_is_up ≡ false) ⊎ (is_some t.active_tunnel_data ≡ true)

step-Agrees :
    (keeps : Bool) (vpn : VpnService) (t : TunnelManager) (o : TunnelOp)
    → Agrees keeps t
    → Agrees keeps (step vpn t o)
unfolding step
step-Agrees keeps vpn t start_datapath a = ground arith
step-Agrees keeps vpn t stop_all a = ground arith
step-Agrees keeps vpn t resume a = ground arith
step-Agrees keeps vpn t recreate a = ground arith
step-Agrees keeps vpn t (create d force) a = ground arith
step-Agrees keeps vpn t (stop_datapath force) a = ground arith
step-Agrees keeps vpn t (set_safe_disconnect enable) a = ground arith

run_from-Agrees :
    (keeps : Bool) (vpn : VpnService) (t : TunnelManager) (os : List TunnelOp)
    → Agrees keeps t
    → Agrees keeps (run vpn t os)
unfolding run
run_from-Agrees keeps vpn t [] a = a
run_from-Agrees keeps vpn t (o ∷ os) a =
    run_from-Agrees keeps vpn (step vpn t o) os (step-Agrees keeps vpn t o a)

-- After any calls on a new manager, whatever the platform answers, the manager believes that a tunnel is
-- up exactly if the platform holds one, and its tunnel data are those of that tunnel, on a platform that
-- keeps the old tunnel where it refuses a new one. On one that does not, the same holds unless the last
-- thing that the platform was asked for is a creation that it refused; then it holds none. Where the
-- manager believes that a tunnel is up, it has tunnel data.
pub run-Agrees :
    (keeps : Bool) (vpn : VpnService) (safe : Bool) (os : List TunnelOp)
    → Agrees keeps (run vpn (new_tunnel_manager safe) os)
unfolding new_tunnel_manager
run-Agrees keeps vpn safe os =
    run_from-Agrees keeps vpn _ os (record { same = inl refl; has_data = inl refl })

-- Where the manager agrees with a platform that keeps its tunnel, RecreateTunnel never fails for want of
-- data: it does nothing where no tunnel is up, and otherwise returns what the platform answers for the
-- tunnel that it holds.
pub recreate_tunnel_answer :
    (vpn : VpnService) (t : TunnelManager)
    → Agrees true t
    → ((t.tunnel_is_up ≡ false) × (recreate_tunnel vpn t ≡ (t, ok_status)))
      ⊎ ((d : TunFdData) × (platform_tunnel true t.vpn_calls ≡ some d)
          × ((recreate_tunnel vpn t).1
              ≡ (if is_ok (vpn t.vpn_calls d) then ok_status else vpn t.vpn_calls d)))
unfolding recreate_tunnel
recreate_tunnel_answer vpn t a = elim (Bool-cases t.tunnel_is_up) [
  | inl up ↦ elim (Option-cases t.active_tunnel_data) [
    | inl e ↦ ground (arith, a.has_data)
    | inr (d, e) ↦ inr (d, ground arith, ground arith)
  ]
  | inr down ↦ inl (down, ground arith)
]
