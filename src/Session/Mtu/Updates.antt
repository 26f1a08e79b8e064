-- ===== src/Session/Mtu/Updates.antt =====
-- When krypton/session.cc sends an update of the path.
use vpn_libraries.Utils.Status.{StatusOr, value, error}
use vpn_libraries.Prelude.Text.{Text}
use vpn_libraries.Prelude.{inl, inr, refl, Option-cases, ◌≡◌, false, arith}
use vpn_libraries.Prelude.Int.{ℤ}
use vpn_libraries.Session.Model.{World, Env}
use vpn_libraries.Session.Parts.{is_active}
use vpn_libraries.Session.Mtu.{
  signed_request, keyed_request, addressed_request, send_update_path_info_request,
  do_downlink_mtu_update,
}

module _ {D P K T R : Type 0} (env : Env D P K T R) where
  -- A session that is not active any more takes a new downlink MTU, but sends no update of the path.
  pub downlink_mtu_inactive :
      (downlink_mtu : ℤ) (w : World D P K R)
      → is_active w.session.state ≡ false
      → let s = (do_downlink_mtu_update env downlink_mtu w).session in
        (s.downlink_mtu ≡ downlink_mtu) × (s.path_updates ≡ w.session.path_updates)
  unfolding do_downlink_mtu_update
  downlink_mtu_inactive downlink_mtu w h = (ground arith, ground arith)

  sent_mtu :
      (addr : StatusOr Text) (w : World D P K R)
      → (addressed_request env addr w).0.session.downlink_mtu ≡ w.session.downlink_mtu
  unfolding addressed_request keyed_request signed_request
  sent_mtu (error s) w = refl
  sent_mtu (value addr) w = elim (Option-cases w.session.key_material) [
    | inl e ↦ ground arith
    | inr (k, e) ↦ ground arith
  ]

  mtu-updated :
      (downlink_mtu : ℤ) (w : World D P K R)
      → (do_downlink_mtu_update env downlink_mtu w).session.downlink_mtu ≡ downlink_mtu
  unfolding do_downlink_mtu_update send_update_path_info_request
  mtu-updated downlink_mtu w = grind (arith, sent_mtu)

  same_mtu :
      (downlink_mtu : ℤ) (w : World D P K R)
      → w.session.downlink_mtu ≡ downlink_mtu
      → do_downlink_mtu_update env downlink_mtu w ≡ w
  unfolding do_downlink_mtu_update
  same_mtu downlink_mtu w h = ground arith

  -- A downlink MTU that is reported again changes nothing: the path is updated at most once for it.
  pub downlink_mtu_once :
      (downlink_mtu : ℤ) (w : World D P K R)
      → do_downlink_mtu_update env downlink_mtu (do_downlink_mtu_update env downlink_mtu w)
        ≡ do_downlink_mtu_update env downlink_mtu w
  downlink_mtu_once downlink_mtu w =
      same_mtu downlink_mtu (do_downlink_mtu_update env downlink_mtu w) (mtu-updated downlink_mtu w)
