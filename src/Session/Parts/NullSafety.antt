-- ===== src/Session/Parts/NullSafety.antt =====
-- The pointers of krypton/session.cc through its states, timers and notifications.
use vpn_libraries.Prelude.{◌≡◌, Bool, true, false, Option, is_some, arith}
use vpn_libraries.Utils.Status.{Status}
use vpn_libraries.Runtime.{NetworkInfo}
use vpn_libraries.Session.Model.{State, World, Env}
use vpn_libraries.Session.Parts.{
  announce_state, set_state, start_rekey_timer, start_datapath_reattempt_timer,
  start_datapath_connecting_timer, cancel_rekey_timer_if_running,
  cancel_datapath_reattempt_timer_if_running, cancel_datapath_connecting_timer_if_running,
  notify_datapath_disconnected,
}

-- There is a datapath and key material, and no null pointer was followed.
pub record IsSound {D K : Type 0} (datapath : Option D) (key_material : Option K) (faulted : Bool)
    : Type 0 where
  pub has_datapath : is_some datapath ≡ true
  pub has_key : is_some key_material ≡ true
  pub no_fault : faulted ≡ false

abbrev pub Sound : {D P K R : Type 0} → World D P K R → Type 0
Sound w = IsSound w.session.datapath w.session.key_material w.session.faulted

module _ {D P K R : Type 0} where
  pub cancel_reattempt-Sound :
      (w : World D P K R) → Sound w → Sound (cancel_datapath_reattempt_timer_if_running w)
  unfolding cancel_datapath_reattempt_timer_if_running
  cancel_reattempt-Sound w b = ground arith

  pub cancel_connecting-Sound :
      (w : World D P K R) → Sound w → Sound (cancel_datapath_connecting_timer_if_running w)
  unfolding cancel_datapath_connecting_timer_if_running
  cancel_connecting-Sound w b = ground arith

module _ {D P K T R : Type 0} (env : Env D P K T R) where
  pub start_rekey-Sound : (w : World D P K R) → Sound w → Sound (start_rekey_timer env w)
  unfolding start_rekey_timer cancel_rekey_timer_if_running
  start_rekey-Sound w b = ground arith

  pub start_reattempt-Sound :
      (w : World D P K R) → Sound w → Sound (start_datapath_reattempt_timer env w)
  unfolding start_datapath_reattempt_timer cancel_datapath_reattempt_timer_if_running
  start_reattempt-Sound w b = ground arith

  pub start_connecting-Sound :
      (w : World D P K R) → Sound w → Sound (start_datapath_connecting_timer env w)
  unfolding start_datapath_connecting_timer cancel_datapath_connecting_timer_if_running
  start_connecting-Sound w b = ground arith

  announce-Sound :
      (s : State) (status : Status) (w : World D P K R)
      → Sound w
      → Sound (announce_state env s status w)
  unfolding announce_state
  announce-Sound s status w b = let r = start_rekey-Sound w b in grind (arith, start_rekey-Sound)

  pub set_state-Sound :
      (s : State) (status : Status) (w : World D P K R) → Sound w → Sound (set_state env s status w)
  unfolding set_state
  set_state-Sound s status w b =
      announce-Sound s status
        (record w { session = record w.session { state = s; latest_status = status } }) b

  pub notify_datapath_disconnected-Sound :
      (network : NetworkInfo) (status : Status) (w : World D P K R)
      → Sound w
      → Sound (notify_datapath_disconnected env network status w)
  unfolding notify_datapath_disconnected cancel_datapath_connecting_timer_if_running
  notify_datapath_disconnected-Sound network status w b =
      let s = set_state-Sound State.data_plane_permanent_error status w b in ground arith
