-- ===== src/Session/Control/KillSwitch.antt =====
-- The tunnel that blocks the traffic stays up while a session of krypton/session.cc starts, stops
-- without force, rekeys and is provisioned.
use vpn_libraries.Prelude.{
  ℕ, ◌≡◌, refl, Bool, true, false, Option, none, some, [], ◌∷◌, arith, Bool-cases, inl, inr,
}
use vpn_libraries.Prelude.Text.{Text}
use vpn_libraries.Utils.Status.{Status, StatusOr, value, error, is_ok}
use vpn_libraries.Tunnel.{is_tunnel_active}
use vpn_libraries.Tunnel.Safety.{datapath_stopped_active}
use vpn_libraries.Timer.Laws.{IsFresh, cancel_timer-IsFresh}
use vpn_libraries.Session.Model.{State, World, Env, PpnDataplaneResponse}
use vpn_libraries.Session.Parts.{
  with_session, set_state, cancel_rekey_timer_if_running,
  cancel_datapath_reattempt_timer_if_running, cancel_datapath_connecting_timer_if_running,
}
use vpn_libraries.Session.Parts.KillSwitch.{
  Blocks, stopped-IsBlocking, tunnel-start_rekey, set_state-Blocks, tunnel-set_state,
}
use vpn_libraries.Session.Tunnels.KillSwitch.{
  update_tunnel_if_needed-Blocks, tunnel-reset, start_datapath-Blocks,
}
use vpn_libraries.Session.Control.{
  stop, force_tunnel_update, rekey, rekeyed_with, set_keys, rekey_with, rekey_datapath,
  remote_values, remote_response, remote_key, set_remote_key_material, signed_with, rekey_from,
  ready_with, ready_for_add_egress, provisioned_for, provisioned_on, provisioned_keyed,
  provisioned_with, provisioned, provisioning_failure,
}

module _ {D P K R : Type 0} where
  cancel_rekey-IsFresh :
      (w : World D P K R)
      → IsFresh w.shared.timers
      → IsFresh (cancel_rekey_timer_if_running w).shared.timers
  unfolding cancel_rekey_timer_if_running
  cancel_rekey-IsFresh w f =
      ground (arith, cancel_timer-IsFresh w.shared.timers w.session.rekey_timer_id f)

  cancel_reattempt-IsFresh :
      (w : World D P K R)
      → IsFresh w.shared.timers
      → IsFresh (cancel_datapath_reattempt_timer_if_running w).shared.timers
  unfolding cancel_datapath_reattempt_timer_if_running
  cancel_reattempt-IsFresh w f =
      ground (arith, cancel_timer-IsFresh w.shared.timers w.session.datapath_reattempt_timer_id f)

  cancel_connecting-IsFresh :
      (w : World D P K R)
      → IsFresh w.shared.timers
      → IsFresh (cancel_datapath_connecting_timer_if_running w).shared.timers
  unfolding cancel_datapath_connecting_timer_if_running
  cancel_connecting-IsFresh w f =
      ground (arith, cancel_timer-IsFresh w.shared.timers w.session.datapath_connecting_timer_id f)

  tunnel-cancel_all :
      (w : World D P K R)
      → (cancel_datapath_connecting_timer_if_running (
          cancel_datapath_reattempt_timer_if_running
            (cancel_rekey_timer_if_running w))).shared.tunnel
        ≡ w.shared.tunnel
  unfolding cancel_datapath_connecting_timer_if_running cancel_datapath_reattempt_timer_if_running
      cancel_rekey_timer_if_running
  tunnel-cancel_all w = ground arith

module _ {D P K T R : Type 0} (env : Env D P K T R) where
  pub stop-IsFresh :
      (force : Bool) (w : World D P K R)
      → IsFresh w.shared.timers
      → IsFresh (stop env force w).shared.timers
  unfolding stop set_state
  stop-IsFresh force w f =
      cancel_connecting-IsFresh _ (cancel_reattempt-IsFresh _ (cancel_rekey-IsFresh w f))

  pub stop-Blocks : (w : World D P K R) → Blocks w → Blocks (stop env false w)
  unfolding stop set_state
  stop-Blocks w b = rw (tunnel-cancel_all w) (stopped-IsBlocking w.shared.tunnel b)

  pub stop-closes : (w : World D P K R) → is_tunnel_active (stop env true w).shared.tunnel ≡ false
  unfolding stop set_state
  stop-closes w = (datapath_stopped_active _ true).0

  pub force_tunnel_update-Blocks :
      (w : World D P K R) → Blocks w → Blocks (force_tunnel_update env w)
  unfolding force_tunnel_update
  force_tunnel_update-Blocks w b = update_tunnel_if_needed-Blocks env true w b

  pub rekey-Blocks : (w : World D P K R) → Blocks w → Blocks (rekey env w)
  unfolding rekey
  rekey-Blocks w b = grind (arith, set_state-Blocks)

  rekeyed_with-Blocks :
      (w : World D P K R) (r : D × Status) → Blocks w → Blocks (rekeyed_with env w r)
  unfolding rekeyed_with
  rekeyed_with-Blocks w r b = grind (arith, set_state-Blocks)

  set_keys-Blocks :
      (d : Option D) (t : StatusOr T) (w : World D P K R) → Blocks w → Blocks (set_keys env d t w)
  unfolding set_keys
  set_keys-Blocks d (error s) w b = set_state-Blocks env _ s w b
  set_keys-Blocks none (value t) w b = b
  set_keys-Blocks (some d) (value t) w b = rekeyed_with-Blocks w _ b

  rekey_with-Blocks : (k : Option K) (w : World D P K R) → Blocks w → Blocks (rekey_with env k w)
  unfolding rekey_with
  rekey_with-Blocks none w b = b
  rekey_with-Blocks (some k) w b = set_keys-Blocks _ _ w b

  rekey_datapath-Blocks : (w : World D P K R) → Blocks w → Blocks (rekey_datapath env w)
  unfolding rekey_datapath
  rekey_datapath-Blocks w b = rekey_with-Blocks _ w b

  tunnel-remote_values :
      (v n : Text) (k : K) (w : World D P K R)
      → (remote_values env v n k w).0.shared.tunnel ≡ w.shared.tunnel
  unfolding remote_values
  tunnel-remote_values [] n k w = refl
  tunnel-remote_values (c ∷ cs) [] k w = refl
  tunnel-remote_values (c ∷ cs) (x ∷ xs) k w = refl

  tunnel-remote_response :
      (r : StatusOr PpnDataplaneResponse) (k : K) (w : World D P K R)
      → (remote_response env r k w).0.shared.tunnel ≡ w.shared.tunnel
  unfolding remote_response
  tunnel-remote_response (error s) k w = refl
  tunnel-remote_response (value r) k w = tunnel-remote_values _ _ k w

  tunnel-remote_key :
      (k : Option K) (r : R) (w : World D P K R)
      → (remote_key env k r w).0.shared.tunnel ≡ w.shared.tunnel
  unfolding remote_key
  tunnel-remote_key none r w = refl
  tunnel-remote_key (some k) r w = tunnel-remote_response _ k w

  tunnel-set_remote :
      (r : R) (w : World D P K R)
      → (set_remote_key_material env r w).0.shared.tunnel ≡ w.shared.tunnel
  unfolding set_remote_key_material
  tunnel-set_remote r w = grind (arith, tunnel-remote_key)

  signed_with-Blocks :
      (s : StatusOr Text) (k : K) (w : World D P K R) → Blocks w → Blocks (signed_with env s k w)
  unfolding signed_with
  signed_with-Blocks (error s) k w b = set_state-Blocks env _ s _ b
  signed_with-Blocks (value t) k w b = b

  rekey_from-Blocks :
      (old : Option K) (k : K) (w : World D P K R) → Blocks w → Blocks (rekey_from env old k w)
  unfolding rekey_from
  rekey_from-Blocks none k w b = set_state-Blocks env _ _ _ b
  rekey_from-Blocks (some old) k w b = signed_with-Blocks _ k w b

  ready_with-Blocks :
      (is_rekey : Bool) (k : StatusOr K) (w : World D P K R)
      → Blocks w
      → Blocks (ready_with env is_rekey k w)
  unfolding ready_with
  ready_with-Blocks is_rekey (error s) w b = set_state-Blocks env _ s _ b
  ready_with-Blocks false (value k) w b = b
  ready_with-Blocks true (value k) w b = grind (arith, rekey_from-Blocks, set_state-Blocks)

  pub ready_for_add_egress-Blocks :
      (random : ℕ) (is_rekey : Bool) (w : World D P K R)
      → Blocks w
      → Blocks (ready_for_add_egress env random is_rekey w)
  unfolding ready_for_add_egress
  ready_for_add_egress-Blocks random is_rekey w b = ready_with-Blocks is_rekey _ w b

  provisioned_for-Blocks :
      (is_rekey : Bool) (r : PpnDataplaneResponse) (w : World D P K R)
      → Blocks w
      → Blocks (provisioned_for env is_rekey r w)
  unfolding provisioned_for
  provisioned_for-Blocks true r w b = grind (arith, tunnel-start_rekey, rekey_datapath-Blocks)
  provisioned_for-Blocks false r w b =
      grind (arith, start_datapath-Blocks, tunnel-reset, tunnel-set_state)

  provisioned_on-Blocks :
      (d : Option D) (is_rekey : Bool) (r : PpnDataplaneResponse) (w : World D P K R)
      → Blocks w
      → Blocks (provisioned_on env d is_rekey r w)
  unfolding provisioned_on
  provisioned_on-Blocks none is_rekey r w b = set_state-Blocks env _ _ w b
  provisioned_on-Blocks (some d) is_rekey r w b = provisioned_for-Blocks is_rekey r w b

  provisioned_keyed-Blocks :
      (is_rekey : Bool) (r : PpnDataplaneResponse) (x : World D P K R × Status)
      → Blocks x.0
      → Blocks (provisioned_keyed env is_rekey r x)
  unfolding provisioned_keyed
  provisioned_keyed-Blocks is_rekey r (w, status) b =
      let w1 = with_session w (λ s. record s { uplink_spi = r.uplink_spi }) in
      let goes_on = provisioned_on-Blocks w1.session.datapath is_rekey r w1 b in
      let failed = set_state-Blocks env State.session_error status w b in
      elim (Bool-cases (is_ok status)) [ inl good ↦ rw good goes_on | inr bad ↦ rw bad failed ]

  provisioned_with-Blocks :
      (response : R) (is_rekey : Bool) (r : StatusOr PpnDataplaneResponse) (w : World D P K R)
      → Blocks w
      → Blocks (provisioned_with env response is_rekey r w)
  unfolding provisioned_with
  provisioned_with-Blocks response is_rekey (error s) w b = set_state-Blocks env _ s w b
  provisioned_with-Blocks response is_rekey (value r) w b =
      provisioned_keyed-Blocks is_rekey r (set_remote_key_material env response w)
        (rw (tunnel-set_remote response w) b)

  pub provisioned-Blocks :
      (response : R) (is_rekey : Bool) (w : World D P K R)
      → Blocks w
      → Blocks (provisioned env response is_rekey w)
  unfolding provisioned
  provisioned-Blocks response is_rekey w b = provisioned_with-Blocks response is_rekey _ _ b

  pub provisioning_failure-Blocks :
      (status : Status) (permanent : Bool) (w : World D P K R)
      → Blocks w
      → Blocks (provisioning_failure env status permanent w)
  unfolding provisioning_failure
  provisioning_failure-Blocks status permanent w b = grind (arith, set_state-Blocks)
