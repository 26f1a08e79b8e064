-- ===== src/Session/Control/NullSafety.antt =====
-- The pointers of krypton/session.cc while a session rekeys and is provisioned.
use vpn_libraries.Prelude.{
  ℕ, ◌≡◌, refl, is_some, Bool, true, false, Option, none, some, [], ◌∷◌, arith, Bool-cases, inl,
  inr,
}
use vpn_libraries.Prelude.Text.{Text}
use vpn_libraries.Utils.Status.{Status, StatusOr, value, error, is_ok, ok_status}
use vpn_libraries.Session.Model.{State, World, Env, PpnDataplaneResponse}
use vpn_libraries.Session.Parts.{with_session, set_state}
use vpn_libraries.Session.Parts.NullSafety.{Sound, start_rekey-Sound, set_state-Sound}
use vpn_libraries.Session.Tunnels.NullSafety.{
  update_tunnel_if_needed-Sound, reset-Sound, start_datapath-Sound,
}
use vpn_libraries.Session.Tunnels.{reset_all_datapath_reattempts}
use vpn_libraries.Session.Control.{
  force_tunnel_update, rekey, rekeyed_with, set_keys, rekey_with, rekey_datapath, remote_values,
  remote_response, remote_key, set_remote_key_material, signed_with, rekey_from, ready_with,
  ready_for_add_egress, provisioned_for, provisioned_on, provisioned_keyed, provisioned_with,
  provisioned, provisioning_failure,
}

module _ {D P K T R : Type 0} (env : Env D P K T R) where
  pub force_tunnel_update-Sound : (w : World D P K R) → Sound w → Sound (force_tunnel_update env w)
  unfolding force_tunnel_update
  force_tunnel_update-Sound w b = update_tunnel_if_needed-Sound env true w b

  pub rekey-Sound : (w : World D P K R) → Sound w → Sound (rekey env w)
  unfolding rekey
  rekey-Sound w b = grind (arith, set_state-Sound)

  rekeyed_with-Sound : (w : World D P K R) (r : D × Status) → Sound w → Sound (rekeyed_with env w r)
  unfolding rekeyed_with
  rekeyed_with-Sound w r b = grind (arith, set_state-Sound)

  set_keys-Sound :
      (d : Option D) (t : StatusOr T) (w : World D P K R)
      → is_some d ≡ true
      → Sound w
      → Sound (set_keys env d t w)
  unfolding set_keys
  set_keys-Sound d (error s) w h b = set_state-Sound env State.session_error s w b
  set_keys-Sound none (value t) w h b = ground arith
  set_keys-Sound (some d) (value t) w h b = rekeyed_with-Sound w (env.set_key_materials t d) b

  rekey_with-Sound :
      (k : Option K) (w : World D P K R) → is_some k ≡ true → Sound w → Sound (rekey_with env k w)
  unfolding rekey_with
  rekey_with-Sound none w h b = ground arith
  rekey_with-Sound (some k) w h b = set_keys-Sound _ _ w b.has_datapath b

  rekey_datapath-Sound : (w : World D P K R) → Sound w → Sound (rekey_datapath env w)
  unfolding rekey_datapath
  rekey_datapath-Sound w b = rekey_with-Sound w.session.key_material w b.has_key b

  remote_values-Sound :
      (v n : Text) (k : K) (w : World D P K R) → Sound w → Sound (remote_values env v n k w).0
  unfolding remote_values
  remote_values-Sound [] n k w b = b
  remote_values-Sound (c ∷ cs) [] k w b = b
  remote_values-Sound (c ∷ cs) (x ∷ xs) k w b = record {
    has_datapath = b.has_datapath;
    has_key = refl;
    no_fault = b.no_fault;
  }

  remote_response-Sound :
      (r : StatusOr PpnDataplaneResponse) (k : K) (w : World D P K R)
      → Sound w
      → Sound (remote_response env r k w).0
  unfolding remote_response
  remote_response-Sound (error s) k w b = b
  remote_response-Sound (value r) k w b = remote_values-Sound _ _ k w b

  remote_key-Sound :
      (k : Option K) (r : R) (w : World D P K R) → Sound w → Sound (remote_key env k r w).0
  unfolding remote_key
  remote_key-Sound none r w b = b
  remote_key-Sound (some k) r w b = remote_response-Sound _ k w b

  set_remote-Sound :
      (r : R) (w : World D P K R) → Sound w → Sound (set_remote_key_material env r w).0
  unfolding set_remote_key_material
  set_remote-Sound r w b = let other = remote_key-Sound w.session.key_material r w b in ground arith

  signed_with-Sound :
      (s : StatusOr Text) (k : K) (w : World D P K R) → Sound w → Sound (signed_with env s k w)
  unfolding signed_with
  signed_with-Sound (error s) k w b = set_state-Sound env _ s _ b
  signed_with-Sound (value t) k w b = record {
    has_datapath = b.has_datapath;
    has_key = refl;
    no_fault = b.no_fault;
  }

  rekey_from-Sound :
      (old : Option K) (k : K) (w : World D P K R) → Sound w → Sound (rekey_from env old k w)
  unfolding rekey_from
  rekey_from-Sound none k w b = set_state-Sound env _ _ _ b
  rekey_from-Sound (some old) k w b = signed_with-Sound _ k w b

  ready_with-Sound :
      (is_rekey : Bool) (k : StatusOr K) (w : World D P K R)
      → Sound w
      → Sound (ready_with env is_rekey k w)
  unfolding ready_with
  ready_with-Sound is_rekey (error s) w b = set_state-Sound env _ s _ b
  ready_with-Sound false (value k) w b = record {
    has_datapath = b.has_datapath;
    has_key = refl;
    no_fault = b.no_fault;
  }
  ready_with-Sound true (value k) w b = grind (arith, rekey_from-Sound, set_state-Sound)

  pub ready_for_add_egress-Sound :
      (random : ℕ) (is_rekey : Bool) (w : World D P K R)
      → Sound w
      → Sound (ready_for_add_egress env random is_rekey w)
  unfolding ready_for_add_egress
  ready_for_add_egress-Sound random is_rekey w b = ready_with-Sound is_rekey _ w b

  provisioned_for-Sound :
      (is_rekey : Bool) (r : PpnDataplaneResponse) (w : World D P K R)
      → Sound w
      → Sound (provisioned_for env is_rekey r w)
  unfolding provisioned_for
  provisioned_for-Sound true r w b = start_rekey-Sound env _ (rekey_datapath-Sound w b)
  provisioned_for-Sound false r w b =
      let w1 = with_session w (λ s. record s {
        egress_node_sock_addresses = r.egress_point_sock_addr;
        user_private_ip = r.user_private_ip;
      }) in
      let created = set_state env State.egress_session_created ok_status w1 in
      start_datapath-Sound env (reset_all_datapath_reattempts env created)
        (reset-Sound env created (set_state-Sound env State.egress_session_created ok_status w1 b))

  provisioned_on-Sound :
      (d : Option D) (is_rekey : Bool) (r : PpnDataplaneResponse) (w : World D P K R)
      → Sound w
      → Sound (provisioned_on env d is_rekey r w)
  unfolding provisioned_on
  provisioned_on-Sound none is_rekey r w b = set_state-Sound env _ _ w b
  provisioned_on-Sound (some d) is_rekey r w b = provisioned_for-Sound is_rekey r w b

  provisioned_keyed-Sound :
      (is_rekey : Bool) (r : PpnDataplaneResponse) (x : World D P K R × Status)
      → Sound x.0
      → Sound (provisioned_keyed env is_rekey r x)
  unfolding provisioned_keyed
  provisioned_keyed-Sound is_rekey r (w, status) b =
      let w1 = with_session w (λ s. record s { uplink_spi = r.uplink_spi }) in
      let goes_on = provisioned_on-Sound w1.session.datapath is_rekey r w1 b in
      let failed = set_state-Sound env State.session_error status w b in
      elim (Bool-cases (is_ok status)) [ inl good ↦ rw good goes_on | inr bad ↦ rw bad failed ]

  provisioned_with-Sound :
      (response : R) (is_rekey : Bool) (r : StatusOr PpnDataplaneResponse) (w : World D P K R)
      → Sound w
      → Sound (provisioned_with env response is_rekey r w)
  unfolding provisioned_with
  provisioned_with-Sound response is_rekey (error s) w b = set_state-Sound env _ s w b
  provisioned_with-Sound response is_rekey (value r) w b =
      provisioned_keyed-Sound is_rekey r (set_remote_key_material env response w)
        (set_remote-Sound response w b)

  pub provisioned-Sound :
      (response : R) (is_rekey : Bool) (w : World D P K R)
      → Sound w
      → Sound (provisioned env response is_rekey w)
  unfolding provisioned
  provisioned-Sound response is_rekey w b = provisioned_with-Sound response is_rekey _ _ b

  pub provisioning_failure-Sound :
      (status : Status) (permanent : Bool) (w : World D P K R)
      → Sound w
      → Sound (provisioning_failure env status permanent w)
  unfolding provisioning_failure
  provisioning_failure-Sound status permanent w b = grind (arith, set_state-Sound)
