-- ===== src/Session/Control/Rekeying.antt =====
-- What a rekey of krypton/session.cc may change.
use vpn_libraries.Prelude.{◌≡◌, ◌⊎◌, inl, inr, true, Option, none, some, [], ◌∷◌, arith, Bool-cases}
use vpn_libraries.Prelude.Text.{Text}
use vpn_libraries.Utils.Status.{Status, StatusOr, value, error, is_ok}
use vpn_libraries.Session.Model.{State, World, Env, PpnDataplaneResponse}
use vpn_libraries.Session.Parts.{
  with_session, set_state, start_rekey_timer, cancel_rekey_timer_if_running,
}
use vpn_libraries.Session.Control.{
  rekeyed_with, set_keys, rekey_with, rekey_datapath, remote_values, remote_response, remote_key,
  set_remote_key_material, provisioned_for, provisioned_on, provisioned_keyed, provisioned_with,
  provisioned,
}

-- From one world to another the tunnel and the addresses stay, and the state stays or is an error.
pub record Keeps {D P K R : Type 0} (w w' : World D P K R) : Type 0 where
  pub state : (w'.session.state ≡ w.session.state) ⊎ (w'.session.state ≡ State.session_error)
  pub egress_addresses :
      w'.session.egress_node_sock_addresses ≡ w.session.egress_node_sock_addresses
  pub private_ips : w'.session.user_private_ip ≡ w.session.user_private_ip
  pub tunnel : w'.shared.tunnel ≡ w.shared.tunnel

module _ {D P K T R : Type 0} (env : Env D P K T R) where
  Keeps-trans : (a b c : World D P K R) → Keeps a b → Keeps b c → Keeps a c
  Keeps-trans a b c x y = ground arith

  session_error-Keeps :
      (status : Status) (w : World D P K R) → Keeps w (set_state env State.session_error status w)
  unfolding set_state
  session_error-Keeps status w = ground arith

  start_rekey_timer-Keeps : (w : World D P K R) → Keeps w (start_rekey_timer env w)
  unfolding start_rekey_timer cancel_rekey_timer_if_running
  start_rekey_timer-Keeps w = ground arith

  rekeyed_with-Keeps : (w : World D P K R) (r : D × Status) → Keeps w (rekeyed_with env w r)
  unfolding rekeyed_with set_state
  rekeyed_with-Keeps w (d, status) = ground arith

  set_keys-Keeps :
      (d : Option D) (t : StatusOr T) (w : World D P K R) → Keeps w (set_keys env d t w)
  unfolding set_keys
  set_keys-Keeps d (error s) w = session_error-Keeps s w
  set_keys-Keeps none (value t) w = ground arith
  set_keys-Keeps (some d) (value t) w = rekeyed_with-Keeps w (env.set_key_materials t d)

  rekey_datapath-Keeps : (w : World D P K R) → Keeps w (rekey_datapath env w)
  unfolding rekey_datapath rekey_with
  rekey_datapath-Keeps w = go w.session.key_material
    where
      go : (k : Option K) → Keeps w (rekey_with env k w)
      go none = ground arith
      go (some k) = set_keys-Keeps w.session.datapath (env.get_transform_params k) w

  remote_values-Keeps :
      (v n : Text) (k : K) (w : World D P K R) → Keeps w (remote_values env v n k w).0
  unfolding remote_values
  remote_values-Keeps [] n k w = ground arith
  remote_values-Keeps (c ∷ cs) [] k w = ground arith
  remote_values-Keeps (c ∷ cs) (x ∷ xs) k w = ground arith

  remote_key-Keeps : (k : Option K) (r : R) (w : World D P K R) → Keeps w (remote_key env k r w).0
  unfolding remote_key remote_response
  remote_key-Keeps none r w = ground arith
  remote_key-Keeps (some k) r w = go (env.ppn_dataplane_response r)
    where
      go : (x : StatusOr PpnDataplaneResponse) → Keeps w (remote_response env x k w).0
      go (error s) = ground arith
      go (value p) = remote_values-Keeps p.egress_point_public_value p.server_nonce k w

  set_remote_key_material-Keeps :
      (r : R) (w : World D P K R) → Keeps w (set_remote_key_material env r w).0
  unfolding set_remote_key_material
  set_remote_key_material-Keeps r w =
      let other = remote_key-Keeps w.session.key_material r w in ground arith

  provisioned_for-Keeps :
      (p : PpnDataplaneResponse) (w : World D P K R) → Keeps w (provisioned_for env true p w)
  unfolding provisioned_for
  provisioned_for-Keeps p w =
      Keeps-trans w (rekey_datapath env w) _ (rekey_datapath-Keeps w)
        (start_rekey_timer-Keeps (rekey_datapath env w))

  provisioned_on-Keeps :
      (d : Option D) (p : PpnDataplaneResponse) (w : World D P K R)
      → Keeps w (provisioned_on env d true p w)
  unfolding provisioned_on
  provisioned_on-Keeps none p w = session_error-Keeps _ w
  provisioned_on-Keeps (some d) p w = provisioned_for-Keeps p w

  provisioned_keyed-Keeps :
      (p : PpnDataplaneResponse) (r : World D P K R × Status)
      → Keeps r.0 (provisioned_keyed env true p r)
  unfolding provisioned_keyed
  provisioned_keyed-Keeps p (w, status) =
      let w1 = with_session w (λ s. record s { uplink_spi = p.uplink_spi }) in
      let failed = session_error-Keeps status w in
      let goes_on = provisioned_on-Keeps w1.session.datapath p w1 in
      elim (Bool-cases (is_ok status)) [
        | inl good ↦ rw good (Keeps-trans w w1 _ (ground arith) goes_on)
        | inr bad ↦ rw bad failed
      ]

  provisioned_with-Keeps :
      (r : R) (p : StatusOr PpnDataplaneResponse) (w : World D P K R)
      → Keeps w (provisioned_with env r true p w)
  unfolding provisioned_with
  provisioned_with-Keeps r (error s) w = session_error-Keeps s w
  provisioned_with-Keeps r (value p) w =
      let keyed = set_remote_key_material env r w in
      Keeps-trans w keyed.0 _ (set_remote_key_material-Keeps r w) (provisioned_keyed-Keeps p keyed)

  -- Whatever a rekey's response holds and however the keys and the datapath answer, the rekey leaves
  -- the tunnel, the egress addresses and the private addresses alone, and the state as it is unless it
  -- becomes the session error.
  pub provisioned_rekey-Keeps : (r : R) (w : World D P K R) → Keeps w (provisioned env r true w)
  unfolding provisioned
  provisioned_rekey-Keeps r w =
      let w1 = with_session w (λ s. record s { add_egress_response = some r }) in
      Keeps-trans w w1 _ (ground arith) (provisioned_with-Keeps r (env.ppn_dataplane_response r) w1)
