-- ===== src/Session/Control/Stopped.antt =====
-- What Stop and Rekey of krypton/session.cc leave behind.
use vpn_libraries.Prelude.{
  ℕ, ◌≡◌, ◌≢◌, refl, ◌∙◌, ◌⊎◌, Option, List, Bool, false, none, arith, ◌==◌, if◌then◌else◌,
}
use vpn_libraries.Utils.Status.{failed_precondition}
use vpn_libraries.Timer.{invalid_timer_id}
use vpn_libraries.Timer.Laws.{running, running-cancel_timer}
use vpn_libraries.Session.Model.{State, World, Env}
use vpn_libraries.Session.Parts.{
  set_state, is_connected_state, cancel_rekey_timer_if_running,
  cancel_datapath_reattempt_timer_if_running, cancel_datapath_connecting_timer_if_running,
}
use vpn_libraries.Session.Control.{stop, rekey, released}

module _ {D P K R : Type 0} where
  running-cancel_rekey :
      (w : World D P K R) (k : ℕ)
      → k ≢ invalid_timer_id
      → running (cancel_rekey_timer_if_running w).shared.timers k
        ≡ (if w.session.rekey_timer_id == k then none else running w.shared.timers k)
  unfolding cancel_rekey_timer_if_running
  running-cancel_rekey w k h =
      ground (arith, running-cancel_timer w.shared.timers w.session.rekey_timer_id k)

  running-cancel_reattempt :
      (w : World D P K R) (k : ℕ)
      → k ≢ invalid_timer_id
      → running (cancel_datapath_reattempt_timer_if_running w).shared.timers k
        ≡ (if w.session.datapath_reattempt_timer_id == k then none else running w.shared.timers k)
  unfolding cancel_datapath_reattempt_timer_if_running
  running-cancel_reattempt w k h =
      ground (arith, running-cancel_timer w.shared.timers w.session.datapath_reattempt_timer_id k)

  running-cancel_connecting :
      (w : World D P K R) (k : ℕ)
      → k ≢ invalid_timer_id
      → running (cancel_datapath_connecting_timer_if_running w).shared.timers k
        ≡ (if w.session.datapath_connecting_timer_id == k then none else running w.shared.timers k)
  unfolding cancel_datapath_connecting_timer_if_running
  running-cancel_connecting w k h =
      ground (arith, running-cancel_timer w.shared.timers w.session.datapath_connecting_timer_id k)

  ids-cancel_rekey :
      (w : World D P K R)
      → ((cancel_rekey_timer_if_running w).session.datapath_reattempt_timer_id
          ≡ w.session.datapath_reattempt_timer_id)
        × ((cancel_rekey_timer_if_running w).session.datapath_connecting_timer_id
            ≡ w.session.datapath_connecting_timer_id)
  unfolding cancel_rekey_timer_if_running
  ids-cancel_rekey w = (ground arith, ground arith)

  ids-cancel_reattempt :
      (w : World D P K R)
      → (cancel_datapath_reattempt_timer_if_running w).session.datapath_connecting_timer_id
        ≡ w.session.datapath_connecting_timer_id
  unfolding cancel_datapath_reattempt_timer_if_running
  ids-cancel_reattempt w = ground arith

  datapath-cancel_rekey :
      (w : World D P K R)
      → ((cancel_rekey_timer_if_running w).session.datapath ≡ w.session.datapath)
        × ((cancel_rekey_timer_if_running w).session.released_datapaths
            ≡ w.session.released_datapaths)
  unfolding cancel_rekey_timer_if_running
  datapath-cancel_rekey w = (ground arith, ground arith)

  datapath-cancel_reattempt :
      (w : World D P K R)
      → ((cancel_datapath_reattempt_timer_if_running w).session.datapath ≡ w.session.datapath)
        × ((cancel_datapath_reattempt_timer_if_running w).session.released_datapaths
            ≡ w.session.released_datapaths)
  unfolding cancel_datapath_reattempt_timer_if_running
  datapath-cancel_reattempt w = (ground arith, ground arith)

  datapath-cancel_connecting :
      (w : World D P K R)
      → ((cancel_datapath_connecting_timer_if_running w).session.datapath ≡ w.session.datapath)
        × ((cancel_datapath_connecting_timer_if_running w).session.released_datapaths
            ≡ w.session.released_datapaths)
  unfolding cancel_datapath_connecting_timer_if_running
  datapath-cancel_connecting w = (ground arith, ground arith)

module _ {D P K T R : Type 0} (env : Env D P K T R) where
  released_cong :
      (o : Option D) (ds : List D) (o' : Option D) (ds' : List D)
      → o ≡ o'
      → ds ≡ ds'
      → released env o ds ≡ released env o' ds'
  released_cong o ds o' ds' e f = λ i. released env (e i) (f i)

  -- Once a session is stopped, none of its timers can fire: the rekey timer, the reattempt timer and
  -- the connecting timer are gone, its state is stopped with no datapath, and the datapath that it had was
  -- stopped before it was released.
  pub stop_cancels :
      (force : Bool) (w : World D P K R) (k : ℕ)
      → k ≢ invalid_timer_id
      → (k ≡ w.session.rekey_timer_id)
        ⊎ (k ≡ w.session.datapath_reattempt_timer_id)
        ⊎ (k ≡ w.session.datapath_connecting_timer_id)
      → let w' = stop env force w in
        (running w'.shared.timers k ≡ none)
        × (w'.session.state ≡ State.stopped)
        × (w'.session.datapath ≡ none)
        × (w'.session.released_datapaths
            ≡ released env w.session.datapath w.session.released_datapaths)
  unfolding stop set_state
  stop_cancels force w k h own =
      let w1 = cancel_rekey_timer_if_running w in
      let w2 = cancel_datapath_reattempt_timer_if_running w1 in
      let a = running-cancel_rekey w k h in
      let b = running-cancel_reattempt w1 k h in
      let c = running-cancel_connecting w2 k h in
      let i = ids-cancel_rekey w in
      let j = ids-cancel_reattempt w1 in
      let w3 = cancel_datapath_connecting_timer_if_running w2 in
      let d = datapath-cancel_connecting w2 in
      let e = datapath-cancel_reattempt w1 in
      let f = datapath-cancel_rekey w in
      (
        ground (arith, a, b, c, i, j),
        refl,
        refl,
        released_cong w3.session.datapath w3.session.released_datapaths _ _ (d.0 ∙ e.0 ∙ f.0)
            (d.1 ∙ e.1 ∙ f.1),
      )

  -- A rekey outside the connected states puts the session into an error, and the provisioning is told
  -- to rekey all the same.
  pub rekey_in_error :
      (w : World D P K R)
      → is_connected_state w.session.state ≡ false
      → let s = (rekey env w).session in
        (s.state ≡ State.session_error)
        × (s.latest_status.code ≡ failed_precondition)
        × (s.provision ≡ env.provision_rekey w.session.provision)
  unfolding rekey set_state
  rekey_in_error w h = ground arith
