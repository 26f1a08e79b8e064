-- ===== src/Datapath/MtuTracker/Least.antt =====
-- That the MTUs of krypton/datapath/android_ipsec/mtu_tracker.cc are the least ones that were reported.
use vpn_libraries.Prelude.{
  ◌≡◌, refl, ap, ◌∙◌, Bool, true, false, List, [], ◌∷◌, ◌++◌, arith, if◌then◌else◌, Option, none,
  some,
}
use vpn_libraries.Prelude.Int.{ℤ, pos, ltb_ℤ, ◌-ℤ◌}
use vpn_libraries.Datapath.MtuTracker.{
  IpProtocol, MtuTracker, MtuNotification, downlink_mtu_updated, uplink_mtu_updated, overhead_of,
  new_mtu_tracker, update_uplink_mtu, update_downlink_mtu, Event, uplink, downlink, handle, run,
}

-- The specification: the least of a value and what was reported of a direction.
abbrev pub least : ℤ → ℤ → ℤ
least a b = if ltb_ℤ b a then b else a

abbrev pub least_uplink : List Event → ℤ → ℤ
least_uplink [] m = m
least_uplink (uplink n ∷ es) m = least_uplink es (least m n)
least_uplink (downlink n ∷ es) m = least_uplink es m

abbrev pub least_downlink : List Event → ℤ → ℤ
least_downlink [] m = m
least_downlink (uplink n ∷ es) m = least_downlink es m
least_downlink (downlink n ∷ es) m = least_downlink es (least m n)

-- The last notifications of a list.
abbrev pub last_uplink : List MtuNotification → Option (ℤ × ℤ) → Option (ℤ × ℤ)
last_uplink [] o = o
last_uplink (uplink_mtu_updated u t ∷ ns) o = last_uplink ns (some (u, t))
last_uplink (downlink_mtu_updated d ∷ ns) o = last_uplink ns o

abbrev pub last_downlink : List MtuNotification → Option ℤ → Option ℤ
last_downlink [] o = o
last_downlink (uplink_mtu_updated u t ∷ ns) o = last_downlink ns o
last_downlink (downlink_mtu_updated d ∷ ns) o = last_downlink ns (some d)

last_uplink_append :
    (ns : List MtuNotification) (u t : ℤ) (o : Option (ℤ × ℤ))
    → last_uplink (ns ++ uplink_mtu_updated u t ∷ []) o ≡ some (u, t)
last_uplink_append [] u t o = refl
last_uplink_append (uplink_mtu_updated v w ∷ ns) u t o = last_uplink_append ns u t _
last_uplink_append (downlink_mtu_updated d ∷ ns) u t o = last_uplink_append ns u t _

last_uplink_skip :
    (ns : List MtuNotification) (d : ℤ) (o : Option (ℤ × ℤ))
    → last_uplink (ns ++ downlink_mtu_updated d ∷ []) o ≡ last_uplink ns o
last_uplink_skip [] d o = refl
last_uplink_skip (uplink_mtu_updated v w ∷ ns) d o = last_uplink_skip ns d _
last_uplink_skip (downlink_mtu_updated c ∷ ns) d o = last_uplink_skip ns d _

last_downlink_append :
    (ns : List MtuNotification) (d : ℤ) (o : Option ℤ)
    → last_downlink (ns ++ downlink_mtu_updated d ∷ []) o ≡ some d
last_downlink_append [] d o = refl
last_downlink_append (uplink_mtu_updated v w ∷ ns) d o = last_downlink_append ns d _
last_downlink_append (downlink_mtu_updated c ∷ ns) d o = last_downlink_append ns d _

last_downlink_skip :
    (ns : List MtuNotification) (u t : ℤ) (o : Option ℤ)
    → last_downlink (ns ++ uplink_mtu_updated u t ∷ []) o ≡ last_downlink ns o
last_downlink_skip [] u t o = refl
last_downlink_skip (uplink_mtu_updated v w ∷ ns) u t o = last_downlink_skip ns u t _
last_downlink_skip (downlink_mtu_updated c ∷ ns) u t o = last_downlink_skip ns u t _

-- The notifications are in step with the MTUs.
abbrev pub InStep : MtuTracker → Type 0
InStep t =
    (t.tunnel_mtu ≡ t.uplink_mtu -ℤ pos t.tunnel_overhead)
    × (last_uplink t.posted none ≡ some (t.uplink_mtu, t.tunnel_mtu))
    × (last_downlink t.posted none ≡ some t.downlink_mtu)

if-InStep : (c : Bool) (x y : MtuTracker) → InStep x → InStep y → InStep (if c then x else y)
if-InStep true x y h k = h
if-InStep false x y h k = k

handle-InStep : (e : Event) (t : MtuTracker) → InStep t → InStep (handle e t)
unfolding handle update_uplink_mtu update_downlink_mtu
handle-InStep (uplink n) t h =
    let m = n -ℤ pos t.tunnel_overhead in
    if-InStep (ltb_ℤ n t.uplink_mtu) _ t
      (refl, last_uplink_append t.posted n m none, last_downlink_skip t.posted n m none ∙ h.2) h
handle-InStep (downlink n) t h =
    if-InStep (ltb_ℤ n t.downlink_mtu) _ t
      (h.0, last_uplink_skip t.posted n none ∙ h.1, last_downlink_append t.posted n none) h

run-InStep : (es : List Event) (t : MtuTracker) → InStep t → InStep (run es t)
unfolding run
run-InStep [] t h = h
run-InStep (e ∷ es) t h = run-InStep es (handle e t) (handle-InStep e t h)

-- The MTUs of a tracker after a history.
Least : List Event → MtuTracker → MtuTracker → Type 0
Least es t w =
    (w.uplink_mtu ≡ least_uplink es t.uplink_mtu)
    × (w.downlink_mtu ≡ least_downlink es t.downlink_mtu)
    × (w.tunnel_overhead ≡ t.tunnel_overhead)

uplink_fields :
    (n : ℤ) (t : MtuTracker)
    → ((update_uplink_mtu n t).uplink_mtu ≡ least t.uplink_mtu n)
      × ((update_uplink_mtu n t).downlink_mtu ≡ t.downlink_mtu)
      × ((update_uplink_mtu n t).tunnel_overhead ≡ t.tunnel_overhead)
unfolding update_uplink_mtu
uplink_fields n t = ground arith

downlink_fields :
    (n : ℤ) (t : MtuTracker)
    → ((update_downlink_mtu n t).uplink_mtu ≡ t.uplink_mtu)
      × ((update_downlink_mtu n t).downlink_mtu ≡ least t.downlink_mtu n)
      × ((update_downlink_mtu n t).tunnel_overhead ≡ t.tunnel_overhead)
unfolding update_downlink_mtu
downlink_fields n t = ground arith

run-Least : (es : List Event) (t : MtuTracker) → Least es t (run es t)
unfolding run handle Least
run-Least [] t = (refl, refl, refl)
run-Least (uplink n ∷ es) t =
    let r = run-Least es (update_uplink_mtu n t) in
    let f = uplink_fields n t in
    (r.0 ∙ ap (least_uplink es) f.0, r.1 ∙ ap (least_downlink es) f.1, r.2 ∙ f.2)
run-Least (downlink n ∷ es) t =
    let r = run-Least es (update_downlink_mtu n t) in
    let f = downlink_fields n t in
    (r.0 ∙ ap (least_uplink es) f.0, r.1 ∙ ap (least_downlink es) f.1, r.2 ∙ f.2)

-- After any updates the MTU of each direction is the least of the initial one and those reported for it,
-- the tunnel's is the uplink's less the overhead of the protocol, and the listener was told last of
-- exactly these.
pub run_is_least :
    (protocol : IpProtocol) (initial : ℤ) (es : List Event)
    → let t = run es (new_mtu_tracker protocol initial) in
      (t.uplink_mtu ≡ least_uplink es initial)
      × (t.downlink_mtu ≡ least_downlink es initial)
      × (t.tunnel_mtu ≡ t.uplink_mtu -ℤ pos (overhead_of protocol))
      × (last_uplink t.posted none ≡ some (t.uplink_mtu, t.tunnel_mtu))
      × (last_downlink t.posted none ≡ some t.downlink_mtu)
unfolding Least new_mtu_tracker
run_is_least protocol initial es =
    let l = run-Least es (new_mtu_tracker protocol initial) in
    let s = run-InStep es (new_mtu_tracker protocol initial) (refl, refl, refl) in
    (
      l.0,
      l.1,
      s.0 ∙ ap (λ o. (run es (new_mtu_tracker protocol initial)).uplink_mtu -ℤ pos o) l.2,
      s.1,
      s.2,
    )
