-- ===== src/Datapath/Ipsec/Forwarder.antt =====
-- When krypton/datapath/android_ipsec/ipsec_datapath.cc lets a packet forwarder run.
use vpn_libraries.Prelude.{
  ℕ, ◌≡◌, refl, Bool, true, false, Option, none, some, ◌==◌, ◌&&◌, ◌||◌, not, arith, is_some,
  if◌then◌else◌,
}
use vpn_libraries.Prelude.Int.{ℤ}
use vpn_libraries.Utils.Status.{StatusOr, value, error}
use vpn_libraries.Datapath.Ipsec.{
  IpsecDatapath, IpsecVpnService, notify, close_at, close_network_socket, stop_at,
  shut_down_ipsec_packet_forwarder, start_forwarder, started_on, start_up_ipsec_packet_forwarder,
  stop, prepare_for_tunnel_switch, switch_tunnel,
}

-- Whether a forwarder may run: it is the newest one, its socket is open, no rekey is awaited, and none is
-- to be started again.
abbrev pub may_run : Option ℕ → ℕ → Option ℤ → Bool → Bool → Bool
may_run none curr socket in_progress restart = true
may_run (some id) curr socket in_progress restart =
    id == curr && is_some socket && not in_progress && not restart

unfoldable pub IsSound : IpsecDatapath → Type 0
IsSound d =
    (may_run d.forwarder d.curr_forwarder_id d.network_socket d.rekey_in_progress
        d.tunnel_switch_requires_restart
      ≡ true)
    × (not d.rekey_in_progress || d.rekey_needed ≡ true)

-- No forwarder runs, and none is to be started again.
unfoldable pub IsIdle : IpsecDatapath → Type 0
IsIdle d =
    (d.forwarder ≡ none)
    × (d.tunnel_switch_requires_restart ≡ false)
    × (not d.rekey_in_progress || d.rekey_needed ≡ true)

pub idle-IsSound : (d : IpsecDatapath) → IsIdle d → IsSound d
unfolding IsSound IsIdle
idle-IsSound d h = ground arith

close-IsIdle : (o : Option ℤ) (d : IpsecDatapath) → IsIdle d → IsIdle (close_at o d)
unfolding IsIdle close_at
close-IsIdle none d h = h
close-IsIdle (some fd) d h = h

stop_at-IsIdle :
    (o : Option ℕ) (d : IpsecDatapath)
    → d.forwarder ≡ o
    → d.tunnel_switch_requires_restart ≡ false
    → not d.rekey_in_progress || d.rekey_needed ≡ true
    → IsIdle (stop_at o d)
unfolding IsIdle stop_at
stop_at-IsIdle none d e r k = (e, r, k)
stop_at-IsIdle (some id) d e r k = (refl, r, k)

if-IsIdle : (c : Bool) (x y : IpsecDatapath) → IsIdle x → IsIdle y → IsIdle (if c then x else y)
if-IsIdle true x y h k = h
if-IsIdle false x y h k = k

-- What has been shut down is idle.
pub shut_down-IsIdle :
    (close : Bool) (d : IpsecDatapath)
    → not d.rekey_in_progress || d.rekey_needed ≡ true
    → IsIdle (shut_down_ipsec_packet_forwarder close d)
unfolding IsIdle shut_down_ipsec_packet_forwarder close_network_socket
shut_down-IsIdle close d k =
    let d0 = record d {
      tunnel_switch_in_progress = false;
      tunnel_switch_requires_restart = false;
    } in
    let d1 = stop_at d.forwarder d0 in
    let h = stop_at-IsIdle d.forwarder d0 refl refl k in
    if-IsIdle close (close_at d1.network_socket d1) d1 (close-IsIdle d1.network_socket d1 h) h

pub stop-IsSound : (d : IpsecDatapath) → IsSound d → IsSound (stop d)
unfolding IsSound stop
stop-IsSound d h = idle-IsSound (stop d) (shut_down-IsIdle true d h.1)

-- The next forwarder is sound where the socket is open and no rekey is awaited.
pub start_forwarder-IsSound :
    (d : IpsecDatapath)
    → d.tunnel_switch_requires_restart ≡ false
    → d.rekey_in_progress ≡ false
    → is_some d.network_socket ≡ true
    → IsSound (start_forwarder d)
unfolding IsSound start_forwarder
start_forwarder-IsSound d r p s = ground arith

started_on-IsSound :
    (t : StatusOr Bool) (d : IpsecDatapath)
    → d.tunnel_switch_requires_restart ≡ false
    → d.rekey_in_progress ≡ false
    → IsSound d
    → IsSound (started_on t d)
unfolding IsSound started_on notify start_forwarder
started_on-IsSound (error s) d r p h = h
started_on-IsSound (value false) d r p h = h
started_on-IsSound (value true) d r p h = ground arith

pub start_up-IsSound :
    (service : IpsecVpnService) (d : IpsecDatapath)
    → IsIdle d
    → IsSound (start_up_ipsec_packet_forwarder service d)
unfolding IsSound IsIdle start_up_ipsec_packet_forwarder
start_up-IsSound service d h =
    let i = idle-IsSound d h in ground (arith, started_on-IsSound service.get_tunnel d h.1, i)

pub prepare-IsSound : (d : IpsecDatapath) → IsSound d → IsSound (prepare_for_tunnel_switch d)
unfolding IsSound IsIdle prepare_for_tunnel_switch
prepare-IsSound d h = let i = shut_down-IsIdle false d h.1 in ground (arith, i)

pub switch_tunnel-IsSound :
    (service : IpsecVpnService) (d : IpsecDatapath) → IsSound d → IsSound (switch_tunnel service d)
unfolding IsSound IsIdle switch_tunnel
switch_tunnel-IsSound service d h =
    let d1 = record d { tunnel_switch_requires_restart = false } in
    ground (arith, start_up-IsSound service d1)

-- No forwarder, and no switch of the tunnel.
abbrev pub IsCleared : IpsecDatapath → Type 0
IsCleared d = (d.forwarder ≡ none) × (d.tunnel_switch_in_progress ≡ false)

close-IsCleared : (o : Option ℤ) (d : IpsecDatapath) → IsCleared d → IsCleared (close_at o d)
unfolding close_at
close-IsCleared none d h = h
close-IsCleared (some fd) d h = h

stop_at-IsCleared :
    (o : Option ℕ) (d : IpsecDatapath)
    → d.forwarder ≡ o
    → d.tunnel_switch_in_progress ≡ false
    → IsCleared (stop_at o d)
unfolding stop_at
stop_at-IsCleared none d e h = (e, h)
stop_at-IsCleared (some id) d e h = (refl, h)

pub stop-IsCleared : (d : IpsecDatapath) → IsCleared (stop d)
unfolding stop shut_down_ipsec_packet_forwarder close_network_socket
stop-IsCleared d =
    let d0 = record d {
      tunnel_switch_in_progress = false;
      tunnel_switch_requires_restart = false;
    } in
    let d1 = stop_at d.forwarder d0 in
    close-IsCleared d1.network_socket d1 (stop_at-IsCleared d.forwarder d0 refl refl)
