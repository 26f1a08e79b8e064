-- ===== src/Datapath/Ipsec/Network/Forwarder.antt =====
-- That Start, SwitchNetwork and SetKeyMaterials of krypton/datapath/android_ipsec/ipsec_datapath.cc let a
-- packet forwarder run only where it may.
use vpn_libraries.Prelude.{ℕ, Bool, true, false, Option, none, some, List, [], ◌∷◌, arith}
use vpn_libraries.Prelude.Int.{ℤ}
use vpn_libraries.Utils.Status.{Status, StatusOr, value, error}
use vpn_libraries.Utils.IpRange.{NetLibrary}
use vpn_libraries.Runtime.{NetworkInfo}
use vpn_libraries.Selector.{Endpoint, IpProtocol, unknown_protocol, ip_v4, ip_v6}
use vpn_libraries.Provision.EgressResponse.{
  AddEgressResponse, DataplaneResponse, ppn_dataplane_response,
}
use vpn_libraries.Datapath.Ipsec.{
  IpsecDatapath, IpsecConfig, IpsecVpnService, IpsecTransformParams, TransformParams, ipsec_params,
  other_params, DatapathNotification, notify, start_forwarder,
}
use vpn_libraries.Datapath.Ipsec.Forwarder.{
  IsSound, IsIdle, idle-IsSound, shut_down-IsIdle, start_up-IsSound,
}
use vpn_libraries.Datapath.Ipsec.Network.{
  endpoints, set_mss_endpoint, set_mss_endpoints, set_port, start_with, start, with_status,
  configured, with_socket, track, with_endpoint, with_keys, with_tunnel, switch_network, restarted,
  with_material, set_key_materials,
}

module _ (lib : NetLibrary) where
  mss_endpoint-IsSound :
      (e : Endpoint) (p : IpProtocol) (d : IpsecDatapath)
      → IsSound d
      → IsSound (set_mss_endpoint lib e p d)
  unfolding IsSound
  mss_endpoint-IsSound e ip_v4 d h = h
  mss_endpoint-IsSound e ip_v6 d h = h
  mss_endpoint-IsSound e unknown_protocol d h = h

  mss-IsSound :
      (es : List (StatusOr Endpoint)) (d : IpsecDatapath)
      → IsSound d
      → IsSound (set_mss_endpoints lib es d).0
  unfolding set_mss_endpoints
  mss-IsSound [] d h = h
  mss-IsSound (error s ∷ es) d h = h
  mss-IsSound (value e ∷ es) d h = mss-IsSound es _ (mss_endpoint-IsSound e e.ip_protocol d h)

  port-IsSound :
      (port : ℕ) (r : IpsecDatapath × Status) → IsSound r.0 → IsSound (set_port lib port r).0
  unfolding set_port IsSound
  port-IsSound port (d, s) h = ground arith

  start_with-IsSound :
      (r : StatusOr DataplaneResponse) (d : IpsecDatapath)
      → IsSound d
      → IsSound (start_with lib r d).0
  unfolding start_with
  start_with-IsSound (error s) d h = h
  start_with-IsSound (value r) d h =
      let es = endpoints lib r.mss_detection_sock_addr in
      port-IsSound r.transport_mode_server_port (set_mss_endpoints lib es d) (mss-IsSound es d h)

  pub start-IsSound :
      (r : AddEgressResponse) (p : TransformParams) (d : IpsecDatapath)
      → IsSound d
      → IsSound (start lib r p d).0
  unfolding start IsSound
  start-IsSound r other_params d h = h
  start-IsSound r (ipsec_params k) d h =
      start_with-IsSound (ppn_dataplane_response r) (record d { key_material = some k }) h

  module _ (config : IpsecConfig) (service : IpsecVpnService) where
    status-IsSound :
        (s : Status) (fd : ℤ) (d : IpsecDatapath)
        → IsIdle d
        → IsSound (with_status lib config service s fd d).0
    unfolding with_status IsSound IsIdle start_forwarder notify
    status-IsSound s fd d h = ground arith

    configured-IsSound :
        (p : IpProtocol) (fd : ℤ) (k : IpsecTransformParams) (d : IpsecDatapath)
        → IsIdle d
        → IsSound (configured lib config service p fd k d).0
    unfolding configured IsIdle
    configured-IsSound unknown_protocol fd k d h =
        idle-IsSound (record d { key_material = some k }) h
    configured-IsSound ip_v4 fd k d h = status-IsSound _ fd (record d { key_material = some _ }) h
    configured-IsSound ip_v6 fd k d h = status-IsSound _ fd (record d { key_material = some _ }) h

    -- A notification more.
    pub notify-IsSound :
        (n : DatapathNotification) (d : IpsecDatapath) → IsSound d → IsSound (notify n d)
    unfolding notify IsSound
    notify-IsSound n d h = h

    socket-IsSound :
        (o : StatusOr (Option ℤ)) (e : Endpoint) (network : NetworkInfo) (k : IpsecTransformParams)
        (d : IpsecDatapath)
        → IsIdle d
        → IsSound (with_socket lib config service o e network k d).0
    unfolding with_socket
    socket-IsSound (error s) e network k d h = notify-IsSound _ d (idle-IsSound d h)
    socket-IsSound (value none) e network k d h = idle-IsSound d h
    socket-IsSound (value (some fd)) e network k d h = configured-IsSound e.ip_protocol fd _ d h

    track-IsIdle :
        (e : Endpoint) (network : NetworkInfo) (d : IpsecDatapath)
        → IsIdle d
        → IsIdle (track lib config service e network d)
    unfolding track IsIdle
    track-IsIdle e network d h = ground arith

    endpoint-IsSound :
        (t : StatusOr Endpoint) (e : Endpoint) (network : NetworkInfo) (k : IpsecTransformParams)
        (d : IpsecDatapath)
        → IsIdle d
        → IsSound (with_endpoint lib config service t e network k d).0
    unfolding with_endpoint
    endpoint-IsSound (error s) e network k d h = notify-IsSound _ d (idle-IsSound d h)
    endpoint-IsSound (value t) e network k d h =
        socket-IsSound _ e network k _ (track-IsIdle e network d h)

    keys-IsSound :
        (o : Option IpsecTransformParams) (id : ℕ) (e : Endpoint) (network : NetworkInfo)
        (d : IpsecDatapath)
        → IsIdle d
        → IsSound (with_keys lib config service o id e network d).0
    unfolding with_keys IsIdle
    keys-IsSound none id e network d h = idle-IsSound d h
    keys-IsSound (some k) id e network d h =
        endpoint-IsSound _ e network _ (record d { key_material = some _ }) h

    tunnel-IsSound :
        (t : StatusOr Bool) (id : ℕ) (e : Endpoint) (network : NetworkInfo) (d : IpsecDatapath)
        → IsIdle d
        → IsSound (with_tunnel lib config service t id e network d).0
    unfolding with_tunnel
    tunnel-IsSound (error s) id e network d h = notify-IsSound _ d (idle-IsSound d h)
    tunnel-IsSound (value false) id e network d h = notify-IsSound _ d (idle-IsSound d h)
    tunnel-IsSound (value true) id e network d h = keys-IsSound d.key_material id e network d h

    pub switch_network-IsSound :
        (id : ℕ) (e : Endpoint) (network : NetworkInfo) (d : IpsecDatapath)
        → IsSound d
        → IsSound (switch_network lib config service id e network d).0
    unfolding switch_network IsSound
    switch_network-IsSound id e network d h =
        tunnel-IsSound service.get_tunnel id e network _ (shut_down-IsIdle true d h.1)

module _ (service : IpsecVpnService) where
  restarted-IsSound :
      (s : Status) (d : IpsecDatapath) → IsIdle d → IsSound (restarted service s d).0
  unfolding restarted
  restarted-IsSound s d h = ground (arith, start_up-IsSound service d h, idle-IsSound d h)

  -- The end of the wait for a rekey.
  rekeyed-IsSound :
      (d : IpsecDatapath) → IsSound d → IsSound (record d { rekey_in_progress = false })
  unfolding IsSound
  rekeyed-IsSound d h = ground arith

  material-IsSound :
      (o : Option IpsecTransformParams) (new : IpsecTransformParams) (d : IpsecDatapath)
      → IsSound d
      → IsSound (with_material service o new d).0
  unfolding with_material IsSound
  material-IsSound none new d h = h
  material-IsSound (some k) new d h =
      restarted-IsSound _ _ (shut_down-IsIdle false (record d { key_material = some _ }) h.1)

  pub set_key_materials-IsSound :
      (p : TransformParams) (d : IpsecDatapath)
      → IsSound d
      → IsSound (set_key_materials service p d).0
  unfolding set_key_materials
  set_key_materials-IsSound other_params d h = rekeyed-IsSound d h
  set_key_materials-IsSound (ipsec_params new) d h =
      material-IsSound d.key_material new _ (rekeyed-IsSound d h)
