-- ===== src/Agent/HostNetworkConfig.antt =====
-- The layer 3 interfaces of a node: pkg/controller/agent/hostnetworkconfig/controller.go.
pub mod Leases
pub mod Status
pub mod Removed
use network_controller_harve.Common.{
  ℕ, Bool, true, false, List, [], ◌∷◌, Option, none, some, Bytes, codes, ◌==◌, bytes_eq, put,
  Result, ok, err, ◌>>=◌, Effect, and_then, if◌then◌else◌, Error, no_address, unsupported_mode,
}
use network_controller_harve.Objects.{HostNetworkConfig, LabelSelector, Node, is_true}
use network_controller_harve.Bridge.{br_vlan_device, vlan_device}
use network_controller_harve.Env.{Env}
use network_controller_harve.Requests.{Log, Server}
use network_controller_harve.Network.{Netlink, Link, self, is_link_not_found}
use network_controller_harve.Network.Ports.{add_bridge_vlan, del_bridge_vlan}
use network_controller_harve.Network.Areas.{Vlan, get_vlan, get_bridge_link}
use network_controller_harve.Network.SubInterfaces.{
  create_sub_interface, del_sub_interface, set_ip_address,
}
use network_controller_harve.Webhook.HostNetworkConfig.{ip_of, ip_mode_static}
use network_controller_harve.Agent.HostNetworkConfig.Status.{
  set_per_node_status, update_ready_status, remove_per_node_status, add_node_annotation,
  wake_up_cluster_network,
}
use network_controller_harve.Agent.HostNetworkConfig.Leases.{Dhcp, LeaseManager, start, stop}

abbrev pub ip_mode_dhcp : Bytes
ip_mode_dhcp = codes "dhcp"

-- The lease managers by the names of their interfaces.
unfoldable pub manager_of {ℓ} : {M : Type ℓ} → Bytes → List (Bytes × M) → Option M
manager_of name [] = none
manager_of name ((key, lm) ∷ rest) = if key == name then some lm else manager_of name rest

unfoldable pub without_manager {ℓ} : {M : Type ℓ} → Bytes → List (Bytes × M) → List (Bytes × M)
without_manager name [] = []
without_manager name ((key, lm) ∷ rest) =
    let others = without_manager name rest in if key == name then others else (key, lm) ∷ others

abbrev pub given_address : Option Bytes → Result Bytes
given_address none = err no_address
given_address (some addr) = if addr == [] then err no_address else ok addr

-- `findMatchingIPfromNode`
unfoldable pub find_matching_ip : Bytes → List (Bytes × Bytes) → Result Bytes
find_matching_ip node_name host_ips = given_address (ip_of node_name host_ips)

-- The handler's node, and the management interface that its start has found.
module _ (env : Env) (nl : Netlink) (dhcp : Dhcp nl.State) (server : Server)
    (node_name mgmt_intf : Bytes) where
  abbrev pub Managers : Type 0
  Managers = List (Bytes × LeaseManager nl dhcp)

  -- The links of the node and the lease managers, and the requests sent.
  abbrev pub Host : Type 0
  Host = nl.State × Managers

  abbrev pub S : Type 0
  S = Host × Log

  abbrev pub on_links : (nl.State → Effect nl.State) → Host → Effect Host
  on_links f (s, lms) = let (t, r) = f s in ((t, lms), r)

  abbrev pub on_host : (Host → Effect Host) → S → Effect S
  on_host f (host, log) = let (next, r) = f host in ((next, log), r)

  abbrev pub on_log : (Log → Effect Log) → S → Effect S
  on_log f (host, log) = let (next, r) = f log in ((host, next), r)

  abbrev pub if_found : Error → Result Bool
  if_found e = if is_link_not_found e then ok false else err e

  abbrev pub exists_as : Result Link → Result Bool
  exists_as (err e) = if_found e
  exists_as (ok sub) = ok true

  abbrev pub exists_on : HostNetworkConfig → nl.State → Result Vlan → Result Bool
  exists_on hnc s (err e) = if_found e
  exists_on hnc s (ok v) = get_bridge_link nl v.name s >>= λ br.
      exists_as (nl.link_by_name (br_vlan_device br.name hnc.vlan_id) s)

  -- `checkifHostNetworkInterfaceExists`
  unfoldable pub interface_exists : HostNetworkConfig → nl.State → Result Bool
  interface_exists hnc s = exists_on hnc s (get_vlan nl hnc.cluster_network s)

  abbrev pub selects : Node → LabelSelector → Result Bool
  selects node selector =
      if node.deleting then ok false else env.as_selector selector >>= λ test. ok (test node.labels)

  -- `matchNode`
  unfoldable pub match_node : Option LabelSelector → Result Bool
  match_node none = ok true
  match_node (some selector) = env.get_node node_name >>= λ node. selects node selector

  abbrev pub stop_found : Bytes → Option (LeaseManager nl dhcp) → Host → Host
  stop_found name none host = host
  stop_found name (some lm) (s, lms) = (stop nl dhcp lm s, without_manager name lms)

  -- `stopLeaseManager`
  unfoldable pub stop_lease_manager : Bytes → Host → Host
  stop_lease_manager name (s, lms) = stop_found name (manager_of name lms) (s, lms)

  abbrev pub made_manager : Bytes → Link → ℕ → Result dhcp.Client → Result (LeaseManager nl dhcp)
  made_manager name br vid (err e) = err e
  made_manager name br vid (ok client) = ok (record {
    iface = name;
    link = br;
    vlan_id = vid;
    client = client;
    lease = none;
    ip_addr = [];
    running = false;
  })

  -- `getOrCreateLeaseManager`, with the entry of the map; the new manager is put into the map before
  -- it is started.
  abbrev pub get_or_create :
      Bytes → Link → ℕ → nl.State → Option (LeaseManager nl dhcp) → Result (LeaseManager nl dhcp)
  get_or_create name br vid s (some lm) = ok lm
  get_or_create name br vid s none = made_manager name br vid (dhcp.new_client name s)

  abbrev pub start_created : Bytes → Result (LeaseManager nl dhcp) → Host → Effect Host
  start_created name (err e) (s, lms) = ((s, lms), err e)
  start_created name (ok lm) (s, lms) =
      let ((t, held), r) = start nl dhcp lm s in ((t, (name, held) ∷ without_manager name lms), r)

  -- `startLeaseManager`
  unfoldable pub start_lease_manager : Link → ℕ → Host → Effect Host
  start_lease_manager br vid (s, lms) =
      let name = br_vlan_device br.name vid in
      start_created name (get_or_create name br vid s (manager_of name lms)) (s, lms)

  abbrev pub set_static : Link → ℕ → Result Bytes → Host → Effect Host
  set_static br vid (err e) host = (host, err e)
  set_static br vid (ok addr) host = on_links (set_ip_address nl br addr vid) host

  -- The modes of `OnChange`.
  unfoldable pub set_address : HostNetworkConfig → Link → Host → Effect Host
  set_address hnc br host =
      if hnc.mode == ip_mode_dhcp
      then start_lease_manager br hnc.vlan_id host
      else if hnc.mode == ip_mode_static
      then set_static br hnc.vlan_id (find_matching_ip node_name hnc.host_ips)
          (stop_lease_manager (br_vlan_device br.name hnc.vlan_id) host)
      else (host, err unsupported_mode)

  -- The end of `OnChange`, after the address: the status, and the interface for the underlay.
  abbrev pub finish : HostNetworkConfig → Link → Effect Host → Log → Effect S
  finish hnc br (host, r) log =
      and_then (on_log (update_ready_status env server node_name mgmt_intf hnc r) (host, log)) (λ s.
        on_log
          (add_node_annotation env server node_name mgmt_intf (br_vlan_device br.name hnc.vlan_id)
            hnc.underlay)
          s)

  -- The filter of the bridge, and the sub-interface.
  abbrev pub prepare : HostNetworkConfig → Link → nl.State → Effect nl.State
  prepare hnc br s =
      and_then (add_bridge_vlan nl br self hnc.vlan_id s)
        (λ t. create_sub_interface nl br hnc.vlan_id t)

  abbrev pub prepared : HostNetworkConfig → Link → Effect Host → Log → Effect S
  prepared hnc br (host, err e) log =
      on_log (update_ready_status env server node_name mgmt_intf hnc (err e)) (host, log)
  prepared hnc br (host, ok done) log =
      and_then
        (on_log (wake_up_cluster_network env server node_name mgmt_intf hnc.cluster_network)
          (host, log))
        (λ (h, l). finish hnc br (set_address hnc br h) l)

  abbrev pub set_up_on : HostNetworkConfig → Result Link → S → Effect S
  set_up_on hnc (err e) s =
      on_log (update_ready_status env server node_name mgmt_intf hnc (err e)) s
  set_up_on hnc (ok br) (host, log) = prepared hnc br (on_links (prepare hnc br) host) log

  abbrev pub set_up : HostNetworkConfig → Result Vlan → S → Effect S
  set_up hnc (err e) (host, log) =
      if is_link_not_found e
      then ((stop_lease_manager (vlan_device hnc.cluster_network hnc.vlan_id) host, log), ok tt)
      else on_log (update_ready_status env server node_name mgmt_intf hnc (err e)) (host, log)
  set_up hnc (ok v) ((s, lms), log) = set_up_on hnc (get_bridge_link nl v.name s) ((s, lms), log)

  -- What `removeHostNetworkInterface` does on the node.
  abbrev pub clean : HostNetworkConfig → Link → Host → Effect Host
  clean hnc br host = and_then (on_links (del_bridge_vlan nl br self hnc.vlan_id) host) (λ h.
      on_links (del_sub_interface nl br hnc.vlan_id)
        (stop_lease_manager (br_vlan_device br.name hnc.vlan_id) h))

  abbrev pub clean_on : HostNetworkConfig → Bool → Result Link → S → Effect S
  clean_on hnc on_change (err e) s = if is_link_not_found e then (s, ok tt) else (s, err e)
  clean_on hnc on_change (ok br) s = and_then (on_host (clean hnc br) s) (λ t.
      and_then
        (on_log (wake_up_cluster_network env server node_name mgmt_intf hnc.cluster_network) t)
        (λ u.
          if on_change
          then on_log (remove_per_node_status env server node_name mgmt_intf hnc) u
          else (u, ok tt)))

  abbrev pub clean_vlan : HostNetworkConfig → Bool → Result Vlan → S → Effect S
  clean_vlan hnc on_change (err e) s = if is_link_not_found e then (s, ok tt) else (s, err e)
  clean_vlan hnc on_change (ok v) ((s, lms), log) =
      clean_on hnc on_change (get_bridge_link nl v.name s) ((s, lms), log)

  -- `removeHostNetworkInterface`
  unfoldable pub remove_interface : HostNetworkConfig → Bool → S → Effect S
  remove_interface hnc on_change ((s, lms), log) =
      clean_vlan hnc on_change (get_vlan nl hnc.cluster_network s) ((s, lms), log)

  -- `OnRemove`
  unfoldable pub on_remove : HostNetworkConfig → S → Effect S
  on_remove hnc s = remove_interface hnc false s

  -- `OnChange` for whether the selector matches the node, and the interface exists.
  abbrev pub change_known : HostNetworkConfig → Result (Bool × Bool) → S → Effect S
  change_known hnc (err e) s = (s, err e)
  change_known hnc (ok (false, true)) s = remove_interface hnc true s
  change_known hnc (ok (false, false)) s =
      on_log (remove_per_node_status env server node_name mgmt_intf hnc) s
  change_known hnc (ok (true, true)) s =
      on_log
        (λ log.
          and_then
            (add_node_annotation env server node_name mgmt_intf
              (vlan_device hnc.cluster_network hnc.vlan_id) hnc.underlay log)
            (set_per_node_status env server node_name mgmt_intf hnc is_true))
        s
  change_known hnc (ok (true, false)) ((s, lms), log) =
      set_up hnc (get_vlan nl hnc.cluster_network s) ((s, lms), log)

  -- `OnChange`; the object is never nil here.
  unfoldable pub on_change : HostNetworkConfig → S → Effect S
  on_change hnc ((s, lms), log) =
      if hnc.deleting
      then (((s, lms), log), ok tt)
      else change_known hnc
          (match_node hnc.node_selector >>= λ matched.
            interface_exists hnc s >>= λ there. ok (matched, there))
          ((s, lms), log)
