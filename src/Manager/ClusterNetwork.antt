-- ===== src/Manager/ClusterNetwork.antt =====
-- The manager's controller of cluster networks: pkg/controller/manager/clusternetwork/controller.go.
pub mod Synced
use network_controller_harve.Common.{
  Bool, true, false, not, ◌&&◌, List, [], ◌∷◌, ◌++◌, Option, none, some, Bytes, codes, ◌==◌, ◌!=◌,
  bytes_eq, Result, ok, err, Check, Effect, and_then, if◌then◌else◌, is_not_found,
  is_already_exists, put, get, find,
}
use network_controller_harve.Objects.{
  Nad, ClusterNetwork, HostNetworkConfig, NodeStatus, Node, Ready, is_true, is_false, ObjectMeta,
  key_cluster_network_label, key_network_ready, value_true, value_false, mgmt,
}
use network_controller_harve.Bridge.{bridge_suffix, bond_suffix}
use network_controller_harve.Env.{Env, equals}
use network_controller_harve.Nads.{get_nad_label, set_nad_label}
use network_controller_harve.Requests.{
  Request, Log, Server, send, each, update_nad, create_cluster_network, create_link_monitor,
  delete_link_monitor, update_host_network_config, patch_node_status,
}

-- `Ready.IsTrue`, `Ready.IsFalse`
abbrev pub is_ready : Ready → Bool
is_ready is_true = true
is_ready is_false = false
is_ready Ready.unset = false

abbrev pub is_unready : Ready → Bool
is_unready is_false = true
is_unready is_true = false
is_unready Ready.unset = false

-- Whether the controller treats a cluster network as ready: one that is being deleted is not.
abbrev pub in_service : ClusterNetwork → Bool
in_service cn = not cn.deleting && is_ready cn.ready

abbrev pub bool_text : Bool → Bytes
bool_text true = value_true
bool_text false = value_false

-- The rule for the names of the links of a cluster network.
abbrev pub name_rule : Bytes → Bytes
name_rule name = name ++ codes "(" ++ bridge_suffix ++ codes "|" ++ bond_suffix ++ codes ")"

abbrev pub nic_monitor_name : Bytes
nic_monitor_name = codes "nic"

abbrev pub type_device : Bytes
type_device = codes "device"

abbrev pub ignore_exists : Check → Check
ignore_exists (ok done) = ok tt
ignore_exists (err e) = if is_already_exists e then ok tt else err e

-- `mgmtCn` of `initializeClusterNetwork`
abbrev pub mgmt_cluster_network : ClusterNetwork
mgmt_cluster_network = record {
  meta = record {
    name = mgmt;
    namespace = [];
    labels = none;
    annotations = none;
    deleting = false;
  };
  ready = is_true;
}

-- `hnCopy.Status.NodeStatus[name]`: whether the map has the node.
unfoldable pub has_node : Bytes → List (Bytes × NodeStatus) → Bool
has_node name [] = false
has_node name ((key, status) ∷ rest) = if key == name then true else has_node name rest

abbrev pub reports : HostNetworkConfig → Bytes → Bool
reports hn name = reports_in hn.node_status name
  where
    reports_in : Option (List (Bytes × NodeStatus)) → Bytes → Bool
    reports_in none name = false
    reports_in (some statuses) name = has_node name statuses

module _ (env : Env) (server : Server) where
  -- `ensureLinkMonitor`, with the answer of the cache
  abbrev pub ensure_named : Bytes → Check → Log → Effect Log
  ensure_named name (ok done) log = (log, ok tt)
  ensure_named name (err e) log =
      if is_not_found e
      then send server (create_link_monitor name [] (name_rule name)) log
      else (log, err e)

  -- `EnsureLinkMonitor`
  unfoldable pub ensure_link_monitor : ClusterNetwork → Log → Effect Log
  ensure_link_monitor cn log =
      if cn.deleting
      then (log, ok tt)
      else if not (is_ready cn.ready)
      then (log, ok tt)
      else ensure_named cn.name (env.get_link_monitor cn.name) log

  -- `deleteLinkMonitor`, with the answer of the cache
  abbrev pub delete_named : Bytes → Check → Log → Effect Log
  delete_named name (ok done) log = send server (delete_link_monitor name) log
  delete_named name (err e) log = if is_not_found e then (log, ok tt) else (log, err e)

  -- `DeleteLinkMonitor`
  unfoldable pub remove_link_monitor : ClusterNetwork → Log → Effect Log
  remove_link_monitor cn log = delete_named cn.name (env.get_link_monitor cn.name) log

  -- One round of the loop of `setNadReadyLabel`.
  unfoldable pub set_label : Bytes → Nad → Log → Effect Log
  set_label text nad log =
      if nad.deleting
      then (log, ok tt)
      else if get_nad_label nad key_network_ready == text
      then (log, ok tt)
      else send server (update_nad (set_nad_label nad key_network_ready text)) log

  abbrev pub set_labels : Bytes → Result (List Nad) → Log → Effect Log
  set_labels text (err e) log = (log, err e)
  set_labels text (ok nads) log = each (set_label text) nads log

  -- `SetNadReadyLabel`
  unfoldable pub set_nad_ready_label : ClusterNetwork → Log → Effect Log
  set_nad_ready_label cn log =
      set_labels (bool_text (in_service cn))
        (env.list_nads [] (equals key_cluster_network_label cn.name ∷ [])) log

  -- One round of the loop of `setHNNodeStatusUnready`.
  unfoldable pub set_node_unready : HostNetworkConfig → Node → Log → Effect Log
  set_node_unready hn node log =
      if node.deleting
      then (log, ok tt)
      else if not (reports hn node.name)
      then (log, ok tt)
      else send server
          (patch_node_status hn.name node.name (record {
            cluster_network = hn.cluster_network;
            vlan_id = hn.vlan_id;
            mode = hn.mode;
            ready = is_false;
          }))
          log

  -- `setHNNodeStatusUnready`, with the nodes of the cache
  abbrev pub set_nodes_unready : HostNetworkConfig → Result (List Node) → Log → Effect Log
  set_nodes_unready hn (err e) log = (log, err e)
  set_nodes_unready hn (ok nodes) log = each (set_node_unready hn) nodes log

  -- `setHostNetworkReady`
  unfoldable pub set_host_network_ready : HostNetworkConfig → Log → Effect Log
  set_host_network_ready hn log =
      if is_ready hn.ready
      then (log, ok tt)
      else send server (update_host_network_config (record hn { ready = is_true })) log

  -- `setHostNetworkUnready`: the copy that is marked as not ready goes on to the nodes only.
  unfoldable pub set_host_network_unready : HostNetworkConfig → Log → Effect Log
  set_host_network_unready hn log =
      if is_unready hn.ready
      then (log, ok tt)
      else set_nodes_unready (record hn { ready = is_false }) (env.list_nodes []) log

  -- One round of the loop of `setHostNetworkStatus`.
  unfoldable pub set_status : ClusterNetwork → HostNetworkConfig → Log → Effect Log
  set_status cn hn log =
      if hn.cluster_network != cn.name
      then (log, ok tt)
      else if hn.deleting
      then (log, ok tt)
      else if in_service cn
      then set_host_network_ready hn log
      else set_host_network_unready hn log

  abbrev pub set_statuses : ClusterNetwork → Result (List HostNetworkConfig) → Log → Effect Log
  set_statuses cn (err e) log = (log, err e)
  set_statuses cn (ok hncs) log = each (set_status cn) hncs log

  -- `SetHostNetworkStatus`
  unfoldable pub set_host_network_status : ClusterNetwork → Log → Effect Log
  set_host_network_status cn log = set_statuses cn env.list_host_network_configs log

-- One round of `initialize`, which is tried again until it succeeds.
module _ (server : Server) where
  unfoldable pub initialize_cluster_network : Log → Effect Log
  initialize_cluster_network log =
      let (next, r) = send server (create_cluster_network mgmt_cluster_network) log in
      (next, ignore_exists r)

  unfoldable pub initialize_link_monitor : Log → Effect Log
  initialize_link_monitor log =
      let (next, r) = send server (create_link_monitor nic_monitor_name type_device []) log in
      (next, ignore_exists r)

  unfoldable pub initialize : Log → Effect Log
  initialize log = and_then (initialize_cluster_network log) (λ next. initialize_link_monitor next)
