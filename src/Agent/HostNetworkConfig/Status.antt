-- ===== src/Agent/HostNetworkConfig/Status.antt =====
-- What the agent reports of a host network configuration: the statuses, the annotation of the node
-- and the queue of pkg/controller/agent/hostnetworkconfig/controller.go.
use network_controller_harve.Common.{
  Bool, true, false, not, ◌&&◌, List, [], ◌∷◌, ◌++◌, Option, none, some, Bytes, ◌==◌, bytes_eq, get,
  put, is_nil, Result, ok, err, Effect, Check, if◌then◌else◌,
}
use network_controller_harve.Objects.{
  HostNetworkConfig, Node, NodeStatus, ClusterNetwork, Ready, is_true, is_false, key_underlay_intf,
}
use network_controller_harve.Env.{Env}
use network_controller_harve.Requests.{
  Log, Server, send, patch_node_status, remove_node_status, update_node, enqueue_cluster_network,
}

abbrev pub has_status : Bytes → List (Bytes × NodeStatus) → Bool
has_status name [] = false
has_status name ((key, status) ∷ rest) = if key == name then true else has_status name rest

module _ (env : Env) (server : Server) (node_name mgmt_intf : Bytes) where
  -- `setHostNetworkPerNodeStatus`; the message of the condition is left out.
  unfoldable pub set_per_node_status : HostNetworkConfig → Ready → Log → Effect Log
  set_per_node_status hnc ready log =
      send server
        (patch_node_status hnc.name node_name (record {
          cluster_network = hnc.cluster_network;
          vlan_id = hnc.vlan_id;
          mode = hnc.mode;
          ready = ready;
        }))
        log

  abbrev pub status_of : Check → Ready
  status_of (ok done) = is_true
  status_of (err e) = is_false

  abbrev pub then_setup : Check → Effect Log → Effect Log
  then_setup setup (log, err e) = (log, err e)
  then_setup setup (log, ok done) = (log, setup)

  -- `updateHostNetworkReadyStatus`, with `setHostNetworkStatus`
  unfoldable pub update_ready_status : HostNetworkConfig → Check → Log → Effect Log
  update_ready_status hnc setup log =
      then_setup setup (set_per_node_status hnc (status_of setup) log)

  abbrev pub remove_status_in :
      HostNetworkConfig → Option (List (Bytes × NodeStatus)) → Log → Effect Log
  remove_status_in hnc none log = (log, ok tt)
  remove_status_in hnc (some statuses) log =
      if has_status node_name statuses
      then send server (remove_node_status hnc.name node_name) log
      else (log, ok tt)

  -- `removeHostNetworkPerNodeStatus`
  unfoldable pub remove_per_node_status : HostNetworkConfig → Log → Effect Log
  remove_per_node_status hnc log = remove_status_in hnc hnc.node_status log

  abbrev pub annotate : Bytes → Result Node → Log → Effect Log
  annotate intf (err e) log = (log, err e)
  annotate intf (ok node) log =
      if node.deleting
      then (log, ok tt)
      else if not (is_nil node.annotations) && get key_underlay_intf node.annotations == intf
      then (log, ok tt)
      else send server
          (update_node (record node {
            meta = record node.meta { annotations = put key_underlay_intf intf node.annotations };
          }))
          log

  -- `addNodeAnnotation`
  unfoldable pub add_node_annotation : Bytes → Bool → Log → Effect Log
  add_node_annotation intf underlay log =
      annotate (if underlay then intf else mgmt_intf) (env.get_node node_name) log

  abbrev pub wake_up : Bytes → Result ClusterNetwork → Log → Effect Log
  wake_up name (err e) log = (log, err e)
  wake_up name (ok cn) log = (log ++ enqueue_cluster_network name ∷ [], ok tt)

  -- `wakeUpClusterNetwork`
  unfoldable pub wake_up_cluster_network : Bytes → Log → Effect Log
  wake_up_cluster_network name log = wake_up name (env.get_cluster_network name) log
