-- ===== src/Agent/VlanConfig.antt =====
-- The uplink of a VLAN configuration on a node: pkg/controller/agent/vlanconfig/controller.go; the
-- configuration of `mgmt` that it makes on its start is in Management.
pub mod Links
pub mod Management
pub mod Followed
pub mod Removed
use network_controller_harve.Common.{
  String, Bool, false, not, ◌||◌, ◌&&◌, List, [], ◌∷◌, ◌++◌, Option, none, some, Bytes, ◌==◌, ◌!=◌,
  bytes_eq, any, get, put, delete, is_nil, GoMap, Dict, Result, ok, err, ◌>>=◌, Check, Effect,
  and_then, if◌then◌else◌, Error, is_not_found, bad_json,
}
use network_controller_harve.Objects.{
  VlanConfig, ClusterNetwork, VlanStatus, HostNetworkConfig, Node, BondOptions, ObjectMeta, Ready,
  is_true, is_false, key_vlan_config_label, key_node_label, key_cluster_network_label,
  key_matched_nodes, value_true, mgmt,
}
use network_controller_harve.Env.{Env, equals}
use network_controller_harve.Requests.{
  Request, Log, Server, send, each, update_node, create_vlan_status, update_vlan_status,
  delete_vlan_status, enqueue_cluster_network, enqueue_host_network_config,
}
use network_controller_harve.Agent.VlanConfig.Links.{setup_links}
use network_controller_harve.Webhook.VlanConfig.{status_name}
use network_controller_harve.Network.{Netlink, is_link_not_found}
use network_controller_harve.Network.Areas.{Vlan, get_vlan, teardown}

-- `if !errors.As(err, &LinkNotFoundError{})`: the VLAN is taken for torn down.
abbrev pub unless_gone : Error → Check
unless_gone e = if is_link_not_found e then ok tt else err e

-- `first` in `if first != nil { … }` after the status is written: an error of the status comes first.
abbrev pub then_report : {S : Type 0} → Check → Effect S → Effect S
then_report setup_result (s, err e) = (s, err e)
then_report setup_result (s, ok done) = (s, setup_result)

-- `MatchNode`, with the decoded names
abbrev pub names_this : Bytes → Option (List Bytes) → Result Bool
names_this node_name none = err bad_json
names_this node_name (some names) = ok (any (λ n. n == node_name) names)

-- `addNodeLabel`, `removeNodeLabel` of a node and the key of its cluster network
abbrev pub has_label : Node → String → Bytes → Bool
has_label node key value = not (is_nil node.labels) && get key node.labels == value

abbrev pub relabelled : GoMap → Node → Node
relabelled labels node = record node { meta = record node.meta { labels = labels } }

-- `getVlanStatus`, with the listed statuses
abbrev pub only_status : List VlanStatus → Result (Option VlanStatus)
only_status [] = ok none
only_status (vs ∷ []) = ok (some vs)
only_status (vs ∷ ws ∷ rest) = err Error.other_status_remains

-- The handler's node, and what it uses: `label_key` is `GetLabelKeyOfClusterNetwork`, which puts a
-- group's name before that of the cluster network.
module _ (env : Env) (nl : Netlink) (server : Server) (node_name : Bytes)
    (label_key : Bytes → String) where
  -- The links of the node, and the requests sent.
  abbrev pub S : Type 0
  S = nl.State × Log

  abbrev pub on_links : (nl.State → Effect nl.State) → S → Effect S
  on_links f (s, log) = let (t, r) = f s in ((t, log), r)

  abbrev pub on_log : (Log → Effect Log) → S → Effect S
  on_log f (s, log) = let (next, r) = f log in ((s, next), r)

  -- `MatchNode`
  unfoldable pub match_node : VlanConfig → Result Bool
  match_node vc =
      let annotation = get key_matched_nodes vc.annotations in
      if annotation == [] then ok false else names_this node_name (env.decode_names annotation)

  -- `getVlanStatus`
  unfoldable pub get_vlan_status : VlanConfig → Result (Option VlanStatus)
  get_vlan_status vc =
      env.list_vlan_statuses
        (equals key_vlan_config_label vc.name ∷ equals key_node_label node_name ∷ [])
      >>= only_status

  -- One round of the loop of `reconcileHostNetwork`.
  unfoldable pub enqueue_on : Bytes → HostNetworkConfig → Log → Effect Log
  enqueue_on cn_name hnc log =
      if hnc.cluster_network != cn_name
      then (log, ok tt)
      else if hnc.deleting
      then (log, ok tt)
      else (log ++ enqueue_host_network_config hnc.name ∷ [], ok tt)

  abbrev pub reconcile_listed : Bytes → Result (List HostNetworkConfig) → Log → Effect Log
  reconcile_listed cn_name (err e) log = (log, err e)
  reconcile_listed cn_name (ok hncs) log = each (enqueue_on cn_name) hncs log

  -- `reconcileHostNetwork`
  unfoldable pub reconcile_host_network : Bytes → Log → Effect Log
  reconcile_host_network cn_name log = reconcile_listed cn_name env.list_host_network_configs log

  abbrev pub remove_from : VlanStatus → Result Node → Log → Effect Log
  remove_from vs (err e) log = (log, err e)
  remove_from vs (ok node) log =
      let key = label_key vs.cluster_network in
      if has_label node key value_true || has_label node key_vlan_config_label vs.vlan_config
      then send server
          (update_node (relabelled (delete key_vlan_config_label (delete key node.labels)) node))
          log
      else (log, ok tt)

  -- `removeNodeLabel`
  unfoldable pub remove_node_label : VlanStatus → Log → Effect Log
  remove_node_label vs log = remove_from vs (env.get_node node_name) log

  -- `deleteStatus`; the message of the condition is left out.
  unfoldable pub delete_status : VlanStatus → Check → Log → Effect Log
  delete_status vs (err e) log =
      send server (update_vlan_status (record vs { ready = is_false })) log
  delete_status vs (ok done) log = send server (delete_vlan_status vs.name) log

  -- The tear down at the start of `removeVLAN`, of which an error does not end it.
  abbrev pub torn_down : Result Vlan → nl.State → nl.State × Check
  torn_down (err e) s = (s, unless_gone e)
  torn_down (ok v) s = teardown nl v s

  -- `removeVLAN`
  unfoldable pub remove_vlan : VlanStatus → S → Effect S
  remove_vlan vs (s, log) =
      let (t, r) = torn_down (get_vlan nl vs.cluster_network s) s in
      and_then
        (then_report r
          (on_log (λ l. and_then (remove_node_label vs l) (λ k. delete_status vs r k)) (t, log)))
        (λ u. on_log (reconcile_host_network vs.cluster_network) u)

  abbrev pub remove_found : Result (Option VlanStatus) → S → Effect S
  remove_found (err e) s = (s, err e)
  remove_found (ok none) s = (s, ok tt)
  remove_found (ok (some vs)) s = remove_vlan vs s

  -- `OnRemove`
  unfoldable pub on_remove : VlanConfig → S → Effect S
  on_remove vc s =
      if vc.cluster_network == mgmt then (s, ok tt) else remove_found (get_vlan_status vc) s

  abbrev pub ready_after : Check → Ready
  ready_after (ok done) = is_true
  ready_after (err e) = is_false

  abbrev pub status_labels : VlanConfig → Dict
  status_labels vc =
      (key_cluster_network_label, vc.cluster_network)
      ∷ (key_vlan_config_label, vc.name)
      ∷ (key_node_label, node_name)
      ∷ []

  -- The status that `updateStatus` writes; the message, the owner and the link monitor are left out.
  abbrev pub status_after : VlanConfig → Check → ObjectMeta → VlanStatus
  status_after vc r meta = record {
    meta = record meta { labels = some (status_labels vc) };
    cluster_network = vc.cluster_network;
    vlan_config = vc.name;
    node = node_name;
    ready = ready_after r;
  }

  abbrev pub write_status : VlanConfig → Check → Result VlanStatus → Log → Effect Log
  write_status vc r (ok vs) log =
      if env.same_vlan_status vs (status_after vc r vs.meta)
      then (log, ok tt)
      else send server (update_vlan_status (status_after vc r vs.meta)) log
  write_status vc r (err e) log =
      if is_not_found e
      then send server
          (create_vlan_status (
            status_after vc r (record {
              name = status_name env vc.cluster_network node_name;
              namespace = [];
              labels = none;
              annotations = none;
              deleting = false;
            })))
          log
      else (log, err e)

  -- `updateStatus`
  unfoldable pub update_status : VlanConfig → Check → Log → Effect Log
  update_status vc r log =
      write_status vc r (env.get_vlan_status (status_name env vc.cluster_network node_name)) log

  abbrev pub add_to : VlanConfig → Result Node → Log → Effect Log
  add_to vc (err e) log = (log, err e)
  add_to vc (ok node) log =
      let key = label_key vc.cluster_network in
      if has_label node key value_true && has_label node key_vlan_config_label vc.name
      then (log, ok tt)
      else send server
          (update_node
            (relabelled (put key_vlan_config_label vc.name (put key value_true node.labels)) node))
          log

  -- `addNodeLabel`
  unfoldable pub add_node_label : VlanConfig → Log → Effect Log
  add_node_label vc log = add_to vc (env.get_node node_name) log

  abbrev pub wake_up : Bytes → Result ClusterNetwork → Log → Effect Log
  wake_up name (err e) log = (log, err e)
  wake_up name (ok cn) log = (log ++ enqueue_cluster_network name ∷ [], ok tt)

  -- `wakeUpClusterNetwork`
  unfoldable pub wake_up_cluster_network : VlanConfig → Log → Effect Log
  wake_up_cluster_network vc log =
      wake_up vc.cluster_network (env.get_cluster_network vc.cluster_network) log

  -- `setupVLAN`
  unfoldable pub setup_vlan : VlanConfig → S → Effect S
  setup_vlan vc (s, log) =
      let (t, r) = setup_links nl vc s in
      and_then (then_report r (on_log (update_status vc r) (t, log))) (λ u.
        and_then (on_log (add_node_label vc) u) (λ v.
          and_then (on_log (wake_up_cluster_network vc) v)
            (λ w. on_log (reconcile_host_network vc.cluster_network) w)))

  -- Whether `OnChange` removes the status of before.
  abbrev pub is_stale : VlanConfig → Bool → VlanStatus → Bool
  is_stale vc matched vs = not matched || vc.cluster_network != vs.cluster_network

  abbrev pub remove_stale : VlanConfig → Bool → Option VlanStatus → S → Effect S
  remove_stale vc matched none s = (s, ok tt)
  remove_stale vc matched (some vs) s =
      if is_stale vc matched vs then remove_vlan vs s else (s, ok tt)

  abbrev pub change_known : VlanConfig → Result (Bool × Option VlanStatus) → S → Effect S
  change_known vc (err e) s = (s, err e)
  change_known vc (ok (matched, vs)) s =
      and_then (remove_stale vc matched vs s) (λ t. if matched then setup_vlan vc t else (t, ok tt))

  -- `OnChange`; the object is never nil here.
  unfoldable pub on_change : VlanConfig → S → Effect S
  on_change vc s =
      if vc.cluster_network == mgmt || vc.deleting
      then (s, ok tt)
      else change_known vc
          (match_node vc >>= λ matched. get_vlan_status vc >>= λ vs. ok (matched, vs)) s
