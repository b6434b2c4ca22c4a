-- ===== src/Manager/Node.antt =====
-- The manager's controller of nodes: pkg/controller/manager/node/controller.go, and
-- pkg/utils/selector.go.
pub mod Matched
pub mod Changed
pub mod Removed
use network_controller_harve.Common.{
  Bool, true, false, not, List, [], ◌∷◌, Option, none, some, Bytes, ◌==◌, bytes_eq, Dict, GoMap,
  get, put, Result, ok, err, ◌>>=◌, ◌>>◌, Check, Effect, and_then, if◌then◌else◌, is_not_found,
}
use network_controller_harve.Objects.{
  Node, Nad, VlanConfig, VlanStatus, HostNetworkConfig, LabelSelector, LinkMonitor, LinkStatus,
  ObjectMeta, mgmt, mgmt_label_key, key_matched_nodes, key_vlan_config_label, key_node_label,
  key_underlay_intf, key_cluster_network_label, value_true,
}
use network_controller_harve.Bridge.{cluster_network_of_intf}
use network_controller_harve.Mgmt.{mgmt_vlan_config_name}
use network_controller_harve.Env.{Env, Selector, equals, matches}
use network_controller_harve.Nads.{is_overlay_nad, get_nad_label, set_nad_label}
use network_controller_harve.Requests.{
  Request, Log, Server, send, each, update_node, update_nad, update_vlan_config, delete_vlan_config,
  delete_vlan_status, update_host_network_config, update_link_monitor,
}
use network_controller_harve.Webhook.HostNetworkConfig.{has_label_key, is_witness, decoded_list}

-- `delete(m, name)` of the links by node name
unfoldable pub without_node :
    Bytes → List (Bytes × List LinkStatus) → List (Bytes × List LinkStatus)
without_node name [] = []
without_node name ((key, links) ∷ rest) =
    let others = without_node name rest in if key == name then others else (key, links) ∷ others

-- `_, ok := m[name]`
unfoldable pub has_links : Bytes → List (Bytes × List LinkStatus) → Bool
has_links name [] = false
has_links name ((key, links) ∷ rest) = if key == name then true else has_links name rest

-- An update of one annotation of a configuration, and the error of the map that is nil
abbrev pub with_nodes : ObjectMeta → Bytes → ObjectMeta
with_nodes meta text = record meta { annotations = put key_matched_nodes text meta.annotations }

module _ (env : Env) where
  -- `NewSelector`: a selector of which each requirement is well-formed
  unfoldable pub new_selector : Dict → Result Selector
  new_selector [] = ok []
  new_selector ((k, v) ∷ d) = do
    env.valid_requirement k v
    rest ← new_selector d
    ok (equals k v ∷ rest)

  -- The set that the annotation of matched nodes holds.
  unfoldable pub matched_set : GoMap → Result env.Set
  matched_set annotations =
      let text = get key_matched_nodes annotations in
      if text == []
      then ok (env.set_of [])
      else decoded_list (env.decode_names text) >>= λ names. ok (env.set_of names)

  -- The set with the node, or without it.
  abbrev pub moved : Bool → Bytes → env.Set → env.Set
  moved selected name s = if selected then env.set_add s name else env.set_remove s name

  -- `MarshalJSON` of a set
  abbrev pub set_text : env.Set → Bytes
  set_text s = env.encode_names (env.to_slice s)

module _ (env : Env) (server : Server) where
  -- `ensureMgmtLabels`
  unfoldable pub ensure_mgmt_labels : Node → Log → Effect Log
  ensure_mgmt_labels node log =
      if has_label_key node.labels mgmt_label_key value_true
      then (log, ok tt)
      else send server
          (update_node (record node {
            meta = record node.meta { labels = put mgmt_label_key value_true node.labels };
          }))
          log

  -- The end of `updateMatchedNodeAnnotation` and of its twin for host network configurations: the
  -- set is sent if it has changed.
  abbrev pub send_moved :
      (ObjectMeta → Request) → ObjectMeta → Bool → Bytes → Result env.Set → Log → Effect Log
  send_moved request meta selected name (err e) log = (log, err e)
  send_moved request meta selected name (ok s) log =
      let next = moved env selected name s in
      if env.set_equal next s
      then (log, ok tt)
      else send server (request (with_nodes meta (set_text env next))) log

  abbrev pub vc_request : VlanConfig → ObjectMeta → Request
  vc_request vc meta = update_vlan_config (record vc { meta = meta })

  abbrev pub hnc_request : HostNetworkConfig → ObjectMeta → Request
  hnc_request hnc meta = update_host_network_config (record hnc { meta = meta })

  abbrev pub update_selected : VlanConfig → Node → Result Selector → Log → Effect Log
  update_selected vc node (err e) log = (log, err e)
  update_selected vc node (ok sel) log =
      send_moved (vc_request vc) vc.meta (matches sel node.labels) node.name
        (matched_set env vc.annotations) log

  -- `updateMatchedNodeAnnotation`
  unfoldable pub update_matched_nodes : VlanConfig → Node → Log → Effect Log
  update_matched_nodes vc node log = update_selected vc node (new_selector env vc.node_selector) log

  -- One round of the loop of `OnChange`.
  unfoldable pub update_unless_mgmt : Node → VlanConfig → Log → Effect Log
  update_unless_mgmt node vc log =
      if vc.cluster_network == mgmt then (log, ok tt) else update_matched_nodes vc node log

  abbrev pub update_listed : Node → Result (List VlanConfig) → Log → Effect Log
  update_listed node (err e) log = (log, err e)
  update_listed node (ok vcs) log = each (update_unless_mgmt node) vcs log

  abbrev pub hnc_selected : HostNetworkConfig → Node → Result (GoMap → Bool) → Log → Effect Log
  hnc_selected hnc node (err e) log = (log, err e)
  hnc_selected hnc node (ok selector) log =
      send_moved (hnc_request hnc) hnc.meta (selector node.labels) node.name
        (matched_set env hnc.annotations) log

  -- One round of the loop of `updateHostNetworkAnnotation`, with
  -- `updateHostNetworkConfigMatchedNodeAnnotation`.
  abbrev pub hnc_round : HostNetworkConfig → Node → Option LabelSelector → Log → Effect Log
  hnc_round hnc node none log = (log, ok tt)
  hnc_round hnc node (some selector) log = hnc_selected hnc node (env.as_selector selector) log

  unfoldable pub update_hnc : Node → HostNetworkConfig → Log → Effect Log
  update_hnc node hnc log =
      if hnc.deleting then (log, ok tt) else hnc_round hnc node hnc.node_selector log

  abbrev pub update_hncs : Node → Result (List HostNetworkConfig) → Log → Effect Log
  update_hncs node (err e) log = (log, err e)
  update_hncs node (ok hncs) log = each (update_hnc node) hncs log

  -- `updateHostNetworkAnnotation`
  unfoldable pub update_host_network_annotation : Node → Log → Effect Log
  update_host_network_annotation node log = update_hncs node env.list_host_network_configs log

  -- One round of the loop of `setNadClusterNetworkLabel`.
  unfoldable pub label_overlay : Bytes → Nad → Log → Effect Log
  label_overlay bridge nad log =
      if nad.deleting
      then (log, ok tt)
      else if not (is_overlay_nad nad)
      then (log, ok tt)
      else if get_nad_label nad key_cluster_network_label == bridge
      then (log, ok tt)
      else send server (update_nad (set_nad_label nad key_cluster_network_label bridge)) log

  abbrev pub label_overlays : Bytes → Result (List Nad) → Log → Effect Log
  label_overlays bridge (err e) log = (log, err e)
  label_overlays bridge (ok nads) log = each (label_overlay bridge) nads log

  -- `setNadClusterNetworkLabel`; the list of `ListAllNads`
  unfoldable pub set_nad_cluster_network_label : Bytes → Log → Effect Log
  set_nad_cluster_network_label bridge log = label_overlays bridge (env.list_nads [] []) log

  abbrev pub label_for : Result Bytes → Log → Effect Log
  label_for (err e) log = (log, err e)
  label_for (ok bridge) log = set_nad_cluster_network_label bridge log

  -- `updateUnderlayForOverlayNetwork`
  unfoldable pub update_underlay : Node → Log → Effect Log
  update_underlay node log =
      let iface = get key_underlay_intf node.annotations in
      if iface == [] then (log, ok tt) else label_for (cluster_network_of_intf iface) log

  -- `OnChange`; the object is never nil here.
  unfoldable pub on_change : Node → Log → Effect Log
  on_change node log =
      if node.deleting
      then (log, ok tt)
      else and_then (ensure_mgmt_labels node log) (λ labelled.
        if is_witness node
        then (labelled, ok tt)
        else and_then (update_listed node (env.list_vlan_configs []) labelled) (λ matched.
          and_then (update_host_network_annotation node matched) (update_underlay node)))

  -- The answer of `Delete`, of which a missing object is no error.
  abbrev pub ignore_missing : Check → Check
  ignore_missing (ok done) = ok tt
  ignore_missing (err e) = if is_not_found e then ok tt else err e

  -- `removeMgmtVlanConfig`
  unfoldable pub remove_mgmt_vlan_config : Bytes → Log → Effect Log
  remove_mgmt_vlan_config node_name log =
      let (next, r) = send server (delete_vlan_config (mgmt_vlan_config_name node_name)) log in
      (next, ignore_missing r)

  abbrev pub delete_first : Result (List VlanStatus) → Log → Effect Log
  delete_first (err e) log = (log, err e)
  delete_first (ok []) log = (log, ok tt)
  delete_first (ok (vs ∷ vss)) log = send server (delete_vlan_status vs.name) log

  abbrev pub remove_named : VlanConfig → Bytes → Result env.Set → Log → Effect Log
  remove_named vc node_name (err e) log = (log, err e)
  remove_named vc node_name (ok s) log =
      if not (env.contains s node_name)
      then (log, ok tt)
      else and_then
          (send server
            (vc_request vc (with_nodes vc.meta (set_text env (env.set_remove s node_name)))) log)
          (delete_first (
            env.list_vlan_statuses
              (equals key_vlan_config_label vc.name ∷ equals key_node_label node_name ∷ [])))

  -- `removeNodeFromOneVlanConfig`; an annotation that is missing or empty gives the empty set.
  unfoldable pub remove_node_from : Bytes → VlanConfig → Log → Effect Log
  remove_node_from node_name vc log =
      if get key_matched_nodes vc.annotations == []
      then (log, ok tt)
      else remove_named vc node_name (matched_set env vc.annotations) log

  -- One round of the loop of `removeNodeFromVlanConfig`.
  unfoldable pub remove_round : Bytes → VlanConfig → Log → Effect Log
  remove_round node_name vc log =
      if vc.cluster_network == mgmt
      then if vc.name == mgmt_vlan_config_name node_name
        then remove_mgmt_vlan_config node_name log
        else (log, ok tt)
      else remove_node_from node_name vc log

  abbrev pub remove_listed : Bytes → Result (List VlanConfig) → Log → Effect Log
  remove_listed node_name (err e) log = (log, err e)
  remove_listed node_name (ok vcs) log = each (remove_round node_name) vcs log

  -- `removeNodeFromVlanConfig`
  unfoldable pub remove_node_from_vlan_configs : Bytes → Log → Effect Log
  remove_node_from_vlan_configs node_name log =
      remove_listed node_name (env.list_vlan_configs []) log

  abbrev pub clear_links :
      LinkMonitor → Bytes → Option (List (Bytes × List LinkStatus)) → Log → Effect Log
  clear_links lm node_name none log = (log, ok tt)
  clear_links lm node_name (some links) log =
      if has_links node_name links
      then send server
          (update_link_monitor (record lm { link_status = some (without_node node_name links) }))
          log
      else (log, ok tt)

  -- One round of the loop of `clearLinkStatus`.
  unfoldable pub clear_round : Bytes → LinkMonitor → Log → Effect Log
  clear_round node_name lm log = clear_links lm node_name lm.link_status log

  abbrev pub clear_listed : Bytes → Result (List LinkMonitor) → Log → Effect Log
  clear_listed node_name (err e) log = (log, err e)
  clear_listed node_name (ok lms) log = each (clear_round node_name) lms log

  -- `clearLinkStatus`
  unfoldable pub clear_link_status : Bytes → Log → Effect Log
  clear_link_status node_name log = clear_listed node_name env.list_link_monitors log

  -- `OnRemove`
  unfoldable pub on_remove : Node → Log → Effect Log
  on_remove node log =
      and_then (remove_node_from_vlan_configs node.name log) (clear_link_status node.name)
