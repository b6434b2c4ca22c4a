-- ===== src/Manager/Nad.antt =====
-- The manager's controller of network attachments: pkg/controller/manager/nad/controller.go; its
-- jobs that find out routes and the checks of their gateways are in Jobs.
pub mod Synced
pub mod Jobs
pub mod Cleared
use network_controller_harve.Common.{
  ℕ, Bool, true, false, not, ◌||◌, ◌&&◌, List, [], ◌∷◌, ◌++◌, Option, none, some, Bytes, ◌==◌, ◌!=◌,
  bytes_eq, ℤ, Result, ok, err, ◌>>=◌, Check, Effect, and_then, if◌then◌else◌, Error, put, get,
  find, GoMap, entries, is_nil, index_out_of_range,
}
use network_controller_harve.Objects.{
  Nad, NetConf, ClusterNetwork, ObjectMeta, key_cluster_network_label, key_network_ready,
  key_uplink_mtu, key_vlan_id_set_str, key_vlan_id_set_str_hash, value_true, value_false,
}
use network_controller_harve.Mtu.{are_equal_mtus, get_mtu_from_string}
use network_controller_harve.Vlan.{VlanIdSet, vid_set_to_string_hash}
use network_controller_harve.NetConf.{get_cluster_network_name, set_network_info_to_labels}
use network_controller_harve.Env.{Env, equals}
use network_controller_harve.Nads.{
  decoded, decode_nad_config, get_nad_label, vlan_id_set_of_cluster_network,
}
use network_controller_harve.Requests.{
  Request, Log, Server, send, each, update_nad, update_cluster_network,
}
use network_controller_harve.Manager.ClusterNetwork.{is_ready, bool_text}

-- `AreClusterNetworkVlanAnnotationsUnchanged`
unfoldable pub vlan_annotations_unchanged : ClusterNetwork → Bytes → Bytes → Bool
vlan_annotations_unchanged cn vidstr vidhash =
    not (is_nil cn.annotations)
    && (get key_vlan_id_set_str cn.annotations == vidstr
        && get key_vlan_id_set_str_hash cn.annotations == vidhash)

-- `SetClusterNetworkVlanAnnotations`
unfoldable pub set_vlan_annotations : ClusterNetwork → Bytes → Bytes → ClusterNetwork
set_vlan_annotations cn vidstr vidhash = record cn {
  meta = record cn.meta {
    annotations =
        put key_vlan_id_set_str_hash vidhash (put key_vlan_id_set_str vidstr cn.annotations);
  };
}

abbrev pub in_slots : Option (Bytes × Bytes) → Result (Bytes × Bytes)
in_slots none = err index_out_of_range
in_slots (some printed) = ok printed

abbrev pub labelled : GoMap × Check → Result GoMap
labelled (labels, err e) = err e
labelled (labels, ok done) = ok labels

module _ (env : Env) where
  -- The labels that `ensureLabels` wants, with the configuration that it returns.
  unfoldable pub wanted_labels : Nad → Result (NetConf × GoMap)
  wanted_labels nad = do
    nc ← decode_nad_config env nad
    cn_name ← get_cluster_network_name nc
    labels ← labelled (set_network_info_to_labels nc (some (entries nad.labels)))
    cn ← env.get_cluster_network cn_name
    ok (nc, put key_network_ready (bool_text (is_ready cn.ready)) labels)

  -- The annotations that `UpdateClusterNetworkVlanSet` wants.
  unfoldable pub wanted_annotations : ClusterNetwork → Result (Bytes × Bytes)
  wanted_annotations cn = do
    vids ← vlan_id_set_of_cluster_network env cn.name
    in_slots (vid_set_to_string_hash env.sha256 vids)

module _ (env : Env) (server : Server) where
  abbrev pub sync_config : Nad → Result Bytes → Log → Effect Log
  sync_config nad (err e) log = (log, err e)
  sync_config nad (ok config) log = send server (update_nad (record nad { config = config })) log

  abbrev pub sync_decoded : ℤ → Nad → Result NetConf → Log → Effect Log
  sync_decoded mtu nad (err e) log = (log, err e)
  sync_decoded mtu nad (ok nc) log =
      if are_equal_mtus mtu nc.mtu
      then (log, ok tt)
      else sync_config nad (env.set_mtu nad.config mtu) log

  -- One round of the loop of `OnCNChange`.
  unfoldable pub sync_mtu : ℤ → Nad → Log → Effect Log
  sync_mtu mtu nad log = sync_decoded mtu nad (decoded (env.decode_net_conf nad.config)) log

  abbrev pub sync_listed : ℤ → Result (List Nad) → Log → Effect Log
  sync_listed mtu (err e) log = (log, err e)
  sync_listed mtu (ok nads) log = each (sync_mtu mtu) nads log

  -- An MTU that cannot be read is logged only.
  abbrev pub sync_all : ClusterNetwork → Result ℤ → Log → Effect Log
  sync_all cn (err e) log = (log, ok tt)
  sync_all cn (ok mtu) log =
      sync_listed mtu (env.list_nads [] (equals key_cluster_network_label cn.name ∷ [])) log

  -- `OnCNChange`
  unfoldable pub on_cn_change : ClusterNetwork → Log → Effect Log
  on_cn_change cn log =
      let text = get key_uplink_mtu cn.annotations in
      if cn.deleting
      then (log, ok tt)
      else if text == []
      then (log, ok tt)
      else sync_all cn (get_mtu_from_string text) log

  abbrev pub write_labels : Nad → Result (NetConf × GoMap) → Log → Effect Log
  write_labels nad (err e) log = (log, err e)
  write_labels nad (ok (nc, labels)) log =
      if env.same_labels nad.labels labels
      then (log, ok tt)
      else send server (update_nad (record nad { meta = record nad.meta { labels = labels } })) log

  -- `ensureLabels`
  unfoldable pub ensure_labels : Nad → Log → Effect Log
  ensure_labels nad log = write_labels nad (wanted_labels env nad) log

  abbrev pub write_annotations : ClusterNetwork → Result (Bytes × Bytes) → Log → Effect Log
  write_annotations cn (err e) log = (log, err e)
  write_annotations cn (ok (vidstr, vidhash)) log =
      if vlan_annotations_unchanged cn vidstr vidhash
      then (log, ok tt)
      else send server (update_cluster_network (set_vlan_annotations cn vidstr vidhash)) log

  abbrev pub update_cached : Result ClusterNetwork → Log → Effect Log
  update_cached (err e) log = (log, err e)
  update_cached (ok cn) log =
      if cn.deleting then (log, ok tt) else write_annotations cn (wanted_annotations env cn) log

  -- `UpdateClusterNetworkVlanSet`
  unfoldable pub update_cluster_network_vlan_set : Nad → Log → Effect Log
  update_cluster_network_vlan_set nad log =
      let name = get_nad_label nad key_cluster_network_label in
      if name == [] then (log, ok tt) else update_cached (env.get_cluster_network name) log
