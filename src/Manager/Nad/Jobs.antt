-- ===== src/Manager/Nad/Jobs.antt =====
-- The jobs that find out the routes of network attachments, and the handlers that keep them:
-- pkg/controller/manager/nad/controller.go.
use network_controller_harve.Common.{
  Bool, true, false, not, ◌&&◌, List, [], ◌∷◌, ◌++◌, Option, none, some, Bytes, codes, ◌==◌, ◌!=◌,
  bytes_eq, int_eq, itoa, take, length, ltb, GoMap, get, put, is_nil, Result, ok, err, ◌>>=◌,
  Effect, and_then, if◌then◌else◌, is_not_found, job_deleting,
}
use network_controller_harve.Objects.{
  Nad, NetConf, Layer3Conf, Job, key_vlan_label, key_vlan_dhcp_server_ip, key_cluster_network_label,
  key_network_route,
}
use network_controller_harve.Env.{Env}
use network_controller_harve.Layer3.{auto, new_layer3, empty_route}
use network_controller_harve.Nads.{get_nad_label, is_overlay_nad, is_vlan_nad}
use network_controller_harve.Requests.{
  Log, Server, send, update_nad, create_job, update_job, delete_job,
}
use network_controller_harve.Manager.Nad.{
  wanted_labels, write_labels, update_cluster_network_vlan_set,
}

-- The gateways that are pinged, by the namespace and the name of their networks.
abbrev pub Items : Type 0
Items = List ((Bytes × Bytes) × Bytes)

abbrev pub same_item : Bytes × Bytes → Bytes × Bytes → Bool
same_item (namespace, name) (n, m) = n == namespace && m == name

-- `removeItem`
unfoldable pub remove_item : Bytes × Bytes → Items → Items
remove_item nn [] = []
remove_item nn ((key, addr) ∷ items) =
    let rest = remove_item nn items in if same_item nn key then rest else (key, addr) ∷ rest

-- `addItem`
unfoldable pub add_item : Bytes × Bytes → Bytes → Items → Items
add_item nn addr items = (nn, addr) ∷ remove_item nn items

abbrev pub item_of : Nad → Bytes × Bytes
item_of nad = (nad.namespace, nad.name)

abbrev pub network_annotation : GoMap → Bytes → GoMap
network_annotation annotations text = put "k8s.v1.cni.cncf.io/networks" text annotations

-- `GetVlanString`
abbrev pub vlan_string : NetConf → Bytes
vlan_string nc = itoa nc.vlan

-- `SetDHCPInfo2JobLabels`
abbrev pub with_dhcp_info : GoMap → NetConf → Layer3Conf → GoMap
with_dhcp_info labels nc conf =
    put key_vlan_dhcp_server_ip conf.server_ip_addr (put key_vlan_label (vlan_string nc) labels)

-- `AreJobLabelsDHCPInfoUnchanged`
unfoldable pub dhcp_info_unchanged : GoMap → NetConf → Layer3Conf → Bool
dhcp_info_unchanged labels nc conf =
    not (is_nil labels)
    && (get key_vlan_label labels == vlan_string nc
        && get key_vlan_dhcp_server_ip labels == conf.server_ip_addr)

abbrev pub connectable : Bytes
connectable = codes "true"

abbrev pub unconnectable : Bytes
unconnectable = codes "false"

abbrev pub connectivity_of : Bool → Bytes
connectivity_of loses = if loses then unconnectable else connectable

-- `pkg/utils` `Name` of a namespace and a name
abbrev pub cut_name : Bytes → Bytes
cut_name name = if ltb 54 (length name) then take 54 name else name

module _ (env : Env) where
  unfoldable pub job_name : Bytes → Bytes → Bytes
  job_name namespace name =
      cut_name (namespace ++ name) ++ codes "-" ++ env.checksum (namespace ++ name)

  -- `pingGW`
  unfoldable pub ping_gateway : Bytes → Result Bytes
  ping_gateway gateway = env.ping_loses gateway >>= λ loses. ok (connectivity_of loses)

  abbrev pub route_of : Nad → Result Layer3Conf
  route_of nad =
      let text = get key_network_route nad.annotations in
      if text == [] then ok empty_route else new_layer3 env text

  -- The namespace of the jobs, and the image of their containers.
  module _ (jobs_namespace image : Bytes) where
    abbrev pub new_job : Nad → Job
    new_job nad = record {
      meta = record {
        name = job_name nad.namespace nad.name;
        namespace = jobs_namespace;
        labels = none;
        annotations = none;
        deleting = false;
      };
      pod_annotations = none;
      container = none;
      bound_to = none;
      completed = false;
    }

    abbrev pub or_new : Nad → Option Job → Job
    or_new nad none = new_job nad
    or_new nad (some job) = job

    abbrev pub container_of : Option Job → Layer3Conf → Option (Bytes × Bytes)
    container_of none conf = some (image, conf.server_ip_addr)
    container_of (some job) conf = job.container

    -- `constructJob`; the variable for the level of the log is left out.
    unfoldable pub construct_job : Option Job → Nad → NetConf → Layer3Conf → Result Job
    construct_job cur nad nc conf = env.encode_selection nad.namespace nad.name >>= λ selected.
        let job = or_new nad cur in
        ok (record {
          meta = record job.meta { labels = with_dhcp_info job.labels nc conf };
          pod_annotations = network_annotation job.pod_annotations selected;
          container = container_of cur conf;
          bound_to = some (get_nad_label nad key_cluster_network_label);
          completed = true;
        })

module _ (env : Env) (server : Server) (jobs_namespace image : Bytes) where
  -- `updateNetworkConf`
  unfoldable pub update_network_conf : Nad → Layer3Conf → Log → Effect Log
  update_network_conf nad conf log =
      send server
        (update_nad (record nad {
          meta = record nad.meta {
            annotations = put key_network_route (env.encode_layer3 conf) nad.annotations;
          };
        }))
        log

  abbrev pub connect : Nad → Layer3Conf → Bytes → Log → Effect Log
  connect nad conf connectivity log =
      if conf.connectivity == connectivity
      then (log, ok tt)
      else update_network_conf nad (record conf { connectivity = connectivity }) log

  abbrev pub connect_found : Nad → Layer3Conf → Result Bytes → Log → Effect Log
  connect_found nad conf (err e) log = (log, err e)
  connect_found nad conf (ok connectivity) log = connect nad conf connectivity log

  -- `initializeConnectivity`
  unfoldable pub initialize_connectivity : Nad → Layer3Conf → Log → Effect Log
  initialize_connectivity nad conf log = connect_found nad conf (ping_gateway env conf.gateway) log

  abbrev pub connect_route : Nad → Bytes → Result Layer3Conf → Log → Effect Log
  connect_route nad connectivity (err e) log = (log, err e)
  connect_route nad connectivity (ok conf) log = connect nad conf connectivity log

  abbrev pub check_found : Result (Bytes × Nad) → Log → Effect Log
  check_found (err e) log = (log, err e)
  check_found (ok (connectivity, nad)) log = connect_route nad connectivity (route_of env nad) log

  -- `checkConnectivity` of a network and its gateway
  unfoldable pub check_connectivity : Bytes × Bytes → Bytes → Log → Effect Log
  check_connectivity (namespace, name) gw log =
      check_found
        (ping_gateway env gw >>= λ connectivity.
          env.get_nad namespace name >>= λ nad. ok (connectivity, nad))
        log

  -- The gateways that are pinged, and the requests sent.
  abbrev pub S : Type 0
  S = Items × Log

  abbrev pub on_log : (Log → Effect Log) → S → Effect S
  on_log f (items, log) = let (next, r) = f log in ((items, next), r)

  abbrev pub dropped : Nad → S → Effect S
  dropped nad (items, log) = ((remove_item (item_of nad) items, log), ok tt)

  abbrev pub clear_found : Nad → Result Job → S → Effect S
  clear_found nad (err e) s = if is_not_found e then dropped nad s else (s, err e)
  clear_found nad (ok job) s =
      if job.deleting
      then dropped nad s
      else and_then
          (on_log (send server (delete_job jobs_namespace (job_name env nad.namespace nad.name))) s)
          (dropped nad)

  -- `clearJob`
  unfoldable pub clear_job : Nad → S → Effect S
  clear_job nad s =
      clear_found nad (env.get_job jobs_namespace (job_name env nad.namespace nad.name)) s

  abbrev pub unless_missing : Effect Log → Effect Log
  unless_missing (log, ok done) = (log, ok tt)
  unless_missing (log, err e) = if is_not_found e then (log, ok tt) else (log, err e)

  abbrev pub clear_outdated_found : Nad → NetConf → Layer3Conf → Result Job → S → Effect S
  clear_outdated_found nad nc conf (err e) s = if is_not_found e then dropped nad s else (s, err e)
  clear_outdated_found nad nc conf (ok job) s =
      if job.deleting
      then dropped nad s
      else if dhcp_info_unchanged job.labels nc conf
      then (s, ok tt)
      else and_then
          (on_log
            (λ log.
              unless_missing
                (send server (delete_job jobs_namespace (job_name env nad.namespace nad.name)) log))
            s)
          (dropped nad)

  -- `clearOutdatedJob`
  unfoldable pub clear_outdated_job : Nad → NetConf → Layer3Conf → S → Effect S
  clear_outdated_job nad nc conf s =
      clear_outdated_found nad nc conf
        (env.get_job jobs_namespace (job_name env nad.namespace nad.name)) s

  abbrev pub update_constructed : Job → Result Job → Log → Effect Log
  update_constructed job (err e) log = (log, err e)
  update_constructed job (ok copy) log =
      if env.same_job job copy then (log, ok tt) else send server (update_job copy) log

  -- The end of `createOrUpdateJob`, for a job that is there or has been created.
  unfoldable pub update_known : Nad → NetConf → Layer3Conf → Job → Log → Effect Log
  update_known nad nc conf job log =
      if job.deleting
      then (log, err job_deleting)
      else update_constructed job (construct_job env jobs_namespace image (some job) nad nc conf)
          log

  abbrev pub create_constructed : Nad → NetConf → Layer3Conf → Result Job → Log → Effect Log
  create_constructed nad nc conf (err e) log = (log, err e)
  create_constructed nad nc conf (ok job) log =
      and_then (send server (create_job job) log) (update_known nad nc conf job)

  abbrev pub create_or_update_found : Nad → NetConf → Layer3Conf → Result Job → Log → Effect Log
  create_or_update_found nad nc conf (ok job) log = update_known nad nc conf job log
  create_or_update_found nad nc conf (err e) log =
      if is_not_found e
      then create_constructed nad nc conf (construct_job env jobs_namespace image none nad nc conf)
          log
      else (log, err e)

  -- `createOrUpdateJob`
  unfoldable pub create_or_update_job : Nad → NetConf → Layer3Conf → Log → Effect Log
  create_or_update_job nad nc conf log =
      create_or_update_found nad nc conf
        (env.get_job jobs_namespace (job_name env nad.namespace nad.name)) log

  -- The first ping of a gateway, of which an error is logged only.
  abbrev pub watch : Nad → Layer3Conf → S → Effect S
  watch nad conf (items, log) =
      let next = (initialize_connectivity nad conf log).0 in
      (
        (add_item (item_of nad) conf.gateway items, if conf.connectivity == [] then next else log),
        ok tt,
      )

  abbrev pub ensure_route : Nad → NetConf → Result Layer3Conf → S → Effect S
  ensure_route nad nc (err e) s = (s, err e)
  ensure_route nad nc (ok conf) s =
      and_then (if conf.mode == auto then clear_outdated_job nad nc conf s else clear_job nad s)
        (λ t.
          if conf.cidr != [] && (conf.gateway != [] && not conf.outdated)
          then watch nad conf t
          else if conf.mode != auto
          then (t, ok tt)
          else on_log (create_or_update_job nad nc conf) t)

  -- `EnsureJob2GetLayer3NetworkInfo`
  unfoldable pub ensure_job : Nad → NetConf → S → Effect S
  ensure_job nad nc s =
      let text = get key_network_route nad.annotations in
      if is_overlay_nad nad
      then (s, ok tt)
      else if text == []
      then (s, ok tt)
      else ensure_route nad nc (new_layer3 env text) s

  abbrev pub change_labelled : Nad → Result (NetConf × GoMap) → S → Effect S
  change_labelled nad (err e) s = (s, err e)
  change_labelled nad (ok (nc, labels)) s =
      if not (env.same_labels nad.labels labels)
      then on_log (write_labels env server nad (ok (nc, labels))) s
      else if is_overlay_nad nad
      then (s, ok tt)
      else and_then (if is_vlan_nad nad then ensure_job nad nc s else clear_job nad s)
          (λ t. on_log (update_cluster_network_vlan_set env server nad) t)

  -- `OnChange`; the object is never nil here.
  unfoldable pub on_change : Nad → S → Effect S
  on_change nad s =
      if nad.deleting then (s, ok tt) else change_labelled nad (wanted_labels env nad) s

  abbrev pub send_released : Option Nad → Log → Effect Log
  send_released none log = (log, ok tt)
  send_released (some nad) log = send server (update_nad nad) log

  -- `OnRemove`
  unfoldable pub on_remove : Nad → S → Effect S
  on_remove nad s =
      if is_overlay_nad nad
      then (s, ok tt)
      else and_then (clear_job nad s) (λ t.
        and_then (on_log (update_cluster_network_vlan_set env server nad) t)
          (λ u. on_log (send_released (env.remove_finalizer nad)) u))
