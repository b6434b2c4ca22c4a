-- ===== src/Manager/Node/Changed.antt =====
-- What a change of a node ensures, of every configuration that the caches list.
use network_controller_harve.Common.{
  ◌≡◌, false, not, List, [], Bytes, ◌==◌, bytes_eq, get, Result, ok, err, and_then, and_then-eq-ok,
  All, All-mono,
}
use network_controller_harve.Objects.{
  Node, Nad, VlanConfig, HostNetworkConfig, key_cluster_network_label, key_underlay_intf,
}
use network_controller_harve.Bridge.{cluster_network_of_intf}
use network_controller_harve.Env.{Env, SetLaws}
use network_controller_harve.Nads.{is_overlay_nad, get_nad_label, set_nad_label}
use network_controller_harve.Requests.{Log, Server, each, update_nad}
use network_controller_harve.Requests.Rounds.{
  Grows, Grows-none, Grows-send, Grows-if, Grows-each, Grows-Within, each-All,
}
use network_controller_harve.Webhook.VlanConfig.Mutated.{NamesCodec}
use network_controller_harve.Webhook.HostNetworkConfig.{is_witness}
use network_controller_harve.Manager.Node.{
  update_unless_mgmt, update_hnc, update_host_network_annotation, ensure_mgmt_labels, label_overlay,
  label_overlays, label_for, set_nad_cluster_network_label, update_underlay, on_change,
}
use network_controller_harve.Manager.Node.Matched.{
  VcMatched, HncMatched, vc-Grows, vc-Matched, VcMatched-later, hnc-Grows, hnc-Matched,
  HncMatched-later,
}

module _ (env : Env) (server : Server) where
  label_overlay-Grows :
      (bridge : Bytes) (nad : Nad) (log : Log) → Grows log (label_overlay env server bridge nad log)
  unfolding label_overlay
  label_overlay-Grows bridge nad log = Grows-if nad.deleting log _ _ (Grows-none log (ok tt)) (
      Grows-if (not (is_overlay_nad nad)) log _ _ (Grows-none log (ok tt)) (
        Grows-if (get_nad_label nad key_cluster_network_label == bridge) log _ _
          (Grows-none log (ok tt))
          (Grows-send server (update_nad (set_nad_label nad key_cluster_network_label bridge))
            log)))

  label_for-Grows : (r : Result Bytes) (log : Log) → Grows log (label_for env server r log)
  unfolding set_nad_cluster_network_label
  label_for-Grows (err e) log = Grows-none log (err e)
  label_for-Grows (ok bridge) log = listed (env.list_nads [] [])
    where
      listed : (r : Result (List Nad)) → Grows log (label_overlays env server bridge r log)
      listed (err e) = Grows-none log (err e)
      listed (ok nads) =
          Grows-each (label_overlay env server bridge) (label_overlay-Grows bridge) nads log

  update_underlay-Grows :
      (node : Node) (log : Log) → Grows log (update_underlay env server node log)
  unfolding update_underlay
  update_underlay-Grows node log =
      Grows-if (get key_underlay_intf node.annotations == []) log _ _ (Grows-none log (ok tt))
        (label_for-Grows (cluster_network_of_intf (get key_underlay_intf node.annotations)) log)

module _ (env : Env) (laws : SetLaws env) (codec : NamesCodec env) (server : Server) where
  -- Whenever `OnChange` of the manager succeeds for a node that is neither being deleted nor a
  -- witness: every VLAN configuration of the cache on another network than `mgmt`, and every active
  -- host network configuration of the cache with a node selector, has an annotation that holds the
  -- node exactly if the selector picks it and other names as before, as it is or in an update that
  -- the server took.
  pub on_change-Matched :
      (node : Node) (vcs : List VlanConfig) (hncs : List HostNetworkConfig) (log next : Log)
      → node.deleting ≡ false
      → is_witness node ≡ false
      → env.list_vlan_configs [] ≡ ok vcs
      → env.list_host_network_configs ≡ ok hncs
      → on_change env server node log ≡ (next, ok tt)
      → All (VcMatched env laws codec server node next) vcs
        × All (HncMatched env laws codec server node next) hncs
  unfolding on_change update_host_network_annotation
  on_change-Matched node vcs hncs log next active worker e f h =
      let steps = λ (l : Log). each (update_unless_mgmt env server node) vcs l in
      let more = λ (l : Log). each (update_hnc env server node) hncs l in
      let run : and_then (ensure_mgmt_labels env server node log)
            (λ l. and_then (steps l) (λ m. and_then (more m) (update_underlay env server node)))
          ≡ (next, ok tt) =
        simp (active, worker, e, f) at h in
      let (l, _, r1) = and_then-eq-ok (ensure_mgmt_labels env server node log) _ run in
      let (m, vc_done, r2) = and_then-eq-ok (steps l) _ r1 in
      let (n, hnc_done, r3) = and_then-eq-ok (more m) _ r2 in
      let grows = vc-Grows env laws codec server node in
      let hnc_grows = hnc-Grows env laws codec server node in
      let end =
        Grows-Within n next (update_underlay env server node n) (ok tt)
          (update_underlay-Grows env server node n) r3 in
      let middle =
        Grows-Within m n (more m) (ok tt) (Grows-each (update_hnc env server node) hnc_grows hncs m)
          hnc_done in
      let of_vcs =
        each-All (update_unless_mgmt env server node) (VcMatched env laws codec server node) grows
          (vc-Matched env laws codec server node) (VcMatched-later env laws codec server node) vcs l
          m vc_done in
      let of_hncs =
        each-All (update_hnc env server node) (HncMatched env laws codec server node) hnc_grows
          (hnc-Matched env laws codec server node) (HncMatched-later env laws codec server node)
          hncs m n hnc_done in
      (
        All-mono
            (λ vc.
              VcMatched-later env laws codec server node vc m next
                (λ q there. end q (middle q there)))
            vcs of_vcs,
        All-mono (λ hnc. HncMatched-later env laws codec server node hnc n next end) hncs of_hncs,
      )
