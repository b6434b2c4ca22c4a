-- ===== src/Agent/VlanConfig/Removed.antt =====
-- What a removal that succeeds leaves on the node, and what it has asked the server for.
use mathlib.Core.Path.{subst}
use network_controller_harve.Common.{
  ◌≡◌, refl, sym, ◌∙◌, ap, true, List, [], ◌∷◌, ◌++◌, String, Bytes, Result, ok, err, Error, Check,
  Effect, and_then, and_then-eq-ok, ◌!=◌, bytes_eq, Bool-cases, inl, inr, ◌⊎◌, link_not_found,
}
use network_controller_harve.Objects.{VlanStatus, HostNetworkConfig}
use network_controller_harve.Env.{Env}
use network_controller_harve.Requests.{
  Request, Log, Server, delete_vlan_status, enqueue_host_network_config, Adds, Adds-each,
  append_nil, IsIn, IsIn-left, IsIn-right,
}
use network_controller_harve.Network.{Netlink}
use network_controller_harve.Network.Areas.{Vlan, get_vlan}
use network_controller_harve.Network.Areas.Torn.{
  LinkLaws, MakesNone, IsTornDown, teardown-IsTornDown,
}
use network_controller_harve.Agent.VlanConfig.{
  unless_gone, then_report, on_log, torn_down, delete_status, remove_node_label,
  reconcile_host_network, reconcile_listed, enqueue_on, remove_vlan,
}

is_link_not_found-eq : (e : Error) → unless_gone e ≡ ok tt → e ≡ link_not_found
is_link_not_found-eq link_not_found h = refl
is_link_not_found-eq _ h = cc

then_report-ok :
    {S : Type 0} (r : Check) (m : Effect S) (u : S)
    → then_report r m ≡ (u, ok tt)
    → (m ≡ (u, ok tt)) × (r ≡ ok tt)
then_report-ok r (s, err e) u h =
    let p : err e ≡ ok tt = ap (λ (m : Effect _). m.1) h in absurd (cc)
then_report-ok r (s, ok done) u h =
    (ap (λ (m : Effect _). (m.0, ok tt)) h, ap (λ (m : Effect _). m.1) h)

module _ (nl : Netlink) where
  -- `GetVlan` found no link of the cluster network, and the links are as they were; or neither its
  -- bridge nor its uplink is left.
  abbrev pub IsCleared : Bytes → nl.State → nl.State → Type 0
  IsCleared cn_name s t =
      ((get_vlan nl cn_name s ≡ err link_not_found) × (t ≡ s)) ⊎ IsTornDown nl cn_name t

module _ (env : Env) (nl : Netlink) (laws : LinkLaws nl) (none_made : MakesNone nl)
    (server : Server) (node_name : Bytes) (label_key : Bytes → String) where
  torn_down-IsCleared :
      (cn_name : Bytes) (s t : nl.State) (found : Result Vlan)
      → get_vlan nl cn_name s ≡ found
      → torn_down env nl server node_name label_key found s ≡ (t, ok tt)
      → IsCleared nl cn_name s t
  torn_down-IsCleared cn_name s t (err e) found h =
      let gone = is_link_not_found-eq e (ap (λ (m : Effect nl.State). m.1) h) in
      inl (found ∙ ap err gone, sym (ap (λ (m : Effect nl.State). m.0) h))
  torn_down-IsCleared cn_name s t (ok v) found h =
      inr (teardown-IsTornDown nl laws none_made cn_name v s t found h)

  enqueue_on-Adds :
      (cn_name : Bytes) (hnc : HostNetworkConfig) (log : Log)
      → Adds (λ r. true) log (enqueue_on env nl server node_name label_key cn_name hnc log)
  unfolding enqueue_on
  enqueue_on-Adds cn_name hnc log = elim (Bool-cases (hnc.cluster_network != cn_name)) [
    | inl other ↦ rw other ([], sym (append_nil log), refl)
    | inr same ↦ elim (Bool-cases hnc.deleting) [
      | inl gone ↦ rw (same, gone) ([], sym (append_nil log), refl)
      | inr active ↦ rw (same, active) (enqueue_host_network_config hnc.name ∷ [], refl, refl)
    ]
  ]

  reconcile-Adds :
      (cn_name : Bytes) (log : Log)
      → Adds (λ r. true) log (reconcile_host_network env nl server node_name label_key cn_name log)
  unfolding reconcile_host_network
  reconcile-Adds cn_name log = go env.list_host_network_configs
    where
      go :
          (r : Result (List HostNetworkConfig))
          → Adds (λ q. true) log (reconcile_listed env nl server node_name label_key cn_name r log)
      go (err e) = ([], sym (append_nil log), refl)
      go (ok hncs) =
          Adds-each (λ q. true) (enqueue_on env nl server node_name label_key cn_name)
            (enqueue_on-Adds cn_name) hncs log

  on_log-eq-ok :
      (f : Log → Effect Log) (u v : nl.State × Log)
      → on_log env nl server node_name label_key f u ≡ (v, ok tt)
      → (u.0 ≡ v.0) × (f u.1 ≡ (v.1, ok tt))
  on_log-eq-ok f u v h = (
    ap (λ (m : Effect (nl.State × Log)). m.0.0) h,
    ap (λ (m : Effect (nl.State × Log)). (m.0.1, m.1)) h,
  )

  delete_status-eq-ok :
      (vs : VlanStatus) (r : Check) (log next : Log)
      → r ≡ ok tt
      → delete_status env nl server node_name label_key vs r log ≡ (next, ok tt)
      → (next ≡ log ++ delete_vlan_status vs.name ∷ [])
        × (server (delete_vlan_status vs.name) ≡ ok tt)
  unfolding delete_status
  delete_status-eq-ok vs (err e) log next done h = let p : err e ≡ ok tt = done in absurd (cc)
  delete_status-eq-ok vs (ok done) log next _ h =
      (sym (ap (λ (m : Effect Log). m.0) h), ap (λ (m : Effect Log). m.1) h)

  reconciled-IsIn :
      (q : Request) (cn_name : Bytes) (log next : Log)
      → reconcile_host_network env nl server node_name label_key cn_name log ≡ (next, ok tt)
      → IsIn q log
      → IsIn q next
  reconciled-IsIn q cn_name log next h found =
      let (more, grown, _) = reconcile-Adds cn_name log in
      subst (λ l. IsIn q l) (sym grown ∙ ap (λ (m : Effect Log). m.0) h)
        (IsIn-left q log more found)

  -- Whenever `removeVLAN` succeeds, neither the bridge nor the uplink of the cluster network is left
  -- on the node, unless `GetVlan` answered before that a link is not found, in which case the links
  -- are as they were; and the server has taken the deletion of the status.
  pub remove_vlan-IsCleared :
      (vs : VlanStatus) (s t : nl.State) (log next : Log)
      → remove_vlan env nl server node_name label_key vs (s, log) ≡ ((t, next), ok tt)
      → IsCleared nl vs.cluster_network s t
        × IsIn (delete_vlan_status vs.name) next
        × (server (delete_vlan_status vs.name) ≡ ok tt)
  unfolding remove_vlan
  remove_vlan-IsCleared vs s t log next h =
      let down = torn_down env nl server node_name label_key (get_vlan nl vs.cluster_network s) s in
      let forget = λ (l : Log).
        and_then (remove_node_label env nl server node_name label_key vs l)
          (λ k. delete_status env nl server node_name label_key vs down.1 k) in
      let noted = on_log env nl server node_name label_key forget (down.0, log) in
      let (mid, e1, r1) = and_then-eq-ok (then_report down.1 noted) _ h in
      let (e2, done) = then_report-ok down.1 noted mid e1 in
      let (same, e3) = on_log-eq-ok forget (down.0, log) mid e2 in
      let (kept, e4) =
        on_log-eq-ok (reconcile_host_network env nl server node_name label_key vs.cluster_network)
          mid (t, next) r1 in
      let (before, _, e5) =
        and_then-eq-ok (remove_node_label env nl server node_name label_key vs log) _ e3 in
      let (grown, taken) = delete_status-eq-ok vs down.1 before mid.1 done e5 in
      let gone =
        torn_down-IsCleared vs.cluster_network s t (get_vlan nl vs.cluster_network s) refl
          (ap (λ (d : nl.State). (d, down.1)) (same ∙ kept) ∙ ap (λ (r : Check). (t, r)) done) in
      let there =
        subst (λ l. IsIn (delete_vlan_status vs.name) l) (sym grown)
          (IsIn-right (delete_vlan_status vs.name) before) in
      (
        gone,
        reconciled-IsIn (delete_vlan_status vs.name) vs.cluster_network mid.1 next e4 there,
        taken,
      )
