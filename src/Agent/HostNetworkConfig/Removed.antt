-- ===== src/Agent/HostNetworkConfig/Removed.antt =====
-- After a removal of a host network configuration its sub-interface and its lease manager are gone.
use network_controller_harve.Common.{
  ◌≡◌, refl, sym, ◌∙◌, ap, true, false, List, [], ◌∷◌, none, Bytes, ◌==◌, bytes_eq, Result, ok, err,
  Error, Effect, Check, and_then-eq-ok, Bool-cases, Option-cases, inl, inr, link_not_found,
}
use network_controller_harve.Objects.{HostNetworkConfig}
use network_controller_harve.Bridge.{br_vlan_device}
use network_controller_harve.Env.{Env}
use network_controller_harve.Requests.{Log, Server}
use network_controller_harve.Network.{Netlink, Link, self, hidden, is_link_not_found}
use network_controller_harve.Network.Ports.{del_bridge_vlan}
use network_controller_harve.Network.Areas.{Vlan, get_vlan, get_bridge_link}
use network_controller_harve.Network.Areas.Torn.{LinkLaws}
use network_controller_harve.Network.SubInterfaces.{del_found, del_sub_interface}
use network_controller_harve.Agent.HostNetworkConfig.Leases.{Dhcp, LeaseManager}
use network_controller_harve.Agent.HostNetworkConfig.Status.{wake_up_cluster_network}
use network_controller_harve.Agent.HostNetworkConfig.{
  manager_of, without_manager, on_links, on_host, on_log, stop_lease_manager, clean, clean_on,
  remove_interface, on_remove,
}

hidden-ok : (r : Check) → hidden r ≡ ok tt → r ≡ ok tt
hidden-ok (ok done) h = refl
hidden-ok (err e) h = absurd (cc)

is_link_not_found-true : (e : Error) → is_link_not_found e ≡ true → e ≡ link_not_found
is_link_not_found-true link_not_found h = refl
is_link_not_found-true _ h = cc

manager_of-without :
    {M : Type 0} (name : Bytes) (lms : List (Bytes × M))
    → manager_of name (without_manager name lms) ≡ none
unfolding manager_of without_manager
manager_of-without name [] = refl
manager_of-without name ((key, lm) ∷ rest) = elim (Bool-cases (key == name)) [
  | inl same ↦ rw same (manager_of-without name rest)
  | inr other ↦ simp (other, manager_of-without name rest)
]

module _ (nl : Netlink) (laws : LinkLaws nl) where
  del_found-gone :
      (name : Bytes) (r : Result Link) (s t : nl.State)
      → nl.link_by_name name s ≡ r
      → del_found nl r s ≡ (t, ok tt)
      → nl.link_by_name name t ≡ err link_not_found
  del_found-gone name (err e) s t found h = elim (Bool-cases (is_link_not_found e)) [
    | inl missing ↦
        let p : (s, ok tt) ≡ (t, ok tt) = simp missing at h in
        let same : s ≡ t = ap (λ (m : Effect nl.State). m.0) p in
        ap (λ u. nl.link_by_name name u) (sym same)
        ∙ found
        ∙ ap err (is_link_not_found-true e missing)
    | inr other ↦
        let p = simp other at h in let q = ap (λ (m : Effect nl.State). m.1) p in absurd (cc)
  ]
  del_found-gone name (ok sub) s t found h =
      let done = hidden-ok (nl.link_del sub s).1 (ap (λ (m : Effect nl.State). m.1) h) in
      let there : (nl.link_del sub s).0 ≡ t = ap (λ (m : Effect nl.State). m.0) h in
      ap (λ n. nl.link_by_name n t) (sym (laws.named name s sub found))
      ∙ ap (λ u. nl.link_by_name sub.name u) (sym there)
      ∙ laws.gone sub s done

  del_sub_interface-gone :
      (br : Link) (vid : _) (s t : nl.State)
      → del_sub_interface nl br vid s ≡ (t, ok tt)
      → nl.link_by_name (br_vlan_device br.name vid) t ≡ err link_not_found
  unfolding del_sub_interface
  del_sub_interface-gone br vid s t h =
      let name = br_vlan_device br.name vid in
      del_found-gone name (nl.link_by_name name s) s t refl h

  module _ (env : Env) (dhcp : Dhcp nl.State) (server : Server) (node_name mgmt_intf : Bytes) where
    abbrev Held : Type 0
    Held = nl.State × List (Bytes × LeaseManager nl dhcp)

    stop_lease_manager-gone :
        (name : Bytes) (s : nl.State) (lms : List (Bytes × LeaseManager nl dhcp))
        → manager_of name
            (stop_lease_manager env nl dhcp server node_name mgmt_intf name (s, lms)).1
          ≡ none
    unfolding stop_lease_manager
    stop_lease_manager-gone name s lms = elim (Option-cases (manager_of name lms)) [
      | inl missing ↦ rw missing missing
      | inr (lm, here) ↦ rw here (manager_of-without name lms)
    ]

    on_links-eq-ok :
        (f : nl.State → Effect nl.State) (u v : Held)
        → on_links env nl dhcp server node_name mgmt_intf f u ≡ (v, ok tt)
        → (f u.0 ≡ (v.0, ok tt)) × (u.1 ≡ v.1)
    on_links-eq-ok f u v h =
        (ap (λ (m : Effect Held). (m.0.0, m.1)) h, ap (λ (m : Effect Held). m.0.1) h)

    -- Whenever `OnRemove` of an agent succeeds for a host network configuration of which the cluster
    -- network is set up on the node, netlink does not find the VLAN sub-interface on the node, and
    -- there is no lease manager for it.
    pub on_remove-gone :
        (hnc : HostNetworkConfig) (v : Vlan) (br : Link) (s t : nl.State)
        (lms kept : List (Bytes × LeaseManager nl dhcp)) (log next : Log)
        → get_vlan nl hnc.cluster_network s ≡ ok v
        → get_bridge_link nl v.name s ≡ ok br
        → on_remove env nl dhcp server node_name mgmt_intf hnc ((s, lms), log)
          ≡ (((t, kept), next), ok tt)
        → (nl.link_by_name (br_vlan_device br.name hnc.vlan_id) t ≡ err link_not_found)
          × (manager_of (br_vlan_device br.name hnc.vlan_id) kept ≡ none)
    unfolding on_remove remove_interface
    on_remove-gone hnc v br s t lms kept log next found linked h =
        let name = br_vlan_device br.name hnc.vlan_id in
        let work = clean env nl dhcp server node_name mgmt_intf hnc br in
        let run : clean_on env nl dhcp server node_name mgmt_intf hnc false (ok br) ((s, lms), log)
            ≡ (((t, kept), next), ok tt) =
          simp (found, linked) at h in
        let (u, cleaned, woken) =
          and_then-eq-ok (on_host env nl dhcp server node_name mgmt_intf work ((s, lms), log)) _
            run in
        let (w, woke, ended) =
          and_then-eq-ok
            (on_log env nl dhcp server node_name mgmt_intf
              (wake_up_cluster_network env server node_name mgmt_intf hnc.cluster_network) u)
            _ woken in
        let after : u.0 ≡ (t, kept) =
          ap (λ (m : Effect (Held × Log)). m.0.0) woke
          ∙ ap (λ (m : Effect (Held × Log)). m.0.0) ended in
        let did : work (s, lms) ≡ ((t, kept), ok tt) =
          ap (λ (m : Effect (Held × Log)). (m.0.0, m.1)) cleaned
          ∙ ap (λ (x : Held). (x, ok tt)) after in
        let (mid, unfiltered, deleted) =
          and_then-eq-ok
            (on_links env nl dhcp server node_name mgmt_intf
              (del_bridge_vlan nl br self hnc.vlan_id) (s, lms))
            _ did in
        let stopped = stop_lease_manager env nl dhcp server node_name mgmt_intf name mid in
        let (gone, same) =
          on_links-eq-ok (del_sub_interface nl br hnc.vlan_id) stopped (t, kept) deleted in
        (
          del_sub_interface-gone br hnc.vlan_id stopped.0 t gone,
          ap (λ l. manager_of name l) (sym same) ∙ stop_lease_manager-gone name mid.0 mid.1,
        )
