-- ===== src/Agent/ClusterNetwork/Carried.antt =====
-- The uplink of a node carries the VLAN of a host network's sub-interface.
use network_controller_harve.Common.{
  ℕ, ◌%◌, ◌^◌, ◌≤◌, ◌≡◌, refl, sym, ◌∙◌, ap, true, false, ◌||◌, List, [], ◌∷◌, some, nat_iff, arith,
  Result, ok, err, >>=-eq-ok, inl, inr, pos, ltb_ℤ, Any, NoDot,
}
use network_controller_harve.Objects.{ClusterNetwork}
use network_controller_harve.Bridge.{vlan_device}
use network_controller_harve.Vlan.{VlanIdSet, set_uint16_vid, set_vid, set_in_range}
use network_controller_harve.Env.{Env}
use network_controller_harve.Nads.{vlan_id_set_of_cluster_network}
use network_controller_harve.Nads.Mode.{IsTrunk, vlan_id_set_of_cluster_network-IsTrunk}
use network_controller_harve.Network.{Netlink, Link}
use network_controller_harve.Network.Ports.{get_manual_vlans, manual_vlans, to_vlan_id_set}
use network_controller_harve.Network.Ports.Devices.{manual_vlans-vlan_device}
use network_controller_harve.Network.Areas.{Vlan, get_vlan}
use network_controller_harve.Network.Areas.Applied.{PortLaws, NeverFails}
use network_controller_harve.Agent.ClusterNetwork.{or_same, add_manual, wanted, on_change}
use network_controller_harve.Agent.ClusterNetwork.Converged.{
  set_uint16_vid-ids, set_uint16_vid-IsTrunk, or_same-IsTrunk, on_change-converges,
}

or_same-keeps :
    (vis : VlanIdSet) (v j : ℕ) (r : Result VlanIdSet)
    → set_uint16_vid vis v ≡ r
    → IsTrunk vis
    → 2 ≤ j
    → vis.vid_set j ≡ true
    → (or_same vis r).vid_set j ≡ true
or_same-keeps vis v j (err e) h trunk lo here = here
or_same-keeps vis v j (ok t) h trunk lo here =
    set_uint16_vid-ids vis t v j trunk lo h ∙ ground (arith, here)

set_uint16_vid-ok :
    (vis : VlanIdSet) (v : ℕ) → v ≤ 4094 → (t : VlanIdSet) × (set_uint16_vid vis v ≡ ok t)
unfolding set_uint16_vid set_vid
set_uint16_vid-ok vis v hi =
    let small : v % 2 ^ 16 ≡ v = omega arith in
    let fits : (ltb_ℤ (pos v) (pos 0) || ltb_ℤ (pos 4094) (pos v)) ≡ false = ground arith in
    (set_in_range vis v, rw (small, fits) refl)

next-IsTrunk :
    (vis : VlanIdSet) (v : ℕ) → IsTrunk vis → IsTrunk (or_same vis (set_uint16_vid vis v))
next-IsTrunk vis v trunk =
    or_same-IsTrunk vis (set_uint16_vid vis v) trunk (λ t e. set_uint16_vid-IsTrunk vis t v trunk e)

add_manual-keeps :
    (vs : List ℕ) (vis : VlanIdSet) (j : ℕ)
    → IsTrunk vis
    → 2 ≤ j
    → vis.vid_set j ≡ true
    → (add_manual vs vis).vid_set j ≡ true
unfolding add_manual
add_manual-keeps [] vis j trunk lo here = here
add_manual-keeps (v ∷ vs) vis j trunk lo here =
    add_manual-keeps vs (or_same vis (set_uint16_vid vis v)) j (next-IsTrunk vis v trunk) lo
      (or_same-keeps vis v j (set_uint16_vid vis v) refl trunk lo here)

add_manual-adds :
    (vs : List ℕ) (vis : VlanIdSet) (j : ℕ)
    → IsTrunk vis
    → 2 ≤ j
    → j ≤ 4094
    → Any (λ v. v ≡ j) vs
    → (add_manual vs vis).vid_set j ≡ true
unfolding add_manual
add_manual-adds [] vis j trunk lo hi h = elim h [ ]
add_manual-adds (v ∷ vs) vis j trunk lo hi (inl same) =
    let (t, e) = set_uint16_vid-ok vis v (omega (arith, same, hi)) in
    let set : t.vid_set j ≡ true =
      set_uint16_vid-ids vis t v j trunk lo e ∙ ground (arith, same, hi, nat_iff (v % 2 ^ 16) j) in
    add_manual-keeps vs (or_same vis (set_uint16_vid vis v)) j (next-IsTrunk vis v trunk) lo
      (ap (λ r. (or_same vis r).vid_set j) e ∙ set)
add_manual-adds (v ∷ vs) vis j trunk lo hi (inr later) =
    add_manual-adds vs (or_same vis (set_uint16_vid vis v)) j (next-IsTrunk vis v trunk) lo hi later

module _ (env : Env) (nl : Netlink) where
  wanted-vlan_device :
      (cn_name : _) (vid : ℕ) (s : nl.State) (links : List Link) (want : VlanIdSet)
      → NoDot cn_name
      → 2 ≤ vid
      → vid ≤ 4094
      → nl.link_list s ≡ ok links
      → Any (λ (l : Link). l.name ≡ vlan_device cn_name vid) links
      → wanted env nl cn_name s ≡ ok want
      → want.vid_set vid ≡ true
  unfolding wanted get_manual_vlans
  wanted-vlan_device cn_name vid s links want plain lo hi listed there h =
      let (vis, e, rest) = >>=-eq-ok (vlan_id_set_of_cluster_network env cn_name) _ h in
      let p : ok (add_manual (manual_vlans cn_name links) vis) ≡ ok want = simp listed at rest in
      let q : add_manual (manual_vlans cn_name links) vis ≡ want = cc in
      ap (λ (w : VlanIdSet). w.vid_set vid) (sym q)
      ∙ add_manual-adds (manual_vlans cn_name links) vis vid
          (vlan_id_set_of_cluster_network-IsTrunk env cn_name vis e) lo hi
          (manual_vlans-vlan_device cn_name vid links plain lo hi there)

  -- On an agent whose netlink refuses no change of the uplink's VLAN filter, and for an active
  -- cluster network that is set up on the node, whose name holds no dot and whose wanted and existing
  -- ids can be read: when the node has the sub-interface of a host network on the cluster network,
  -- with an id in [2, 4094], the uplink lets that id through after `OnChange`.
  pub on_change-carries :
      (cn : ClusterNetwork) (v : Vlan) (l : Link) (s : nl.State) (want existing : VlanIdSet)
      (links : List Link) (vid : ℕ) (laws : PortLaws nl l)
      → NeverFails nl l
      → cn.deleting ≡ false
      → get_vlan nl cn.name s ≡ ok v
      → v.uplink ≡ some l
      → wanted env nl cn.name s ≡ ok want
      → to_vlan_id_set nl l s ≡ ok (some existing)
      → NoDot cn.name
      → 2 ≤ vid
      → vid ≤ 4094
      → nl.link_list s ≡ ok links
      → Any (λ (x : Link). x.name ≡ vlan_device cn.name vid) links
      → laws.port (on_change env nl cn s).0 vid ≡ true
  on_change-carries cn v l s want existing links vid laws works active found up needs has plain lo
        hi listed there =
      let (_, inside, _) =
        on_change-converges env nl cn v l s want existing active found up needs has laws works in
      inside vid (lo, hi)
      ∙ wanted-vlan_device cn.name vid s links want plain lo hi listed there needs
