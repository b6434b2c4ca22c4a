-- ===== src/Agent/ClusterNetwork/Converged.antt =====
-- A node's uplink lets through what the networks of its cluster network need, once the change of
-- the cluster network is handled.
use network_controller_harve.Common.{
  ℕ, ◌%◌, ◌^◌, ◌≤◌, ◌≡◌, refl, sym, ◌∙◌, ap, Bool, true, false, not, ◌||◌, ◌&&◌, List, [], ◌∷◌,
  Option, some, none, any, ◌==◌, nat_eq, nat_iff, arith, Result, ok, err, >>=-eq-ok, Bool-cases,
  inl, inr, ◌⊎◌, Bytes, pos, leb,
}
use network_controller_harve.Objects.{ClusterNetwork}
use network_controller_harve.Vlan.{VlanIdSet, set_uint16_vid, set_in_range, new_vlan_id_set, diff}
use network_controller_harve.Vlan.Diff.{IsDiffed, diff_lem}
use network_controller_harve.Env.{Env}
use network_controller_harve.Nads.{vlan_id_set_of_cluster_network}
use network_controller_harve.Nads.Mode.{
  IsTrunk, set_vid-IsTrunk, set_vid-set_in_range, vlan_id_set_of_cluster_network-IsTrunk,
}
use network_controller_harve.Network.{Netlink, Link}
use network_controller_harve.Network.Ports.{set_vids, entry_set, get_manual_vlans, to_vlan_id_set}
use network_controller_harve.Network.Areas.{Vlan, get_vlan, add_local_areas, remove_local_areas}
use network_controller_harve.Network.Areas.Applied.{
  PortLaws, NeverFails, port-add_local_areas, port-remove_local_areas, add_local_areas-empty,
  remove_local_areas-empty,
}
use network_controller_harve.Agent.ClusterNetwork.{
  or_same, add_manual, wanted, changes, apply, on_change,
}

-- The ids of filter entries.
abbrev pub listed_in : List ℕ → ℕ → Bool
listed_in vids j = any (λ v. v % 2 ^ 16 == j) vids

set_in_range-ids :
    (vis : VlanIdSet) (v j : ℕ)
    → IsTrunk vis
    → 2 ≤ j
    → (set_in_range vis v).vid_set j ≡ (vis.vid_set j || v == j)
unfolding set_in_range
set_in_range-ids vis v j trunk h =
    let same : v ≡ j → vis.vid_set v ≡ vis.vid_set j = λ e. ap (λ (k : ℕ). vis.vid_set k) e in
    ground (arith, trunk, nat_iff v j, nat_iff j v, same)

pub set_uint16_vid-ids :
    (vis t : VlanIdSet) (v j : ℕ)
    → IsTrunk vis
    → 2 ≤ j
    → set_uint16_vid vis v ≡ ok t
    → t.vid_set j ≡ (vis.vid_set j || v % 2 ^ 16 == j)
unfolding set_uint16_vid
set_uint16_vid-ids vis t v j trunk h e =
    rw (sym (set_vid-set_in_range vis t (pos (v % 2 ^ 16)) e))
      (set_in_range-ids vis (v % 2 ^ 16) j trunk h)

pub set_uint16_vid-IsTrunk :
    (vis t : VlanIdSet) (v : ℕ) → IsTrunk vis → set_uint16_vid vis v ≡ ok t → IsTrunk t
unfolding set_uint16_vid
set_uint16_vid-IsTrunk vis t v trunk e = set_vid-IsTrunk vis t (pos (v % 2 ^ 16)) trunk e

-- The set of a list of entries holds what is listed.
set_vids-ids :
    (vids : List ℕ) (vis t : VlanIdSet)
    → IsTrunk vis
    → set_vids vids vis ≡ ok t
    → IsTrunk t × ((j : ℕ) → 2 ≤ j → t.vid_set j ≡ (vis.vid_set j || listed_in vids j))
unfolding set_vids
set_vids-ids [] vis t trunk e =
    let p : ok vis ≡ ok t = e in let q : vis ≡ t = cc in rw (sym q) (trunk, λ j h. ground arith)
set_vids-ids (v ∷ vs) vis t trunk e =
    let (next, e1, e2) = >>=-eq-ok (set_uint16_vid vis v) _ e in
    let (mode, ids) = set_vids-ids vs next t (set_uint16_vid-IsTrunk vis next v trunk e1) e2 in
    (mode, λ j h. ids j h ∙ ground (arith, set_uint16_vid-ids vis next v j trunk h e1))

pub or_same-IsTrunk :
    (vis : VlanIdSet) (r : Result VlanIdSet)
    → IsTrunk vis
    → ((t : VlanIdSet) → r ≡ ok t → IsTrunk t)
    → IsTrunk (or_same vis r)
or_same-IsTrunk vis (ok t) trunk h = h t refl
or_same-IsTrunk vis (err e) trunk h = trunk

add_manual-IsTrunk : (vs : List ℕ) (vis : VlanIdSet) → IsTrunk vis → IsTrunk (add_manual vs vis)
unfolding add_manual
add_manual-IsTrunk [] vis trunk = trunk
add_manual-IsTrunk (v ∷ vs) vis trunk =
    add_manual-IsTrunk vs (or_same vis (set_uint16_vid vis v)) (
      or_same-IsTrunk vis (set_uint16_vid vis v) trunk
        λ t e. set_uint16_vid-IsTrunk vis t v trunk e)

entry_set-ids :
    (entry : Option (List ℕ)) (t : VlanIdSet)
    → entry_set entry ≡ ok (some t)
    → (vids : List ℕ) × (entry ≡ some vids)
      × IsTrunk t
      × ((j : ℕ) → 2 ≤ j → t.vid_set j ≡ listed_in vids j)
unfolding new_vlan_id_set
entry_set-ids none t e = let p : ok none ≡ ok (some t) = e in absurd (cc)
entry_set-ids (some vids) t e =
    let (vis, e1, e2) = >>=-eq-ok (set_vids vids new_vlan_id_set) _ e in
    let p : ok (some vis) ≡ ok (some t) = e2 in
    let q : vis ≡ t = cc in
    let (mode, ids) = set_vids-ids vids new_vlan_id_set vis refl e1 in
    let on : IsTrunk t = rw (sym q) mode in (vids, refl, on, λ j h. rw (sym q) (ids j h))

IsDiffed-or_not : (j : ℕ) → IsDiffed j ⊎ (¬ IsDiffed j)
IsDiffed-or_not j = elim (Bool-cases (leb 2 j && leb j 4094)) [
  | inl within ↦ inl (ground arith)
  | inr out ↦ inr (λ h. absurd (ground (arith, h.0, h.1)))
]

and-not : (b : Bool) → (b && not b) ≡ false
and-not true = refl
and-not false = refl

module _ (env : Env) (nl : Netlink) where
  apply-ok :
      (v : Vlan) (l : Link) (added removed : VlanIdSet) (s : nl.State)
      → v.uplink ≡ some l
      → apply nl v (ok (added, removed)) s ≡ (
        (remove_local_areas nl
            (some l)
            (some removed)
            (add_local_areas nl (some l) (some added) s).0).0,
        ok tt,
      )
  unfolding add_local_areas remove_local_areas
  apply-ok v l added removed s up = simp up

  wanted-IsTrunk :
      (name : Bytes) (s : nl.State) (want : VlanIdSet)
      → wanted env nl name s ≡ ok want
      → IsTrunk want
  unfolding wanted
  wanted-IsTrunk name s want h =
      let (vis, e1, r1) = >>=-eq-ok (vlan_id_set_of_cluster_network env name) _ h in
      let (manual, e2, r2) = >>=-eq-ok (get_manual_vlans nl name s) _ r1 in
      let p : ok (add_manual manual vis) ≡ ok want = r2 in
      let q : add_manual manual vis ≡ want = cc in
      rw (sym q)
        (add_manual-IsTrunk manual vis (vlan_id_set_of_cluster_network-IsTrunk env name vis e1))

  to_vlan_id_set-port :
      (l : Link) (laws : PortLaws nl l) (s : nl.State) (existing : VlanIdSet)
      → to_vlan_id_set nl l s ≡ ok (some existing)
      → IsTrunk existing × ((j : ℕ) → 2 ≤ j → existing.vid_set j ≡ laws.port s j)
  unfolding to_vlan_id_set
  to_vlan_id_set-port l laws s existing h =
      let (entries, e1, r1) = >>=-eq-ok (nl.bridge_vlan_list s) _ h in
      let (vids, e2, mode, ids) = entry_set-ids (entries l.index) existing r1 in
      (mode, λ j lo. ids j lo ∙ sym (laws.listed s entries vids e1 e2 j))

  module _ (cn : ClusterNetwork) (v : Vlan) (l : Link) (s : nl.State) (want existing : VlanIdSet)
      (active : cn.deleting ≡ false) (found : get_vlan nl cn.name s ≡ ok v) (up : v.uplink ≡ some l)
      (needs : wanted env nl cn.name s ≡ ok want)
      (has : to_vlan_id_set nl l s ≡ ok (some existing)) where
    on_change-changes : on_change env nl cn s ≡ apply nl v (diff want (some existing)) s
    unfolding on_change changes
    on_change-changes = simp (active, found, up, needs, has)

    module _ (laws : PortLaws nl l) where
      -- When the filter of the uplink already agrees with the networks on the ids in [2, 4094],
      -- `OnChange` leaves the node as it is and succeeds.
      pub on_change-stable :
          ((j : ℕ) → IsDiffed j → laws.port s j ≡ want.vid_set j)
          → on_change env nl cn s ≡ (s, ok tt)
      on_change-stable agree =
          let trunk = wanted-IsTrunk cn.name s want needs in
          let (trunk', ids) = to_vlan_id_set-port l laws s existing has in
          let (added, removed, d, a_well, a_mode, r_well, r_mode, inside, outside) =
            diff_lem want existing trunk trunk' in
          let same = λ (j : ℕ) (h : IsDiffed j). ids j h.0 ∙ agree j h in
          let no_added : (j : ℕ) → added.vid_set j ≡ false = λ j. elim (IsDiffed-or_not j) [
            | inl h ↦ (inside j h).0 ∙ rw (same j h) (and-not (want.vid_set j))
            | inr out ↦ (outside j out).0
          ] in
          let no_removed : (j : ℕ) → removed.vid_set j ≡ false = λ j. elim (IsDiffed-or_not j) [
            | inl h ↦ (inside j h).1 ∙ rw (same j h) (and-not (want.vid_set j))
            | inr out ↦ (outside j out).1
          ] in
          let adds = add_local_areas-empty nl l added s a_well a_mode no_added in
          let removes = remove_local_areas-empty nl l removed s r_well r_mode no_removed in
          on_change-changes ∙ simp (d, up, adds, removes)

      -- Otherwise, when netlink refuses no change of the filter, `OnChange` succeeds, and then the
      -- uplink lets through exactly the ids in [2, 4094] that the networks and the user want; other
      -- ids are as before.
      pub on_change-converges :
          NeverFails nl l
          → ((on_change env nl cn s).1 ≡ ok tt)
            × ((j : ℕ) → IsDiffed j → laws.port (on_change env nl cn s).0 j ≡ want.vid_set j)
            × ((j : ℕ) → ¬ IsDiffed j → laws.port (on_change env nl cn s).0 j ≡ laws.port s j)
      on_change-converges works =
          let trunk = wanted-IsTrunk cn.name s want needs in
          let (trunk', ids) = to_vlan_id_set-port l laws s existing has in
          let (added, removed, d, a_well, a_mode, r_well, r_mode, inside, outside) =
            diff_lem want existing trunk trunk' in
          let mid = (add_local_areas nl (some l) (some added) s).0 in
          let result : on_change env nl cn s
              ≡ ((remove_local_areas nl (some l) (some removed) mid).0, ok tt) =
            on_change-changes ∙ ap (λ r. apply nl v r s) d ∙ apply-ok v l added removed s up in
          let add_port = port-add_local_areas nl l laws works added s a_well a_mode in
          let del_port = port-remove_local_areas nl l laws works removed mid r_well r_mode in
          rw result (
            refl,
            λ j h.
                del_port j
                ∙ ground (arith, add_port j, ids j h.0, (inside j h).0, (inside j h).1, h.0, h.1),
            λ j h. del_port j ∙ ground (arith, add_port j, (outside j h).0, (outside j h).1),
          )
