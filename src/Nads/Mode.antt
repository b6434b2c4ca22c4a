-- ===== src/Nads/Mode.antt =====
-- The set of a list of networks is in trunk mode whenever the code returns one.
use network_controller_harve.Common.{
  ℕ, zero, suc, ◌+◌, ◌≡◌, refl, sym, true, List, [], ◌∷◌, some, ◌==◌, nat_eq, arith, ltb_ℤ, ◌||◌,
  ok, err, >>=-eq-ok, Bool-cases, inl, inr, ℤ, pos, pos_part, vid_out_of_range,
}
use network_controller_harve.Objects.{Nad}
use network_controller_harve.Vlan.{
  VlanIdSet, set_vid, set_in_range, copy_vids, append, new_vlan_id_set, min_vlan_id, max_vlan_id,
}
use network_controller_harve.NetConf.{is_bridge_cni, dump_vlan_id_set}
use network_controller_harve.Env.{Env}
use network_controller_harve.Nads.{
  decode_nad_config, add_nad, add_nads, new_from_nad_list, list_nads_on_cluster_network,
  vlan_id_set_of_cluster_network,
}

abbrev pub IsTrunk : VlanIdSet → Type 0
IsTrunk vis = vis.is_trunk_mode ≡ true

-- `SetVID` fails or does what `_setVID` does.
pub set_vid-set_in_range :
    (vis t : VlanIdSet) (v : ℤ) → set_vid vis v ≡ ok t → set_in_range vis (pos_part v) ≡ t
unfolding set_vid
set_vid-set_in_range vis t v h =
    elim (Bool-cases (ltb_ℤ v (pos min_vlan_id) || ltb_ℤ (pos max_vlan_id) v)) [
      | inl out ↦ let p : err (vid_out_of_range v) ≡ ok t = simp out at h in absurd (cc)
      | inr within ↦ let p : ok (set_in_range vis (pos_part v)) ≡ ok t = simp within at h in cc
    ]

pub set_vid-IsTrunk : (vis t : VlanIdSet) (v : ℤ) → IsTrunk vis → set_vid vis v ≡ ok t → IsTrunk t
unfolding set_in_range
set_vid-IsTrunk vis t v trunk h = rw (sym (set_vid-set_in_range vis t v h)) (ground (arith, trunk))

copy_vids-IsTrunk :
    (other : VlanIdSet) (n i : ℕ) (vis t : VlanIdSet)
    → IsTrunk vis
    → copy_vids other i n vis ≡ ok t
    → IsTrunk t
unfolding copy_vids
copy_vids-IsTrunk other zero i vis t trunk h =
    let p : ok vis ≡ ok t = h in let q : vis ≡ t = cc in rw (sym q) trunk
copy_vids-IsTrunk other (suc n) i vis t trunk h = elim (Bool-cases (other.vid_set i)) [
  | inl here ↦
      let (v, e, r) = >>=-eq-ok (set_vid vis (pos i)) _ (simp here at h) in
      copy_vids-IsTrunk other n (i + 1) v t (set_vid-IsTrunk vis v (pos i) trunk e) r
  | inr gone ↦ copy_vids-IsTrunk other n (i + 1) vis t trunk (simp gone at h)
]

append-IsTrunk :
    (vis other t : VlanIdSet) → IsTrunk vis → append vis (some other) ≡ ok t → IsTrunk t
unfolding append
append-IsTrunk vis other t trunk h = elim (Bool-cases other.is_trunk_mode) [
  | inr single ↦ set_vid-IsTrunk vis t (pos other.vid) trunk (simp (trunk, single) at h)
  | inl both ↦ elim (Bool-cases (other.vlan_count == 0)) [
    | inl none_set ↦
        let p : ok vis ≡ ok t = simp (trunk, both, none_set) at h in
        let q : vis ≡ t = cc in rw (sym q) trunk
    | inr some_set ↦ copy_vids-IsTrunk other _ _ vis t trunk (simp (trunk, both, some_set) at h)
  ]
]

module _ (env : Env) where
  add_nad-IsTrunk :
      (nad : Nad) (vis t : VlanIdSet) → IsTrunk vis → add_nad env nad vis ≡ ok t → IsTrunk t
  unfolding add_nad
  add_nad-IsTrunk nad vis t trunk h = elim (Bool-cases nad.deleting) [
    | inl gone ↦ let p : ok vis ≡ ok t = simp gone at h in let q : vis ≡ t = cc in rw (sym q) trunk
    | inr active ↦
        let (nc, e, r) = >>=-eq-ok (decode_nad_config env nad) _ (simp active at h) in
        elim (Bool-cases (is_bridge_cni nc)) [
          | inr other ↦
              let p : ok vis ≡ ok t = simp other at r in let q : vis ≡ t = cc in rw (sym q) trunk
          | inl bridge ↦
              let (tmp, et, ra) = >>=-eq-ok (dump_vlan_id_set nc) _ (simp bridge at r) in
              append-IsTrunk vis tmp t trunk ra
        ]
  ]

  add_nads-IsTrunk :
      (nads : List Nad) (vis t : VlanIdSet) → IsTrunk vis → add_nads env nads vis ≡ ok t → IsTrunk t
  unfolding add_nads
  add_nads-IsTrunk [] vis t trunk h =
      let p : ok vis ≡ ok t = h in let q : vis ≡ t = cc in rw (sym q) trunk
  add_nads-IsTrunk (nad ∷ nads) vis t trunk h =
      let (v, e, r) = >>=-eq-ok (add_nad env nad vis) _ h in
      add_nads-IsTrunk nads v t (add_nad-IsTrunk nad vis v trunk e) r

  -- The set of `GeVlanIDSetFromClusterNetwork` is in trunk mode.
  pub vlan_id_set_of_cluster_network-IsTrunk :
      (cn_name : List ℕ) (t : VlanIdSet)
      → vlan_id_set_of_cluster_network env cn_name ≡ ok t
      → IsTrunk t
  unfolding vlan_id_set_of_cluster_network new_from_nad_list new_vlan_id_set
  vlan_id_set_of_cluster_network-IsTrunk cn_name t h =
      let (nads, e, r) = >>=-eq-ok (list_nads_on_cluster_network env cn_name) _ h in
      add_nads-IsTrunk nads new_vlan_id_set t refl r
