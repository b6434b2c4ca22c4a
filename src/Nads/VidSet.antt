-- ===== src/Nads/VidSet.antt =====
-- The id set of a list of networks is the union of what the active bridge networks carry.
use network_controller_harve.Common.{
  ℕ, ◌≡◌, refl, ◌⊎◌, inl, inr, Bool, true, false, not, ◌||◌, ◌&&◌, List, [], ◌∷◌, arith, ok, err,
  Result, Bool-cases, ◌∙◌, ap, All, any,
}
use network_controller_harve.Objects.{Nad, NetConf}
use network_controller_harve.Vlan.{VlanIdSet, new_vlan_id_set}
use network_controller_harve.Vlan.Count.{IsWell}
use network_controller_harve.Vlan.Set.{empty-IsWell}
use network_controller_harve.Vlan.Append.{Joins, append-Joins}
use network_controller_harve.NetConf.{is_bridge_cni, is_vlan_config_valid}
use network_controller_harve.NetConf.Dump.{NoNil, carries, dump_vlan_id_set-carries}
use network_controller_harve.Env.{Env}
use network_controller_harve.Nads.{decode_nad_config, add_nad, add_nads, new_from_nad_list}

module _ (env : Env) where
  -- A network that the loop can take: it is being deleted, or its configuration decodes, and is
  -- not a bridge's or is valid, with no nil item.
  abbrev pub IsUsable : Nad → Type 0
  IsUsable nad =
      (nad.deleting ≡ true)
      ⊎ ((nc : NetConf) × (decode_nad_config env nad ≡ ok nc)
          × ((is_bridge_cni nc ≡ false) ⊎ (is_vlan_config_valid nc ≡ ok tt) × NoNil nc.vlan_trunk))

  abbrev pub bridge_carries : Result NetConf → ℕ → Bool
  bridge_carries (err e) j = false
  bridge_carries (ok nc) j = is_bridge_cni nc && carries nc j

  -- What a network adds to the set.
  abbrev pub nad_carries : Nad → ℕ → Bool
  nad_carries nad j = not nad.deleting && bridge_carries (decode_nad_config env nad) j

  add_nad-Joins :
      (nad : Nad) (vis : VlanIdSet)
      → IsWell vis
      → vis.is_trunk_mode ≡ true
      → IsUsable nad
      → (t : VlanIdSet) × (add_nad env nad vis ≡ ok t) × Joins vis (nad_carries nad) t
  unfolding add_nad
  add_nad-Joins nad vis well trunk (inl gone) =
      (vis, ground arith, (well, trunk, λ j. ground arith))
  add_nad-Joins nad vis well trunk (inr (nc, e, inl other)) = elim (Bool-cases nad.deleting) [
    | inl gone ↦ (vis, ground arith, (well, trunk, λ j. ground arith))
    | inr active ↦
        (vis, simp (active, e, other), (well, trunk, λ j. simp (active, e, other) (ground arith)))
  ]
  add_nad-Joins nad vis well trunk (inr (nc, e, inr (valid, there))) =
      elim (Bool-cases nad.deleting) [
        | inl gone ↦ (vis, ground arith, (well, trunk, λ j. ground arith))
        | inr active ↦ elim (Bool-cases (is_bridge_cni nc)) [
          | inr other ↦ (
            vis,
            simp (active, e, other),
            (well, trunk, λ j. simp (active, e, other) (ground arith)),
          )
          | inl bridge ↦
              let (tmp, did, tmp_well, tmp_ids) = dump_vlan_id_set-carries nc valid there in
              let (t, et, joins) = append-Joins vis tmp well tmp_well trunk in
              let ids = joins.2 in
              (
                t,
                simp (active, e, bridge, did, et),
                (
                  joins.0,
                  joins.1,
                  λ j. simp (active, e, bridge) (ids j ∙ ap (λ b. vis.vid_set j || b) (tmp_ids j)),
                ),
              )
        ]
      ]

  add_nads-Joins :
      (nads : List Nad) (vis : VlanIdSet)
      → IsWell vis
      → vis.is_trunk_mode ≡ true
      → All IsUsable nads
      → (t : VlanIdSet) × (add_nads env nads vis ≡ ok t)
        × Joins vis (λ j. any (λ nad. nad_carries nad j) nads) t
  unfolding add_nads
  add_nads-Joins [] vis well trunk h = (vis, refl, (well, trunk, λ j. ground arith))
  add_nads-Joins (nad ∷ nads) vis well trunk h =
      let (mid, did, first) = add_nad-Joins nad vis well trunk h.0 in
      let (t, e, rest) = add_nads-Joins nads mid first.0 first.1 h.1 in
      let mid_ids = first.2 in
      let ids = rest.2 in (t, rw did e, (rest.0, rest.1, λ j. ground (arith, ids j, mid_ids j)))

  -- For networks of which each is being deleted, is of another CNI, or has a valid configuration
  -- without nil items, `NewVlanIDSetFromNadList` succeeds with a well-formed trunk set; it holds an
  -- id exactly if some bridge network of the list that is not being deleted carries it.
  pub new_from_nad_list_lem :
      (nads : List Nad)
      → All IsUsable nads
      → (t : VlanIdSet) × (new_from_nad_list env nads ≡ ok t)
        × IsWell t
        × (t.is_trunk_mode ≡ true)
        × ((j : ℕ) → t.vid_set j ≡ any (λ nad. nad_carries nad j) nads)
  unfolding new_from_nad_list new_vlan_id_set
  new_from_nad_list_lem nads h =
      let (t, e, joins) = add_nads-Joins nads new_vlan_id_set (empty-IsWell true) refl h in
      let ids = joins.2 in (t, e, joins.0, joins.1, ids)
