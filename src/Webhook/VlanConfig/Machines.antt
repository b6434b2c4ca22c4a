-- ===== src/Webhook/VlanConfig/Machines.antt =====
-- No machine loses its network by an admitted change of a VLAN configuration.
use network_controller_harve.Common.{
  ◌≡◌, refl, ◌≢◌, ◌⊎◌, inl, inr, true, false, not, List, [], ◌∷◌, some, Bytes, ◌==◌, bytes_eq,
  bytes_iff, nat_eq, nat_iff, arith, ltb, length, ok, >>=-eq-ok, >>-eq-ok, refuse_if, All, All-mono,
  Bool-cases, still_vmis, mgmt_user_request, label_invalid, ◌∙◌, ap,
}
use network_controller_harve.Objects.{VlanConfig, Nad, Vmi}
use network_controller_harve.Env.{Env, SetLaws}
use network_controller_harve.Nads.{list_nads_on_cluster_network}
use network_controller_harve.Vmis.{indexed, vmi_names_who_use_nads}
use network_controller_harve.Vmis.Using.{NoneOnNodes, All-outside, NoneOnNodes-names}
use network_controller_harve.Webhook.VlanConfig.{
  Request, is_user_request_for_mgmt, is_cluster_network_label_valid, get_match_nodes, check_vmi,
  check_overlaps, validate_mtu, get_affected_nodes, update, delete,
}

nil_names : (xs : List Bytes) → refuse_if (ltb 0 (length xs)) still_vmis ≡ ok tt → xs ≡ []
nil_names [] h = refl
nil_names (x ∷ xs) h = ground arith

module _ (env : Env) (laws : SetLaws env) where
  none_on_empty :
      (nodes : env.Set) (nads : List Nad)
      → env.cardinality nodes ≡ 0
      → All (NoneOnNodes env nodes) nads
  none_on_empty nodes [] z = tt
  none_on_empty nodes (nad ∷ nads) z = (
    λ vmis e. All-outside env nodes vmis (λ x. laws.contains-empty nodes x z),
    none_on_empty nodes nads z,
  )

  check_vmi_sound :
      (vc : VlanConfig) (nodes : env.Set)
      → check_vmi env vc nodes ≡ ok tt
      → (nads : List Nad) → list_nads_on_cluster_network env vc.cluster_network ≡ ok nads
      → All (NoneOnNodes env nodes) nads
  unfolding check_vmi
  check_vmi_sound vc nodes h nads e = elim (Bool-cases (env.cardinality nodes == 0)) [
    | inl z ↦ none_on_empty nodes nads ((nat_iff (env.cardinality nodes) 0).0 z)
    | inr nz ↦
        let (names, en, r) =
          >>=-eq-ok (vmi_names_who_use_nads env nads true (some nodes)) _ (simp (nz, e) at h) in
        NoneOnNodes-names env laws nads nodes (en ∙ ap ok (nil_names names r))
  ]

  -- The node matched the old configuration, and its network changes: the cluster network or the
  -- uplink does, or the new configuration does not match the node.
  abbrev pub IsVacated : VlanConfig → VlanConfig → env.Set → env.Set → Bytes → Type 0
  IsVacated old_vc new_vc old_nodes new_nodes node =
      (env.contains old_nodes node ≡ true)
      × ((old_vc.cluster_network ≢ new_vc.cluster_network)
          ⊎ ((env.same_uplink old_vc.uplink new_vc.uplink ≡ false)
              ⊎ (env.contains new_nodes node ≡ false)))

  affected_of_IsVacated :
      (old_vc new_vc : VlanConfig) (old_nodes new_nodes : env.Set) (node : Bytes)
      → IsVacated old_vc new_vc old_nodes new_nodes node
      → env.contains (get_affected_nodes env old_vc new_vc old_nodes new_nodes) node ≡ true
  unfolding get_affected_nodes
  affected_of_IsVacated old_vc new_vc old_nodes new_nodes node h = ground (
    arith,
    bytes_iff old_vc.cluster_network new_vc.cluster_network,
    laws.contains-difference old_nodes new_nodes node,
  )

  check_of_update :
      (req : Request) (old_vc new_vc : VlanConfig)
      → new_vc.deleting ≡ false
      → update env req old_vc new_vc ≡ ok tt
      → (old_nodes : env.Set) × (new_nodes : env.Set) × (get_match_nodes env old_vc ≡ ok old_nodes)
        × (get_match_nodes env new_vc ≡ ok new_nodes)
        × (check_vmi env old_vc (get_affected_nodes env old_vc new_vc old_nodes new_nodes) ≡ ok tt)
  unfolding update
  check_of_update req old_vc new_vc active h =
      let (_, r1) =
        >>-eq-ok (refuse_if (is_user_request_for_mgmt req new_vc.cluster_network) mgmt_user_request)
          _ (simp active at h) in
      let (_, r2) =
        >>-eq-ok (refuse_if (not (is_cluster_network_label_valid new_vc)) label_invalid) _ r1 in
      let (cn, _, r3) = >>=-eq-ok (env.get_cluster_network new_vc.cluster_network) _ r2 in
      let (_, r4) = >>-eq-ok (validate_mtu env new_vc) _ r3 in
      let (new_nodes, en, r5) = >>=-eq-ok (get_match_nodes env new_vc) _ r4 in
      let (_, r6) = >>-eq-ok (check_overlaps env new_vc new_nodes) _ r5 in
      let (old_nodes, eo, r7) = >>=-eq-ok (get_match_nodes env old_vc) _ r6 in
      let (a, _) =
        >>-eq-ok (check_vmi env old_vc (get_affected_nodes env old_vc new_vc old_nodes new_nodes)) _
          r7 in
      (old_nodes, new_nodes, eo, en, a)

  -- An update that is admitted, of a configuration that is not being deleted, strands no machine:
  -- on every node that the old configuration matched and for which the cluster network or the
  -- uplink changes or which the new one no longer matches, no running machine uses a network
  -- attachment that the cache lists on the old cluster network.
  pub update_strands_no_machine :
      (req : Request) (old_vc new_vc : VlanConfig)
      → new_vc.deleting ≡ false
      → update env req old_vc new_vc ≡ ok tt
      → (old_nodes : env.Set) × (new_nodes : env.Set) × (get_match_nodes env old_vc ≡ ok old_nodes)
        × (get_match_nodes env new_vc ≡ ok new_nodes)
        × ((nads : List Nad)
            → list_nads_on_cluster_network env old_vc.cluster_network ≡ ok nads
            → All
                (λ nad.
                  (vmis : List Vmi)
                  → indexed env env.vmis_by_network nad ≡ ok vmis
                  → All (λ vmi. ¬ IsVacated old_vc new_vc old_nodes new_nodes vmi.node_name) vmis)
                nads)
  update_strands_no_machine req old_vc new_vc active h =
      let (old_nodes, new_nodes, eo, en, a) = check_of_update req old_vc new_vc active h in
      (
        old_nodes,
        new_nodes,
        eo,
        en,
        λ nads e.
            All-mono
              (λ nad none_on vmis e'.
                All-mono
                  (λ vmi outside vacated. ground (
                    arith,
                    affected_of_IsVacated old_vc new_vc old_nodes new_nodes vmi.node_name vacated,
                  ))
                  vmis (none_on vmis e'))
              nads
              (check_vmi_sound old_vc (get_affected_nodes env old_vc new_vc old_nodes new_nodes) a
                nads e),
      )

  -- A deletion that is admitted strands no machine: on no node that the configuration matched does
  -- a running machine use a network attachment that the cache lists on its cluster network.
  pub delete_strands_no_machine :
      (req : Request) (vc : VlanConfig)
      → delete env req vc ≡ ok tt
      → (nodes : env.Set) × (get_match_nodes env vc ≡ ok nodes)
        × ((nads : List Nad)
            → list_nads_on_cluster_network env vc.cluster_network ≡ ok nads
            → All (NoneOnNodes env nodes) nads)
  unfolding delete
  delete_strands_no_machine req vc h =
      let (_, r1) =
        >>-eq-ok (refuse_if (is_user_request_for_mgmt req vc.cluster_network) mgmt_user_request) _
          h in
      let (nodes, en, r2) = >>=-eq-ok (get_match_nodes env vc) _ r1 in
      let (a, _) = >>-eq-ok (check_vmi env vc nodes) _ r2 in
      (nodes, en, λ nads e. check_vmi_sound vc nodes a nads e)
