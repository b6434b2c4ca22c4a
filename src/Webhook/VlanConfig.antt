-- ===== src/Webhook/VlanConfig.antt =====
-- Admission of VLAN configurations: pkg/webhook/vlanconfig/validator.go, with the helpers of
-- pkg/utils/mgmt.go, labels.go and name.go that it calls.
pub mod Mutator
pub mod Mutated
pub mod Admitted
pub mod Machines
use network_controller_harve.Common.{
  ℕ, ◌-◌, Bool, true, false, not, ◌||◌, ◌&&◌, List, [], ◌∷◌, ◌++◌, Option, none, some, Bytes, ◌==◌,
  ◌!=◌, bytes_eq, nat_eq, ltb, length, take, join, get, ℤ, Result, ok, err, Error, ◌>>=◌, ◌>>◌,
  refuse_if, for_each, Check, if◌then◌else◌, is_not_found, mgmt_user_request, still_vmis,
  still_system_nad, mtu_differs, mtu_out_of_range, label_invalid, overlaps, bad_json,
}
use network_controller_harve.Objects.{
  VlanConfig, VlanStatus, Nad, key_cluster_network_label, key_matched_nodes, mgmt, harvester_system,
}
use network_controller_harve.Bridge.{is_cluster_network_name_valid}
use network_controller_harve.Mtu.{is_valid_mtu, get_mtu_from_vlan_config, are_equal_mtus}
use network_controller_harve.Env.{Env, equals}
use network_controller_harve.Nads.{list_nads_on_cluster_network, first_active_system_nad}
use network_controller_harve.Vmis.{vmi_names_who_use_nads}
use network_controller_harve.Webhook.ClusterNetwork.{refuse_system_nad}

-- An admission request, nil or with the answer of `IsFromController`.
abbrev pub Request : Type 0
Request = Option Bool

abbrev pub is_from_user : Request → Bool
is_from_user none = false
is_from_user (some from_controller) = not from_controller

-- `IsUserRequestForMgmtCluster`
unfoldable pub is_user_request_for_mgmt : Request → Bytes → Bool
is_user_request_for_mgmt req cn = if cn != mgmt then false else is_from_user req

-- `IsClusterNetworkLabelValid`, its first result.
unfoldable pub is_cluster_network_label_valid : VlanConfig → Bool
is_cluster_network_label_valid vc =
    let label = get key_cluster_network_label vc.labels in
    not (label == [] || label != vc.cluster_network)

abbrev pub decoded_names : Option (List Bytes) → Result (List Bytes)
decoded_names none = err bad_json
decoded_names (some names) = ok names

-- One round of the loop of `validateMTU`.
abbrev pub check_same_mtu : VlanConfig → VlanConfig → Check
check_same_mtu current vc =
    if vc.name == current.name || vc.deleting
    then ok tt
    else refuse_if
        (not (are_equal_mtus (get_mtu_from_vlan_config current) (get_mtu_from_vlan_config vc)))
        mtu_differs

module _ (env : Env) where
  -- `Name("", cn, node)`: at most 63 bytes, of which the checksum takes the last eight.
  unfoldable pub status_name : Bytes → Bytes → Bytes
  status_name cn node =
      let name = join (b'-' ∷ []) (cn ∷ node ∷ []) in
      let suffix = env.checksum name in
      let max_length = 63 - 1 - length suffix in
      (if ltb max_length (length name) then take max_length name else name) ++ b'-' ∷ suffix

  -- `getMatchNodes`
  unfoldable pub get_match_nodes : VlanConfig → Result env.Set
  get_match_nodes vc =
      let annotation = get key_matched_nodes vc.annotations in
      if annotation == []
      then ok (env.set_of [])
      else decoded_names (env.decode_names annotation) >>= λ names. ok (env.set_of names)

  -- The answer of the cache for one node: whether another configuration is in effect there.
  abbrev pub taken_by_other : VlanConfig → Result VlanStatus → Result Bool
  taken_by_other vc (ok vs) = ok (vs.vlan_config != vc.name)
  taken_by_other vc (err e) = if is_not_found e then ok false else err e

  -- The loop of `checkOverlaps`; `found` says whether a node is in `overlapNods`.
  unfoldable pub overlap_loop : VlanConfig → List Bytes → Bool → Check
  overlap_loop vc [] found = refuse_if found overlaps
  overlap_loop vc (node ∷ nodes) found =
      taken_by_other vc (env.get_vlan_status (status_name vc.cluster_network node)) >>= λ taken.
      overlap_loop vc nodes (found || taken)

  -- `checkOverlaps`; its set is never nil.
  unfoldable pub check_overlaps : VlanConfig → env.Set → Check
  unfolding overlap_loop
  check_overlaps vc nodes = overlap_loop vc (env.to_slice nodes) false

  -- `checkVmi`
  unfoldable pub check_vmi : VlanConfig → env.Set → Check
  check_vmi vc nodes = if env.cardinality nodes == 0 then ok tt else do
    nads ← list_nads_on_cluster_network env vc.cluster_network
    names ← vmi_names_who_use_nads env nads true (some nodes)
    refuse_if (ltb 0 (length names)) still_vmis

  -- `checkNetworkNadsAttached`
  unfoldable pub check_network_nads_attached : VlanConfig → env.Set → Check
  check_network_nads_attached vc nodes = if env.cardinality nodes == 0 then ok tt else do
    nads ← env.list_nads harvester_system (equals key_cluster_network_label vc.cluster_network ∷ [])
    refuse_system_nad (first_active_system_nad nads)

  -- `validateMTU`
  unfoldable pub validate_mtu : VlanConfig → Check
  validate_mtu current = if current.cluster_network == mgmt then ok tt else do
    refuse_if (not (is_valid_mtu (get_mtu_from_vlan_config current))) mtu_out_of_range
    vcs ← env.list_vlan_configs (equals key_cluster_network_label current.cluster_network ∷ [])
    for_each (check_same_mtu current) vcs

  -- `getAffectedNodes`
  unfoldable pub get_affected_nodes : VlanConfig → VlanConfig → env.Set → env.Set → env.Set
  get_affected_nodes old_vc new_vc old_nodes new_nodes =
      if old_vc.cluster_network != new_vc.cluster_network
        || not (env.same_uplink old_vc.uplink new_vc.uplink)
      then old_nodes
      else env.difference old_nodes new_nodes

  -- `Validator.Create`
  unfoldable pub create : Request → VlanConfig → Check
  create req vc = do
    refuse_if (is_user_request_for_mgmt req vc.cluster_network) mgmt_user_request
    is_cluster_network_name_valid vc.cluster_network
    cn ← env.get_cluster_network vc.cluster_network
    validate_mtu vc
    nodes ← get_match_nodes vc
    check_overlaps vc nodes

  -- `Validator.Update`
  unfoldable pub update : Request → VlanConfig → VlanConfig → Check
  update req old_vc new_vc = if new_vc.deleting then ok tt else do
    refuse_if (is_user_request_for_mgmt req new_vc.cluster_network) mgmt_user_request
    refuse_if (not (is_cluster_network_label_valid new_vc)) label_invalid
    cn ← env.get_cluster_network new_vc.cluster_network
    validate_mtu new_vc
    new_nodes ← get_match_nodes new_vc
    check_overlaps new_vc new_nodes
    old_nodes ← get_match_nodes old_vc
    let affected = get_affected_nodes old_vc new_vc old_nodes new_nodes
    check_vmi old_vc affected
    check_network_nads_attached old_vc affected

  -- `Validator.Delete`
  unfoldable pub delete : Request → VlanConfig → Check
  delete req vc = do
    refuse_if (is_user_request_for_mgmt req vc.cluster_network) mgmt_user_request
    nodes ← get_match_nodes vc
    check_vmi vc nodes
    check_network_nads_attached vc nodes
