-- ===== src/Webhook/HostNetworkConfig.antt =====
-- Admission of host network configurations: pkg/webhook/hostnetworkconfig/validator.go.
pub mod Kept
pub mod Spanning
use network_controller_harve.Common.{
  ℕ, String, Bool, true, false, not, ◌||◌, ◌&&◌, List, [], ◌∷◌, ◌++◌, Option, none, some, Bytes,
  codes, ◌==◌, ◌!=◌, bytes_eq, nat_eq, ltb, length, get, find, GoMap, Result, ok, err, ◌>>=◌, ◌>>◌,
  refuse_if, for_each, Check, if◌then◌else◌, Error, bad_json, still_vms, underlay_exists,
  underlay_enabled, same_vlan_exists, immutable_field, nodes_not_matched, status_missing,
  status_not_ready, vlan_configs_missing, static_ip_missing, static_ips_differ, bad_cidr, is_nil,
}
use network_controller_harve.Objects.{
  Nad, HostNetworkConfig, VlanConfig, VlanStatus, Node, LabelSelector, Ready, is_false,
  key_cluster_network_label, key_matched_nodes, witness_node_label_key, value_true, mgmt,
}
use network_controller_harve.Bridge.{is_cluster_network_name_valid, is_host_network_intf_name_valid}
use network_controller_harve.Env.{Env, equals}
use network_controller_harve.Nads.{is_overlay_nad}
use network_controller_harve.Vmis.{vm_names_who_use_nad}

abbrev pub ip_mode_static : Bytes
ip_mode_static = codes "static"

-- `ValidateOp`
pub data ValidateOp : Type 0 where
  validate_create validate_update : ValidateOp

abbrev pub is_create : ValidateOp → Bool
is_create validate_create = true
is_create validate_update = false

-- `HasLabelKey`
unfoldable pub has_label_key : GoMap → String → Bytes → Bool
has_label_key labels key value = get key labels == value

-- `HasWitnessNodeLabelKey`
abbrev pub is_witness : Node → Bool
is_witness node = has_label_key node.labels witness_node_label_key value_true

-- `hostIPs[name]`
unfoldable pub ip_of : Bytes → List (Bytes × Bytes) → Option Bytes
ip_of name [] = none
ip_of name ((key, ip) ∷ ips) = let rest = ip_of name ips in if key == name then some ip else rest

-- `matchNode`; no cache holds a nil node.
abbrev pub match_node : Node → (GoMap → Bool) → Bool
match_node node selector = not node.deleting && selector node.labels

-- The loops of `validateStaticIPsForAllNodes` and `validateStaticIPsForNodeWithLabel`: the texts of
-- the nodes that count, of which each must have one.
unfoldable pub cidrs_of : (Node → Bool) → List Node → List (Bytes × Bytes) → Result (List Bytes)
cidrs_of counts [] ips = ok []
cidrs_of counts (node ∷ nodes) ips =
    let rest = cidrs_of counts nodes ips in
    if counts node then with_ip (ip_of node.name ips) rest else rest
  where
    with_ip : Option Bytes → Result (List Bytes) → Result (List Bytes)
    with_ip none rest = err static_ip_missing
    with_ip (some ip) rest = rest >>= λ cidrs. ok (ip ∷ cidrs)

-- One round of the loop of `validateHostNetworkConfig`.
unfoldable pub check_other : HostNetworkConfig → ValidateOp → HostNetworkConfig → Check
check_other new op other =
    if other.deleting
    then ok tt
    else if other.underlay && new.underlay
    then err underlay_exists
    else if other.cluster_network != new.cluster_network
    then ok tt
    else refuse_if (is_create op && other.vlan_id == new.vlan_id) same_vlan_exists

-- One round of the loop of `checkVlanStatusReady`.
abbrev pub is_status_false : Ready → Bool
is_status_false is_false = true
is_status_false Ready.is_true = false
is_status_false Ready.unset = false

abbrev pub check_status : VlanStatus → Check
check_status vs = refuse_if (is_status_false vs.ready) status_not_ready

abbrev pub decoded_list : Option (List Bytes) → Result (List Bytes)
decoded_list none = err bad_json
decoded_list (some names) = ok names

abbrev pub no_names : Bytes
no_names = codes "[]"

module _ (env : Env) where
  -- `sameSubnet` of the texts after the first.
  abbrev pub same_network : List ℕ × ℕ → List ℕ × ℕ → Bool
  same_network (ip, size) (ip1, size1) = not (size != size1 || not (env.ip_equal ip ip1))

  abbrev pub parsed : Option (List ℕ × ℕ) → Result (List ℕ × ℕ)
  parsed none = err bad_cidr
  parsed (some net) = ok net

  unfoldable pub all_in : List ℕ × ℕ → List Bytes → Result Bool
  all_in ref [] = ok true
  all_in ref (c ∷ cs) = do
    net ← parsed (env.parse_network c)
    let rest = all_in ref cs
    if same_network ref net then rest else ok false

  -- `sameSubnet`
  unfoldable pub same_subnet : List Bytes → Result Bool
  same_subnet [] = ok true
  same_subnet (c ∷ cs) = parsed (env.parse_network c) >>= λ ref. all_in ref cs

  -- `if ok, err := sameSubnet(cidrs); !ok { … }`: every error is one refusal.
  abbrev pub refuse_unless : Result Bool → Check
  refuse_unless (ok true) = ok tt
  refuse_unless (ok false) = err static_ips_differ
  refuse_unless (err e) = err static_ips_differ

  -- `validateStaticIPsForAllNodes`, `validateStaticIPsForNodeWithLabel`
  unfoldable pub validate_for_nodes : (Node → Bool) → List Node → List (Bytes × Bytes) → Check
  validate_for_nodes counts nodes ips =
      cidrs_of counts nodes ips >>= λ cidrs. refuse_unless (same_subnet cidrs)

  -- `validateStaticIPs`
  unfoldable pub validate_static_ips : List (Bytes × Bytes) → Option LabelSelector → Check
  validate_static_ips ips none =
      env.list_nodes [] >>= λ nodes. validate_for_nodes (λ node. true) nodes ips
  validate_static_ips ips (some node_selector) = do
    nodes ← env.list_nodes []
    selector ← env.as_selector node_selector
    validate_for_nodes (λ node. match_node node selector) nodes ips

  -- `validateHostNetworkConfig`
  unfoldable pub validate : HostNetworkConfig → ValidateOp → Check
  validate new op = do
    hncs ← env.list_host_network_configs
    for_each (check_other new op) hncs
    if new.mode == ip_mode_static then validate_static_ips new.host_ips new.node_selector else ok tt

  -- `checkVlanStatusReady`
  unfoldable pub check_vlan_status_ready : Bytes → Check
  check_vlan_status_ready cn_name = if cn_name == mgmt then ok tt else do
    cn ← env.get_cluster_network cn_name
    statuses ← env.list_vlan_statuses (equals key_cluster_network_label cn_name ∷ [])
    refuse_if (length statuses == 0) status_missing
    for_each check_status statuses

  -- `getMatchNodes`
  unfoldable pub matched_names : VlanConfig → Result (List Bytes)
  matched_names vc =
      let annotation = get key_matched_nodes vc.annotations in
      if is_nil vc.annotations || (annotation == [] || annotation == no_names)
      then ok []
      else decoded_list (env.decode_names annotation)

  -- The loop of `checkVCSpansAllNodes` over the VLAN configurations: all that its set is given.
  unfoldable pub all_matched : List VlanConfig → Result (List Bytes)
  all_matched [] = ok []
  all_matched (vc ∷ vcs) = do names ← matched_names vc; rest ← all_matched vcs; ok (names ++ rest)

  -- One round of its loop over the nodes.
  abbrev pub check_spanned : env.Set → Node → Check
  check_spanned matched node =
      if node.deleting
      then ok tt
      else if is_witness node
      then ok tt
      else refuse_if (not (env.contains matched node.name)) nodes_not_matched

  -- `checkVCSpansAllNodes`
  unfoldable pub check_vc_spans_all_nodes : Bytes → Check
  check_vc_spans_all_nodes cn_name = if cn_name == mgmt then ok tt else do
    vcs ← env.list_vlan_configs (equals key_cluster_network_label cn_name ∷ [])
    refuse_if (length vcs == 0) vlan_configs_missing
    names ← all_matched vcs
    nodes ← env.list_nodes []
    for_each (check_spanned (env.set_of names)) nodes

  -- `nodeSelectorMatchesAllNodes`, with the refusal of its callers.
  unfoldable pub check_selects_all_nodes : Option LabelSelector → Check
  check_selects_all_nodes none = ok tt
  check_selects_all_nodes (some node_selector) = do
    selector ← env.as_selector node_selector
    nodes ← env.list_nodes []
    for_each (λ node. refuse_if (not (match_node node selector)) nodes_not_matched) nodes

  -- `checkVM`
  unfoldable pub check_vm : Nad → Check
  check_vm nad =
      vm_names_who_use_nad env nad >>= λ names. refuse_if (ltb 0 (length names)) still_vms

  -- `checkifVMExistsForOverlayNADs`
  unfoldable pub check_overlay_vms : Check
  check_overlay_vms = do
    nads ← env.list_nads [] []
    for_each (λ nad. if is_overlay_nad nad then check_vm nad else ok tt) nads

  -- The end of `Create` and `Update`.
  abbrev pub check_underlay_nodes : HostNetworkConfig → Check
  check_underlay_nodes hnc = if not hnc.underlay then ok tt else do
    check_vc_spans_all_nodes hnc.cluster_network
    check_selects_all_nodes hnc.node_selector

  -- `Validator.Create`
  unfoldable pub create : HostNetworkConfig → Check
  create hnc = do
    is_cluster_network_name_valid hnc.cluster_network
    is_host_network_intf_name_valid hnc.cluster_network hnc.vlan_id
    cn ← env.get_cluster_network hnc.cluster_network
    validate hnc validate_create
    check_vlan_status_ready hnc.cluster_network
    check_underlay_nodes hnc

  -- `Validator.Update`
  unfoldable pub update : HostNetworkConfig → HostNetworkConfig → Check
  update old new = if env.same_hnc_spec new old then ok tt else do
    refuse_if (old.cluster_network != new.cluster_network || old.vlan_id != new.vlan_id)
        immutable_field
    if old.underlay && not new.underlay then check_overlay_vms else ok tt
    validate new validate_update
    check_underlay_nodes new

-- `Validator.Delete`
unfoldable pub delete : HostNetworkConfig → Check
delete hnc = refuse_if hnc.underlay underlay_enabled
