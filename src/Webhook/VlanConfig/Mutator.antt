-- ===== src/Webhook/VlanConfig/Mutator.antt =====
-- Mutation of VLAN configurations: pkg/webhook/vlanconfig/mutator.go.
use network_controller_harve.Common.{
  ◌&&◌, not, is_nil, List, [], ◌∷◌, ◌++◌, Bytes, ◌==◌, ◌!=◌, bytes_eq, nat_eq, length, get, put,
  Dict, Result, ok, ◌>>=◌, if◌then◌else◌,
}
use network_controller_harve.Objects.{
  VlanConfig, Node, key_cluster_network_label, key_matched_nodes, witness_node_label_key, mgmt,
}
use network_controller_harve.Env.{Env, Selector, equals, missing}
use network_controller_harve.Webhook.Patch.{Patch, replace_labels, replace_annotations}

-- `labels.Set.AsSelector`
abbrev pub selector_of : Dict → Selector
selector_of [] = []
selector_of ((k, v) ∷ d) = equals k v ∷ selector_of d

-- `getCnLabelPatch`
unfoldable pub cn_label_patch : VlanConfig → Patch
cn_label_patch v =
    if not (is_nil v.labels) && get key_cluster_network_label v.labels == v.cluster_network
    then []
    else replace_labels (put key_cluster_network_label v.cluster_network v.labels) ∷ []

abbrev pub node_names : List Node → List Bytes
node_names [] = []
node_names (node ∷ nodes) = node.name ∷ node_names nodes

module _ (env : Env) where
  -- `matchedNodesToPatch`; the encoding of a list of names does not fail.
  unfoldable pub matched_nodes_to_patch : VlanConfig → List Bytes → Patch
  matched_nodes_to_patch vc matched_nodes =
      replace_annotations (put key_matched_nodes (env.encode_names matched_nodes) vc.annotations)
      ∷ []

  -- `matchNodes`; the requirement that a label does not exist is always well-formed.
  unfoldable pub match_nodes : VlanConfig → Result Patch
  match_nodes vc = do
    nodes ← env.list_nodes (selector_of vc.node_selector ++ missing witness_node_label_key ∷ [])
    ok (if length nodes == 0 then [] else matched_nodes_to_patch vc (node_names nodes))

  -- `Mutator.Create`
  unfoldable pub create : VlanConfig → Result Patch
  create vc =
      if vc.cluster_network == mgmt
      then ok []
      else do annotation_patch ← match_nodes vc; ok (cn_label_patch vc ++ annotation_patch)

  -- `Mutator.Update`
  unfoldable pub update : VlanConfig → VlanConfig → Result Patch
  update old_vc new_vc =
      if new_vc.deleting then ok [] else if new_vc.cluster_network == mgmt then ok [] else do
        annotation_patch ← match_nodes new_vc
        ok (
            (if new_vc.cluster_network != old_vc.cluster_network then cn_label_patch new_vc else [])
            ++ annotation_patch)
