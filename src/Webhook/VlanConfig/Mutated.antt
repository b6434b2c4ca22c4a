-- ===== src/Webhook/VlanConfig/Mutated.antt =====
-- What the validating webhook sees of a VLAN configuration that was mutated.
use network_controller_harve.Common.{
  String, GoMap, ◌≡◌, ◌≢◌, refl, sym, ◌∙◌, ap, true, false, not, ◌&&◌, List, [], ◌∷◌, ◌++◌, some,
  Bytes, ◌==◌, bytes_eq, nat_eq, arith, length, get, put, Result, ok, >>=-eq-ok, lookup-insert,
  bytes_iff, bytes_ne, bytes_beq_refl, eq_iff, if◌then◌else◌, Bool-cases, inl, inr, is_nil,
}
use network_controller_harve.Objects.{
  VlanConfig, Node, key_cluster_network_label, key_matched_nodes, witness_node_label_key, mgmt,
}
use network_controller_harve.Env.{Env, missing}
use network_controller_harve.Webhook.Patch.{Patch, patched_vc}
use network_controller_harve.Webhook.VlanConfig.{is_cluster_network_label_valid, get_match_nodes}
use network_controller_harve.Webhook.VlanConfig.Mutator.{
  cn_label_patch, matched_nodes_to_patch, match_nodes, selector_of, node_names, create,
}

-- The documented behaviour of the JSON codec on lists of names.
abbrev pub NamesCodec : Env → Type 0
NamesCodec env =
    (xs : List Bytes)
    → (env.decode_names (env.encode_names xs) ≡ some xs) × ((env.encode_names xs == []) ≡ false)

get-put : (k : String) (v : Bytes) (m : GoMap) → get k (put k v m) ≡ v
get-put k v m = simp (lookup-insert, (eq_iff k k).1 refl)

patched_vc-append :
    (a b : Patch) (vc : VlanConfig) → patched_vc (a ++ b) vc ≡ patched_vc b (patched_vc a vc)
patched_vc-append [] b vc = refl
patched_vc-append (op ∷ a) b vc = patched_vc-append a b _

-- The label patch gives the label of the cluster network, and changes labels only.
cn_label_patch-label :
    (vc : VlanConfig)
    → let after = patched_vc (cn_label_patch vc) vc in
      (get key_cluster_network_label after.labels ≡ vc.cluster_network)
      × (after.annotations ≡ vc.annotations)
      × (after.cluster_network ≡ vc.cluster_network)
unfolding cn_label_patch
cn_label_patch-label vc =
    elim (Bool-cases
      (not (is_nil vc.labels) && get key_cluster_network_label vc.labels == vc.cluster_network)) [
        | inl there ↦
            let same : get key_cluster_network_label vc.labels ≡ vc.cluster_network = ground (
              arith,
              there,
              bytes_iff (get key_cluster_network_label vc.labels) vc.cluster_network,
            ) in
            rw there (same, refl, refl)
        | inr absent ↦
            rw absent (get-put key_cluster_network_label vc.cluster_network vc.labels, refl, refl)
      ]

valid_of_label :
    (vc : VlanConfig)
    → (vc.cluster_network == []) ≡ false
    → get key_cluster_network_label vc.labels ≡ vc.cluster_network
    → is_cluster_network_label_valid vc ≡ true
unfolding is_cluster_network_label_valid
valid_of_label vc named e = simp (e, named, bytes_beq_refl vc.cluster_network)

module _ (env : Env) (codec : NamesCodec env) where
  -- The matched nodes that the mutator found, or else those of the annotation that is there.
  abbrev pub nodes_after : VlanConfig → List Node → Result env.Set
  nodes_after vc nodes =
      if length nodes == 0 then get_match_nodes env vc else ok (env.set_of (node_names nodes))

  get_match_nodes-annotations :
      (a b : VlanConfig)
      → a.annotations ≡ b.annotations
      → get_match_nodes env a ≡ get_match_nodes env b
  unfolding get_match_nodes
  get_match_nodes-annotations a b e = rw e refl

  abbrev annotated : VlanConfig → List Node → Patch
  annotated vc nodes =
      if length nodes == 0 then [] else matched_nodes_to_patch env vc (node_names nodes)

  get_match_nodes-annotated :
      (vc mid : VlanConfig) (nodes : List Node)
      → mid.annotations ≡ vc.annotations
      → let after = patched_vc (annotated vc nodes) mid in
        (get_match_nodes env after ≡ nodes_after vc nodes)
        × (after.labels ≡ mid.labels)
        × (after.cluster_network ≡ mid.cluster_network)
  unfolding matched_nodes_to_patch get_match_nodes
  get_match_nodes-annotated vc mid nodes e = elim (Bool-cases (length nodes == 0)) [
    | inl none_found ↦ rw none_found (get_match_nodes-annotations mid vc e, refl, refl)
    | inr found ↦
        let names = env.encode_names (node_names nodes) in
        let (decodes, filled) = codec (node_names nodes) in
        rw found
          (simp (get-put key_matched_nodes names vc.annotations, filled, decodes), refl, refl)
  ]

  -- Where the mutator answers a creation on a cluster network whose name is neither `mgmt` nor
  -- empty, and the JSON codec of names reads back what it writes, as a text that is not empty, the
  -- mutated
  -- configuration carries the label of its cluster network, and the validator reads as its matched
  -- nodes exactly the nodes that the cache lists for the selector; where it lists none, the nodes of
  -- the annotation that was there before.
  pub create-mutated :
      (vc : VlanConfig) (ops : Patch)
      → vc.cluster_network ≢ mgmt
      → vc.cluster_network ≢ []
      → create env vc ≡ ok ops
      → (nodes : List Node) × (env.list_nodes
            (selector_of vc.node_selector ++ missing witness_node_label_key ∷ [])
          ≡ ok nodes)
        × (is_cluster_network_label_valid (patched_vc ops vc) ≡ true)
        × (get_match_nodes env (patched_vc ops vc) ≡ nodes_after vc nodes)
  unfolding create match_nodes
  create-mutated vc ops other named h =
      let nonempty = bytes_ne vc.cluster_network [] named in
      let (patch, e1, r1) =
        >>=-eq-ok (match_nodes env vc) _ (simp (bytes_ne vc.cluster_network mgmt other) at h) in
      let (nodes, e2, r2) = >>=-eq-ok (env.list_nodes _) _ e1 in
      let p : ok (annotated vc nodes) ≡ ok patch = r2 in
      let q : annotated vc nodes ≡ patch = cc in
      let p' : ok (cn_label_patch vc ++ patch) ≡ ok ops = r1 in
      let q' : cn_label_patch vc ++ patch ≡ ops = cc in
      let mid = patched_vc (cn_label_patch vc) vc in
      let (label, notes, same) = cn_label_patch-label vc in
      let (matched, labels, network) = get_match_nodes-annotated vc mid nodes notes in
      let split : patched_vc ops vc ≡ patched_vc (annotated vc nodes) mid =
        rw (sym q', sym q) (patched_vc-append (cn_label_patch vc) (annotated vc nodes) vc) in
      (
        nodes,
        e2,
        rw split (
            valid_of_label (patched_vc (annotated vc nodes) mid) (rw (network ∙ same) nonempty)
              (ap (get key_cluster_network_label) labels ∙ label ∙ sym (network ∙ same))),
        rw split matched,
      )
