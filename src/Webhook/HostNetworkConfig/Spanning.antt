-- ===== src/Webhook/HostNetworkConfig/Spanning.antt =====
-- What an admitted underlay reaches: every node.
use network_controller_harve.Common.{
  ◌≡◌, ◌≢◌, refl, sym, ◌∙◌, ap, Bool, true, false, not, ◌||◌, ◌⊎◌, inl, inr, List, [], ◌∷◌, ◌++◌,
  Option, some, none, Bytes, ◌==◌, bytes_eq, bytes_ne, nat_eq, arith, any, length, Result, ok, err,
  >>=-eq-ok, >>-eq-ok, Bool-cases, All, All-mono, for_each-eq-ok, refuse_if, refuse_if-eq-ok,
  nodes_not_matched, vlan_configs_missing, GoMap,
}
use network_controller_harve.Objects.{
  HostNetworkConfig, VlanConfig, Node, LabelSelector, key_cluster_network_label, mgmt,
}
use network_controller_harve.Bridge.{is_cluster_network_name_valid, is_host_network_intf_name_valid}
use network_controller_harve.Env.{Env, SetLaws, equals}
use network_controller_harve.Webhook.HostNetworkConfig.{
  validate_create, matched_names, all_matched, check_spanned, is_witness, match_node,
  check_vc_spans_all_nodes, check_selects_all_nodes, validate, create, check_vlan_status_ready,
}

module _ (env : Env) (laws : SetLaws env) where
  -- Whether one of the VLAN configurations names a node among its matched nodes.
  abbrev pub names_node : Result (List Bytes) → Bytes → Bool
  names_node (err e) name = false
  names_node (ok names) name = any (λ y. y == name) names

  abbrev pub some_vc_names : List VlanConfig → Bytes → Bool
  some_vc_names [] name = false
  some_vc_names (vc ∷ vcs) name = names_node (matched_names env vc) name || some_vc_names vcs name

  any-append : (p : Bytes → Bool) (xs ys : List Bytes) → any p (xs ++ ys) ≡ (any p xs || any p ys)
  any-append p [] ys = refl
  any-append p (x ∷ xs) ys = ground (arith, any-append p xs ys)

  all_matched-names :
      (vcs : List VlanConfig) (names : List Bytes) (name : Bytes)
      → all_matched env vcs ≡ ok names
      → any (λ y. y == name) names ≡ some_vc_names vcs name
  unfolding all_matched
  all_matched-names [] names name h =
      let p : ok [] ≡ ok names = h in let q : [] ≡ names = cc in rw (sym q) refl
  all_matched-names (vc ∷ vcs) names name h =
      let (here, e1, r1) = >>=-eq-ok (matched_names env vc) _ h in
      let (rest, e2, r2) = >>=-eq-ok (all_matched env vcs) _ r1 in
      let p : ok (here ++ rest) ≡ ok names = r2 in
      let q : here ++ rest ≡ names = cc in
      rw (sym q, e1)
        (any-append (λ y. y == name) here rest
          ∙ ap (λ b. any (λ y. y == name) here || b) (all_matched-names vcs rest name e2))

  -- A node that need not be spanned, or that is.
  abbrev pub IsSpanned : List VlanConfig → Node → Type 0
  IsSpanned vcs node =
      (node.deleting ≡ true) ⊎ (is_witness node ≡ true) ⊎ (some_vc_names vcs node.name ≡ true)

  spanned :
      (vcs : List VlanConfig) (names : List Bytes) (node : Node)
      → all_matched env vcs ≡ ok names
      → check_spanned env (env.set_of names) node ≡ ok tt
      → IsSpanned vcs node
  spanned vcs names node e h = elim (Bool-cases node.deleting) [
    | inl gone ↦ inl gone
    | inr active ↦ elim (Bool-cases (is_witness node)) [
      | inl witness ↦ inr (inl witness)
      | inr worker ↦
          let r = refuse_if-eq-ok _ nodes_not_matched (simp (active, worker) at h) in
          let there =
            laws.contains-set_of names node.name ∙ all_matched-names vcs names node.name e in
          inr (inr (ground (arith, r, there)))
    ]
  ]

  check_vc_spans_all_nodes_sound :
      (cn_name : Bytes)
      → cn_name ≢ mgmt
      → check_vc_spans_all_nodes env cn_name ≡ ok tt
      → (vcs : List VlanConfig) × (nodes : List Node) × (env.list_vlan_configs
            (equals key_cluster_network_label cn_name ∷ [])
          ≡ ok vcs)
        × (env.list_nodes [] ≡ ok nodes)
        × All (IsSpanned vcs) nodes
  unfolding check_vc_spans_all_nodes
  check_vc_spans_all_nodes_sound cn_name other h =
      let (vcs, e1, r1) =
        >>=-eq-ok (env.list_vlan_configs _) _ (simp (bytes_ne cn_name mgmt other) at h) in
      let (a, r2) = >>-eq-ok (refuse_if (length vcs == 0) vlan_configs_missing) _ r1 in
      let (names, e2, r3) = >>=-eq-ok (all_matched env vcs) _ r2 in
      let (nodes, e3, r4) = >>=-eq-ok (env.list_nodes []) _ r3 in
      (
        vcs,
        nodes,
        e1,
        e3,
        All-mono (λ node p. spanned vcs names node e2 p) nodes (for_each-eq-ok _ nodes r4),
      )

  -- The nodes that a node selector picks, nil being all.
  abbrev pub SelectsAll : Option LabelSelector → List Node → Type 0
  SelectsAll none nodes = Unit
  SelectsAll (some node_selector) nodes =
      (selector : GoMap → Bool) × (env.as_selector node_selector ≡ ok selector)
      × All (λ node. match_node node selector ≡ true) nodes

  check_selects_all_nodes_sound :
      (node_selector : Option LabelSelector) (nodes : List Node)
      → env.list_nodes [] ≡ ok nodes
      → check_selects_all_nodes env node_selector ≡ ok tt
      → SelectsAll node_selector nodes
  unfolding check_selects_all_nodes
  check_selects_all_nodes_sound none nodes listed h = tt
  check_selects_all_nodes_sound (some node_selector) nodes listed h =
      let (selector, e, r) = >>=-eq-ok (env.as_selector node_selector) _ h in
      let rounds = for_each-eq-ok _ nodes (simp listed at r) in
      (
        selector,
        e,
        All-mono
            (λ node p.
              ground (arith, refuse_if-eq-ok (not (match_node node selector)) nodes_not_matched p))
            nodes rounds,
      )

  -- An admitted creation of an underlay on a cluster network other than `mgmt`: every node that the
  -- cache lists is being deleted, or a witness, or named among the matched nodes of a VLAN
  -- configuration that the cache lists on the cluster network, and the node selector, if there is
  -- one, picks every listed node, none of which is then being deleted.
  pub create-underlay_sound :
      (hnc : HostNetworkConfig)
      → hnc.underlay ≡ true
      → hnc.cluster_network ≢ mgmt
      → create env hnc ≡ ok tt
      → (vcs : List VlanConfig) × (nodes : List Node) × (env.list_vlan_configs
            (equals key_cluster_network_label hnc.cluster_network ∷ [])
          ≡ ok vcs)
        × (env.list_nodes [] ≡ ok nodes)
        × All (IsSpanned vcs) nodes
        × SelectsAll hnc.node_selector nodes
  unfolding create
  create-underlay_sound hnc under other h =
      let (a, h1) = >>-eq-ok (is_cluster_network_name_valid hnc.cluster_network) _ h in
      let (b, h2) =
        >>-eq-ok (is_host_network_intf_name_valid hnc.cluster_network hnc.vlan_id) _ h1 in
      let (cn, c, h3) = >>=-eq-ok (env.get_cluster_network hnc.cluster_network) _ h2 in
      let (valid, h4) = >>-eq-ok (validate env hnc validate_create) _ h3 in
      let (ready, h5) = >>-eq-ok (check_vlan_status_ready env hnc.cluster_network) _ h4 in
      let (spans, selects) =
        >>-eq-ok (check_vc_spans_all_nodes env hnc.cluster_network) _ (simp under at h5) in
      let (vcs, nodes, e1, e2, all) =
        check_vc_spans_all_nodes_sound hnc.cluster_network other spans in
      (vcs, nodes, e1, e2, all, check_selects_all_nodes_sound hnc.node_selector nodes e2 selects)
