-- ===== src/Manager/ClusterNetwork/Synced.antt =====
-- What the manager sends when the readiness of a cluster network changes.
use network_controller_harve.Common.{
  ◌≡◌, refl, sym, ◌∙◌, ap, Bool, true, false, ◌||◌, ◌⊎◌, inl, inr, List, [], ◌∷◌, ◌++◌, map, Bytes,
  ◌==◌, ◌!=◌, bytes_eq, bytes_iff, arith, Result, ok, err, Check, Effect, all, if◌then◌else◌,
  Bool-cases, All, lookup-insert, eq_iff,
}
use network_controller_harve.Objects.{
  Nad, ClusterNetwork, HostNetworkConfig, Node, key_cluster_network_label, key_network_ready,
  is_false,
}
use network_controller_harve.Env.{Env, equals}
use network_controller_harve.Nads.{get_nad_label, set_nad_label}
use network_controller_harve.Requests.{
  Request, Log, Server, sent, each-sent, update_nad, patch_node_status, append_nil, Adds, Adds-each,
}
use network_controller_harve.Manager.ClusterNetwork.{
  bool_text, in_service, set_label, set_nad_ready_label, set_node_unready, set_host_network_unready,
  set_nodes_unready, set_status, set_statuses, set_host_network_status, reports, is_unready,
}

-- The network as `setNadReadyLabel` wants it.
abbrev pub settled : Bytes → Nad → Nad
settled text nad =
    if nad.deleting || get_nad_label nad key_network_ready == text
    then nad
    else set_nad_label nad key_network_ready text

abbrev pub label_request : Bytes → Nad → List Request
label_request text nad =
    if nad.deleting || get_nad_label nad key_network_ready == text
    then []
    else update_nad (settled text nad) ∷ []

-- A network that is being deleted or that carries the label.
abbrev pub IsLabelled : Bytes → Nad → Type 0
IsLabelled text nad = (nad.deleting ≡ true) ⊎ (get_nad_label nad key_network_ready ≡ text)

settled-IsLabelled : (text : Bytes) (nad : Nad) → IsLabelled text (settled text nad)
unfolding get_nad_label set_nad_label
settled-IsLabelled text nad =
    elim (Bool-cases (nad.deleting || get_nad_label nad key_network_ready == text)) [
      | inl kept ↦
          let e : settled text nad ≡ nad = simp kept in
          rw e (elim (Bool-cases nad.deleting) [
            | inl gone ↦ inl gone
            | inr active ↦
                inr (
                  ground
                    (arith, kept, active, bytes_iff (get_nad_label nad key_network_ready) text))
          ])
      | inr other ↦
          let e : settled text nad ≡ set_nad_label nad key_network_ready text = simp other in
          inr (rw e (simp (lookup-insert, (eq_iff key_network_ready key_network_ready).1 refl)))
    ]

module _ (server : Server) (accepts : (r : Request) → server r ≡ ok tt) where
  set_label-request :
      (env : Env) (text : Bytes) (nad : Nad) (log : Log)
      → set_label env server text nad log ≡ (log ++ label_request text nad, ok tt)
  unfolding set_label
  set_label-request env text nad log = elim (Bool-cases nad.deleting) [
    | inl gone ↦ simp (gone, append_nil log)
    | inr active ↦ elim (Bool-cases (get_nad_label nad key_network_ready == text)) [
      | inl same ↦ simp (active, same, append_nil log)
      | inr other ↦
          simp (active, other, accepts (update_nad (set_nad_label nad key_network_ready text)))
    ]
  ]

  label_request-IsLabelled :
      (text : Bytes) (nad : Nad) → IsLabelled text nad → label_request text nad ≡ []
  label_request-IsLabelled text nad (inl gone) = simp gone
  label_request-IsLabelled text nad (inr same) =
      let self : (get_nad_label nad key_network_ready == text) ≡ true =
        (bytes_iff (get_nad_label nad key_network_ready) text).1 same in
      elim (Bool-cases nad.deleting) [ inl gone ↦ simp gone | inr active ↦ simp (active, self) ]

  sent-settled :
      (text : Bytes) (nads : List Nad) → sent (label_request text) (map (settled text) nads) ≡ []
  sent-settled text [] = refl
  sent-settled text (nad ∷ nads) =
      rw (label_request-IsLabelled text (settled text nad) (settled-IsLabelled text nad))
        (sent-settled text nads)

  -- When the server accepts every request, `SetNadReadyLabel` succeeds; it sends the update of each
  -- listed network that is not being deleted and has another label, and no other request. Of the
  -- networks as they are then, each is labelled by the readiness of the cluster network or is being
  -- deleted, and a second run over them sends nothing.
  pub set_nad_ready_label-settles :
      (env later : Env) (cn : ClusterNetwork) (nads : List Nad) (log again : Log)
      → env.list_nads [] (equals key_cluster_network_label cn.name ∷ []) ≡ ok nads
      → later.list_nads [] (equals key_cluster_network_label cn.name ∷ [])
        ≡ ok (map (settled (bool_text (in_service cn))) nads)
      → (set_nad_ready_label env server cn log
          ≡ (log ++ sent (label_request (bool_text (in_service cn))) nads, ok tt))
        × All
            (IsLabelled (bool_text (in_service cn)))
            (map (settled (bool_text (in_service cn))) nads)
        × (set_nad_ready_label later server cn again ≡ (again, ok tt))
  unfolding set_nad_ready_label
  set_nad_ready_label-settles env later cn nads log again e1 e2 =
      let text = bool_text (in_service cn) in
      (
        simp e1 (
            each-sent (set_label env server text) (label_request text) (set_label-request env text)
              nads log),
        all_labelled text nads,
        simp e2 (
            each-sent (set_label later server text) (label_request text)
              (set_label-request later text) (map (settled text) nads) again
            ∙ ap (λ l. (again ++ l, ok tt)) (sent-settled text nads)
            ∙ ap (λ l. (l, ok tt)) (append_nil again)),
      )
    where
      all_labelled :
          (text : Bytes) (nads : List Nad) → All (IsLabelled text) (map (settled text) nads)
      all_labelled text [] = tt
      all_labelled text (nad ∷ nads) = (settled-IsLabelled text nad, all_labelled text nads)

Adds-nothing : (p : Request → Bool) (log : Log) (r : Check) → Adds p log (log, r)
Adds-nothing p log r = ([], sym (append_nil log), refl)

-- A request that reaches the status for one node only.
abbrev pub is_node_patch : Request → Bool
is_node_patch (patch_node_status name node status) = true
is_node_patch _ = false

module _ (env : Env) (server : Server) where
  set_node_unready-patch :
      (hn : HostNetworkConfig) (node : Node) (log : Log)
      → Adds is_node_patch log (set_node_unready env server hn node log)
  unfolding set_node_unready
  set_node_unready-patch hn node log = elim (Bool-cases node.deleting) [
    | inl gone ↦ rw gone (Adds-nothing is_node_patch log (ok tt))
    | inr active ↦ elim (Bool-cases (reports hn node.name)) [
      | inr absent ↦ rw (active, absent) (Adds-nothing is_node_patch log (ok tt))
      | inl present ↦ rw (active, present) (patch_node_status hn.name node.name _ ∷ [], refl, refl)
    ]
  ]

  set_nodes_unready-patch :
      (hn : HostNetworkConfig) (nodes : Result (List Node)) (log : Log)
      → Adds is_node_patch log (set_nodes_unready env server hn nodes log)
  set_nodes_unready-patch hn (err e) log = Adds-nothing is_node_patch log (err e)
  set_nodes_unready-patch hn (ok nodes) log =
      Adds-each is_node_patch (set_node_unready env server hn) (set_node_unready-patch hn) nodes log

  set_host_network_unready-patch :
      (hn : HostNetworkConfig) (log : Log)
      → Adds is_node_patch log (set_host_network_unready env server hn log)
  unfolding set_host_network_unready
  set_host_network_unready-patch hn log = elim (Bool-cases (is_unready hn.ready)) [
    | inl down ↦ rw down (Adds-nothing is_node_patch log (ok tt))
    | inr other ↦
        rw other (set_nodes_unready-patch (record hn { ready = is_false }) (env.list_nodes []) log)
  ]

  set_status-patch :
      (cn : ClusterNetwork) (hn : HostNetworkConfig) (log : Log)
      → in_service cn ≡ false
      → Adds is_node_patch log (set_status env server cn hn log)
  unfolding set_status
  set_status-patch cn hn log out = elim (Bool-cases (hn.cluster_network != cn.name)) [
    | inl other ↦ rw other (Adds-nothing is_node_patch log (ok tt))
    | inr same ↦ elim (Bool-cases hn.deleting) [
      | inl gone ↦ rw (same, gone) (Adds-nothing is_node_patch log (ok tt))
      | inr active ↦
          let e : set_status env server cn hn log ≡ set_host_network_unready env server hn log =
            simp (same, active, out) in
          let (reqs, grows, patches) = set_host_network_unready-patch hn log in
          (reqs, ap (λ (m : Effect Log). m.0) e ∙ grows, patches)
    ]
  ]

  -- When the cluster network is not ready or is being deleted, `SetHostNetworkStatus` sends, on
  -- every path, only patches of the status for one node: no request changes the global condition of
  -- a host network configuration, which the code marks as not ready in its copy.
  pub set_host_network_status-patch :
      (cn : ClusterNetwork) (log : Log)
      → in_service cn ≡ false
      → (reqs : List Request) × ((set_host_network_status env server cn log).0 ≡ log ++ reqs)
        × (all is_node_patch reqs ≡ true)
  unfolding set_host_network_status
  set_host_network_status-patch cn log out = go env.list_host_network_configs
    where
      go :
          (r : Result (List HostNetworkConfig))
          → Adds is_node_patch log (set_statuses env server cn r log)
      go (err e) = Adds-nothing is_node_patch log (err e)
      go (ok hncs) =
          Adds-each is_node_patch (set_status env server cn) (λ hn l. set_status-patch cn hn l out)
            hncs log
