-- ===== src/Manager/Node/Removed.antt =====
-- What the removal of a node leaves in the annotations of matched nodes.
use network_controller_harve.Common.{
  ◌≡◌, refl, sym, ◌∙◌, ap, true, false, not, ◌⊎◌, inl, inr, List, [], ◌∷◌, Option, none, some,
  Bytes, ◌==◌, bytes_eq, bytes_iff, get, Result, ok, err, Effect, and_then, and_then-eq-ok,
  if◌then◌else◌, Bool-cases, All, All-mono,
}
use network_controller_harve.Objects.{
  Node, VlanConfig, VlanStatus, LinkMonitor, LinkStatus, ObjectMeta, mgmt, key_matched_nodes,
  key_vlan_config_label, key_node_label,
}
use network_controller_harve.Mgmt.{mgmt_vlan_config_name}
use network_controller_harve.Env.{Env, SetLaws, equals}
use network_controller_harve.Requests.{
  Log, Server, send, each, delete_vlan_config, delete_vlan_status, update_link_monitor,
}
use network_controller_harve.Requests.Rounds.{
  Grows, Grows-none, Grows-send, Grows-if, Grows-and_then, Grows-each, Within, Grows-Within,
  send-Taken, each-All,
}
use network_controller_harve.Webhook.VlanConfig.Mutated.{NamesCodec}
use network_controller_harve.Manager.Node.{
  matched_set, set_text, with_nodes, vc_request, delete_first, remove_named, remove_node_from,
  remove_mgmt_vlan_config, remove_round, remove_node_from_vlan_configs, clear_links, clear_round,
  clear_listed, clear_link_status, has_links, without_node, on_remove,
}
use network_controller_harve.Manager.Node.Matched.{
  IsMoved, Leaves, Leaves-later, matched_set-with_nodes, contains-moved,
}

module _ (env : Env) (server : Server) where
  delete_first-Grows :
      (r : Result (List VlanStatus)) (log : Log) → Grows log (delete_first env server r log)
  delete_first-Grows (err e) log = Grows-none log (err e)
  delete_first-Grows (ok []) log = Grows-none log (ok tt)
  delete_first-Grows (ok (vs ∷ vss)) log = Grows-send server (delete_vlan_status vs.name) log

  remove_named-Grows :
      (vc : VlanConfig) (name : Bytes) (r : Result env.Set) (log : Log)
      → Grows log (remove_named env server vc name r log)
  remove_named-Grows vc name (err e) log = Grows-none log (err e)
  remove_named-Grows vc name (ok s) log =
      let request =
        vc_request env server vc (with_nodes vc.meta (set_text env (env.set_remove s name))) in
      let listed =
        env.list_vlan_statuses
          (equals key_vlan_config_label vc.name ∷ equals key_node_label name ∷ []) in
      Grows-if (not (env.contains s name)) log _ _ (Grows-none log (ok tt)) (
        Grows-and_then log (send server request log) (delete_first env server listed)
          (Grows-send server request log) (delete_first-Grows listed))

  remove_round-Grows :
      (name : Bytes) (vc : VlanConfig) (log : Log) → Grows log (remove_round env server name vc log)
  unfolding remove_round remove_node_from remove_mgmt_vlan_config
  remove_round-Grows name vc log =
      Grows-if (vc.cluster_network == mgmt) log _ _
        (Grows-if (vc.name == mgmt_vlan_config_name name) log _ _
          (delete_vlan_config (mgmt_vlan_config_name name) ∷ [], refl) (Grows-none log (ok tt)))
        (Grows-if (get key_matched_nodes vc.annotations == []) log _ _ (Grows-none log (ok tt))
          (remove_named-Grows vc name (matched_set env vc.annotations) log))

  clear_links-Grows :
      (lm : LinkMonitor) (name : Bytes) (o : Option (List (Bytes × List LinkStatus))) (log : Log)
      → Grows log (clear_links env server lm name o log)
  clear_links-Grows lm name none log = Grows-none log (ok tt)
  clear_links-Grows lm name (some links) log =
      Grows-if (has_links name links) log _ _
        (Grows-send server
          (update_link_monitor (record lm { link_status = some (without_node name links) })) log)
        (Grows-none log (ok tt))

  clear_link_status-Grows :
      (name : Bytes) (log : Log) → Grows log (clear_link_status env server name log)
  unfolding clear_link_status clear_round
  clear_link_status-Grows name log = listed env.list_link_monitors
    where
      round : (lm : LinkMonitor) (l : Log) → Grows l (clear_round env server name lm l)
      round lm l = clear_links-Grows lm name lm.link_status l

      listed : (r : Result (List LinkMonitor)) → Grows log (clear_listed env server name r log)
      listed (err e) = Grows-none log (err e)
      listed (ok lms) = Grows-each (clear_round env server name) round lms log

module _ (env : Env) (laws : SetLaws env) (codec : NamesCodec env) (server : Server)
    (name : Bytes) where
  -- A VLAN configuration of another network than `mgmt`, of which the set of matched nodes is without
  -- the node, and else as before.
  abbrev pub Released : Log → VlanConfig → Type 0
  Released log vc =
      ((vc.cluster_network == mgmt) ≡ true)
      ⊎ ((after : ObjectMeta) × Leaves server log (vc_request env server vc) vc.meta after
          × IsMoved env name false vc.annotations after.annotations)

  unmoved :
      (vc : VlanConfig) (s : env.Set)
      → matched_set env vc.annotations ≡ ok s
      → env.contains s name ≡ false
      → IsMoved env name false vc.annotations vc.annotations
  unmoved vc s e absent = (
    s,
    s,
    e,
    e,
    λ x. elim (Bool-cases (name == x)) [
      | inl here ↦
          let same : name ≡ x = (bytes_iff name x).0 here in
          rw here (ap (λ y. env.contains s y) (sym same) ∙ absent)
      | inr other ↦ rw other refl
    ],
  )

  remove_named-Released :
      (vc : VlanConfig) (r : Result env.Set) (log next : Log)
      → matched_set env vc.annotations ≡ r
      → remove_named env server vc name r log ≡ (next, ok tt)
      → (after : ObjectMeta) × Leaves server next (vc_request env server vc) vc.meta after
        × IsMoved env name false vc.annotations after.annotations
  remove_named-Released vc (err e) log next m h =
      let p : err e ≡ ok tt = ap (λ (k : Effect Log). k.1) h in absurd (cc)
  remove_named-Released vc (ok s) log next m h = elim (Bool-cases (env.contains s name)) [
    | inr absent ↦ (vc.meta, inl refl, unmoved vc s m absent)
    | inl here ↦
        let t = env.set_remove s name in
        let after = with_nodes vc.meta (set_text env t) in
        let listed =
          env.list_vlan_statuses
            (equals key_vlan_config_label vc.name ∷ equals key_node_label name ∷ []) in
        let (mid, sent, rest) =
          and_then-eq-ok (send server (vc_request env server vc after) log)
            (delete_first env server listed) (simp here at h) in
        let (there, taken) = send-Taken server (vc_request env server vc after) log mid sent in
        let kept =
          Grows-Within mid next (delete_first env server listed mid) (ok tt)
            (delete_first-Grows env server listed mid) rest in
        (
          after,
          inr (kept _ there, taken),
          (
            s,
            env.set_of (env.to_slice t),
            m,
            matched_set-with_nodes env laws codec vc.meta t,
            λ x. laws.contains-to_slice t x ∙ contains-moved env laws codec false name s x,
          ),
        )
  ]

  matched_set-empty :
      (vc : VlanConfig)
      → (get key_matched_nodes vc.annotations == []) ≡ true
      → matched_set env vc.annotations ≡ ok (env.set_of [])
  unfolding matched_set
  matched_set-empty vc e = rw e refl

  round-Released :
      (vc : VlanConfig) (log next : Log)
      → remove_round env server name vc log ≡ (next, ok tt)
      → Released next vc
  unfolding remove_round remove_node_from
  round-Released vc log next h = elim (Bool-cases (vc.cluster_network == mgmt)) [
    | inl same ↦ inl same
    | inr other ↦ elim (Bool-cases (get key_matched_nodes vc.annotations == [])) [
      | inl empty ↦ inr (
        vc.meta,
        inl refl,
        unmoved vc (env.set_of []) (matched_set-empty vc empty) (laws.contains-set_of [] name),
      )
      | inr filled ↦ inr (
          remove_named-Released vc (matched_set env vc.annotations) log next refl
            (simp (other, filled) at h))
    ]
  ]

  Released-later :
      (vc : VlanConfig) (log next : Log) → Within log next → Released log vc → Released next vc
  Released-later vc log next kept (inl same) = inl same
  Released-later vc log next kept (inr (after, left, there)) = inr (
    after,
    Leaves-later server (vc_request env server vc) vc.meta after log next kept left,
    there,
  )

  -- Whenever `OnRemove` of the manager succeeds for a node, every VLAN configuration of the cache on
  -- another network than `mgmt` has an annotation that does not hold the node, and holds other names
  -- as before, as it is or in an update that the server took.
  pub on_remove-Released :
      (node : Node) (vcs : List VlanConfig) (log next : Log)
      → node.name ≡ name
      → env.list_vlan_configs [] ≡ ok vcs
      → on_remove env server node log ≡ (next, ok tt)
      → All (Released next) vcs
  unfolding on_remove remove_node_from_vlan_configs
  on_remove-Released node vcs log next named listed h =
      let steps = λ (l : Log). each (remove_round env server name) vcs l in
      let run : and_then (steps log) (clear_link_status env server name) ≡ (next, ok tt) =
        rw listed at (rw named at h) in
      let (mid, done, rest) = and_then-eq-ok (steps log) _ run in
      let kept =
        Grows-Within mid next (clear_link_status env server name mid) (ok tt)
          (clear_link_status-Grows env server name mid) rest in
      All-mono (λ vc. Released-later vc mid next kept) vcs
        (each-All (remove_round env server name) Released (remove_round-Grows env server name)
          round-Released Released-later vcs log mid done)

  -- A configuration with the annotation that the update in `removeNodeFromOneVlanConfig` writes for a
  -- set: another run for the
  -- same node succeeds and sends nothing, whatever VLAN statuses the cache holds, so that a status
  -- of which the deletion failed in the first run stays.
  pub remove_node_from-again :
      (vc : VlanConfig) (s : env.Set) (log : Log)
      → let after = with_nodes vc.meta (set_text env (env.set_remove s name)) in
        remove_node_from env server name (record vc { meta = after }) log ≡ (log, ok tt)
  unfolding remove_node_from
  remove_node_from-again vc s log =
      let t = env.set_remove s name in
      let after = with_nodes vc.meta (set_text env t) in
      let gone : env.contains (env.set_of (env.to_slice t)) name ≡ false =
        laws.contains-to_slice t name
        ∙ contains-moved env laws codec false name s name
        ∙ ap (λ b. if b then false else env.contains s name) ((bytes_iff name name).1 refl) in
      elim (Bool-cases (get key_matched_nodes after.annotations == [])) [
        | inl empty ↦ rw empty refl
        | inr filled ↦ rw (filled, matched_set-with_nodes env laws codec vc.meta t, gone) refl
      ]
