-- ===== src/Manager/Node/Matched.antt =====
-- What a change of a node leaves in the annotations of matched nodes.
use network_controller_harve.Common.{
  ◌≡◌, refl, sym, ◌∙◌, ap, Bool, true, false, ◌⊎◌, inl, inr, Option, none, some, Bytes, ◌==◌,
  bytes_eq, GoMap, Result, ok, err, Effect, if◌then◌else◌, Bool-cases, Option-cases, arith,
  lookup-insert,
}
use network_controller_harve.Objects.{
  Node, VlanConfig, HostNetworkConfig, LabelSelector, ObjectMeta, mgmt,
}
use network_controller_harve.Env.{Env, SetLaws, Selector, matches}
use network_controller_harve.Requests.{Request, Log, Server}
use network_controller_harve.Requests.Rounds.{
  Grows, Grows-none, Grows-send, Grows-if, Within, Taken, send-Taken,
}
use network_controller_harve.Webhook.VlanConfig.Mutated.{NamesCodec}
use network_controller_harve.Manager.Node.{
  new_selector, matched_set, moved, set_text, with_nodes, send_moved, vc_request, hnc_request,
  update_selected, update_matched_nodes, update_unless_mgmt, hnc_selected, hnc_round, update_hnc,
}

-- The set of matched nodes after the one before has been given the node or taken it away.
abbrev pub IsMoved : (env : Env) → Bytes → Bool → GoMap → GoMap → Type 0
IsMoved env name selected before after =
    (s : env.Set) × (t : env.Set) × (matched_set env before ≡ ok s)
    × (matched_set env after ≡ ok t)
    × ((x : Bytes) → env.contains t x ≡ (if name == x then selected else env.contains s x))

-- The metadata as they are, or as an update has them that the server took.
abbrev pub Leaves : Server → Log → (ObjectMeta → Request) → ObjectMeta → ObjectMeta → Type 0
Leaves server log request before after = (after ≡ before) ⊎ Taken server log (request after)

pub Leaves-later :
    (server : Server) (request : ObjectMeta → Request) (before after : ObjectMeta) (log next : Log)
    → Within log next
    → Leaves server log request before after
    → Leaves server next request before after
Leaves-later server request before after log next kept (inl same) = inl same
Leaves-later server request before after log next kept (inr (there, taken)) =
    inr (kept (request after) there, taken)

module _ (env : Env) (laws : SetLaws env) (codec : NamesCodec env) where
  pub contains-moved :
      (selected : Bool) (name : Bytes) (s : env.Set) (x : Bytes)
      → env.contains (moved env selected name s) x
        ≡ (if name == x then selected else env.contains s x)
  contains-moved true name s x = ground (arith, laws.contains-set_add s name x)
  contains-moved false name s x = ground (arith, laws.contains-set_remove s name x)

  pub matched_set-with_nodes :
      (meta : ObjectMeta) (s : env.Set)
      → matched_set env (with_nodes meta (set_text env s)).annotations
        ≡ ok (env.set_of (env.to_slice s))
  unfolding matched_set
  matched_set-with_nodes meta s =
      let (decodes, filled) = codec (env.to_slice s) in simp (lookup-insert, filled, decodes)

  module _ (server : Server) where
    send_moved-Leaves :
        (request : ObjectMeta → Request) (meta : ObjectMeta) (selected : Bool) (name : Bytes)
        (r : Result env.Set) (log next : Log)
        → matched_set env meta.annotations ≡ r
        → send_moved env server request meta selected name r log ≡ (next, ok tt)
        → (after : ObjectMeta) × Leaves server next request meta after
          × IsMoved env name selected meta.annotations after.annotations
    send_moved-Leaves request meta selected name (err e) log next m h =
        let p : err e ≡ ok tt = ap (λ (k : Effect Log). k.1) h in absurd (cc)
    send_moved-Leaves request meta selected name (ok s) log next m h =
        let t = moved env selected name s in
        elim (Bool-cases (env.set_equal t s)) [
          | inl same ↦ (
            meta,
            inl refl,
            (
              s,
              s,
              m,
              m,
              λ x. sym (laws.contains-set_equal t s x same) ∙ contains-moved selected name s x,
            ),
          )
          | inr other ↦ (
            with_nodes meta (set_text env t),
            inr (
                send-Taken server (request (with_nodes meta (set_text env t))) log next
                  (simp other at h)),
            (
              s,
              env.set_of (env.to_slice t),
              m,
              matched_set-with_nodes meta t,
              λ x. laws.contains-to_slice t x ∙ contains-moved selected name s x,
            ),
          )
        ]

    send_moved-Grows :
        (request : ObjectMeta → Request) (meta : ObjectMeta) (selected : Bool) (name : Bytes)
        (r : Result env.Set) (log : Log)
        → Grows log (send_moved env server request meta selected name r log)
    send_moved-Grows request meta selected name (err e) log = Grows-none log (err e)
    send_moved-Grows request meta selected name (ok s) log =
        let t = moved env selected name s in
        Grows-if (env.set_equal t s) log _ _ (Grows-none log (ok tt))
          (Grows-send server (request (with_nodes meta (set_text env t))) log)

    module _ (node : Node) where
      -- A VLAN configuration of another network than `mgmt`, of which the set of matched nodes has
      -- the node exactly if the selector picks it, and the others as before.
      abbrev pub VcMatched : Log → VlanConfig → Type 0
      VcMatched log vc =
          ((vc.cluster_network == mgmt) ≡ true)
          ⊎ ((sel : Selector) × (new_selector env vc.node_selector ≡ ok sel)
              × (after : ObjectMeta) × Leaves server log (vc_request env server vc) vc.meta after
              × IsMoved env node.name (matches sel node.labels) vc.annotations after.annotations)

      -- The same of a host network configuration that is active and has a selector.
      abbrev pub HncMatched : Log → HostNetworkConfig → Type 0
      HncMatched log hnc =
          (hnc.deleting ≡ true)
          ⊎ ((hnc.node_selector ≡ none)
              ⊎ ((labels : LabelSelector) × (sel : GoMap → Bool) × (hnc.node_selector ≡ some labels)
                  × (env.as_selector labels ≡ ok sel)
                  × (after : ObjectMeta) × Leaves server log (hnc_request env server hnc) hnc.meta
                      after
                  × IsMoved env node.name (sel node.labels) hnc.annotations after.annotations))

      update_selected-Grows :
          (vc : VlanConfig) (r : Result Selector) (log : Log)
          → Grows log (update_selected env server vc node r log)
      update_selected-Grows vc (err e) log = Grows-none log (err e)
      update_selected-Grows vc (ok sel) log =
          send_moved-Grows (vc_request env server vc) vc.meta (matches sel node.labels) node.name
            (matched_set env vc.annotations) log

      pub vc-Grows :
          (vc : VlanConfig) (log : Log) → Grows log (update_unless_mgmt env server node vc log)
      unfolding update_unless_mgmt update_matched_nodes
      vc-Grows vc log =
          Grows-if (vc.cluster_network == mgmt) log _ _ (Grows-none log (ok tt))
            (update_selected-Grows vc (new_selector env vc.node_selector) log)

      pub vc-Matched :
          (vc : VlanConfig) (log next : Log)
          → update_unless_mgmt env server node vc log ≡ (next, ok tt)
          → VcMatched next vc
      unfolding update_unless_mgmt update_matched_nodes
      vc-Matched vc log next h = elim (Bool-cases (vc.cluster_network == mgmt)) [
        | inl same ↦ inl same
        | inr other ↦ inr (selected (new_selector env vc.node_selector) refl (simp other at h))
      ]
        where
          selected :
              (r : Result Selector)
              → new_selector env vc.node_selector ≡ r
              → update_selected env server vc node r log ≡ (next, ok tt)
              → (sel : Selector) × (new_selector env vc.node_selector ≡ ok sel)
                × (after : ObjectMeta) × Leaves server next (vc_request env server vc) vc.meta after
                × IsMoved env node.name (matches sel node.labels) vc.annotations after.annotations
          selected (err e) s g =
              let p : err e ≡ ok tt = ap (λ (k : Effect Log). k.1) g in absurd (cc)
          selected (ok sel) s g =
              let (after, left, there) =
                send_moved-Leaves (vc_request env server vc) vc.meta (matches sel node.labels)
                  node.name (matched_set env vc.annotations) log next refl g in
              (sel, s, after, left, there)

      hnc_selected-Grows :
          (hnc : HostNetworkConfig) (r : Result (GoMap → Bool)) (log : Log)
          → Grows log (hnc_selected env server hnc node r log)
      hnc_selected-Grows hnc (err e) log = Grows-none log (err e)
      hnc_selected-Grows hnc (ok sel) log =
          send_moved-Grows (hnc_request env server hnc) hnc.meta (sel node.labels) node.name
            (matched_set env hnc.annotations) log

      hnc_round-Grows :
          (hnc : HostNetworkConfig) (o : Option LabelSelector) (log : Log)
          → Grows log (hnc_round env server hnc node o log)
      hnc_round-Grows hnc none log = Grows-none log (ok tt)
      hnc_round-Grows hnc (some labels) log = hnc_selected-Grows hnc (env.as_selector labels) log

      pub hnc-Grows :
          (hnc : HostNetworkConfig) (log : Log) → Grows log (update_hnc env server node hnc log)
      unfolding update_hnc
      hnc-Grows hnc log =
          Grows-if hnc.deleting log _ _ (Grows-none log (ok tt))
            (hnc_round-Grows hnc hnc.node_selector log)

      pub hnc-Matched :
          (hnc : HostNetworkConfig) (log next : Log)
          → update_hnc env server node hnc log ≡ (next, ok tt)
          → HncMatched next hnc
      unfolding update_hnc
      hnc-Matched hnc log next h = elim (Bool-cases hnc.deleting) [
        | inl gone ↦ inl gone
        | inr active ↦ elim (Option-cases hnc.node_selector) [
          | inl every ↦ inr (inl every)
          | inr (labels, e) ↦
              let (sel, s, after, left, there) =
                selected labels (env.as_selector labels) refl (simp (active, e) at h) in
              inr (inr (labels, sel, e, s, after, left, there))
        ]
      ]
        where
          selected :
              (labels : LabelSelector) (r : Result (GoMap → Bool))
              → env.as_selector labels ≡ r
              → hnc_selected env server hnc node r log ≡ (next, ok tt)
              → (sel : GoMap → Bool) × (env.as_selector labels ≡ ok sel)
                × (after : ObjectMeta) × Leaves server next
                    (hnc_request env server hnc)
                    hnc.meta
                    after
                × IsMoved env node.name (sel node.labels) hnc.annotations after.annotations
          selected labels (err e) s g =
              let p : err e ≡ ok tt = ap (λ (k : Effect Log). k.1) g in absurd (cc)
          selected labels (ok sel) s g =
              let (after, left, there) =
                send_moved-Leaves (hnc_request env server hnc) hnc.meta (sel node.labels) node.name
                  (matched_set env hnc.annotations) log next refl g in
              (sel, s, after, left, there)

      pub VcMatched-later :
          (vc : VlanConfig) (log next : Log)
          → Within log next
          → VcMatched log vc
          → VcMatched next vc
      VcMatched-later vc log next kept (inl same) = inl same
      VcMatched-later vc log next kept (inr (sel, s, after, left, there)) = inr (
        sel,
        s,
        after,
        Leaves-later server (vc_request env server vc) vc.meta after log next kept left,
        there,
      )

      pub HncMatched-later :
          (hnc : HostNetworkConfig) (log next : Log)
          → Within log next
          → HncMatched log hnc
          → HncMatched next hnc
      HncMatched-later hnc log next kept (inl gone) = inl gone
      HncMatched-later hnc log next kept (inr (inl every)) = inr (inl every)
      HncMatched-later hnc log next kept (inr (inr (labels, sel, e, s, after, left, there))) = inr (
          inr (
            labels,
            sel,
            e,
            s,
            after,
            Leaves-later server (hnc_request env server hnc) hnc.meta after log next kept left,
            there,
          ))
