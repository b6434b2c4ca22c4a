-- ===== src/Webhook/VlanConfig/Admitted.antt =====
-- Exactly which VLAN configurations are admitted.
use network_controller_harve.Common.{
  not-false, ◌≤◌, ◌≡◌, refl, ◌↔◌, ◌⊎◌, inl, inr, Bool, true, false, not, ◌||◌, List, [], ◌∷◌, Bytes,
  ◌==◌, bytes_eq, ◌∙◌, ap, is_not_found-eq, bytes_iff, arith, length, ok, err, Result, >>=-eq-ok,
  >>-eq-ok, refuse_if, refuse_if-eq-ok, for_each, All, Bool-cases, not_found, mtu_out_of_range,
  mgmt_user_request, overlaps,
}
use network_controller_harve.Objects.{VlanConfig, VlanStatus, ClusterNetwork, mgmt}
use network_controller_harve.Bridge.{is_cluster_network_name_valid}
use network_controller_harve.Mtu.{is_valid_mtu, get_mtu_from_vlan_config, mtu_default_to}
use network_controller_harve.Mtu.Laws.{are_equal_mtus_iff}
use network_controller_harve.Env.{Env}
use network_controller_harve.Webhook.ClusterNetwork.Admitted.{vlan_configs_of}
use network_controller_harve.Webhook.VlanConfig.{
  Request, is_user_request_for_mgmt, get_match_nodes, check_overlaps, overlap_loop, taken_by_other,
  status_name, check_same_mtu, validate_mtu, create,
}

-- The configuration itself, one that is being deleted, or one with the same MTU, 0 being 1500.
abbrev pub SharesMtu : VlanConfig → VlanConfig → Type 0
SharesMtu current vc =
    (vc.name ≡ current.name)
    ⊎ ((vc.deleting ≡ true)
        ⊎ (mtu_default_to (get_mtu_from_vlan_config current)
            ≡ mtu_default_to (get_mtu_from_vlan_config vc)))

check_same_mtu_iff :
    (current vc : VlanConfig) → (check_same_mtu current vc ≡ ok tt) ↔ SharesMtu current vc
check_same_mtu_iff current vc =
    let same =
      are_equal_mtus_iff (get_mtu_from_vlan_config current) (get_mtu_from_vlan_config vc) in
    (
      λ h. ground (arith, same, bytes_iff vc.name current.name),
      λ h. ground (arith, same, bytes_iff vc.name current.name),
    )

check-All_iff :
    (current : VlanConfig) (vcs : List VlanConfig)
    → (for_each (check_same_mtu current) vcs ≡ ok tt) ↔ All (SharesMtu current) vcs
check-All_iff current [] = (λ h. tt, λ h. refl)
check-All_iff current (vc ∷ vcs) = (
  λ h.
      let (a, b) = >>-eq-ok (check_same_mtu current vc) _ h in
      ((check_same_mtu_iff current vc).0 a, (check-All_iff current vcs).0 b),
  λ h. rw ((check_same_mtu_iff current vc).1 h.0) ((check-All_iff current vcs).1 h.1),
)

name_iff : (nm : Bytes) → (is_cluster_network_name_valid nm ≡ ok tt) ↔ (length nm ≤ 12)
unfolding is_cluster_network_name_valid
name_iff nm = (λ h. ground arith, λ h. ground arith)

module _ (env : Env) where
  -- No status exists for the node, or it is the configuration's own.
  abbrev pub IsFree : VlanConfig → Bytes → Type 0
  IsFree vc node =
      (env.get_vlan_status (status_name env vc.cluster_network node) ≡ err not_found)
      ⊎ ((vs : VlanStatus) × (env.get_vlan_status (status_name env vc.cluster_network node) ≡ ok vs)
          × (vs.vlan_config ≡ vc.name))

  free_iff :
      (vc : VlanConfig) (r : Result VlanStatus)
      → (taken_by_other env vc r ≡ ok false)
        ↔ ((r ≡ err not_found) ⊎ ((vs : VlanStatus) × (r ≡ ok vs) × (vs.vlan_config ≡ vc.name)))
  free_iff vc (ok vs) = (
    λ h. inr (vs, refl, ground (arith, bytes_iff vs.vlan_config vc.name)),
    λ h. elim h [ inl e ↦ cc | inr (v, e, own) ↦ ground (arith, bytes_iff vs.vlan_config vc.name) ],
  )
  free_iff vc (err e) = (
    λ h. ground (arith, is_not_found-eq e),
    λ h. elim h [ inl p ↦ ground arith | inr (v, p, own) ↦ cc ],
  )

  overlap_loop_iff :
      (vc : VlanConfig) (nodes : List Bytes) (found : Bool)
      → (overlap_loop env vc nodes found ≡ ok tt) ↔ ((found ≡ false) × All (IsFree vc) nodes)
  unfolding overlap_loop
  overlap_loop_iff vc [] found = (λ h. (refuse_if-eq-ok found overlaps h, tt), λ h. ground arith)
  overlap_loop_iff vc (node ∷ nodes) found =
      let r = env.get_vlan_status (status_name env vc.cluster_network node) in
      (
        λ h.
            let (taken, et, rest) = >>=-eq-ok (taken_by_other env vc r) _ h in
            let (clear, free) = (overlap_loop_iff vc nodes (found || taken)).0 rest in
            let not_taken : taken ≡ false = ground arith in
            (ground arith, ((free_iff vc r).0 (et ∙ ap ok not_taken), free)),
        λ h.
            let (first, others) = h.1 in
            rw (h.0, (free_iff vc r).1 first) ((overlap_loop_iff vc nodes false).1 (refl, others)),
      )

  -- The MTU is valid, and shared by the configurations that the cache lists on the same cluster
  -- network; `mgmt` is not checked.
  abbrev pub HasGoodMtu : VlanConfig → Type 0
  HasGoodMtu vc =
      (vc.cluster_network ≡ mgmt)
      ⊎ ((is_valid_mtu (get_mtu_from_vlan_config vc) ≡ true)
          × ((vcs : List VlanConfig) × (vlan_configs_of env vc.cluster_network ≡ ok vcs)
              × All (SharesMtu vc) vcs))

  validate_mtu_iff : (vc : VlanConfig) → (validate_mtu env vc ≡ ok tt) ↔ HasGoodMtu vc
  unfolding validate_mtu
  validate_mtu_iff vc = (to, from)
    where
      to : validate_mtu env vc ≡ ok tt → HasGoodMtu vc
      to h = elim (Bool-cases (vc.cluster_network == mgmt)) [
        | inl e ↦ inl ((bytes_iff vc.cluster_network mgmt).0 e)
        | inr e ↦
            let (a, r1) =
              >>-eq-ok
                (refuse_if (not (is_valid_mtu (get_mtu_from_vlan_config vc))) mtu_out_of_range) _
                (simp e at h) in
            let (vcs, ev, c) = >>=-eq-ok (vlan_configs_of env vc.cluster_network) _ r1 in
            inr (
              not-false _ (refuse_if-eq-ok _ mtu_out_of_range a),
              (vcs, ev, (check-All_iff vc vcs).0 c),
            )
      ]

      from : HasGoodMtu vc → validate_mtu env vc ≡ ok tt
      from (inl e) = rw ((bytes_iff vc.cluster_network mgmt).1 e) refl
      from (inr (valid, (vcs, ev, shared))) = elim (Bool-cases (vc.cluster_network == mgmt)) [
        | inl e ↦ rw e refl
        | inr e ↦ rw (e, valid, ev) ((check-All_iff vc vcs).1 shared)
      ]

  -- A VLAN configuration may be created.
  abbrev pub IsCreatable : Request → VlanConfig → Type 0
  IsCreatable req vc =
      (is_user_request_for_mgmt req vc.cluster_network ≡ false)
      × (length vc.cluster_network ≤ 12)
      × ((cn : ClusterNetwork) × (env.get_cluster_network vc.cluster_network ≡ ok cn))
      × HasGoodMtu vc
      × ((nodes : env.Set) × (get_match_nodes env vc ≡ ok nodes)
          × All (IsFree vc) (env.to_slice nodes))

  -- A creation is admitted exactly if it is no user's request for `mgmt`, the name of the cluster
  -- network has at most 12 bytes, the cluster network exists, the MTU is valid and shared by the
  -- other active configurations of the cluster network (unless that is `mgmt`), the matched nodes
  -- can be read, and on each of them no other configuration of the cluster network is in effect.
  pub create_iff :
      (req : Request) (vc : VlanConfig) → (create env req vc ≡ ok tt) ↔ IsCreatable req vc
  unfolding create check_overlaps
  create_iff req vc = (
    λ h.
        let (a, r1) =
          >>-eq-ok (refuse_if (is_user_request_for_mgmt req vc.cluster_network) mgmt_user_request) _
            h in
        let (b, r2) = >>-eq-ok (is_cluster_network_name_valid vc.cluster_network) _ r1 in
        let (cn, ec, r3) = >>=-eq-ok (env.get_cluster_network vc.cluster_network) _ r2 in
        let (c, r4) = >>-eq-ok (validate_mtu env vc) _ r3 in
        let (nodes, en, d) = >>=-eq-ok (get_match_nodes env vc) _ r4 in
        (
          refuse_if-eq-ok _ mgmt_user_request a,
          (name_iff vc.cluster_network).0 b,
          (cn, ec),
          (validate_mtu_iff vc).0 c,
          (nodes, en, ((overlap_loop_iff vc (env.to_slice nodes) false).0 d).1),
        ),
    λ h.
        let (cn, ec) = h.2 in
        let (nodes, en, free) = h.4 in
        rw (h.0, (name_iff vc.cluster_network).1 h.1, ec, (validate_mtu_iff vc).1 h.3, en)
          ((overlap_loop_iff vc (env.to_slice nodes) false).1 (refl, free)),
  )
