-- ===== src/Webhook/HostNetworkConfig/Kept.antt =====
-- Admitted host network configurations have one underlay and distinct VLAN interfaces.
use network_controller_harve.Common.{
  ◌≡◌, Bool, true, false, not, ◌&&◌, ◌||◌, List, [], ◌∷◌, ◌++◌, ◌==◌, ◌!=◌, bytes_eq, nat_eq, arith,
  ok, err, >>=-eq-ok, >>-eq-ok, bytes_iff, nat_iff, if◌then◌else◌, Bool-cases, inl, inr, All,
  All-mono, for_each, for_each-eq-ok, refuse_if, refuse_if-eq-ok, immutable_field, underlay_exists,
}
use network_controller_harve.Objects.{HostNetworkConfig}
use network_controller_harve.Bridge.{is_cluster_network_name_valid, is_host_network_intf_name_valid}
use network_controller_harve.Env.{Env}
use network_controller_harve.Webhook.HostNetworkConfig.{
  ValidateOp, validate_create, validate_update, check_other, validate, create, update,
  check_overlay_vms,
}

-- Two active configurations that are both the underlay, or that make the same VLAN interface.
abbrev pub clash : HostNetworkConfig → HostNetworkConfig → Bool
clash a b =
    not a.deleting
    && not b.deleting
    && (a.underlay && b.underlay
        || a.cluster_network == b.cluster_network && a.vlan_id == b.vlan_id)

-- No two configurations of a list clash.
abbrev pub IsClashFree : List HostNetworkConfig → Type 0
IsClashFree [] = Unit
IsClashFree (hnc ∷ hncs) = All (λ other. clash hnc other ≡ false) hncs × IsClashFree hncs

no_clash :
    (new other : HostNetworkConfig)
    → check_other new validate_create other ≡ ok tt
    → clash new other ≡ false
unfolding check_other
no_clash new other h = ground (
  arith,
  bytes_iff new.cluster_network other.cluster_network,
  bytes_iff other.cluster_network new.cluster_network,
  nat_iff new.vlan_id other.vlan_id,
  nat_iff other.vlan_id new.vlan_id,
)

module _ (env : Env) where
  validate-others :
      (new : HostNetworkConfig) (op : ValidateOp) (hncs : List HostNetworkConfig)
      → env.list_host_network_configs ≡ ok hncs
      → validate env new op ≡ ok tt
      → All (λ other. check_other new op other ≡ ok tt) hncs
  unfolding validate
  validate-others new op hncs listed h =
      for_each-eq-ok (check_other new op) hncs
        (>>-eq-ok (for_each (check_other new op) hncs) _ (simp listed at h)).0

  -- An admitted creation keeps the listed configurations, with the new one, free of clashes.
  pub create-IsClashFree :
      (hnc : HostNetworkConfig) (hncs : List HostNetworkConfig)
      → env.list_host_network_configs ≡ ok hncs
      → IsClashFree hncs
      → create env hnc ≡ ok tt
      → IsClashFree (hnc ∷ hncs)
  unfolding create
  create-IsClashFree hnc hncs listed kept h =
      let (a, h1) = >>-eq-ok (is_cluster_network_name_valid hnc.cluster_network) _ h in
      let (b, h2) =
        >>-eq-ok (is_host_network_intf_name_valid hnc.cluster_network hnc.vlan_id) _ h1 in
      let (cn, c, h3) = >>=-eq-ok (env.get_cluster_network hnc.cluster_network) _ h2 in
      let (valid, h4) = >>-eq-ok (validate env hnc validate_create) _ h3 in
      (All-mono (no_clash hnc) hncs (validate-others hnc validate_create hncs listed valid), kept)

-- Replacing a configuration of a list by one that clashes with no more of the others.
module _ (P : HostNetworkConfig → Type 0) (old new : HostNetworkConfig)
    (before : (y : HostNetworkConfig) → P y → clash y old ≡ false → clash y new ≡ false)
    (after : (y : HostNetworkConfig) → P y → clash old y ≡ false → clash new y ≡ false) where
  All-replace :
      (y : HostNetworkConfig) (pre post : List HostNetworkConfig)
      → P y
      → All (λ z. clash y z ≡ false) (pre ++ old ∷ post)
      → All (λ z. clash y z ≡ false) (pre ++ new ∷ post)
  All-replace y [] post p h = (before y p h.0, h.1)
  All-replace y (x ∷ pre) post p h = (h.0, All-replace y pre post p h.1)

  All-after :
      (post : List HostNetworkConfig)
      → All P post
      → All (λ z. clash old z ≡ false) post
      → All (λ z. clash new z ≡ false) post
  All-after [] p h = tt
  All-after (y ∷ post) p h = (after y p.0 h.0, All-after post p.1 h.1)

  IsClashFree-replace :
      (pre post : List HostNetworkConfig)
      → All P (pre ++ old ∷ post)
      → IsClashFree (pre ++ old ∷ post)
      → IsClashFree (pre ++ new ∷ post)
  IsClashFree-replace [] post p kept = (All-after post p.1 kept.0, kept.1)
  IsClashFree-replace (y ∷ pre) post p kept =
      (All-replace y pre post p.0 kept.0, IsClashFree-replace pre post p.1 kept.1)

module _ (old new : HostNetworkConfig) (network : new.cluster_network ≡ old.cluster_network)
    (vlan : new.vlan_id ≡ old.vlan_id) (gone : old.deleting ≡ true → new.deleting ≡ true) where
  -- A round that a kept underlay or none passes.
  abbrev Passed : HostNetworkConfig → Type 0
  Passed y = (y.deleting ≡ false) → (y.underlay && new.underlay) ≡ false

  Passed-before : (y : HostNetworkConfig) → Passed y → clash y old ≡ false → clash y new ≡ false
  Passed-before y p h = rw (network, vlan) (ground (arith, gone, h))

  Passed-after : (y : HostNetworkConfig) → Passed y → clash old y ≡ false → clash new y ≡ false
  Passed-after y p h = rw (network, vlan) (ground (arith, gone, h, p))

  -- The same underlay, too.
  module _ (underlay : new.underlay ≡ old.underlay) where
    same-before : (y : HostNetworkConfig) → clash y old ≡ false → clash y new ≡ false
    same-before y h = rw (network, vlan, underlay) (ground (arith, gone, h))

    same-after : (y : HostNetworkConfig) → clash old y ≡ false → clash new y ≡ false
    same-after y h = rw (network, vlan, underlay) (ground (arith, gone, h))

check_other-passed :
    (new y : HostNetworkConfig)
    → check_other new validate_update y ≡ ok tt
    → y.deleting ≡ false
    → (y.underlay && new.underlay) ≡ false
unfolding check_other
check_other-passed new y h active = ground (arith, h)

All-trivial : (hncs : List HostNetworkConfig) → All (λ y. Unit {0}) hncs
All-trivial [] = tt
All-trivial (y ∷ hncs) = (tt, All-trivial hncs)

-- The documented behaviour of the comparison of two specifications.
abbrev pub SameSpec : Env → Type 0
SameSpec env =
    (new old : HostNetworkConfig)
    → env.same_hnc_spec new old ≡ true
    → (new.cluster_network ≡ old.cluster_network)
      × (new.vlan_id ≡ old.vlan_id)
      × (new.underlay ≡ old.underlay)

module _ (env : Env) (same_spec : SameSpec env) (old new : HostNetworkConfig)
    (pre post : List HostNetworkConfig)
    (listed : env.list_host_network_configs ≡ ok (pre ++ old ∷ post))
    (gone : old.deleting ≡ true → new.deleting ≡ true) where
  -- An admitted update keeps the listed configurations, with the new one in the place of the old
  -- one, free of clashes; a deletion that has begun is not taken back.
  pub update-IsClashFree :
      IsClashFree (pre ++ old ∷ post) → update env old new ≡ ok tt → IsClashFree (pre ++ new ∷ post)
  unfolding update
  update-IsClashFree kept h = elim (Bool-cases (env.same_hnc_spec new old)) [
    | inl e ↦
        let (network, vlan, underlay) = same_spec new old e in
        IsClashFree-replace (λ y. Unit {0}) old new
          (λ y p. same-before old new network vlan gone underlay y)
          (λ y p. same-after old new network vlan gone underlay y) pre post
          (All-trivial (pre ++ old ∷ post)) kept
    | inr e ↦
        let (a, h1) =
          >>-eq-ok
            (refuse_if (old.cluster_network != new.cluster_network || old.vlan_id != new.vlan_id)
              immutable_field)
            _ (simp e at h) in
        let fixed = refuse_if-eq-ok _ immutable_field a in
        let (b, h2) =
          >>-eq-ok (if old.underlay && not new.underlay then check_overlay_vms env else ok tt) _
            h1 in
        let (valid, h3) = >>-eq-ok (validate env new validate_update) _ h2 in
        let network : new.cluster_network ≡ old.cluster_network =
          ground (arith, fixed, bytes_iff old.cluster_network new.cluster_network) in
        let vlan : new.vlan_id ≡ old.vlan_id =
          ground (arith, fixed, nat_iff old.vlan_id new.vlan_id) in
        IsClashFree-replace (λ y. y.deleting ≡ false → (y.underlay && new.underlay) ≡ false) old new
          (Passed-before old new network vlan gone) (Passed-after old new network vlan gone) pre
          post
          (All-mono (check_other-passed new) (pre ++ old ∷ post)
            (validate-others env new validate_update (pre ++ old ∷ post) listed valid))
          kept
  ]

All-middle :
    (P : HostNetworkConfig → Type 0) (pre post : List HostNetworkConfig) (y : HostNetworkConfig)
    → All P (pre ++ y ∷ post)
    → P y
All-middle P [] post y h = h.0
All-middle P (x ∷ pre) post y h = All-middle P pre post y h.1

module _ (env : Env) (old new : HostNetworkConfig) (pre post : List HostNetworkConfig)
    (listed : env.list_host_network_configs ≡ ok (pre ++ old ∷ post)) where
  -- As long as a listed configuration is the active underlay, no update that changes its
  -- specification and leaves it the underlay is admitted: its own entry refuses it.
  pub update-underlay :
      env.same_hnc_spec new old ≡ false
      → old.deleting ≡ false
      → old.underlay ≡ true
      → new.underlay ≡ true
      → ¬ (update env old new ≡ ok tt)
  unfolding update check_other
  update-underlay changed active under still h =
      let (a, h1) =
        >>-eq-ok
          (refuse_if (old.cluster_network != new.cluster_network || old.vlan_id != new.vlan_id)
            immutable_field)
          _ (simp changed at h) in
      let (b, h2) =
        >>-eq-ok (if old.underlay && not new.underlay then check_overlay_vms env else ok tt) _ h1 in
      let (valid, h3) = >>-eq-ok (validate env new validate_update) _ h2 in
      let others = validate-others env new validate_update (pre ++ old ∷ post) listed valid in
      let own =
        All-middle (λ other. check_other new validate_update other ≡ ok tt) pre post old others in
      let refused : err underlay_exists ≡ ok tt = simp (active, under, still) at own in absurd (cc)
