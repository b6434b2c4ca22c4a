-- ===== src/NetConf.antt =====
-- The decoded configuration of a network attachment: the `NetConf` part of pkg/utils/nad.go.
pub mod Valid
pub mod Dump
pub mod Labels
use network_controller_harve.Common.{
  ℕ, zero, suc, ◌+◌, Bool, true, false, ◌||◌, ◌&&◌, not, Option, none, some, List, [], ◌∷◌, ltb,
  length, if◌then◌else◌, ltb_ℤ, leb_ℤ, add_ℕ, distance, ◌==◌, ◌!=◌, int_eq, bytes_eq, nat_eq, ℤ,
  pos, Bytes, codes, itoa, String, GoMap, insert, remove, entries, Result, ok, err, ◌>>=◌, ◌>>◌,
  refuse_if, for_each, Check, nil_dereference, vid_out_of_range, trunk_min_id, trunk_max_id,
  trunk_id, trunk_order, trunk_min_missing, trunk_max_missing, trunk_empty, vlan_with_trunk,
  unknown_network_type,
}
use network_controller_harve.Objects.{
  VlanTrunk, NetConf, key_vlan_label, key_cluster_network_label, key_network_type, mgmt,
}
use network_controller_harve.Vlan.{
  VlanIdSet, max_vlan_id, min_vlan_id, set_vid, new_vlan_id_set, new_from_single_vid,
}
use network_controller_harve.Bridge.{get_bridge_name_prefix}

abbrev pub cni_type_kube_ovn : Bytes
cni_type_kube_ovn = codes "kube-ovn"

abbrev pub cni_type_bridge : Bytes
cni_type_bridge = codes "bridge"

-- The values of the type `NetworkType`, and their texts.
pub data NetworkType : Type 0 where
  l2_vlan_network l2_vlan_trunk_network untagged_network overlay_network : NetworkType

abbrev pub type_text : NetworkType → Bytes
type_text l2_vlan_network = codes "L2VlanNetwork"
type_text l2_vlan_trunk_network = codes "L2VlanTrunkNetwork"
type_text untagged_network = codes "UntaggedNetwork"
type_text overlay_network = codes "OverlayNetwork"

-- `x < MinTrunkVlanID || x > MaxVlanID`
abbrev pub outside_trunk : ℤ → Bool
outside_trunk v = ltb_ℤ v (pos 1) || ltb_ℤ (pos max_vlan_id) v

-- The `switch` of `IsValid`.
abbrev pub check_span : Option ℤ → Option ℤ → Check
check_span (some lo) (some hi) = do
  refuse_if (outside_trunk lo) (trunk_min_id lo)
  refuse_if (outside_trunk hi) (trunk_max_id hi)
  refuse_if (ltb_ℤ hi lo) trunk_order
check_span none (some hi) = err trunk_min_missing
check_span (some lo) none = err trunk_max_missing
check_span none none = ok tt

abbrev pub check_id : Option ℤ → Check
check_id none = ok tt
check_id (some v) = refuse_if (outside_trunk v) (trunk_id v)

abbrev pub is_unset : Option ℤ → Bool
is_unset none = true
is_unset (some v) = false

-- `VlanTrunk.IsValid`; the Boolean result is that of `err == nil`. A nil item is valid.
unfoldable pub is_valid : Option VlanTrunk → Check
is_valid none = ok tt
is_valid (some item) = do
  check_span item.min_id item.max_id
  check_id item.id
  refuse_if (is_unset item.id && (is_unset item.min_id && is_unset item.max_id)) trunk_empty

-- `IsVlanConfigValid`
unfoldable pub is_vlan_config_valid : NetConf → Check
is_vlan_config_valid nc = do
  refuse_if (ltb_ℤ nc.vlan (pos min_vlan_id) || ltb_ℤ (pos max_vlan_id) nc.vlan)
      (vid_out_of_range nc.vlan)
  refuse_if (nc.vlan != pos 0 && ltb 0 (length nc.vlan_trunk)) vlan_with_trunk
  for_each is_valid nc.vlan_trunk

-- `for i := lo; i <= hi; i++ { vis.SetVID(i) }`, with the rounds that are left.
unfoldable pub set_span : ℤ → ℕ → VlanIdSet → Result VlanIdSet
set_span i zero vis = ok vis
set_span i (suc n) vis = set_vid vis i >>= λ v. set_span (add_ℕ i 1) n v

abbrev pub rounds : ℤ → ℤ → ℕ
rounds lo hi = if leb_ℤ lo hi then distance lo hi + 1 else 0

abbrev pub dump_id : Option ℤ → VlanIdSet → Result VlanIdSet
dump_id none vis = ok vis
dump_id (some v) vis = set_vid vis v

abbrev pub dump_span : Option ℤ → Option ℤ → VlanIdSet → Result VlanIdSet
dump_span (some lo) (some hi) vis = set_span lo (rounds lo hi) vis
dump_span none hi vis = ok vis
dump_span (some lo) none vis = ok vis

-- The loop of `dumpVlanIDSet` over the trunk items, which reads a field of each.
unfoldable pub dump_items : List (Option VlanTrunk) → VlanIdSet → Result VlanIdSet
dump_items [] vis = ok vis
dump_items (none ∷ items) vis = err nil_dereference
dump_items (some vt ∷ items) vis =
    dump_id vt.id vis >>= λ v. dump_span vt.min_id vt.max_id v >>= λ w. dump_items items w

-- `IsVlanAccessMode`
abbrev pub is_vlan_access_mode : NetConf → Bool
is_vlan_access_mode nc = length nc.vlan_trunk == 0

-- `dumpVlanIDSet`
unfoldable pub dump_vlan_id_set : NetConf → Result VlanIdSet
dump_vlan_id_set nc =
    if is_vlan_access_mode nc
    then new_from_single_vid nc.vlan
    else dump_items nc.vlan_trunk new_vlan_id_set

abbrev pub is_id : Option ℤ → ℤ → Bool
is_id none target = false
is_id (some v) target = v == target

abbrev pub in_span : Option ℤ → Option ℤ → ℤ → Bool
in_span (some lo) (some hi) target = leb_ℤ lo target && leb_ℤ target hi
in_span none hi target = false
in_span (some lo) none target = false

-- The loop of `HasTrunkVlanID`, which reads a field of each item until one fits.
unfoldable pub has_trunk_item : List (Option VlanTrunk) → ℤ → Result Bool
has_trunk_item [] target = ok false
has_trunk_item (none ∷ items) target = err nil_dereference
has_trunk_item (some vt ∷ items) target =
    let rest = has_trunk_item items target in
    if is_id vt.id target
    then ok true
    else if in_span vt.min_id vt.max_id target
    then ok true
    else rest

-- `HasTrunkVlanID`
unfoldable pub has_trunk_vlan_id : NetConf → ℤ → Result Bool
has_trunk_vlan_id nc target = has_trunk_item nc.vlan_trunk target

-- `GetVlanID`
unfoldable pub get_vlan_id : NetConf → ℤ
get_vlan_id nc = if is_vlan_access_mode nc then nc.vlan else pos 0

-- `IsVlanOverlapping`
unfoldable pub is_vlan_overlapping : NetConf → NetConf → Result Bool
is_vlan_overlapping nad_conf sn_conf =
    has_trunk_vlan_id nad_conf (get_vlan_id sn_conf) >>= λ trunked.
    ok (trunked || get_vlan_id sn_conf == get_vlan_id nad_conf)

-- `IsBridgeCNI`
unfoldable pub is_bridge_cni : NetConf → Bool
is_bridge_cni nc = nc.cni_type == cni_type_bridge || nc.cni_type == []

-- `IsKubeOVNCNI`
unfoldable pub is_kube_ovn_cni : NetConf → Bool
is_kube_ovn_cni nc = nc.cni_type == cni_type_kube_ovn

-- `IsL2VlanNetwork`, `IsUntaggedNetwork`, `IsL2VlanTrunkNetwork`
abbrev pub is_l2_vlan_network : NetConf → Bool
is_l2_vlan_network nc = nc.vlan != pos 0

abbrev pub is_untagged_network : NetConf → Bool
is_untagged_network nc = nc.vlan == pos 0 && length nc.vlan_trunk == 0

abbrev pub is_l2_vlan_trunk_network : NetConf → Bool
is_l2_vlan_trunk_network nc = nc.vlan == pos 0 && ltb 0 (length nc.vlan_trunk)

-- `GetNetworkType`
unfoldable pub get_network_type : NetConf → Result NetworkType
get_network_type nc =
    if is_kube_ovn_cni nc
    then ok overlay_network
    else if is_bridge_cni nc
    then (if nc.vlan != pos 0
        then ok l2_vlan_network
        else if nc.vlan == pos 0 && length nc.vlan_trunk == 0
        then ok untagged_network
        else if nc.vlan == pos 0 && length nc.vlan_trunk != 0
        then ok l2_vlan_trunk_network
        else err unknown_network_type)
    else err unknown_network_type

-- `GetClusterNetworkName`
unfoldable pub get_cluster_network_name : NetConf → Result Bytes
get_cluster_network_name nc =
    if is_kube_ovn_cni nc
    then ok mgmt
    else if not (is_bridge_cni nc)
    then err unknown_network_type
    else get_bridge_name_prefix nc.br_name

-- The end of `SetNetworkInfoToLabels`, where the cluster network of the bridge is known.
set_bridge_labels : NetConf → Result Bytes → List (String × Bytes) → GoMap × Check
set_bridge_labels nc (err e) d = (some d, err e)
set_bridge_labels nc (ok cn_name) d =
    let d1 = insert key_cluster_network_label cn_name d in
    if is_l2_vlan_network nc
    then (
      some (
          insert key_vlan_label (itoa nc.vlan)
            (insert key_network_type (type_text l2_vlan_network) d1)),
      ok tt,
    )
    else if is_l2_vlan_trunk_network nc
    then (some (insert key_network_type (type_text l2_vlan_trunk_network) d1), ok tt)
    else if is_untagged_network nc
    then (some (insert key_network_type (type_text untagged_network) d1), ok tt)
    else (some d1, err unknown_network_type)

-- `SetNetworkInfoToLabels`: the map as it is left, and the error. A nil map is not written.
unfoldable pub set_network_info_to_labels : NetConf → GoMap → GoMap × Check
unfolding set_bridge_labels
set_network_info_to_labels nc none = (none, ok tt)
set_network_info_to_labels nc (some label) =
    let d = remove key_vlan_label label in
    if is_kube_ovn_cni nc
    then (
      some (
          insert key_network_type (type_text overlay_network)
            (insert key_cluster_network_label mgmt d)),
      ok tt,
    )
    else if not (is_bridge_cni nc)
    then (some d, err unknown_network_type)
    else set_bridge_labels nc (get_bridge_name_prefix nc.br_name) d
