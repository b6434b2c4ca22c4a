-- ===== src/NetConf/Labels.antt =====
-- The labels that `SetNetworkInfoToLabels` writes agree with `GetNetworkType` and
-- `GetClusterNetworkName`.
use network_controller_harve.Common.{
  ◌≡◌, ◌≢◌, Option, none, some, arith, String, ok, int_eq, itoa, lookup, lookup-insert,
  lookup-remove, ne_test, Dict, string_eq, insert, remove, Bytes,
}
use network_controller_harve.Objects.{
  NetConf, key_vlan_label, key_cluster_network_label, key_network_type,
}
use network_controller_harve.NetConf.{
  get_network_type, get_cluster_network_name, NetworkType, type_text, set_network_info_to_labels,
  overlay_network, l2_vlan_network,
}

-- The VLAN label of a network: its id where it is a tagged bridge network, and none else.
abbrev pub vlan_label : NetConf → NetworkType → Option Bytes
vlan_label nc l2_vlan_network = some (itoa nc.vlan)
vlan_label nc NetworkType.l2_vlan_trunk_network = none
vlan_label nc NetworkType.untagged_network = none
vlan_label nc overlay_network = none

-- A key that the labels of a network do not use.
abbrev pub IsOther : String → Type 0
IsOther k = (k ≢ key_vlan_label) × (k ≢ key_cluster_network_label) × (k ≢ key_network_type)

-- The labels after the call, by the network's type.
written : NetConf → Bytes → NetworkType → Dict → Dict
written nc cn l2_vlan_network d =
    insert key_vlan_label (itoa nc.vlan)
      (insert key_network_type (type_text l2_vlan_network) (insert key_cluster_network_label cn d))
written nc cn NetworkType.l2_vlan_trunk_network d =
    insert key_network_type (type_text NetworkType.l2_vlan_trunk_network)
      (insert key_cluster_network_label cn d)
written nc cn NetworkType.untagged_network d =
    insert key_network_type (type_text NetworkType.untagged_network)
      (insert key_cluster_network_label cn d)
written nc cn overlay_network d =
    insert key_network_type (type_text overlay_network) (insert key_cluster_network_label cn d)

set-written :
    (nc : NetConf) (label : Dict) (cn : Bytes) (t : NetworkType)
    → get_cluster_network_name nc ≡ ok cn
    → get_network_type nc ≡ ok t
    → set_network_info_to_labels nc (some label)
      ≡ (some (written nc cn t (remove key_vlan_label label)), ok tt)
unfolding set_network_info_to_labels get_network_type get_cluster_network_name written
set-written nc label cn t hc ht = ground arith

lookup-written :
    (nc : NetConf) (cn : Bytes) (t : NetworkType) (label : Dict)
    → let d = written nc cn t (remove key_vlan_label label) in
      (lookup key_cluster_network_label d ≡ some cn)
      × (lookup key_network_type d ≡ some (type_text t))
      × (lookup key_vlan_label d ≡ vlan_label nc t)
      × ((k : String) → IsOther k → lookup k d ≡ lookup k label)
unfolding written
lookup-written nc cn l2_vlan_network label = (
  simp lookup-insert,
  simp lookup-insert,
  simp lookup-insert,
  λ k h. simp (lookup-insert, lookup-remove, ne_test k _ h.0, ne_test k _ h.1, ne_test k _ h.2),
)
lookup-written nc cn _ label = (
  simp lookup-insert,
  simp lookup-insert,
  simp (lookup-insert, lookup-remove),
  λ k h. simp (lookup-insert, lookup-remove, ne_test k _ h.0, ne_test k _ h.1, ne_test k _ h.2),
)

-- Where `GetClusterNetworkName` and `GetNetworkType` both answer, `SetNetworkInfoToLabels` on a map
-- succeeds; the map then carries exactly those answers and the VLAN id of a tagged network, an old
-- VLAN label is gone otherwise, and every other key is as before.
set_network_info_to_labels_lem :
    (nc : NetConf) (label : Dict) (cn : Bytes) (t : NetworkType)
    → get_cluster_network_name nc ≡ ok cn
    → get_network_type nc ≡ ok t
    → (d : Dict) × (set_network_info_to_labels nc (some label) ≡ (some d, ok tt))
      × (lookup key_cluster_network_label d ≡ some cn)
      × (lookup key_network_type d ≡ some (type_text t))
      × (lookup key_vlan_label d ≡ vlan_label nc t)
      × ((k : String) → IsOther k → lookup k d ≡ lookup k label)
set_network_info_to_labels_lem nc label cn t hc ht =
    let (a, b, c, other) = lookup-written nc cn t label in
    (_, set-written nc label cn t hc ht, a, b, c, other)
