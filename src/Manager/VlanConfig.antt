-- ===== src/Manager/VlanConfig.antt =====
-- The manager's controller of VLAN configurations: pkg/controller/manager/vlanconfig/controller.go.
-- A handler reads its caches and returns the writes that it makes of the cluster network, at most
-- one, with its error: an action is what goes to the API server's client.
pub mod Source
pub mod Annotated
pub mod Readiness
pub mod Removed
use network_controller_harve.Common.{
  ℕ, Bool, true, false, not, ◌||◌, ◌&&◌, List, [], ◌∷◌, Option, none, some, Bytes, ◌==◌, ◌!=◌,
  bytes_eq, nat_eq, int_eq, ltb, length, get, put, delete, entries, itoa, ℤ, pos, Result, ok, err,
  ◌>>=◌, if◌then◌else◌, is_not_found, GoMap, other_status_remains,
}
use network_controller_harve.Objects.{
  ClusterNetwork, VlanConfig, VlanStatus, ObjectMeta, Ready, is_true, is_false, unset,
  key_cluster_network_label, key_uplink_mtu, key_mtu_source_vlan_config, mgmt,
}
use network_controller_harve.Mtu.{
  default_mtu, is_valid_mtu, get_mtu_from_vlan_config, mtu_default_to,
}
use network_controller_harve.Env.{Env, equals}

-- What a handler asks of the client; `unchanged` is none.
pub data Action : Type 0 where
  unchanged : Action
  create_cn : ClusterNetwork → Action
  update_cn : ClusterNetwork → Action

-- The MTU that `ensureClusterNetwork` wants in the annotation.
abbrev pub wanted_mtu : VlanConfig → ℤ
wanted_mtu vc =
    let mtu = get_mtu_from_vlan_config vc in
    if is_valid_mtu mtu && mtu != pos 0 then mtu else default_mtu

-- Both annotations of the MTU's source are set.
abbrev pub with_source : ClusterNetwork → Bytes → Bytes → ClusterNetwork
with_source cn mtu source = record cn {
  meta = record cn.meta {
    annotations = put key_mtu_source_vlan_config source (put key_uplink_mtu mtu cn.annotations);
  };
}

-- Both annotations are removed; the copy's map has been made if it was nil.
abbrev pub without_source : ClusterNetwork → ClusterNetwork
without_source cn = record cn {
  meta = record cn.meta {
    annotations =
        delete key_uplink_mtu (delete key_mtu_source_vlan_config (some (entries cn.annotations)));
  };
}

-- The cluster network that is created for a VLAN configuration.
abbrev pub fresh : Bytes → ClusterNetwork
fresh name = record {
  meta = record {
    name = name;
    namespace = [];
    labels = none;
    annotations = none;
    deleting = false;
  };
  ready = unset;
}

-- `ensureClusterNetwork`, given the cache's answer.
unfoldable pub ensure : VlanConfig → Result ClusterNetwork → Result Action
ensure vc (err e) =
    if is_not_found e
    then ok (create_cn (with_source (fresh vc.cluster_network) (itoa (wanted_mtu vc)) vc.name))
    else err e
ensure vc (ok cn) =
    if get key_uplink_mtu cn.annotations == itoa (wanted_mtu vc)
    then ok unchanged
    else ok (update_cn (with_source cn (itoa (wanted_mtu vc)) vc.name))

-- `if vcCandidateZero == nil { vcCandidateZero = item }`
abbrev pub first_of_two : Option VlanConfig → VlanConfig → Option VlanConfig
first_of_two none item = some item
first_of_two (some vc) item = some vc

-- The loop of `OnVlanConfigRemove`: the first other active configuration with a valid MTU that is
-- not 0, or else the first with MTU 0, which `zero_candidate` remembers.
unfoldable pub find_candidate : Bytes → List VlanConfig → Option VlanConfig → Option VlanConfig
find_candidate removed [] zero_candidate = zero_candidate
find_candidate removed (item ∷ items) zero_candidate =
    let mtu = get_mtu_from_vlan_config item in
    let skipped = find_candidate removed items zero_candidate in
    let remembered = find_candidate removed items (first_of_two zero_candidate item) in
    if item.name == removed || item.deleting
    then skipped
    else if not (is_valid_mtu mtu)
    then skipped
    else if mtu == pos 0
    then remembered
    else some item

-- The write of `OnVlanConfigRemove` for a candidate or for none.
abbrev pub replace_source : ClusterNetwork → Option VlanConfig → Action
replace_source cn none = update_cn (without_source cn)
replace_source cn (some vc) =
    update_cn (with_source cn (itoa (mtu_default_to (get_mtu_from_vlan_config vc))) vc.name)

-- `Ready.IsTrue`, `Ready.IsFalse`
abbrev pub says_true : Ready → Bool
says_true is_true = true
says_true is_false = false
says_true unset = false

abbrev pub says_false : Ready → Bool
says_false is_true = false
says_false is_false = true
says_false unset = false

-- `len(vsList) == 1 && vsList[0].Name != vs.Name`
abbrev pub is_other : List VlanStatus → Bytes → Bool
is_other [] name = false
is_other (one ∷ []) name = one.name != name
is_other (one ∷ two ∷ rest) name = false

module _ (env : Env) where
  -- `EnsureClusterNetwork`
  unfoldable pub ensure_cluster_network : VlanConfig → Result Action
  unfolding ensure
  ensure_cluster_network vc =
      if vc.cluster_network == mgmt || vc.deleting
      then ok unchanged
      else ensure vc (env.get_cluster_network vc.cluster_network)

  -- `OnVlanConfigRemove` after the cluster network has been found.
  unfoldable pub remove_source : VlanConfig → ClusterNetwork → Result Action
  remove_source vc cn =
      if get key_mtu_source_vlan_config cn.annotations != vc.name
      then ok unchanged
      else env.list_vlan_configs (equals key_cluster_network_label vc.cluster_network ∷ [])
        >>= λ vcs. ok (replace_source cn (find_candidate vc.name vcs none))

  abbrev pub remove_found : VlanConfig → Result ClusterNetwork → Result Action
  remove_found vc (err e) = if is_not_found e then ok unchanged else err e
  remove_found vc (ok cn) = remove_source vc cn

  -- `OnVlanConfigRemove`
  unfoldable pub on_vlan_config_remove : VlanConfig → Result Action
  on_vlan_config_remove vc =
      if vc.cluster_network == mgmt
      then ok unchanged
      else remove_found vc (env.get_cluster_network vc.cluster_network)

  -- `SetClusterNetworkReady`
  unfoldable pub set_cluster_network_ready : VlanStatus → Result Action
  set_cluster_network_ready vs =
      if vs.cluster_network == mgmt || vs.deleting
      then ok unchanged
      else env.get_cluster_network vs.cluster_network >>= λ cn.
          ok (if says_true cn.ready then unchanged else update_cn (record cn { ready = is_true }))

  -- `setClusterNetworkUnready` by the statuses that the cache lists on the cluster network.
  abbrev pub unready_by : VlanStatus → List VlanStatus → Result Action
  unready_by vs statuses =
      if ltb 1 (length statuses)
      then ok unchanged
      else if is_other statuses vs.name
      then err other_status_remains
      else env.get_cluster_network vs.cluster_network >>= λ cn.
          ok (if says_false cn.ready then unchanged else update_cn (record cn { ready = is_false }))

  -- `SetClusterNetworkUnready`
  unfoldable pub set_cluster_network_unready : VlanStatus → Result Action
  set_cluster_network_unready vs =
      if vs.cluster_network == mgmt
      then ok unchanged
      else env.list_vlan_statuses (equals key_cluster_network_label vs.cluster_network ∷ [])
        >>= λ statuses. unready_by vs statuses
