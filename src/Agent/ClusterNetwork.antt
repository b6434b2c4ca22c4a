-- ===== src/Agent/ClusterNetwork.antt =====
-- The VLAN ids of a cluster network on a node: pkg/controller/agent/clusternetwork/controller.go.
pub mod Converged
pub mod Carried
use network_controller_harve.Common.{
  ℕ, Bool, true, false, List, [], ◌∷◌, Option, none, some, Bytes, Result, ok, err, ◌>>=◌, Effect,
  and_then, if◌then◌else◌, Error,
}
use network_controller_harve.Objects.{ClusterNetwork}
use network_controller_harve.Vlan.{VlanIdSet, set_uint16_vid, diff}
use network_controller_harve.Env.{Env}
use network_controller_harve.Nads.{vlan_id_set_of_cluster_network}
use network_controller_harve.Network.{Netlink, Link, is_link_not_found}
use network_controller_harve.Network.Ports.{get_manual_vlans, to_vlan_id_set}
use network_controller_harve.Network.Areas.{Vlan, get_vlan, add_local_areas, remove_local_areas}

-- An id that cannot be set is logged and left out.
abbrev pub or_same : VlanIdSet → Result VlanIdSet → VlanIdSet
or_same vis (ok next) = next
or_same vis (err e) = vis

-- The loop over the ids that a user has configured.
unfoldable pub add_manual : List ℕ → VlanIdSet → VlanIdSet
add_manual [] vis = vis
add_manual (v ∷ vs) vis = add_manual vs (or_same vis (set_uint16_vid vis v))

module _ (nl : Netlink) where
  -- `Vlan.ToVlanIDSet`, of which the uplink is never nil here.
  abbrev pub existing_vlans : Option Link → nl.State → Result (Option VlanIdSet)
  existing_vlans none s = err Error.nil_dereference
  existing_vlans (some l) s = to_vlan_id_set nl l s

  -- The end of `OnChange`.
  abbrev pub apply : Vlan → Result (VlanIdSet × VlanIdSet) → nl.State → Effect nl.State
  apply v (err e) s = (s, err e)
  apply v (ok (added, removed)) s =
      and_then (add_local_areas nl v.uplink (some added) s)
        (λ t. remove_local_areas nl v.uplink (some removed) t)

module _ (env : Env) (nl : Netlink) where
  -- `cnVlans` when it is complete.
  unfoldable pub wanted : Bytes → nl.State → Result VlanIdSet
  wanted cn_name s = do
    vis ← vlan_id_set_of_cluster_network env cn_name
    manual ← get_manual_vlans nl cn_name s
    ok (add_manual manual vis)

  -- What `OnChange` adds and removes.
  unfoldable pub changes : ClusterNetwork → Vlan → nl.State → Result (VlanIdSet × VlanIdSet)
  changes cn v s = do
    vis ← wanted cn.name s
    existing ← existing_vlans nl v.uplink s
    diff vis existing

  abbrev pub on_vlan : ClusterNetwork → Result Vlan → nl.State → Effect nl.State
  on_vlan cn (err e) s = if is_link_not_found e then (s, ok tt) else (s, err e)
  on_vlan cn (ok v) s = apply nl v (changes cn v s) s

  -- `OnChange`; the object is never nil here.
  unfoldable pub on_change : ClusterNetwork → nl.State → Effect nl.State
  on_change cn s = if cn.deleting then (s, ok tt) else on_vlan cn (get_vlan nl cn.name s) s
