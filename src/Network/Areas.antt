-- ===== src/Network/Areas.antt =====
-- The bridge and the uplink of a cluster network on a node: pkg/network/vlan/vlan.go.
pub mod Applied
pub mod Torn
use network_controller_harve.Common.{
  ℕ, Bool, true, false, Option, none, some, Bytes, ◌==◌, bytes_eq, Result, ok, err, ◌>>=◌, Effect,
  and_then, if◌then◌else◌, not_a_bridge, no_uplink, not, Check, [], pos, ◌!=◌, nat_eq,
}
use network_controller_harve.Vlan.{VlanIdSet, walk_vids}
use network_controller_harve.Bridge.{generate_bridge_name, generate_bond_name}
use network_controller_harve.Network.{Netlink, Link, Side, self, master, kind_bridge, OperState}
use network_controller_harve.Network.Bonds.{is_up, remove_link}
use network_controller_harve.Network.Ports.{
  add_bridge_vlan, del_bridge_vlan, set_master, set_no_master, to_vlan_id_set,
}

-- `Vlan`: what `GetVlan` fills in; a nil uplink is `none`.
pub record Vlan : Type 0 where
  pub name : Bytes
  pub bridge : Link
  pub uplink : Option Link

module _ (nl : Netlink) where
  -- `Bridge.Fetch` of the bridge with this name
  unfoldable pub fetch_bridge : Bytes → nl.State → Result Link
  fetch_bridge name s =
      nl.link_by_name name s >>= λ l. if l.kind == kind_bridge then ok l else err not_a_bridge

  -- `GetVlan`
  unfoldable pub get_vlan : Bytes → nl.State → Result Vlan
  get_vlan name s = do
    br ← fetch_bridge (generate_bridge_name name) s
    l ← nl.link_by_name (generate_bond_name name) s
    ok (record { name = name; bridge = br; uplink = some l })

  -- `GetBridgelink`
  unfoldable pub get_bridge_link : Bytes → nl.State → Result Link
  get_bridge_link name s = nl.link_by_name (generate_bridge_name name) s

  abbrev pub is_off : Option Bool → Bool
  is_off none = false
  is_off (some on) = not on

  -- What `Ensure` does with the bridge that it has fetched, and the last fetch.
  abbrev pub adjust_bridge : Bytes → Result Link → nl.State → Effect nl.State
  adjust_bridge name (err e) s = (s, err e)
  adjust_bridge name (ok br) s =
      and_then (if br.promisc != 1 then nl.set_promisc_on br s else (s, ok tt)) (λ t.
        and_then (if is_off br.vlan_filtering then nl.set_vlan_filtering br t else (t, ok tt)) (λ u.
          and_then (if not (is_up br.oper_state) then nl.link_set_up br u else (u, ok tt))
            (λ w. (w, fetched (fetch_bridge name w)))))
    where
      fetched : Result Link → Check
      fetched (ok l) = ok tt
      fetched (err e) = err e

  abbrev pub unless_exists : Effect nl.State → (nl.State → Effect nl.State) → Effect nl.State
  unless_exists (s, ok done) k = k s
  unless_exists (s, err e) k = if nl.is_exist e then k s else (s, err e)

  -- `NewBridge`
  abbrev pub new_bridge : Bytes → Link
  new_bridge name = record {
    name = name;
    index = 0;
    master_index = 0;
    parent_index = 0;
    kind = kind_bridge;
    mtu = pos 0;
    tx_q_len = pos 0;
    hardware_addr = [];
    oper_state = OperState.oper_other;
    flag_up = false;
    promisc = 0;
    vlan_filtering = some true;
    bond = none;
    vlan_id = none;
  }

  -- `Bridge.Ensure`
  unfoldable pub ensure_bridge : Bytes → nl.State → Effect nl.State
  ensure_bridge name s =
      unless_exists (nl.link_add (new_bridge name) s)
        (λ t. adjust_bridge name (fetch_bridge name t) t)

  abbrev pub enslave : Link → Result Link → nl.State → Effect nl.State
  enslave l (err e) s = (s, err e)
  enslave l (ok br) s = set_master nl l br s

  -- `Vlan.Setup` of the cluster network with this name
  unfoldable pub setup : Bytes → Link → nl.State → Effect nl.State
  setup name l s =
      let br = generate_bridge_name name in
      and_then (ensure_bridge br s) (λ t. enslave l (fetch_bridge br t) t)

  -- `Vlan.Teardown`
  unfoldable pub teardown : Vlan → nl.State → Effect nl.State
  teardown v s = teardown_of v.uplink
    where
      teardown_of : Option Link → Effect nl.State
      teardown_of none = (s, err no_uplink)
      teardown_of (some l) =
          and_then (set_no_master nl l s)
            (λ t. and_then (remove_link nl l t) (λ u. remove_link nl v.bridge u))

  -- `AddLocalAreas`: an error of the walk is dropped, but what was added before stays.
  unfoldable pub add_local_areas : Option Link → Option VlanIdSet → nl.State → Effect nl.State
  add_local_areas uplink none s = (s, ok tt)
  add_local_areas none (some vis) s = (s, err no_uplink)
  add_local_areas (some l) (some vis) s = ((walk_vids (add_bridge_vlan nl l master) vis s).0, ok tt)

  -- `RemoveLocalAreas`, with the same.
  unfoldable pub remove_local_areas : Option Link → Option VlanIdSet → nl.State → Effect nl.State
  remove_local_areas uplink none s = (s, ok tt)
  remove_local_areas none (some vis) s = (s, err no_uplink)
  remove_local_areas (some l) (some vis) s =
      ((walk_vids (del_bridge_vlan nl l master) vis s).0, ok tt)
