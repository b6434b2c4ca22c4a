-- ===== src/Network/Ports.antt =====
-- VLAN filter entries of a link, and the VLAN sub-interfaces that a user has made:
-- pkg/network/iface/link.go.
pub mod Manual
pub mod Devices
use network_controller_harve.Common.{
  ℕ, Bool, true, false, ◌||◌, ◌&&◌, not, List, [], ◌∷◌, Option, none, some, Bytes, ◌==◌, ◌!=◌,
  nat_eq, bytes_eq, leb, ltb, leb_ℤ, ltb_ℤ, pos, ℤ, pos_part, atoi, split_from, has_prefix, Result,
  ok, err, ◌>>=◌, Effect, and_then, if◌then◌else◌, ◌++◌, ◌%◌, ◌^◌,
}
use network_controller_harve.Vlan.{
  VlanIdSet, new_vlan_id_set, set_uint16_vid, min_vlan_id, default_vlan_id, max_vlan_id,
}
use network_controller_harve.Bridge.{device_prefix}
use network_controller_harve.Network.{Netlink, Link, Side, self, master, hidden, kind_macvlan}

-- The loop of `ToVlanIDSet`.
unfoldable pub set_vids : List ℕ → VlanIdSet → Result VlanIdSet
set_vids [] vis = ok vis
set_vids (v ∷ vs) vis = set_uint16_vid vis v >>= λ next. set_vids vs next

abbrev pub entry_set : Option (List ℕ) → Result (Option VlanIdSet)
entry_set none = ok none
entry_set (some vids) = set_vids vids new_vlan_id_set >>= λ vis. ok (some vis)

-- One link of the loop of `getManuallyConfiguredVlans`: the id of a name `<prefix><id>`, if the name
-- has two parts and the id lies in [2, 4094].
abbrev pub manual_id : Option ℤ → List ℕ
manual_id none = []
manual_id (some v) =
    if ltb_ℤ (pos default_vlan_id) v && leb_ℤ v (pos max_vlan_id)
    then pos_part v % 2 ^ 16 ∷ []
    else []

abbrev pub second_part : List Bytes → List ℕ
second_part [] = []
second_part (a ∷ []) = []
second_part (a ∷ b ∷ []) = manual_id (atoi b)
second_part (a ∷ b ∷ c ∷ rest) = []

abbrev pub manual_vlan : Bytes → Bytes → List ℕ
manual_vlan prefix name =
    if not (has_prefix name prefix) then [] else second_part (split_from b'.' [] name)

-- `getManuallyConfiguredVlans`
unfoldable pub manual_vlans : Bytes → List Link → List ℕ
manual_vlans cn_name [] = []
manual_vlans cn_name (link ∷ links) =
    manual_vlan (device_prefix cn_name) link.name ++ manual_vlans cn_name links

module _ (nl : Netlink) where
  -- `AddBridgeVlan`, `AddBridgeVlanSelf`
  unfoldable pub add_bridge_vlan : Link → Side → ℕ → nl.State → Effect nl.State
  add_bridge_vlan l side vid s =
      let (t, r) = nl.bridge_vlan_add l vid side s in
      if vid == default_vlan_id || vid == min_vlan_id then (s, ok tt) else (t, hidden r)

  -- `DelBridgeVlan`, `DelBridgeVlanSelf`
  unfoldable pub del_bridge_vlan : Link → Side → ℕ → nl.State → Effect nl.State
  del_bridge_vlan l side vid s =
      let (t, r) = nl.bridge_vlan_del l vid side s in
      if vid == default_vlan_id || vid == min_vlan_id then (s, ok tt) else (t, hidden r)

  -- `ListBridgeVlan`; no entry of the map is the empty slice.
  unfoldable pub list_bridge_vlan : Link → nl.State → Result (Option (List ℕ))
  list_bridge_vlan l s = nl.bridge_vlan_list s >>= λ entries. ok (entries l.index)

  -- `Link.ToVlanIDSet`; a nil set is `none`.
  unfoldable pub to_vlan_id_set : Link → nl.State → Result (Option VlanIdSet)
  to_vlan_id_set l s = nl.bridge_vlan_list s >>= λ entries. entry_set (entries l.index)

  -- `GetManuallyConfiguredVlans`
  unfoldable pub get_manual_vlans : Bytes → nl.State → Result (List ℕ)
  get_manual_vlans cn_name s = nl.link_list s >>= λ links. ok (manual_vlans cn_name links)

  -- The loop of `clearMacVlan`.
  unfoldable pub clear_links : ℕ → List Link → nl.State → Effect nl.State
  clear_links parent [] s = (s, ok tt)
  clear_links parent (link ∷ links) s =
      and_then
        (if link.parent_index == parent && link.kind == kind_macvlan
          then nl.link_del link s
          else (s, ok tt))
        (λ t. clear_links parent links t)

  abbrev pub clear_listed : Link → Result (List Link) → nl.State → Effect nl.State
  clear_listed l (err e) s = (s, err e)
  clear_listed l (ok links) s = clear_links l.index links s

  -- `clearMacVlan`
  unfoldable pub clear_mac_vlan : Link → nl.State → Effect nl.State
  clear_mac_vlan l s = clear_listed l (nl.link_list s) s

  -- `SetMaster`
  unfoldable pub set_master : Link → Link → nl.State → Effect nl.State
  set_master l br s =
      if l.master_index == br.index
      then (s, ok tt)
      else and_then (clear_mac_vlan l s) (λ t. nl.link_set_master l br t)

  -- `SetNoMaster`
  unfoldable pub set_no_master : Link → nl.State → Effect nl.State
  set_no_master l s = if l.master_index == 0 then (s, ok tt) else nl.link_set_no_master l s
