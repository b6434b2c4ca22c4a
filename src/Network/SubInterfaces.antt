-- ===== src/Network/SubInterfaces.antt =====
-- The VLAN sub-interfaces of a bridge: pkg/network/iface/vlan.go.
use network_controller_harve.Common.{
  ℕ, ◌%◌, ◌^◌, Bool, true, false, List, [], ◌∷◌, none, some, Bytes, nat_eq, bytes_eq, pos, Result,
  ok, err, Effect, and_then, if◌then◌else◌, link_failure,
}
use network_controller_harve.Bridge.{br_vlan_device}
use network_controller_harve.Network.{
  Netlink, Link, OperState, oper_up, hidden, is_link_not_found, kind_vlan,
}

-- `OperState == netlink.OperUp`
abbrev pub is_oper_up : OperState → Bool
is_oper_up oper_up = true
is_oper_up OperState.oper_down = false
is_oper_up OperState.oper_other = false

-- The sub-interface that `CreateVlanSubInterface` adds.
abbrev pub sub_interface : Link → ℕ → Link
sub_interface l vid = record {
  name = br_vlan_device l.name vid;
  index = 0;
  master_index = 0;
  parent_index = l.index;
  kind = kind_vlan;
  mtu = pos 0;
  tx_q_len = pos 0;
  hardware_addr = [];
  oper_state = OperState.oper_other;
  flag_up = false;
  promisc = 0;
  vlan_filtering = none;
  bond = none;
  vlan_id = some (vid % 2 ^ 16);
}

-- The error of an operation with its text only.
abbrev pub with_text {ℓ} : {S : Type ℓ} → Effect S → Effect S
with_text (s, r) = (s, hidden r)

module _ (nl : Netlink) where
  abbrev pub found_sub : Result Link → Result (Link × Bool)
  found_sub (err e) = err link_failure
  found_sub (ok l) = ok (l, is_oper_up l.oper_state)

  -- `GetVlanSubInterfaceAndOperState`
  unfoldable pub get_sub_interface : Link → ℕ → nl.State → Result (Link × Bool)
  get_sub_interface l vid s = found_sub (nl.link_by_name (br_vlan_device l.name vid) s)

  -- `err != nil && !errors.Is(err, unix.EEXIST)`
  abbrev pub unless_there : Effect nl.State → (nl.State → Effect nl.State) → Effect nl.State
  unless_there (s, ok done) k = k s
  unless_there (s, err e) k = if nl.is_exist e then k s else (s, err link_failure)

  -- The part of `CreateVlanSubInterface` that adds the link.
  unfoldable pub add_sub_interface : Link → ℕ → nl.State → Effect nl.State
  add_sub_interface l vid s =
      unless_there (nl.link_add (sub_interface l vid) s)
        (λ t. with_text (nl.link_set_up (sub_interface l vid) t))

  abbrev pub create_unless : Link → ℕ → Result (Link × Bool) → nl.State → Effect nl.State
  create_unless l vid (err e) s = add_sub_interface l vid s
  create_unless l vid (ok (sub, true)) s = (s, ok tt)
  create_unless l vid (ok (sub, false)) s =
      and_then (with_text (nl.link_set_up sub s)) (λ t. add_sub_interface l vid t)

  -- `CreateVlanSubInterface`
  unfoldable pub create_sub_interface : Link → ℕ → nl.State → Effect nl.State
  create_sub_interface l vid s = create_unless l vid (get_sub_interface l vid s) s

  abbrev pub del_found : Result Link → nl.State → Effect nl.State
  del_found (err e) s = if is_link_not_found e then (s, ok tt) else (s, err link_failure)
  del_found (ok sub) s = with_text (nl.link_del sub s)

  -- `DelVlanSubInterface`
  unfoldable pub del_sub_interface : Link → ℕ → nl.State → Effect nl.State
  del_sub_interface l vid s = del_found (nl.link_by_name (br_vlan_device l.name vid) s) s

  -- The loop of `SetIPAddress` over the addresses of the link.
  unfoldable pub del_others : Link → nl.Addr → List nl.Addr → nl.State → Effect nl.State
  del_others sub addr [] s = (s, ok tt)
  del_others sub addr (a ∷ addrs) s =
      and_then (if nl.same_ip addr a then (s, ok tt) else with_text (nl.addr_del sub a s))
        (λ t. del_others sub addr addrs t)

  abbrev pub del_listed : Link → nl.Addr → Result (List nl.Addr) → nl.State → Effect nl.State
  del_listed sub addr (err e) s = (s, err e)
  del_listed sub addr (ok addrs) s = del_others sub addr addrs s

  abbrev pub set_parsed : Link → Result nl.Addr → nl.State → Effect nl.State
  set_parsed sub (err e) s = (s, err e)
  set_parsed sub (ok addr) s =
      and_then (with_text (nl.addr_replace sub addr s))
        (λ t. del_listed sub addr (nl.addr_list sub t) t)

  abbrev pub set_found : Bytes → Result Link → nl.State → Effect nl.State
  set_found cidr (err e) s = (s, err link_failure)
  set_found cidr (ok sub) s = set_parsed sub (nl.parse_addr cidr) s

  -- `SetIPAddress`
  unfoldable pub set_ip_address : Link → Bytes → ℕ → nl.State → Effect nl.State
  set_ip_address l cidr vid s = set_found cidr (nl.link_by_name (br_vlan_device l.name vid) s) s
