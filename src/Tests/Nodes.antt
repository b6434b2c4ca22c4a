-- ===== src/Tests/Nodes.antt =====
-- A node with a bridge and a bond, and the theorems about it.
use network_controller_harve.Common.{
  ℕ, ◌%◌, ◌^◌, ◌≡◌, refl, sym, ◌∙◌, ap, Bool, true, false, not, ◌&&◌, List, [], ◌∷◌, Option, none,
  some, Bytes, codes, ◌==◌, bytes_eq, bytes_iff, bytes_beq, nat_eq, nat_iff, arith, any,
  if◌then◌else◌, Bool-cases, inl, inr, pos, Result, ok, err, link_not_found, All,
}
use network_controller_harve.Env.{Env}
use network_controller_harve.Vlan.{VlanIdSet, new_vlan_id_set}
use network_controller_harve.Network.{Netlink, Link, oper_up, kind_bridge, kind_bond}
use network_controller_harve.Network.Areas.{Vlan, fetch_bridge, get_vlan}
use network_controller_harve.Bridge.{generate_bridge_name, generate_bond_name}
use network_controller_harve.Network.Areas.Applied.{PortLaws, NeverFails}
use network_controller_harve.Network.Areas.Torn.{LinkLaws, MakesNone}
use network_controller_harve.Vlan.Diff.{IsDiffed}
use network_controller_harve.Network.Ports.{to_vlan_id_set, manual_vlans}
use network_controller_harve.Agent.ClusterNetwork.{wanted, on_change}
use network_controller_harve.Agent.ClusterNetwork.Converged.{on_change-converges, on_change-stable}
use network_controller_harve.Network.Ports.Manual.{IsConfigurable, manual_vlans-IsConfigurable}
use network_controller_harve.Tests.{env_of, tagged_nad, net}

abbrev link_of : Bytes → ℕ → Bytes → Link
link_of name index kind = record {
  name = name;
  index = index;
  master_index = 0;
  parent_index = 0;
  kind = kind;
  mtu = pos 1500;
  tx_q_len = pos 1000;
  hardware_addr = [];
  oper_state = oper_up;
  flag_up = true;
  promisc = 1;
  vlan_filtering = some true;
  bond = none;
  vlan_id = none;
}

abbrev pub bridge : Link
bridge = link_of (codes "net-br") 2 kind_bridge

abbrev pub bond : Link
bond = link_of (codes "net-bo") 3 kind_bond

-- The links that exist, and the ids of the filter of the bond.
abbrev pub State : Type 0
State = List Link × List ℕ

unfoldable pub by_name : Bytes → List Link → Result Link
by_name name [] = err link_not_found
by_name name (l ∷ links) = let rest = by_name name links in if l.name == name then ok l else rest

unfoldable pub without : Bytes → List Link → List Link
without name [] = []
without name (l ∷ links) =
    let rest = without name links in if l.name == name then rest else l ∷ rest

unfoldable pub less : ℕ → List ℕ → List ℕ
less v [] = []
less v (w ∷ vids) = let rest = less v vids in if w % 2 ^ 16 == v then rest else w ∷ rest

abbrev pub node : Netlink
node = record {
  State = State;
  link_by_name = λ name s. by_name name s.0;
  link_list = λ s. ok s.0;
  bridge_vlan_list = λ s. ok (λ index. some s.1);
  bridge_vlan_add = λ l v side s. ((s.0, v ∷ s.1), ok tt);
  bridge_vlan_del = λ l v side s. ((s.0, less v s.1), ok tt);
  link_add = λ l s. ((l ∷ s.0, s.1), ok tt);
  link_del = λ l s. ((without l.name s.0, s.1), ok tt);
  link_set_up = λ l s. (s, ok tt);
  link_set_down = λ l s. (s, ok tt);
  link_set_master = λ l br s. (s, ok tt);
  link_set_no_master = λ l s. (s, ok tt);
  link_set_bond_slave = λ l b s. (s, ok tt);
  set_promisc_on = λ l s. (s, ok tt);
  set_vlan_filtering = λ l s. (s, ok tt);
  Addr = Bytes;
  parse_addr = λ text. ok text;
  same_ip = λ a b. a == b;
  addr_replace = λ l a s. (s, ok tt);
  addr_list = λ l s. ok [];
  addr_del = λ l a s. (s, ok tt);
  mac_text = λ mac. mac;
  bond_mode_text = λ mode. [];
  is_loopback = λ l. false;
  match_string = λ rule text. ok true;
  string_to_bond_mode = λ mode. pos 0;
  is_exist = λ e. false;
  is_conflict = λ e. false;
}

less-port :
    (v : ℕ) (vids : List ℕ) (j : ℕ)
    → any (λ w. w % 2 ^ 16 == j) (less v vids) ≡ (any (λ w. w % 2 ^ 16 == j) vids && not (j == v))
unfolding less
less-port v [] j = refl
less-port v (w ∷ vids) j =
    ground (arith, less-port v vids j, nat_iff (w % 2 ^ 16) v, nat_iff (w % 2 ^ 16) j, nat_iff j v)

abbrev entry : Result (ℕ → Option (List ℕ)) → Option (List ℕ)
entry (err e) = none
entry (ok entries) = entries 3

some-inj : (a b : List ℕ) → some a ≡ some b → a ≡ b
some-inj a b h = cc

pub port_laws : PortLaws node bond
port_laws = record {
  port = λ s j. any (λ v. v % 2 ^ 16 == j) s.1;
  listed = λ s entries vids e h j.
      let p : ok (λ index. some s.1) ≡ ok entries = e in
      let q : some s.1 ≡ entries 3 = ap (λ (r : Result (ℕ → Option (List ℕ))). entry r) p in
      let same : s.1 ≡ vids = some-inj s.1 vids (q ∙ h) in
      ap (λ (l : List ℕ). any (λ v. v % 2 ^ 16 == j) l) same;
  added = λ v s small done j. ground (arith, nat_iff v j, nat_iff j v, nat_iff (v % 2 ^ 16) j);
  deleted = λ v s small done j. less-port v s.1 j;
}

pub works : NeverFails node bond
works v s small = (refl, refl)

by_name-name :
    (name : Bytes) (links : List Link) (l : Link) → by_name name links ≡ ok l → l.name ≡ name
unfolding by_name
by_name-name name [] l h = absurd (cc)
by_name-name name (x ∷ links) l h = elim (Bool-cases (x.name == name)) [
  | inl same ↦
      let p : ok x ≡ ok l = simp same at h in
      let q : x ≡ l = cc in rw (sym q) ((bytes_iff x.name name).0 same)
  | inr other ↦ by_name-name name links l (simp other at h)
]

by_name-without :
    (name : Bytes) (links : List Link) → by_name name (without name links) ≡ err link_not_found
unfolding by_name without
by_name-without name [] = refl
by_name-without name (x ∷ links) = elim (Bool-cases (x.name == name)) [
  | inl same ↦ rw same (by_name-without name links)
  | inr other ↦ simp (other, by_name-without name links)
]

by_name-less :
    (name other : Bytes) (links : List Link)
    → by_name name links ≡ err link_not_found
    → by_name name (without other links) ≡ err link_not_found
unfolding by_name without
by_name-less name other [] h = refl
by_name-less name other (x ∷ links) h = elim (Bool-cases (x.name == name)) [
  | inl same ↦ let p : ok x ≡ err link_not_found = simp same at h in absurd (cc)
  | inr differs ↦
      let rest = by_name-less name other links (simp differs at h) in
      elim (Bool-cases (x.name == other)) [
        | inl taken ↦ rw taken rest
        | inr kept ↦ simp (kept, differs, rest)
      ]
]

pub link_laws : LinkLaws node
link_laws = record {
  named = λ name s l h. by_name-name name s.0 l h;
  gone = λ l s done. by_name-without l.name s.0;
}

pub makes_none : MakesNone node
makes_none = record {
  del_makes_none = λ name l s h. by_name-less name l.name s.0 h;
  up_makes_none = λ name l s h. h;
}

abbrev pub up : State
up = (bridge ∷ bond ∷ [], 40 ∷ 50 ∷ [])

abbrev pub net_vlan : Vlan
net_vlan = record { name = codes "net"; bridge = bridge; uplink = some bond }

found : get_vlan node (codes "net") up ≡ ok net_vlan
unfolding get_vlan fetch_bridge by_name bytes_beq generate_bridge_name generate_bond_name
found = refl

abbrev pub caches : Env
caches = env_of (tagged_nad ∷ []) []

abbrev pub value_of : Result VlanIdSet → VlanIdSet
value_of (ok vis) = vis
value_of (err e) = new_vlan_id_set

abbrev pub listed_value : Result (Option VlanIdSet) → VlanIdSet
listed_value (ok (some vis)) = vis
listed_value (ok none) = new_vlan_id_set
listed_value (err e) = new_vlan_id_set

abbrev wants : VlanIdSet
wants = value_of (wanted caches node (codes "net") up)

abbrev has : VlanIdSet
has = listed_value (to_vlan_id_set node bond up)

needs_eq : wanted caches node (codes "net") up ≡ ok wants
unfolding wanted network_controller_harve.Nads.vlan_id_set_of_cluster_network
    network_controller_harve.Nads.list_nads_on_cluster_network
    network_controller_harve.Nads.new_from_nad_list network_controller_harve.Nads.add_nads
    network_controller_harve.Common.lookup bytes_beq network_controller_harve.Nads.add_nad
    network_controller_harve.Nads.decode_nad_config network_controller_harve.NetConf.is_bridge_cni
    network_controller_harve.NetConf.dump_vlan_id_set
    network_controller_harve.Vlan.new_from_single_vid network_controller_harve.Vlan.append
    new_vlan_id_set network_controller_harve.Network.Ports.get_manual_vlans
needs_eq = refl

has_eq : to_vlan_id_set node bond up ≡ ok (some has)
unfolding to_vlan_id_set network_controller_harve.Network.Ports.set_vids
    network_controller_harve.Vlan.set_uint16_vid
has_eq = refl

on_change-converges_example :
    ((on_change caches node net up).1 ≡ ok tt)
    × ((j : ℕ) → IsDiffed j → port_laws.port (on_change caches node net up).0 j ≡ wants.vid_set j)
    × ((j : ℕ)
        → ¬ IsDiffed j
        → port_laws.port (on_change caches node net up).0 j ≡ port_laws.port up j)
on_change-converges_example =
    on_change-converges caches node net net_vlan bond up wants has refl found refl needs_eq has_eq
      port_laws works

-- The same node when its filter has the id of the network already.
abbrev ready : State
ready = (bridge ∷ bond ∷ [], 30 ∷ [])

ready_found : get_vlan node (codes "net") ready ≡ ok net_vlan
unfolding get_vlan fetch_bridge by_name bytes_beq generate_bridge_name generate_bond_name
ready_found = refl

abbrev ready_has : VlanIdSet
ready_has = listed_value (to_vlan_id_set node bond ready)

ready_wants_eq : wanted caches node (codes "net") ready ≡ ok wants
unfolding wanted network_controller_harve.Nads.vlan_id_set_of_cluster_network
    network_controller_harve.Nads.list_nads_on_cluster_network
    network_controller_harve.Nads.new_from_nad_list network_controller_harve.Nads.add_nads
    network_controller_harve.Common.lookup bytes_beq network_controller_harve.Nads.add_nad
    network_controller_harve.Nads.decode_nad_config network_controller_harve.NetConf.is_bridge_cni
    network_controller_harve.NetConf.dump_vlan_id_set
    network_controller_harve.Vlan.new_from_single_vid network_controller_harve.Vlan.append
    new_vlan_id_set network_controller_harve.Network.Ports.get_manual_vlans
ready_wants_eq = refl

ready_has_eq : to_vlan_id_set node bond ready ≡ ok (some ready_has)
unfolding to_vlan_id_set network_controller_harve.Network.Ports.set_vids
    network_controller_harve.Vlan.set_uint16_vid
ready_has_eq = refl

eta : (b : Bool) → (if b then true else false) ≡ b
eta true = refl
eta false = refl

wants_ids : (j : ℕ) → wants.vid_set j ≡ (j == 30)
unfolding wanted network_controller_harve.Nads.vlan_id_set_of_cluster_network
    network_controller_harve.Nads.list_nads_on_cluster_network
    network_controller_harve.Nads.new_from_nad_list network_controller_harve.Nads.add_nads
    network_controller_harve.Common.lookup bytes_beq network_controller_harve.Nads.add_nad
    network_controller_harve.Nads.decode_nad_config network_controller_harve.NetConf.is_bridge_cni
    network_controller_harve.NetConf.dump_vlan_id_set
    network_controller_harve.Vlan.new_from_single_vid network_controller_harve.Vlan.append
    new_vlan_id_set network_controller_harve.Network.Ports.get_manual_vlans
    network_controller_harve.Agent.ClusterNetwork.add_manual
    network_controller_harve.Network.Ports.manual_vlans
    network_controller_harve.Bridge.device_prefix network_controller_harve.Common.atoi
    network_controller_harve.Common.has_prefix network_controller_harve.Common.split_from
    network_controller_harve.NetConf.dump_items network_controller_harve.NetConf.set_span
    network_controller_harve.Vlan.copy_vids network_controller_harve.Vlan.set_in_range
    network_controller_harve.Vlan.set_uint16_vid network_controller_harve.Vlan.set_vid
wants_ids j = eta (j == 30)

ready_ids : (j : ℕ) → any (λ v. v % 2 ^ 16 == j) (30 ∷ []) ≡ (j == 30)
ready_ids j = ground (arith, nat_iff j 30, nat_iff 30 j)

agree : (j : ℕ) → IsDiffed j → port_laws.port ready j ≡ wants.vid_set j
unfolding port_laws
agree j h = ready_ids j ∙ sym (wants_ids j)

on_change-stable_example : on_change caches node net ready ≡ (ready, ok tt)
on_change-stable_example =
    on_change-stable caches node net net_vlan bond ready wants ready_has refl ready_found refl
      ready_wants_eq ready_has_eq port_laws agree

abbrev pub user_link : Link
user_link = link_of (codes "net-br.7") 4 (codes "vlan")

manual_vlans-IsConfigurable_example :
    All IsConfigurable (manual_vlans (codes "net") (bridge ∷ user_link ∷ []))
manual_vlans-IsConfigurable_example =
    manual_vlans-IsConfigurable (codes "net") (bridge ∷ user_link ∷ [])

-- The sub-interface of VLAN 7 is found.
user_vlan : manual_vlans (codes "net") (bridge ∷ user_link ∷ []) ≡ 7 ∷ []
unfolding manual_vlans network_controller_harve.Common.has_prefix
    network_controller_harve.Bridge.device_prefix network_controller_harve.Common.split_from
    network_controller_harve.Common.atoi
user_vlan = refl
