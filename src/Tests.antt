-- ===== src/Tests.antt =====
-- The objects of the tests, and caches that hold them.
pub mod Laws
pub mod Sets
pub mod Networks
pub mod Admission
pub mod Writes
pub mod Removal
pub mod Nodes
pub mod Carried
pub mod Workers
pub mod Sites
pub mod Links
pub mod Uplinks
pub mod Hosts
pub mod Synced
use network_controller_harve.Common.{
  ℕ, suc, ◌≡◌, refl, ◌∙◌, ap, Bool, true, false, not, ◌||◌, ◌&&◌, List, [], ◌∷◌, ◌++◌, Option, none,
  some, Bytes, codes, ◌==◌, bytes_eq, nat_eq, int_eq, arith, length, any, keep, take, drop,
  take-append, drop-append, if◌then◌else◌, Dict, GoMap, ℤ, pos, Result, ok, err, not_found, itoa,
  Eq, Bool-cases, inl, inr, ◌≢◌, all,
}
use network_controller_harve.Objects.{
  Nad, NetConf, VlanTrunk, VlanConfig, ClusterNetwork, Vmi, Uplink, ObjectMeta, Layer3Conf, is_true,
  unset, key_cluster_network_label, key_matched_nodes, key_uplink_mtu, key_mtu_source_vlan_config,
  key_network_route, exclusive_vlan_storage_network_label, value_true, mgmt,
}
use network_controller_harve.Nads.{empty_conf}
use network_controller_harve.Env.{Env, SetLaws, Selector, matches}

abbrev pub meta_of : Bytes → Dict → Dict → ObjectMeta
meta_of name labels annotations = record {
  name = name;
  namespace = codes "default";
  labels = some labels;
  annotations = some annotations;
  deleting = false;
}

abbrev pub on_net : Dict
on_net = (key_cluster_network_label, codes "net") ∷ []

abbrev pub tagged : NetConf
tagged = record empty_conf { cni_type = codes "bridge"; br_name = codes "net-br"; vlan = pos 30 }

abbrev pub span : VlanTrunk
span = record { min_id = some (pos 10); max_id = some (pos 12); id = some (pos 20) }

abbrev pub trunked : NetConf
trunked = record empty_conf {
  cni_type = codes "bridge";
  br_name = codes "net-br";
  vlan_trunk = some span ∷ [];
}

abbrev pub with_nil : NetConf
with_nil = record trunked { vlan_trunk = some span ∷ none ∷ [] }

abbrev pub storage : NetConf
storage = record tagged { vlan = pos 100 }

abbrev pub tagged_nad : Nad
tagged_nad = record { meta = meta_of (codes "tagged") on_net []; config = codes "tagged" }

abbrev pub trunk_nad : Nad
trunk_nad = record { meta = meta_of (codes "trunk") on_net []; config = codes "trunk" }

abbrev pub routed_nad : Nad
routed_nad = record {
  meta = meta_of (codes "routed") on_net ((key_network_route, 1 ∷ []) ∷ []);
  config = codes "tagged";
}

abbrev pub storage_nad : Nad
storage_nad = record {
  meta = meta_of (codes "storage") ((exclusive_vlan_storage_network_label, value_true) ∷ []) [];
  config = codes "storage";
}

abbrev pub uplink_of : ℤ → Uplink
uplink_of mtu = record {
  nics = codes "eth1" ∷ [];
  link_attrs = some (record { mtu = mtu; tx_q_len = pos 0; hardware_addr = none });
  bond_options = none;
}

abbrev pub vc_of : Bytes → Bytes → ℤ → VlanConfig
vc_of name nodes mtu = record {
  meta = meta_of name on_net ((key_matched_nodes, nodes) ∷ []);
  cluster_network = codes "net";
  uplink = uplink_of mtu;
  node_selector = [];
}

abbrev pub vc1 : VlanConfig
vc1 = vc_of (codes "vc1") (codes "both") (pos 0)

abbrev pub vc1_smaller : VlanConfig
vc1_smaller = vc_of (codes "vc1") (codes "one") (pos 0)

abbrev pub vc2 : VlanConfig
vc2 = vc_of (codes "vc2") (codes "one") (pos 1500)

abbrev pub net : ClusterNetwork
net = record {
  meta =
      meta_of (codes "net") []
        ((key_uplink_mtu, codes "1500") ∷ (key_mtu_source_vlan_config, codes "vc1") ∷ []);
  ready = is_true;
}

abbrev pub bare : Bytes → ClusterNetwork
bare name = record { meta = meta_of name [] []; ready = unset }

abbrev pub machine : Vmi
machine = record { meta = meta_of (codes "vm") [] []; node_name = codes "n1" }

-- Sets of names as lists.
abbrev pub member : List Bytes → Bytes → Bool
member s x = any (λ y. y == x) s

abbrev pub without : List Bytes → List Bytes → List Bytes
without a b = keep (λ y. not (member b y)) a

abbrev pub same_members : List Bytes → List Bytes → Bool
same_members a b = all (member b) a && all (member a) b

abbrev pub decode_conf : Bytes → Option NetConf
decode_conf text =
    if text == codes "tagged"
    then some tagged
    else if text == codes "trunk"
    then some trunked
    else if text == codes "storage"
    then some storage
    else none

abbrev pub decode_nodes : Bytes → Option (List Bytes)
decode_nodes text =
    if text == codes "both"
    then some (codes "n1" ∷ codes "n2" ∷ [])
    else if text == codes "one"
    then some (codes "n1" ∷ [])
    else none

abbrev pub same_texts : NetConf → NetConf → Bool
same_texts a b = a.br_name == b.br_name && a.vlan == b.vlan && a.mtu == b.mtu

abbrev pub same_nics : Uplink → Uplink → Bool
same_nics a b = length a.nics == length b.nics

-- A route as a text: the mark, and each field after its length.
abbrev pub put_field : Bytes → Bytes → Bytes
put_field s rest = length s ∷ s ++ rest

abbrev pub encode_route : Layer3Conf → Bytes
encode_route c =
    (if c.outdated then 1 else 0)
    ∷ put_field c.mode (
        put_field c.cidr
          (put_field c.gateway (put_field c.server_ip_addr (put_field c.connectivity []))))

abbrev pub field : Bytes → Bytes
field [] = []
field (n ∷ s) = take n s

abbrev pub after_field : Bytes → Bytes
after_field [] = []
after_field (n ∷ s) = drop n s

abbrev pub decode_route : Bytes → Option Layer3Conf
decode_route [] = none
decode_route (b ∷ s) = some (record {
  mode = field s;
  cidr = field (after_field s);
  gateway = field (after_field (after_field s));
  server_ip_addr = field (after_field (after_field (after_field s)));
  connectivity = field (after_field (after_field (after_field (after_field s))));
  outdated = b == 1;
})

-- Caches with these networks, VLAN configurations and cluster networks; machine `vm` uses `trunk`.
abbrev pub env_of : List Nad → List VlanConfig → Env
env_of nads vcs = record {
  Set = List Bytes;
  set_of = λ xs. xs;
  contains = member;
  cardinality = length;
  difference = without;
  to_slice = λ s. s;
  set_add = λ s x. x ∷ s;
  set_remove = λ s x. without s (x ∷ []);
  set_equal = same_members;
  decode_net_conf = decode_conf;
  decode_names = decode_nodes;
  same_conf = same_texts;
  same_uplink = same_nics;
  checksum = λ name. codes "0badcafe";
  get_cluster_network = λ name. if name == codes "net" then ok net else err not_found;
  get_vlan_status = λ name. err not_found;
  list_vlan_configs = λ sel. ok (keep (λ vc. matches sel vc.labels) vcs);
  list_vlan_statuses = λ sel. ok [];
  list_nads = λ namespace sel. ok (keep (λ nad. matches sel nad.labels) nads);
  vmis_by_network = λ key. ok (if key == codes "default/trunk" then machine ∷ [] else []);
  vms_by_network = λ key. ok [];
  list_subnets = ok [];
  list_host_network_configs = ok [];
  subnet_enabled = true;
  decode_layer3 = decode_route;
  encode_layer3 = encode_route;
  parse_cidr = λ text. none;
  parses_ip = λ text. false;
  get_node = λ name. err not_found;
  list_nodes = λ sel. ok [];
  get_nad = λ namespace name. err not_found;
  get_vpc = λ name. ok tt;
  valid_requirement = λ key value. ok tt;
  get_link_monitor = λ name. err not_found;
  get_job = λ namespace name. err not_found;
  same_job = λ a b. true;
  encode_selection = λ namespace name. ok (namespace ++ name);
  ping_loses = λ gateway. ok false;
  remove_finalizer = λ nad. none;
  list_link_monitors = ok [];
  get_vlan_config = λ name. err not_found;
  same_vlan_status = λ a b. false;
  sha256 = λ text. codes "hash";
  same_labels = λ a b. false;
  as_selector = λ sel. ok (λ labels. true);
  encode_names = λ names. codes "both";
  set_mtu = λ config mtu. ok config;
  parse_network = λ text. none;
  ip_equal = λ a b. true;
  same_hnc_spec = λ a b. false;
  same_subnet_spec = λ a b. false;
}

field-put_field : (s rest : Bytes) → field (put_field s rest) ≡ s
field-put_field s rest = take-append s rest

after_field-put_field : (s rest : Bytes) → after_field (put_field s rest) ≡ rest
after_field-put_field s rest = drop-append s rest
