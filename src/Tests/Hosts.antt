-- ===== src/Tests/Hosts.antt =====
-- The webhooks of host network configurations and subnets, and the mutating webhooks: the theorems
-- at the objects of the tests.
use network_controller_harve.Common.{
  ℕ, zero, suc, ◌+◌, map, bytes_beq, ◌≡◌, refl, sym, ◌∙◌, Bool, true, false, List, [], ◌∷◌, ◌++◌,
  Option, none, some, Bytes, codes, ◌==◌, bytes_eq, ℤ, pos, Result, ok, err, not_found, arith, All,
  GoMap, keep, any, if◌then◌else◌, inl, inr, ap, put,
}
use network_controller_harve.Objects.{
  Nad, HostNetworkConfig, Subnet, Node, VlanConfig, VlanStatus, is_true, unset, key_network_type,
  key_cluster_network_label, witness_node_label_key,
}
use network_controller_harve.NetConf.{type_text, overlay_network}
use network_controller_harve.Env.{Env, SetLaws, equals, missing}
use network_controller_harve.Webhook.Patch.{Patch, patched_vc}
use network_controller_harve.Webhook.VlanConfig.{is_cluster_network_label_valid, get_match_nodes}
use network_controller_harve.Webhook.VlanConfig.Mutator.{create as create_vc}
use network_controller_harve.Webhook.VlanConfig.Mutated.{NamesCodec, nodes_after, create-mutated}
use network_controller_harve.Webhook.HostNetworkConfig.{create, update}
use network_controller_harve.Webhook.HostNetworkConfig.Kept.{
  IsClashFree, SameSpec, create-IsClashFree, update-IsClashFree, update-underlay,
}
use network_controller_harve.Webhook.HostNetworkConfig.Spanning.{
  IsSpanned, SelectsAll, create-underlay_sound,
}
use network_controller_harve.Webhook.Subnet.{create as create_subnet, update as update_subnet}
use network_controller_harve.Tests.Laws.{laws_of}
use network_controller_harve.Tests.{env_of, meta_of, on_net, vc1}

abbrev pub hnc_of : Bytes → ℕ → Bool → HostNetworkConfig
hnc_of name vlan_id underlay = record {
  meta = meta_of name [] [];
  cluster_network = codes "net";
  vlan_id = vlan_id;
  underlay = underlay;
  mode = codes "dhcp";
  host_ips = [];
  node_selector = none;
  ready = unset;
  node_status = none;
}

abbrev pub h1 : HostNetworkConfig
h1 = hnc_of (codes "h1") 10 false

abbrev h2 : HostNetworkConfig
h2 = hnc_of (codes "h2") 20 true

abbrev pub n1 : Node
n1 = record { meta = meta_of (codes "n1") [] [] }

abbrev pub status : VlanStatus
status = record {
  meta = meta_of (codes "status") on_net [];
  cluster_network = codes "net";
  vlan_config = codes "vc1";
  node = codes "n1";
  ready = is_true;
}

-- Lists of names as texts: each name is opened by 1, and its bytes are shifted by 2.
abbrev pub encode : List Bytes → Bytes
encode [] = 0 ∷ []
encode (name ∷ names) = 1 ∷ map (λ (c : ℕ). suc (suc c)) name ++ encode names

abbrev shift : ℕ → Bytes × List Bytes → Bytes × List Bytes
shift zero (cur, names) = ([], [])
shift (suc zero) (cur, names) = ([], cur ∷ names)
shift (suc (suc c)) (cur, names) = (c ∷ cur, names)

unfoldable pub parse : Bytes → Bytes × List Bytes
parse [] = ([], [])
parse (c ∷ s) = shift c (parse s)

parse-name :
    (name rest : Bytes)
    → parse (map (λ (c : ℕ). suc (suc c)) name ++ rest) ≡ (name ++ (parse rest).0, (parse rest).1)
unfolding parse
parse-name [] rest = refl
parse-name (c ∷ name) rest = ap (λ p. shift (suc (suc c)) p) (parse-name name rest)

append_nil : (s : Bytes) → s ++ [] ≡ s
append_nil [] = refl
append_nil (c ∷ s) = ap (λ t. c ∷ t) (append_nil s)

parse-encode : (names : List Bytes) → parse (encode names) ≡ ([], names)
unfolding parse
parse-encode [] = refl
parse-encode (name ∷ names) =
    ap (λ p. shift 1 p) (parse-name name (encode names))
    ∙ rw (parse-encode names) (ap (λ n. ([], n ∷ names)) (append_nil name))

abbrev patch_of : Result Patch → Patch
patch_of (ok ops) = ops
patch_of (err e) = []

abbrev pub caches : List HostNetworkConfig → Env
caches hncs = record (env_of [] (vc1 ∷ [])) {
  list_host_network_configs = ok hncs;
  list_nodes = λ sel. ok (n1 ∷ []);
  list_vlan_statuses = λ sel. ok (status ∷ []);
}

h2_created : create (caches (h1 ∷ [])) h2 ≡ ok tt
unfolding create network_controller_harve.Bridge.is_cluster_network_name_valid
    network_controller_harve.Bridge.is_host_network_intf_name_valid
    network_controller_harve.Bridge.vlan_device network_controller_harve.Common.itoa_ℕ
    network_controller_harve.Common.bytes_beq
    network_controller_harve.Webhook.HostNetworkConfig.validate
    network_controller_harve.Webhook.HostNetworkConfig.check_other
    network_controller_harve.Webhook.HostNetworkConfig.check_vlan_status_ready
    network_controller_harve.Webhook.HostNetworkConfig.check_vc_spans_all_nodes
    network_controller_harve.Common.lookup
    network_controller_harve.Webhook.HostNetworkConfig.all_matched
    network_controller_harve.Webhook.HostNetworkConfig.matched_names
    network_controller_harve.Webhook.HostNetworkConfig.has_label_key
    network_controller_harve.Webhook.HostNetworkConfig.check_selects_all_nodes
h2_created = refl

create-IsClashFree_example : IsClashFree (h2 ∷ h1 ∷ [])
create-IsClashFree_example =
    create-IsClashFree (caches (h1 ∷ [])) h2 (h1 ∷ []) refl (tt, tt) h2_created

same_spec : SameSpec (caches (h1 ∷ h2 ∷ []))
same_spec new old h = absurd (cc)

abbrev h2_off : HostNetworkConfig
h2_off = record h2 { underlay = false }

abbrev h2_static : HostNetworkConfig
h2_static = record h2 { mode = codes "static" }

h2_updated : update (caches (h1 ∷ h2 ∷ [])) h2 h2_off ≡ ok tt
unfolding update network_controller_harve.Common.bytes_beq
    network_controller_harve.Webhook.HostNetworkConfig.check_overlay_vms
    network_controller_harve.Webhook.HostNetworkConfig.validate
    network_controller_harve.Webhook.HostNetworkConfig.check_other
h2_updated = refl

update-IsClashFree_example : IsClashFree (h1 ∷ h2_off ∷ [])
unfolding network_controller_harve.Common.bytes_beq
update-IsClashFree_example =
    update-IsClashFree (caches (h1 ∷ h2 ∷ [])) same_spec h2 h2_off (h1 ∷ []) [] refl (λ e. cc)
      ((refl, tt), (tt, tt)) h2_updated

update-underlay_example : ¬ (update (caches (h1 ∷ h2 ∷ [])) h2 h2_static ≡ ok tt)
update-underlay_example =
    update-underlay (caches (h1 ∷ h2 ∷ [])) h2 h2_static (h1 ∷ []) [] refl refl refl refl refl

set_laws : SetLaws (caches (h1 ∷ []))
set_laws =
    let laws = laws_of [] (vc1 ∷ []) in
    record {
      contains-set_of = laws.contains-set_of;
      contains-difference = laws.contains-difference;
      contains-empty = laws.contains-empty;
      contains-set_add = laws.contains-set_add;
      contains-set_remove = laws.contains-set_remove;
      contains-set_equal = laws.contains-set_equal;
      contains-to_slice = laws.contains-to_slice;
      nil_of_to_slice = laws.nil_of_to_slice;
    }

create-underlay_sound_example :
    (vcs : List VlanConfig) × (nodes : List Node) × ((caches (h1 ∷ [])).list_vlan_configs
        (equals key_cluster_network_label (codes "net") ∷ [])
      ≡ ok vcs)
    × ((caches (h1 ∷ [])).list_nodes [] ≡ ok nodes)
    × All (IsSpanned (caches (h1 ∷ [])) set_laws vcs) nodes
    × SelectsAll (caches (h1 ∷ [])) set_laws none nodes
create-underlay_sound_example =
    create-underlay_sound (caches (h1 ∷ [])) set_laws h2 refl (λ e. cc) h2_created

-- A creation of a VLAN configuration without a label and an annotation.
abbrev plain_vc : VlanConfig
plain_vc = record vc1 { meta = meta_of (codes "vc3") [] [] }

abbrev pub nodes_env : Env
nodes_env = record (caches []) { encode_names = encode; decode_names = λ text. some (parse text).1 }

never_empty : (names : List Bytes) → (encode names == []) ≡ false
unfolding bytes_beq
never_empty [] = refl
never_empty (name ∷ names) = refl

pub codec : NamesCodec nodes_env
codec xs = (ap (λ (p : Bytes × List Bytes). some p.1) (parse-encode xs), never_empty xs)

abbrev mutated : Patch
mutated = patch_of (create_vc nodes_env plain_vc)

plain_created : create_vc nodes_env plain_vc ≡ ok mutated
unfolding create_vc bytes_beq network_controller_harve.Webhook.VlanConfig.Mutator.match_nodes
plain_created = refl

create-mutated_example :
    (nodes : List Node) × (nodes_env.list_nodes (missing witness_node_label_key ∷ []) ≡ ok nodes)
    × (is_cluster_network_label_valid (patched_vc mutated plain_vc) ≡ true)
    × (get_match_nodes nodes_env (patched_vc mutated plain_vc)
        ≡ nodes_after nodes_env codec plain_vc nodes)
create-mutated_example =
    create-mutated nodes_env codec plain_vc mutated (λ e. cc) (λ e. cc) plain_created

abbrev overlay_nad : Nad
overlay_nad = record {
  meta = meta_of (codes "over") ((key_network_type, type_text overlay_network) ∷ []) [];
  config = codes "overlay";
}

abbrev subnet_of : Bytes → Bytes → Subnet
subnet_of name provider = record {
  meta = meta_of name [] [];
  provider = provider;
  vpc = [];
  enable_dhcp = false;
  in_use = false;
}

abbrev s1 : Subnet
s1 = subnet_of (codes "s1") (codes "over.default.ovn")

abbrev s2 : Subnet
s2 = subnet_of (codes "s2") (codes "other.default.ovn")

abbrev subnets : Env
subnets = record (env_of [] []) {
  list_subnets = ok (s2 ∷ []);
  get_nad = λ namespace name. if name == codes "over" then ok overlay_nad else err not_found;
}

s1_created : create_subnet subnets s1 ≡ ok tt
unfolding create_subnet network_controller_harve.Webhook.Subnet.is_reserved_subnet bytes_beq
    network_controller_harve.Webhook.Subnet.check_if_valid_nad
    network_controller_harve.Nads.get_nad_name_from_provider
    network_controller_harve.Common.split_from network_controller_harve.Common.lookup
    network_controller_harve.Webhook.Subnet.check_subnets_using_nad
    network_controller_harve.Webhook.Subnet.check_if_vpc_exists
s1_created = refl

abbrev s2_moved : Subnet
s2_moved = subnet_of (codes "s2") (codes "over.default.ovn")
