-- ===== src/Env.antt =====
-- What the program uses of other projects' code, as one parameter: the caches of the API server's
-- objects, the set of names, the JSON decoder, the deep comparison and the checksum of a name.
use network_controller_harve.Common.{
  ℕ, String, Bool, true, false, not, ◌&&◌, ◌≡◌, List, [], ◌∷◌, Option, none, some, Bytes, GoMap,
  find, any, ◌==◌, bytes_eq, Result, Check, ℤ, ◌||◌,
}
use network_controller_harve.Objects.{
  Nad, VlanConfig, ClusterNetwork, VlanStatus, Vmi, NetConf, Uplink, Subnet, HostNetworkConfig,
  Layer3Conf, LabelSelector, Node, LinkMonitor, Job,
}

-- A label selector is a conjunction of requirements; the empty one is `labels.Everything()`.
pub data Requirement : Type 0 where
  equals : String → Bytes → Requirement
  missing : String → Requirement

abbrev pub Selector : Type 0
Selector = List Requirement

abbrev pub has_value : Option Bytes → Bytes → Bool
has_value none v = false
has_value (some w) v = w == v

abbrev pub is_none : Option Bytes → Bool
is_none none = true
is_none (some v) = false

-- `Selector.Matches`
abbrev pub matches : Selector → GoMap → Bool
matches [] labels = true
matches (equals k v ∷ sel) labels = has_value (find k labels) v && matches sel labels
matches (missing k ∷ sel) labels = is_none (find k labels) && matches sel labels

pub record Env : Type 1 where
  -- `mapset.Set[string]`
  pub Set : Type 0
  pub set_of : List Bytes → Set
  pub contains : Set → Bytes → Bool
  pub cardinality : Set → ℕ
  pub difference : Set → Set → Set
  pub to_slice : Set → List Bytes
  pub set_add : Set → Bytes → Set
  pub set_remove : Set → Bytes → Set
  pub set_equal : Set → Set → Bool
  -- `json.Unmarshal` into a `NetConf` and into a list of names
  pub decode_net_conf : Bytes → Option NetConf
  pub decode_names : Bytes → Option (List Bytes)
  -- `reflect.DeepEqual` of two configurations, and of two uplinks
  pub same_conf : NetConf → NetConf → Bool
  pub same_uplink : Uplink → Uplink → Bool
  -- the eight hexadecimal digits of `crc32.ChecksumIEEE`
  pub checksum : Bytes → Bytes
  -- the caches: `Get`, `List` and `GetByIndex` on the index of VMs by network
  pub get_cluster_network : Bytes → Result ClusterNetwork
  pub get_vlan_status : Bytes → Result VlanStatus
  pub list_vlan_configs : Selector → Result (List VlanConfig)
  pub list_vlan_statuses : Selector → Result (List VlanStatus)
  pub list_nads : Bytes → Selector → Result (List Nad)
  pub vmis_by_network : Bytes → Result (List Vmi)
  pub vms_by_network : Bytes → Result (List Vmi)
  pub list_subnets : Result (List Subnet)
  pub list_host_network_configs : Result (List HostNetworkConfig)
  -- whether the CRDs of kube-ovn are installed, which the webhook's start finds out
  pub subnet_enabled : Bool
  -- `json.Unmarshal` and `json.Marshal` of a route, the mask of `net.ParseCIDR`, and whether
  -- `net.ParseIP` accepts a text
  pub decode_layer3 : Bytes → Option Layer3Conf
  pub encode_layer3 : Layer3Conf → Bytes
  pub parse_cidr : Bytes → Option (List ℕ)
  pub parses_ip : Bytes → Bool
  -- further caches: nodes, networks by namespace and name, VPCs of kube-ovn
  pub get_node : Bytes → Result Node
  pub list_nodes : Selector → Result (List Node)
  pub get_nad : Bytes → Bytes → Result Nad
  pub get_vpc : Bytes → Check
  -- `metav1.LabelSelectorAsSelector`, as the test `Matches` of its result
  pub as_selector : LabelSelector → Result (GoMap → Bool)
  -- `labels.NewRequirement`, which refuses what is no key or value of a label
  pub valid_requirement : String → Bytes → Check
  pub get_link_monitor : Bytes → Check
  -- the cache of jobs, `DeepEqual` of two jobs, and `json.Marshal` of the selection of one network on
  -- the default interface, by its namespace and its name
  pub get_job : Bytes → Bytes → Result Job
  pub same_job : Job → Job → Bool
  pub encode_selection : Bytes → Bytes → Result Bytes
  -- whether a gateway loses more packets than are allowed, which a ping finds out
  pub ping_loses : Bytes → Result Bool
  -- `controllerutil.RemoveFinalizer`, where the deprecated finalizer is there
  pub remove_finalizer : Nad → Option Nad
  pub list_link_monitors : Result (List LinkMonitor)
  pub get_vlan_config : Bytes → Result VlanConfig
  -- `reflect.DeepEqual` of two VLAN statuses
  pub same_vlan_status : VlanStatus → VlanStatus → Bool
  -- the hexadecimal digits of `sha256.Sum256`, and `reflect.DeepEqual` of two sets of labels
  pub sha256 : Bytes → Bytes
  pub same_labels : GoMap → GoMap → Bool
  -- `json.Marshal` of a list of names, and `sjson.Set` of the key "mtu"
  pub encode_names : List Bytes → Bytes
  pub set_mtu : Bytes → ℤ → Result Bytes
  -- the network of `net.ParseCIDR`: its address, and the size of its mask; and `IP.Equal`
  pub parse_network : Bytes → Option (List ℕ × ℕ)
  pub ip_equal : List ℕ → List ℕ → Bool
  -- `reflect.DeepEqual` of two specifications
  pub same_hnc_spec : HostNetworkConfig → HostNetworkConfig → Bool
  pub same_subnet_spec : Subnet → Subnet → Bool

-- The documented behaviour of the set of names.
pub record SetLaws (env : Env) : Type 0 where
  pub contains-set_of :
      (xs : List Bytes) (x : Bytes) → env.contains (env.set_of xs) x ≡ any (λ y. y == x) xs
  pub contains-difference :
      (a b : env.Set) (x : Bytes)
      → env.contains (env.difference a b) x ≡ (env.contains a x && not (env.contains b x))
  pub contains-empty : (s : env.Set) (x : Bytes) → env.cardinality s ≡ 0 → env.contains s x ≡ false
  pub contains-set_add :
      (s : env.Set) (y x : Bytes) → env.contains (env.set_add s y) x ≡ (y == x || env.contains s x)
  pub contains-set_remove :
      (s : env.Set) (y x : Bytes)
      → env.contains (env.set_remove s y) x ≡ (env.contains s x && not (y == x))
  pub contains-set_equal :
      (a b : env.Set) (x : Bytes) → env.set_equal a b ≡ true → env.contains a x ≡ env.contains b x
  pub contains-to_slice :
      (s : env.Set) (x : Bytes) → env.contains (env.set_of (env.to_slice s)) x ≡ env.contains s x
  pub nil_of_to_slice : (xs : List Bytes) → env.to_slice (env.set_of xs) ≡ [] → xs ≡ []
