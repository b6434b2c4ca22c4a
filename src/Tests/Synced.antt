-- ===== src/Tests/Synced.antt =====
-- The manager's requests and the mutation of networks: the theorems at the objects of the tests.
use network_controller_harve.Common.{
  ℕ, zero, suc, ◌+◌, ◌≤◌, ◌≡◌, ◌≢◌, refl, sym, ◌∙◌, Bool, true, false, List, [], ◌∷◌, ◌++◌, map,
  any, all, Option, none, some, Bytes, codes, ◌==◌, bytes_eq, ℤ, pos, negsuc, bytes_beq, Result, ok,
  err, Error, Effect, not_found, link_failure, arith, All, if◌then◌else◌, inl, inr, get,
}
use network_controller_harve.Objects.{
  Nad, NetConf, HostNetworkConfig, is_true, is_false, key_cluster_network_label, key_uplink_mtu,
}
use network_controller_harve.Env.{Env}
use network_controller_harve.Vlan.{VlanIdSet}
use network_controller_harve.Vlan.Print.{ids}
use network_controller_harve.NetConf.{is_kube_ovn_cni, is_vlan_config_valid}
use network_controller_harve.Bridge.{get_bridge_name_prefix}
use network_controller_harve.Mtu.{get_mtu_from_string}
use network_controller_harve.Nads.{get_nad_label, decode_nad_config, decoded, empty_conf}
use network_controller_harve.Nads.VidSet.{nad_carries}
use network_controller_harve.Webhook.Patch.{Patch, patched_nad}
use network_controller_harve.Webhook.Nad.{check_nad_config}
use network_controller_harve.Webhook.Nad.Mutator.{create}
use network_controller_harve.Webhook.Nad.Mutated.{MtuSetter, create-check_nad_config}
use network_controller_harve.Requests.{Request, Server, Log, sent, patch_node_status}
use network_controller_harve.Manager.ClusterNetwork.{
  set_nad_ready_label, set_host_network_status, in_service, bool_text,
}
use network_controller_harve.Manager.ClusterNetwork.Synced.{
  settled, label_request, IsLabelled, set_nad_ready_label-settles, is_node_patch,
  set_host_network_status-patch,
}
use network_controller_harve.Manager.Nad.{
  update_cluster_network_vlan_set, vlan_annotations_unchanged, on_cn_change,
}
use network_controller_harve.Manager.Nad.Synced.{
  annotated, annotate_request, printed, IsAnnotated, update_cluster_network_vlan_set-settles,
  SetsMtu, Agrees, on_cn_change-Agrees,
}
use network_controller_harve.Network.Bonds.{retry_on_kernel_conflict}
use network_controller_harve.Network.Bonds.Retried.{counted, retry_on_kernel_conflict-counted}
use network_controller_harve.Tests.{env_of, tagged, tagged_nad, net, bare}
use network_controller_harve.Tests.Hosts.{h1, n1}
use network_controller_harve.Tests.Networks.{tagged_valid}

abbrev caches : Env
caches = env_of (tagged_nad ∷ []) []

abbrev accepting : Server
accepting r = ok tt

abbrev later : Env
later = env_of (settled (bool_text (in_service net)) tagged_nad ∷ []) []

set_nad_ready_label-settles_example :
    (set_nad_ready_label caches accepting net []
      ≡ (sent (label_request (bool_text (in_service net))) (tagged_nad ∷ []), ok tt))
    × All
        (IsLabelled (bool_text (in_service net)))
        (map (settled (bool_text (in_service net))) (tagged_nad ∷ []))
    × (set_nad_ready_label later accepting net [] ≡ ([], ok tt))
unfolding network_controller_harve.Common.lookup bytes_beq get_nad_label
    network_controller_harve.Nads.set_nad_label network_controller_harve.Common.insert
set_nad_ready_label-settles_example =
    set_nad_ready_label-settles accepting (λ r. refl) caches later net (tagged_nad ∷ []) [] [] refl
      refl

-- A host network that has been reported of its node.
abbrev reported_host : HostNetworkConfig
reported_host = record h1 {
  node_status = some (
      (
        codes "n1",
        record {
          cluster_network = codes "net";
          vlan_id = 10;
          mode = codes "dhcp";
          ready = is_true;
        },
      )
      ∷ []);
}

abbrev with_host : Env
with_host = record caches {
  list_host_network_configs = ok (reported_host ∷ []);
  list_nodes = λ sel. ok (n1 ∷ []);
}

set_host_network_status-patch_example :
    (reqs : List Request) × ((set_host_network_status with_host accepting (bare (codes "net")) []).0
      ≡ reqs)
    × (all is_node_patch reqs ≡ true)
set_host_network_status-patch_example =
    set_host_network_status-patch with_host accepting (bare (codes "net")) [] refl

patched : set_host_network_status with_host accepting (bare (codes "net")) [] ≡ (
  patch_node_status (codes "h1") (codes "n1") (record {
    cluster_network = codes "net";
    vlan_id = 10;
    mode = codes "dhcp";
    ready = is_false;
  })
      ∷ [],
  ok tt,
)
unfolding set_host_network_status network_controller_harve.Requests.each
    network_controller_harve.Manager.ClusterNetwork.set_status bytes_beq
    network_controller_harve.Manager.ClusterNetwork.set_host_network_unready
    network_controller_harve.Manager.ClusterNetwork.set_node_unready
    network_controller_harve.Manager.ClusterNetwork.has_node
patched = refl

tagged_decoded : decode_nad_config caches tagged_nad ≡ ok tagged
unfolding decode_nad_config bytes_beq
tagged_decoded = refl

named_eq : get_nad_label tagged_nad key_cluster_network_label ≡ codes "net"
unfolding get_nad_label network_controller_harve.Common.lookup
named_eq = refl

named : get_nad_label tagged_nad key_cluster_network_label ≢ []
named e = let q : codes "net" ≡ [] = sym named_eq ∙ e in absurd (cc)

mtu_text_eq : get key_uplink_mtu net.annotations ≡ codes "1500"
unfolding network_controller_harve.Common.lookup
mtu_text_eq = refl

mtu_text : get key_uplink_mtu net.annotations ≢ []
mtu_text e = let q : codes "1500" ≡ [] = sym mtu_text_eq ∙ e in absurd (cc)

update_cluster_network_vlan_set-settles_example :
    (vis : VlanIdSet) × (vis.is_trunk_mode ≡ true)
    × ((j : ℕ) → vis.vid_set j ≡ any (λ n. nad_carries caches n j) (tagged_nad ∷ []))
    × (update_cluster_network_vlan_set caches accepting tagged_nad []
        ≡ (annotate_request net (printed caches (ids vis)), ok tt))
    × IsAnnotated (annotated net (printed caches (ids vis))) (printed caches (ids vis))
unfolding bytes_beq get_nad_label network_controller_harve.Common.lookup
    network_controller_harve.Nads.list_nads_on_cluster_network
update_cluster_network_vlan_set-settles_example =
    update_cluster_network_vlan_set-settles accepting (λ r. refl) caches tagged_nad net
      (tagged_nad ∷ []) [] named refl refl refl
      (inr (tagged, tagged_decoded, inr (tagged_valid, tt)), tt)

-- Configurations as texts that a setter can change: the sign and the amount of the MTU, and a rest.
abbrev mtu_of : ℕ → ℕ → ℤ
mtu_of zero n = pos n
mtu_of (suc b) n = negsuc n

unfoldable decode_text : Bytes → Option NetConf
decode_text [] = none
decode_text (b ∷ []) = none
decode_text (b ∷ n ∷ rest) = some (record tagged { mtu = mtu_of b n })

abbrev text_of : ℤ → Bytes → Bytes
text_of (pos n) rest = 0 ∷ n ∷ rest
text_of (negsuc n) rest = 1 ∷ n ∷ rest

unfoldable set_text : Bytes → ℤ → Result Bytes
set_text [] mtu = err not_found
set_text (b ∷ []) mtu = err not_found
set_text (b ∷ n ∷ rest) mtu = ok (text_of mtu rest)

abbrev texts_nad : Nad
texts_nad = record tagged_nad { config = 0 ∷ 9000 ∷ [] }

abbrev conf_env : Env
conf_env = record (env_of [] []) {
  decode_net_conf = decode_text;
  set_mtu = set_text;
  list_nads = λ namespace sel. ok (texts_nad ∷ []);
}

decode-text_of :
    (mtu : ℤ) (rest : Bytes) → decode_text (text_of mtu rest) ≡ some (record tagged { mtu = mtu })
unfolding decode_text
decode-text_of (pos n) rest = refl
decode-text_of (negsuc n) rest = refl

sets_mtu : SetsMtu conf_env
unfolding decode_text set_text
sets_mtu [] config nc mtu d e = absurd (cc)
sets_mtu (b ∷ []) config nc mtu d e = absurd (cc)
sets_mtu (b ∷ n ∷ rest) config nc mtu d e =
    let p : some (record tagged { mtu = mtu_of b n }) ≡ some nc = d in
    let q : record tagged { mtu = mtu_of b n } ≡ nc = cc in
    let r : ok (text_of mtu rest) ≡ ok config = e in
    let t : text_of mtu rest ≡ config = cc in rw (sym q, sym t) (decode-text_of mtu rest)

set_config :
    (text config : Bytes) (nc : NetConf) (mtu : ℤ)
    → (if text == [] then ok empty_conf else decoded (decode_text text)) ≡ ok nc
    → set_text text mtu ≡ ok config
    → (if config == [] then ok empty_conf else decoded (decode_text config))
      ≡ ok (record nc { mtu = mtu })
unfolding decode_text set_text bytes_beq
set_config [] config nc mtu d e = absurd (cc)
set_config (b ∷ []) config nc mtu d e = absurd (cc)
set_config (b ∷ n ∷ rest) config nc mtu d e =
    let p : ok (record tagged { mtu = mtu_of b n }) ≡ ok nc = d in
    let q : record tagged { mtu = mtu_of b n } ≡ nc = cc in
    let r : ok (text_of mtu rest) ≡ ok config = e in
    let t : text_of mtu rest ≡ config = cc in rw (sym q, sym t) (whole mtu rest)
  where
    whole :
        (m : ℤ) (rest : Bytes)
        → (if text_of m rest == [] then ok empty_conf else decoded (decode_text (text_of m rest)))
          ≡ ok (record tagged { mtu = m })
    whole (pos k) rest = refl
    whole (negsuc k) rest = refl

mtu_setter : MtuSetter conf_env
unfolding decode_nad_config
mtu_setter nad nc mtu config d e = set_config nad.config config nc mtu d e

texts_decoded : decode_nad_config conf_env texts_nad ≡ ok (record tagged { mtu = pos 9000 })
unfolding decode_nad_config bytes_beq decode_text
texts_decoded = refl

net_prefix : get_bridge_name_prefix (codes "net-br") ≡ ok (codes "net")
unfolding get_bridge_name_prefix network_controller_harve.Bridge.is_bridge_name_valid
    network_controller_harve.Common.has_suffix bytes_beq
net_prefix = refl

abbrev patch_of : Result Patch → Patch
patch_of (ok ops) = ops
patch_of (err e) = []

abbrev mutated : Patch
mutated = patch_of (create conf_env texts_nad)

texts_created : create conf_env texts_nad ≡ ok mutated
unfolding create network_controller_harve.Webhook.Nad.Mutator.patch_mtu decode_nad_config bytes_beq
    decode_text is_kube_ovn_cni get_bridge_name_prefix
    network_controller_harve.Bridge.is_bridge_name_valid network_controller_harve.Common.has_suffix
    network_controller_harve.Webhook.Nad.Mutator.mtu_of_cluster_network
    network_controller_harve.Common.lookup get_mtu_from_string network_controller_harve.Common.atoi
    network_controller_harve.Mtu.is_valid_mtu network_controller_harve.Mtu.are_equal_mtus set_text
texts_created = refl

create-check_nad_config_example :
    (after : NetConf) × (decode_nad_config conf_env (patched_nad mutated texts_nad) ≡ ok after)
    × (check_nad_config conf_env after (patched_nad mutated texts_nad) ≡ ok tt)
unfolding is_kube_ovn_cni bytes_beq is_vlan_config_valid network_controller_harve.Nads.get_nad_label
    network_controller_harve.Common.lookup
create-check_nad_config_example =
    create-check_nad_config conf_env texts_nad (record tagged { mtu = pos 9000 }) (codes "net")
      mutated texts_decoded refl net_prefix mtu_setter refl refl texts_created

abbrev changed_log : Log
changed_log = (on_cn_change conf_env accepting net []).0

net_changed : on_cn_change conf_env accepting net [] ≡ (changed_log, ok tt)
unfolding on_cn_change bytes_beq network_controller_harve.Common.lookup get_mtu_from_string
    network_controller_harve.Common.atoi network_controller_harve.Mtu.is_valid_mtu
    network_controller_harve.Requests.each network_controller_harve.Manager.Nad.sync_mtu decode_text
    network_controller_harve.Mtu.are_equal_mtus set_text
net_changed = refl

net_mtu : get_mtu_from_string (codes "1500") ≡ ok (pos 1500)
unfolding get_mtu_from_string network_controller_harve.Common.atoi
    network_controller_harve.Mtu.is_valid_mtu
net_mtu = refl

on_cn_change-Agrees_example :
    All (Agrees conf_env accepting (pos 1500) changed_log) (texts_nad ∷ [])
unfolding network_controller_harve.Common.lookup
on_cn_change-Agrees_example =
    on_cn_change-Agrees conf_env accepting sets_mtu (pos 1500) net (texts_nad ∷ []) [] changed_log
      refl mtu_text net_mtu refl net_changed

retry_on_kernel_conflict-counted_example :
    (retry_on_kernel_conflict (λ e. true) (counted (λ (s : ℕ). (s, err link_failure))) (0, 7)).0.0
    ≤ 2
retry_on_kernel_conflict-counted_example =
    retry_on_kernel_conflict-counted (λ e. true) (λ (s : ℕ). (s, err link_failure)) 7
