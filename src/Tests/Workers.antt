-- ===== src/Tests/Workers.antt =====
-- A node that comes and goes, and the theorems about it.
use network_controller_harve.Common.{
  ◌≡◌, refl, true, false, [], ◌∷◌, some, codes, bytes_beq, ok, All,
}
use network_controller_harve.Objects.{
  Node, VlanConfig, HostNetworkConfig, mgmt_label_key, value_true,
}
use network_controller_harve.Env.{Env, SetLaws}
use network_controller_harve.Requests.{Log, Server}
use network_controller_harve.Webhook.VlanConfig.Mutated.{NamesCodec}
use network_controller_harve.Webhook.HostNetworkConfig.{is_witness}
use network_controller_harve.Manager.Node.{
  on_change, on_remove, remove_node_from, with_nodes, set_text,
}
use network_controller_harve.Manager.Node.Matched.{VcMatched, HncMatched}
use network_controller_harve.Manager.Node.Changed.{on_change-Matched}
use network_controller_harve.Manager.Node.Removed.{
  Released, on_remove-Released, remove_node_from-again,
}
use network_controller_harve.Tests.Laws.{laws_of}
use network_controller_harve.Tests.{meta_of, vc1}
use network_controller_harve.Tests.Hosts.{nodes_env, codec, h1}

-- A configuration for the nodes of a zone, and a node of the zone.
abbrev zone_vc : VlanConfig
zone_vc = record vc1 {
  meta = meta_of (codes "zone") [] [];
  node_selector = ("zone", codes "a") ∷ [];
}

abbrev worker : Node
worker = record {
  meta = meta_of (codes "n5") (("zone", codes "a") ∷ (mgmt_label_key, value_true) ∷ []) [];
}

abbrev all_nodes_hnc : HostNetworkConfig
all_nodes_hnc = record h1 {
  node_selector = some (record { match_labels = []; match_expressions = [] });
}

abbrev workers_env : Env
workers_env = record nodes_env {
  list_vlan_configs = λ sel. ok (zone_vc ∷ []);
  list_host_network_configs = ok (all_nodes_hnc ∷ []);
  as_selector = λ selector. ok (λ labels. true);
}

set_laws : SetLaws workers_env
set_laws =
    let laws = laws_of [] (vc1 ∷ []) in
    record {
      contains-set_of = laws.contains-set_of;
      contains-difference = laws.contains-difference;
      contains-empty = laws.contains-empty;
      contains-set_add = laws.contains-set_add;
      contains-set_remove = laws.contains-set_remove;
      contains-set_equal = laws.contains-set_equal;
      contains-to_slice = laws.contains-to_slice;
      nil_of_to_slice = laws.nil_of_to_slice;
    }

names_codec : NamesCodec workers_env
names_codec xs = codec xs

abbrev accepting : Server
accepting request = ok tt

abbrev changed : Log
changed = (on_change workers_env accepting worker []).0

ran : on_change workers_env accepting worker [] ≡ (changed, ok tt)
unfolding on_change network_controller_harve.Manager.Node.ensure_mgmt_labels
    network_controller_harve.Webhook.HostNetworkConfig.has_label_key bytes_beq
    network_controller_harve.Common.lookup network_controller_harve.Requests.each
    network_controller_harve.Manager.Node.update_unless_mgmt
    network_controller_harve.Manager.Node.update_matched_nodes
    network_controller_harve.Manager.Node.new_selector
    network_controller_harve.Manager.Node.matched_set
    network_controller_harve.Manager.Node.update_host_network_annotation
    network_controller_harve.Manager.Node.update_hnc
    network_controller_harve.Manager.Node.update_underlay
ran = refl

worker_kind : is_witness worker ≡ false
unfolding network_controller_harve.Webhook.HostNetworkConfig.has_label_key bytes_beq
    network_controller_harve.Common.lookup
worker_kind = refl

on_change-Matched_example :
    All (VcMatched workers_env set_laws names_codec accepting worker changed) (zone_vc ∷ [])
    × All
        (HncMatched workers_env set_laws names_codec accepting worker changed)
        (all_nodes_hnc ∷ [])
on_change-Matched_example =
    on_change-Matched workers_env set_laws names_codec accepting worker (zone_vc ∷ [])
      (all_nodes_hnc ∷ []) [] changed refl worker_kind refl refl ran

-- The configuration with the node in its annotation.
abbrev zone_full : VlanConfig
zone_full = record zone_vc {
  meta = with_nodes zone_vc.meta (set_text workers_env (codes "n5" ∷ codes "n6" ∷ []));
}

abbrev leaving_env : Env
leaving_env = record workers_env { list_vlan_configs = λ sel. ok (zone_full ∷ []) }

leaving_laws : SetLaws leaving_env
leaving_laws =
    let laws = laws_of [] (vc1 ∷ []) in
    record {
      contains-set_of = laws.contains-set_of;
      contains-difference = laws.contains-difference;
      contains-empty = laws.contains-empty;
      contains-set_add = laws.contains-set_add;
      contains-set_remove = laws.contains-set_remove;
      contains-set_equal = laws.contains-set_equal;
      contains-to_slice = laws.contains-to_slice;
      nil_of_to_slice = laws.nil_of_to_slice;
    }

leaving_codec : NamesCodec leaving_env
leaving_codec xs = codec xs

abbrev left : Log
left = (on_remove leaving_env accepting worker []).0

went : on_remove leaving_env accepting worker [] ≡ (left, ok tt)
unfolding on_remove network_controller_harve.Manager.Node.remove_node_from_vlan_configs
    network_controller_harve.Requests.each network_controller_harve.Manager.Node.remove_round
    bytes_beq remove_node_from network_controller_harve.Common.lookup
    network_controller_harve.Common.insert network_controller_harve.Manager.Node.matched_set
    network_controller_harve.Tests.Hosts.parse
    network_controller_harve.Manager.Node.clear_link_status
went = refl

on_remove-Released_example :
    All
      (Released leaving_env leaving_laws leaving_codec accepting (codes "n5") left)
      (zone_full ∷ [])
on_remove-Released_example =
    on_remove-Released leaving_env leaving_laws leaving_codec accepting (codes "n5") worker
      (zone_full ∷ []) [] left refl refl went

remove_node_from-again_run :
    remove_node_from leaving_env accepting
      (codes "n5")
      (record zone_full {
        meta = with_nodes zone_full.meta (
            set_text leaving_env
              (leaving_env.set_remove (codes "n5" ∷ codes "n6" ∷ []) (codes "n5")));
      })
      []
    ≡ ([], ok tt)
remove_node_from-again_run =
    remove_node_from-again leaving_env leaving_laws leaving_codec accepting (codes "n5") zone_full
      (codes "n5" ∷ codes "n6" ∷ []) []
