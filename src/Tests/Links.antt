-- ===== src/Tests/Links.antt =====
-- A link monitor, the jobs and the management configuration on a node, and the theorems about them.
use network_controller_harve.Common.{
  pos, nil_dereference, ◌≡◌, refl, true, false, List, [], ◌∷◌, none, some, Bytes, codes, bytes_beq,
  ok, err, inr, inl, not_found, already_exists, link_not_found, ◌==◌, bytes_eq,
}
use network_controller_harve.Objects.{LinkMonitor, Node}
use network_controller_harve.Env.{Env}
use network_controller_harve.Requests.{
  Log, Server, create_vlan_config, update_vlan_config, update_link_monitor,
}
use network_controller_harve.Network.{Netlink, Link}
use network_controller_harve.Network.Monitor.{get_pattern, scan_links, Rules}
use network_controller_harve.Mgmt.{MgmtInfo, get_mgmt_bond_info, build_updated_vlan_config}
use network_controller_harve.Agent.LinkMonitor.{
  on_change, is_match_current_node, pattern_of, with_status, link_to_link_status,
}
use network_controller_harve.Agent.LinkMonitor.Reported.{Reports, on_change-Reports}
use network_controller_harve.Agent.VlanConfig.Management.{create_or_update_mgmt, empty_vlan_config}
use network_controller_harve.Agent.VlanConfig.Followed.{IsReached, create_or_update_mgmt-IsReached}
use network_controller_harve.Nads.{is_overlay_nad}
use network_controller_harve.Manager.Nad.Jobs.{
  Items, item_of, job_name, same_item, on_remove, new_job,
}
use network_controller_harve.Manager.Nad.Cleared.{gateway_of, IsCleared, on_remove-IsCleared}
use network_controller_harve.Tests.{vc1, meta_of, tagged_nad, net}
use network_controller_harve.Tests.Nodes.{State, node, bond, caches, up, by_name}

-- A node of which the rules are the texts that they match.
abbrev literal : Netlink
literal = record node { match_string = λ rule text. ok (rule == text) }

abbrev here : Node
here = record { meta = meta_of (codes "n5") [] [] }

abbrev on_site : Env
on_site = record caches { list_nodes = λ sel. ok (here ∷ []) }

abbrev accepting : Server
accepting request = ok tt

abbrev bonds : LinkMonitor
bonds = record {
  meta = meta_of (codes "bonds") [] [];
  node_selector = [];
  type_rule = codes "bond";
  name_rule = [];
  link_status = none;
}

abbrev rules : Rules
rules = (codes "bonds", pattern_of bonds) ∷ []

abbrev shown : Log
shown =
    update_link_monitor (
      with_status (codes "n5") bonds
        (link_to_link_status on_site literal accepting (codes "n5") bond ∷ []))
    ∷ []

matched : is_match_current_node on_site literal accepting (codes "n5") bonds ≡ ok true
unfolding is_match_current_node bytes_beq
matched = refl

monitored :
    on_change on_site literal accepting (codes "n5") bonds up ([], []) ≡ ((rules, shown), ok tt)
unfolding on_change is_match_current_node bytes_beq
    network_controller_harve.Agent.LinkMonitor.is_rule_change
    network_controller_harve.Agent.LinkMonitor.sync_link_status get_pattern scan_links
    network_controller_harve.Network.Monitor.add_pattern
    network_controller_harve.Network.Monitor.matching_links
    network_controller_harve.Network.Monitor.pattern_matches
    network_controller_harve.Agent.LinkMonitor.update_status
    network_controller_harve.Agent.LinkMonitor.compare_link_status_list
    network_controller_harve.Agent.LinkMonitor.links_of
monitored = refl

on_change-Reports_example :
    (get_pattern (codes "bonds") rules ≡ some (pattern_of bonds))
    × Reports on_site literal accepting (codes "n5") bonds up shown
on_change-Reports_example =
    on_change-Reports on_site literal accepting (codes "n5") bonds up [] rules [] shown refl matched
      monitored

-- A node with a management bond and its slave, and a configuration with another MTU in the cache.
abbrev mgmt_bond : Link
mgmt_bond = record bond {
  name = codes "mgmt-bo";
  mtu = pos 9000;
  bond = some (record { mode = pos 1; miimon = pos 100 });
}

abbrev slave : Link
slave = record bond { name = codes "eth1"; index = 7; master_index = 3; kind = codes "device" }

abbrev managed : State
managed = (mgmt_bond ∷ slave ∷ [], [])

abbrev with_config : Env
with_config = record caches { get_vlan_config = λ name. ok vc1 }

abbrev info : MgmtInfo
info = record { mtu = pos 9000; bond_mode = []; slave_names = codes "eth1" ∷ [] }

abbrev requested : Log
requested = update_vlan_config (build_updated_vlan_config vc1 info).0 ∷ []

updated :
    create_or_update_mgmt with_config node accepting (codes "n5") managed [] ≡ (requested, ok tt)
unfolding create_or_update_mgmt get_mgmt_bond_info by_name bytes_beq
    network_controller_harve.Agent.VlanConfig.Management.create_or_update_with
    build_updated_vlan_config
updated = refl

create_or_update_mgmt-IsReached_example :
    IsReached with_config node accepting (codes "n5") managed requested
create_or_update_mgmt-IsReached_example =
    create_or_update_mgmt-IsReached with_config node accepting (codes "n5") managed [] requested
      updated

-- Without a management bond the server takes the empty configuration, and the log line then panics.
panics :
    create_or_update_mgmt caches node accepting (codes "n5") up []
    ≡ (create_vlan_config (empty_vlan_config (codes "n5")) ∷ [], err nil_dereference)
unfolding create_or_update_mgmt get_mgmt_bond_info by_name bytes_beq
    network_controller_harve.Agent.VlanConfig.Management.create_mgmt_vlan_config
panics = refl

abbrev jobs_namespace : Bytes
jobs_namespace = codes "harvester-system"

abbrev image : Bytes
image = codes "helper"

-- Caches with the job, and with the cluster network as one that is being deleted.
abbrev with_job : Env
with_job = record caches {
  get_job = λ namespace name. ok (new_job caches jobs_namespace image tagged_nad);
  get_cluster_network = λ name. ok (record net { meta = record net.meta { deleting = true } });
}

abbrev pinged : Items
pinged =
    (item_of tagged_nad, codes "10.0.0.1")
    ∷ ((codes "default", codes "other"), codes "10.0.1.1")
    ∷ []

abbrev others : Items
others = ((codes "default", codes "other"), codes "10.0.1.1") ∷ []

abbrev sent : Log
sent = (on_remove with_job accepting jobs_namespace image tagged_nad (pinged, [])).0.1

bridged : is_overlay_nad tagged_nad ≡ false
unfolding is_overlay_nad bytes_beq network_controller_harve.Common.lookup
bridged = refl

removed :
    on_remove with_job accepting jobs_namespace image tagged_nad (pinged, [])
    ≡ ((others, sent), ok tt)
unfolding on_remove is_overlay_nad bytes_beq network_controller_harve.Common.lookup
    network_controller_harve.Manager.Nad.Jobs.clear_job
    network_controller_harve.Manager.Nad.update_cluster_network_vlan_set
    network_controller_harve.Nads.get_nad_label
    network_controller_harve.Manager.Nad.Jobs.remove_item
removed = refl

on_remove-IsCleared_example :
    (gateway_of (item_of tagged_nad) others ≡ none)
    × ((key : Bytes × Bytes)
        → same_item (item_of tagged_nad) key ≡ false
        → gateway_of key others ≡ gateway_of key pinged)
    × IsCleared with_job accepting jobs_namespace image
        (job_name with_job tagged_nad.namespace tagged_nad.name)
        sent
on_remove-IsCleared_example =
    on_remove-IsCleared with_job accepting jobs_namespace image tagged_nad pinged others [] sent
      bridged removed
