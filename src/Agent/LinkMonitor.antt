-- ===== src/Agent/LinkMonitor.antt =====
-- The links of a node that a link monitor reports: pkg/controller/agent/linkmonitor/controller.go.
pub mod Reported
use network_controller_harve.Common.{
  ℕ, Bool, true, false, not, ◌&&◌, ◌||◌, List, [], ◌∷◌, ◌++◌, Option, none, some, Bytes, ◌==◌, ◌!=◌,
  bytes_eq, nat_eq, map, any, Result, ok, err, ◌>>=◌, Effect, Check, and_then, if◌then◌else◌, Error,
  is_not_found,
}
use network_controller_harve.Objects.{
  LinkMonitor, LinkStatus, LinkState, link_up, link_down, link_unknown, Node, VlanConfig, mgmt,
}
use network_controller_harve.Mgmt.{
  MgmtInfo, mgmt_vlan_config_name, get_mgmt_bond_info, build_updated_vlan_config,
}
use network_controller_harve.Env.{Env}
use network_controller_harve.Requests.{
  Request, Log, Server, send, update_link_monitor, update_vlan_config,
}
use network_controller_harve.Network.{Netlink, Link, OperState, oper_up, oper_down}
use network_controller_harve.Network.Monitor.{
  Pattern, Rules, add_pattern, delete_pattern, get_pattern, scan_links,
}
use network_controller_harve.Webhook.VlanConfig.Mutator.{selector_of}

abbrev pub same_bool : Bool → Bool → Bool
same_bool true b = b
same_bool false b = not b

abbrev pub same_state : LinkState → LinkState → Bool
same_state link_up link_up = true
same_state link_down link_down = true
same_state link_unknown link_unknown = true
same_state _ _ = false

-- `==` of two statuses
abbrev pub same_link_status : LinkStatus → LinkStatus → Bool
same_link_status a b =
    a.name == b.name
    && (a.index == b.index
        && (a.kind == b.kind
            && (a.mac == b.mac
                && (same_bool a.promiscuous b.promiscuous
                    && (same_state a.state b.state && a.master_index == b.master_index)))))

-- `compareLinkStatusList`
unfoldable pub compare_link_status_list : List LinkStatus → List LinkStatus → Bool
compare_link_status_list [] [] = true
compare_link_status_list [] (b ∷ ys) = false
compare_link_status_list (a ∷ xs) [] = false
compare_link_status_list (a ∷ xs) (b ∷ ys) = same_link_status a b && compare_link_status_list xs ys

-- `m[name]` of the links by node name, and `m[name] = links`
unfoldable pub links_of : Bytes → List (Bytes × List LinkStatus) → List LinkStatus
links_of name [] = []
links_of name ((key, links) ∷ rest) = if key == name then links else links_of name rest

unfoldable pub with_links :
    Bytes → List LinkStatus → List (Bytes × List LinkStatus) → List (Bytes × List LinkStatus)
with_links name links [] = (name, links) ∷ []
with_links name links ((key, old) ∷ rest) =
    let others = with_links name links rest in
    if key == name then (name, links) ∷ rest else (key, old) ∷ others

abbrev pub reported : Option (List (Bytes × List LinkStatus)) → List (Bytes × List LinkStatus)
reported none = []
reported (some links) = links

abbrev pub state_of : OperState → LinkState
state_of oper_up = link_up
state_of oper_down = link_down
state_of OperState.oper_other = link_unknown

-- The rule that a link monitor gives.
abbrev pub pattern_of : LinkMonitor → Pattern
pattern_of lm = record { kind_rule = lm.type_rule; name_rule = lm.name_rule }

abbrev pub same_rule : Option Pattern → LinkMonitor → Bool
same_rule none lm = false
same_rule (some p) lm = p.kind_rule == lm.type_rule && p.name_rule == lm.name_rule

-- `isRuleChange`
unfoldable pub is_rule_change : LinkMonitor → Rules → Bool
is_rule_change lm rules = not (same_rule (get_pattern lm.name rules) lm)

-- The rules as `OnChange` leaves them for a monitor that matches the node.
abbrev pub synced_rules : LinkMonitor → Rules → Rules
synced_rules lm rules =
    if is_rule_change lm rules then add_pattern lm.name (pattern_of lm) rules else rules

-- The monitor with the links of the node.
abbrev pub with_status : Bytes → LinkMonitor → List LinkStatus → LinkMonitor
with_status node_name lm links = record lm {
  link_status = some (with_links node_name links (reported lm.link_status));
}

module _ (env : Env) (nl : Netlink) (server : Server) (node_name : Bytes) where
  -- `linkToLinkStatus`
  abbrev pub link_to_link_status : Link → LinkStatus
  link_to_link_status l = record {
    name = l.name;
    index = l.index;
    kind = l.kind;
    mac = nl.mac_text l.hardware_addr;
    promiscuous = l.promisc != 0;
    state = state_of l.oper_state;
    master_index = l.master_index;
  }

  -- `isMatchCurrentNode`
  unfoldable pub is_match_current_node : LinkMonitor → Result Bool
  is_match_current_node lm = env.list_nodes (selector_of lm.node_selector) >>= λ nodes.
      ok (any (λ node. node.name == node_name && not node.deleting) nodes)

  -- `updateStatus`
  unfoldable pub update_status : LinkMonitor → List LinkStatus → Log → Effect Log
  update_status lm links log =
      if compare_link_status_list (links_of node_name (reported lm.link_status)) links
      then (log, ok tt)
      else send server (update_link_monitor (with_status node_name lm links)) log

  abbrev pub sync_scanned : LinkMonitor → Result (List Link) → Log → Effect Log
  sync_scanned lm (err e) log = (log, err e)
  sync_scanned lm (ok links) log = update_status lm (map link_to_link_status links) log

  -- `syncLinkStatus`, with the rules of the monitor
  unfoldable pub sync_link_status : LinkMonitor → Rules → nl.State → Log → Effect Log
  sync_link_status lm rules s log =
      sync_scanned lm (scan_links nl (get_pattern lm.name rules) s) log

  abbrev pub send_updated : VlanConfig × Bool → Log → Effect Log
  send_updated (vc, true) log = send server (update_vlan_config vc) log
  send_updated (vc, false) log = (log, ok tt)

  abbrev pub update_with : VlanConfig → Result MgmtInfo → Log → Effect Log
  update_with vc (err e) log = (log, err e)
  update_with vc (ok info) log = send_updated (build_updated_vlan_config vc info) log

  abbrev pub update_cached : Result VlanConfig → nl.State → Log → Effect Log
  update_cached (err e) s log = if is_not_found e then (log, ok tt) else (log, err e)
  update_cached (ok vc) s log = update_with vc (get_mgmt_bond_info nl s) log

  -- `updateMgmtVlanConfig`
  unfoldable pub update_mgmt_vlan_config : nl.State → Log → Effect Log
  update_mgmt_vlan_config s log =
      update_cached (env.get_vlan_config (mgmt_vlan_config_name node_name)) s log

  -- The rules of the monitor, and the requests sent.
  abbrev pub S : Type 0
  S = Rules × Log

  abbrev pub on_log : (Log → Effect Log) → S → Effect S
  on_log f (rules, log) = let (next, r) = f log in ((rules, next), r)

  abbrev pub change_matched : LinkMonitor → nl.State → Result Bool → S → Effect S
  change_matched lm s (err e) state = (state, err e)
  change_matched lm s (ok false) (rules, log) = ((delete_pattern lm.name rules, log), ok tt)
  change_matched lm s (ok true) (rules, log) =
      let next = synced_rules lm rules in
      on_log
        (λ l.
          and_then (sync_link_status lm next s l)
            (λ m. if lm.name == mgmt then update_mgmt_vlan_config s m else (m, ok tt)))
        (next, log)

  -- `OnChange` in a state of the links; the object is never nil here.
  unfoldable pub on_change : LinkMonitor → nl.State → S → Effect S
  on_change lm s state =
      if lm.deleting then (state, ok tt) else change_matched lm s (is_match_current_node lm) state

  -- `OnRemove`
  unfoldable pub on_remove : LinkMonitor → S → Effect S
  on_remove lm (rules, log) = ((delete_pattern lm.name rules, log), ok tt)
