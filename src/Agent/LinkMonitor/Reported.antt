-- ===== src/Agent/LinkMonitor/Reported.antt =====
-- What a link monitor reports of a node.
use network_controller_harve.Common.{
  ◌≡◌, refl, sym, ◌∙◌, ap, Bool, true, false, ◌&&◌, ◌⊎◌, inl, inr, List, [], ◌∷◌, map, Option, none,
  some, Bytes, ◌==◌, bytes_eq, nat_eq, bytes_iff, bytes_beq_refl, nat_iff, Result, ok, err, Effect,
  and_then, and_then-eq-ok, if◌then◌else◌, Bool-cases, not-false, is_not_found,
}
use network_controller_harve.Objects.{
  LinkMonitor, LinkStatus, LinkState, link_up, link_down, link_unknown, VlanConfig, mgmt,
}
use network_controller_harve.Mgmt.{
  MgmtInfo, get_mgmt_bond_info, build_updated_vlan_config, mgmt_vlan_config_name,
}
use network_controller_harve.Env.{Env}
use network_controller_harve.Requests.{Log, Server, update_link_monitor, update_vlan_config}
use network_controller_harve.Requests.Rounds.{
  Grows, Grows-none, Grows-send, Grows-if, Within, Grows-Within, Taken, send-Taken,
}
use network_controller_harve.Network.{Netlink, Link}
use network_controller_harve.Network.Monitor.{Pattern, Rules, add_pattern, get_pattern, scan_links}
use network_controller_harve.Agent.LinkMonitor.{
  same_bool, same_state, same_link_status, compare_link_status_list, links_of, with_links, reported,
  pattern_of, same_rule, is_rule_change, synced_rules, with_status, link_to_link_status,
  is_match_current_node, update_status, sync_scanned, sync_link_status, send_updated, update_with,
  update_cached, update_mgmt_vlan_config, on_log, on_change,
}

same_bool-eq : (a b : Bool) → same_bool a b ≡ true → a ≡ b
same_bool-eq true b h = sym h
same_bool-eq false true h = absurd (cc)
same_bool-eq false false h = refl

same_state-eq : (a b : LinkState) → same_state a b ≡ true → a ≡ b
same_state-eq link_up link_up h = refl
same_state-eq link_down link_down h = refl
same_state-eq link_unknown link_unknown h = refl
same_state-eq link_up link_down h = absurd (cc)
same_state-eq link_up link_unknown h = absurd (cc)
same_state-eq link_down link_up h = absurd (cc)
same_state-eq link_down link_unknown h = absurd (cc)
same_state-eq link_unknown link_up h = absurd (cc)
same_state-eq link_unknown link_down h = absurd (cc)

and-left : (a b : Bool) → (a && b) ≡ true → (a ≡ true) × (b ≡ true)
and-left true b h = (refl, h)
and-left false b h = absurd (cc)

same_link_status-eq : (a b : LinkStatus) → same_link_status a b ≡ true → a ≡ b
same_link_status-eq a b h =
    let (n, h1) = and-left _ _ h in
    let (i, h2) = and-left _ _ h1 in
    let (k, h3) = and-left _ _ h2 in
    let (m, h4) = and-left _ _ h3 in
    let (p, h5) = and-left _ _ h4 in
    let (s, x) = and-left _ _ h5 in
    let en : a.name ≡ b.name = (bytes_iff a.name b.name).0 n in
    let ei : a.index ≡ b.index = (nat_iff a.index b.index).0 i in
    let ek : a.kind ≡ b.kind = (bytes_iff a.kind b.kind).0 k in
    let em : a.mac ≡ b.mac = (bytes_iff a.mac b.mac).0 m in
    let ep = same_bool-eq a.promiscuous b.promiscuous p in
    let es = same_state-eq a.state b.state s in
    let ex : a.master_index ≡ b.master_index = (nat_iff a.master_index b.master_index).0 x in
    λ i. record {
      name = en i;
      index = ei i;
      kind = ek i;
      mac = em i;
      promiscuous = ep i;
      state = es i;
      master_index = ex i;
    }

compare_link_status_list-eq : (a b : List LinkStatus) → compare_link_status_list a b ≡ true → a ≡ b
unfolding compare_link_status_list
compare_link_status_list-eq [] [] h = refl
compare_link_status_list-eq [] (b ∷ ys) h = absurd (cc)
compare_link_status_list-eq (a ∷ xs) [] h = absurd (cc)
compare_link_status_list-eq (a ∷ xs) (b ∷ ys) h =
    let (here, rest) = and-left (same_link_status a b) _ h in
    ap (λ x. x ∷ xs) (same_link_status-eq a b here)
    ∙ ap (λ l. b ∷ l) (compare_link_status_list-eq xs ys rest)

links_of-with_links :
    (name : Bytes) (links : List LinkStatus) (m : List (Bytes × List LinkStatus))
    → links_of name (with_links name links m) ≡ links
unfolding links_of with_links
links_of-with_links name links [] = rw (bytes_beq_refl name) refl
links_of-with_links name links ((key, old) ∷ rest) = elim (Bool-cases (key == name)) [
  | inl same ↦ rw (same, bytes_beq_refl name) refl
  | inr other ↦ simp (other, links_of-with_links name links rest)
]

same_rule-eq :
    (p : Option Pattern) (lm : LinkMonitor) → same_rule p lm ≡ true → p ≡ some (pattern_of lm)
same_rule-eq none lm h = absurd (cc)
same_rule-eq (some p) lm h =
    let (k, n) = and-left _ _ h in
    let ek : p.kind_rule ≡ lm.type_rule = (bytes_iff p.kind_rule lm.type_rule).0 k in
    let en : p.name_rule ≡ lm.name_rule = (bytes_iff p.name_rule lm.name_rule).0 n in
    λ i. some (record { kind_rule = ek i; name_rule = en i })

synced_rules-pattern :
    (lm : LinkMonitor) (rules : Rules)
    → get_pattern lm.name (synced_rules lm rules) ≡ some (pattern_of lm)
unfolding is_rule_change add_pattern get_pattern
synced_rules-pattern lm rules = elim (Bool-cases (is_rule_change lm rules)) [
  | inl change ↦ rw change (rw (bytes_beq_refl lm.name) refl)
  | inr same ↦ rw same (
      same_rule-eq (get_pattern lm.name rules) lm
        (not-false (same_rule (get_pattern lm.name rules) lm) same))
]

module _ (env : Env) (nl : Netlink) (server : Server) (node_name : Bytes) where
  update_mgmt_vlan_config-Grows :
      (s : nl.State) (log : Log) → Grows log (update_mgmt_vlan_config env nl server node_name s log)
  unfolding update_mgmt_vlan_config
  update_mgmt_vlan_config-Grows s log =
      cached (env.get_vlan_config (mgmt_vlan_config_name node_name))
    where
      updated : (r : VlanConfig × Bool) → Grows log (send_updated env nl server node_name r log)
      updated (vc, true) = Grows-send server (update_vlan_config vc) log
      updated (vc, false) = Grows-none log (ok tt)

      given :
          (vc : VlanConfig) (r : Result MgmtInfo)
          → Grows log (update_with env nl server node_name vc r log)
      given vc (err e) = Grows-none log (err e)
      given vc (ok info) = updated (build_updated_vlan_config vc info)

      cached : (r : Result VlanConfig) → Grows log (update_cached env nl server node_name r s log)
      cached (err e) =
          Grows-if (is_not_found e) log _ _ (Grows-none log (ok tt)) (Grows-none log (err e))
      cached (ok vc) = given vc (get_mgmt_bond_info nl s)

  -- A monitor that reports for the node exactly the links that its rules pick, as it is or in an
  -- update that the server took.
  abbrev pub Reports : LinkMonitor → nl.State → Log → Type 0
  Reports lm s log =
      (links : List Link) × (shown : LinkMonitor) × (scan_links nl (some (pattern_of lm)) s
        ≡ ok links)
      × ((shown ≡ lm) ⊎ Taken server log (update_link_monitor shown))
      × (links_of node_name (reported shown.link_status)
          ≡ map (link_to_link_status env nl server node_name) links)

  update_status-shown :
      (lm : LinkMonitor) (links : List LinkStatus) (log next : Log)
      → update_status env nl server node_name lm links log ≡ (next, ok tt)
      → (shown : LinkMonitor) × ((shown ≡ lm) ⊎ Taken server next (update_link_monitor shown))
        × (links_of node_name (reported shown.link_status) ≡ links)
  unfolding update_status
  update_status-shown lm links log next h =
      elim (Bool-cases
        (compare_link_status_list (links_of node_name (reported lm.link_status)) links)) [
          | inl same ↦ (lm, inl refl, compare_link_status_list-eq _ links same)
          | inr other ↦ (
            with_status node_name lm links,
            inr (
                send-Taken server (update_link_monitor (with_status node_name lm links)) log next
                  (simp other at h)),
            links_of-with_links node_name links (reported lm.link_status),
          )
        ]

  synced-Reports :
      (lm : LinkMonitor) (s : nl.State) (p : Result (List Link)) (log next : Log)
      → scan_links nl (some (pattern_of lm)) s ≡ p
      → sync_scanned env nl server node_name lm p log ≡ (next, ok tt)
      → Reports lm s next
  synced-Reports lm s (err e) log next scanned h =
      let q : err e ≡ ok tt = ap (λ (m : Effect Log). m.1) h in absurd (cc)
  synced-Reports lm s (ok links) log next scanned h =
      let (shown, left, same) =
        update_status-shown lm (map (link_to_link_status env nl server node_name) links) log next
          h in
      (links, shown, scanned, left, same)

  -- Whenever `OnChange` of an agent succeeds for an active link monitor that selects the node, the
  -- monitor's rules are those of the object, and the object reports for the node exactly the links
  -- that the rules pick, in the order of the node, as it is or in an update that the server took.
  pub on_change-Reports :
      (lm : LinkMonitor) (s : nl.State) (rules after : Rules) (log next : Log)
      → lm.deleting ≡ false
      → is_match_current_node env nl server node_name lm ≡ ok true
      → on_change env nl server node_name lm s (rules, log) ≡ ((after, next), ok tt)
      → (get_pattern lm.name after ≡ some (pattern_of lm)) × Reports lm s next
  unfolding on_change sync_link_status
  on_change-Reports lm s rules after log next active here h =
      let last = λ (m : Log).
        if lm.name == mgmt
        then update_mgmt_vlan_config env nl server node_name s m
        else (m, ok tt) in
      let work = λ (l : Log).
        and_then (sync_link_status env nl server node_name lm (synced_rules lm rules) s l) last in
      let run : on_log env nl server node_name work (synced_rules lm rules, log)
          ≡ ((after, next), ok tt) =
        simp (active, here) at h in
      let kept : synced_rules lm rules ≡ after = ap (λ (m : Effect (Rules × Log)). m.0.0) run in
      let did : work log ≡ (next, ok tt) = ap (λ (m : Effect (Rules × Log)). (m.0.1, m.1)) run in
      let (mid, synced, rest) =
        and_then-eq-ok (sync_link_status env nl server node_name lm (synced_rules lm rules) s log)
          last did in
      let pattern = synced_rules-pattern lm rules in
      let (links, shown, scanned, left, same) =
        synced-Reports lm s (scan_links nl (get_pattern lm.name (synced_rules lm rules)) s) log mid
          (ap (λ p. scan_links nl p s) (sym pattern)) synced in
      let grows =
        Grows-if (lm.name == mgmt) mid _ _ (update_mgmt_vlan_config-Grows s mid)
          (Grows-none mid (ok tt)) in
      let later = Grows-Within mid next (last mid) (ok tt) grows rest in
      (
        ap (λ r. get_pattern lm.name r) (sym kept) ∙ pattern,
        (links, shown, scanned, moved shown mid next later left, same),
      )
    where
      moved :
          (shown : LinkMonitor) (a b : Log)
          → Within a b
          → (shown ≡ lm) ⊎ Taken server a (update_link_monitor shown)
          → (shown ≡ lm) ⊎ Taken server b (update_link_monitor shown)
      moved shown a b later (inl e) = inl e
      moved shown a b later (inr (there, taken)) = inr (later _ there, taken)
