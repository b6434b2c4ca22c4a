-- ===== src/Webhook/Nad/Storage.antt =====
-- A storage network that holds its VLAN exclusively keeps it from the networks that are admitted.
use network_controller_harve.Common.{
  ℕ, ◌≡◌, false, ◌&&◌, List, [], ◌∷◌, bytes_eq, int_eq, int_iff, nat_eq, pos, length, arith, ok,
  >>-eq-ok, >>=-eq-ok, refuse_if-eq-ok, reserved_vlan, ap, ◌∙◌,
}
use network_controller_harve.Objects.{
  Nad, NetConf, exclusive_vlan_storage_network_label, value_true,
}
use network_controller_harve.NetConf.{
  is_kube_ovn_cni, has_trunk_vlan_id, get_vlan_id, is_vlan_overlapping,
}
use network_controller_harve.NetConf.Dump.{NoNil, carries, has_trunk_item-names}
use network_controller_harve.Env.{Env, equals}
use network_controller_harve.Nads.{decode_nad_config, is_system_network_nad}
use network_controller_harve.Webhook.Nad.{check_storage, check_vlan_overlap_with_sn, create}

-- Two configurations that do not overlap, of which the second is that of an access network, carry
-- no id both.
not_overlapping :
    (nc sn : NetConf)
    → NoNil nc.vlan_trunk
    → sn.vlan_trunk ≡ []
    → is_vlan_overlapping nc sn ≡ ok false
    → (j : ℕ) → (carries nc j && carries sn j) ≡ false
unfolding is_vlan_overlapping has_trunk_vlan_id get_vlan_id
not_overlapping nc sn there access h j =
    let trunked = has_trunk_item-names nc.vlan_trunk sn.vlan there in
    ground (
      arith,
      trunked,
      ap (λ l. length l) access,
      int_iff sn.vlan (pos j),
      int_iff nc.vlan (pos j),
      int_iff sn.vlan nc.vlan,
    )

module _ (env : Env) where
  -- A bridge network that the webhook's `Create` admits, which is no system network and has no nil
  -- trunk item, carries no VLAN id that the first listed storage network carries, where that one
  -- is an access network labelled as the exclusive user of its VLAN.
  pub create-storage :
      (nad sn : Nad) (sns : List Nad) (nc sn_conf : NetConf)
      → create env nad ≡ ok tt
      → decode_nad_config env nad ≡ ok nc
      → is_kube_ovn_cni nc ≡ false
      → is_system_network_nad nad ≡ false
      → NoNil nc.vlan_trunk
      → env.list_nads [] (equals exclusive_vlan_storage_network_label value_true ∷ [])
        ≡ ok (sn ∷ sns)
      → decode_nad_config env sn ≡ ok sn_conf
      → sn_conf.vlan_trunk ≡ []
      → (j : ℕ) → (carries nc j && carries sn_conf j) ≡ false
  unfolding create check_vlan_overlap_with_sn
  create-storage nad sn sns nc sn_conf h ed bridge user there listed es access j =
      let r = simp ed at h in
      let (a, rest) = >>-eq-ok (check_vlan_overlap_with_sn env nad nc) _ r in
      let b : check_storage env nc (sn ∷ sns) ≡ ok tt = simp (user, bridge, listed) at a in
      let (overlapping, eo, c) = >>=-eq-ok (is_vlan_overlapping nc sn_conf) _ (simp es at b) in
      not_overlapping nc sn_conf there access (eo ∙ ap ok (refuse_if-eq-ok _ reserved_vlan c)) j
