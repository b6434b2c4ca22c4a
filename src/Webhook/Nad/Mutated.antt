-- ===== src/Webhook/Nad/Mutated.antt =====
-- What the validating webhook sees of a network attachment that was mutated.
use network_controller_harve.Common.{
  ◌≡◌, refl, sym, ◌∙◌, true, false, [], ◌∷◌, Option, some, none, Bytes, ◌==◌, bytes_eq, arith, find,
  ok, >>=-eq-ok, bytes_beq_refl, Bool-cases, inl, inr, ℤ, int_eq, int_iff,
}
use network_controller_harve.Objects.{
  Nad, NetConf, ClusterNetwork, key_cluster_network_label, key_uplink_mtu,
}
use network_controller_harve.Bridge.{get_bridge_name_prefix}
use network_controller_harve.Mtu.{are_equal_mtus}
use network_controller_harve.NetConf.{is_kube_ovn_cni, is_vlan_config_valid}
use network_controller_harve.Env.{Env}
use network_controller_harve.Nads.{decode_nad_config, get_nad_label}
use network_controller_harve.Webhook.Patch.{Patch, replace_config, patched_nad}
use network_controller_harve.Webhook.Nad.{target_mtu, check_bridge_config, check_nad_config}
use network_controller_harve.Webhook.Nad.Mutator.{
  mtu_of_cluster_network, patch_with, patch_mtu, create,
}

module _ (env : Env) where
  -- The documented behaviour of `sjson.Set` of the key "mtu" on a configuration that decodes: the
  -- result decodes to the same but for the MTU.
  abbrev pub MtuSetter : Type 0
  MtuSetter =
      (nad : Nad) (nc : NetConf) (mtu : ℤ) (config : Bytes)
      → decode_nad_config env nad ≡ ok nc
      → env.set_mtu nad.config mtu ≡ ok config
      → decode_nad_config env (record nad { config = config }) ≡ ok (record nc { mtu = mtu })

  -- The mutator and the validator look for the same MTU.
  mtu_of_cluster_network-target_mtu :
      (cn : Bytes) (text : Option Bytes)
      → mtu_of_cluster_network env cn text ≡ target_mtu env text cn
  unfolding mtu_of_cluster_network target_mtu
  mtu_of_cluster_network-target_mtu cn none = refl
  mtu_of_cluster_network-target_mtu cn (some text) = refl

  equal_self : (mtu : ℤ) → are_equal_mtus mtu mtu ≡ true
  unfolding are_equal_mtus
  equal_self mtu = ground (arith, int_iff mtu mtu)

  fits :
      (nad : Nad) (nc : NetConf) (cn_name : Bytes) (cn : ClusterNetwork) (mtu : ℤ)
      → is_kube_ovn_cni nc ≡ false
      → is_vlan_config_valid nc ≡ ok tt
      → get_bridge_name_prefix nc.br_name ≡ ok cn_name
      → get_nad_label nad key_cluster_network_label ≡ cn_name
      → env.get_cluster_network cn_name ≡ ok cn
      → target_mtu env (find key_uplink_mtu cn.annotations) cn_name ≡ ok mtu
      → are_equal_mtus mtu nc.mtu ≡ true
      → check_nad_config env nc nad ≡ ok tt
  unfolding check_nad_config check_bridge_config
  fits nad nc cn_name cn mtu bridge valid prefix label found target same =
      let self = bytes_beq_refl cn_name in
      elim (Bool-cases (cn_name == [])) [
        | inl e ↦ simp (bridge, label, valid, prefix, self, found, target, same, e)
        | inr e ↦ simp (bridge, label, valid, prefix, self, found, target, same, e)
      ]

  module _ (nad : Nad) (nc : NetConf) (cn_name : Bytes) (ops : Patch)
      (decodes : decode_nad_config env nad ≡ ok nc) (bridge : is_kube_ovn_cni nc ≡ false)
      (prefix : get_bridge_name_prefix nc.br_name ≡ ok cn_name) where
    -- What `patchMTU` found out when it answers.
    patch_mtu-ok :
        patch_mtu env nad ≡ ok ops
        → (cn : ClusterNetwork) × (mtu : ℤ) × (env.get_cluster_network cn_name ≡ ok cn)
          × (target_mtu env (find key_uplink_mtu cn.annotations) cn_name ≡ ok mtu)
          × (patch_with env mtu nc nad.config ≡ ok ops)
    unfolding patch_mtu
    patch_mtu-ok h =
        let (cn, e1, r1) =
          >>=-eq-ok (env.get_cluster_network cn_name) _ (simp (decodes, bridge, prefix) at h) in
        let (mtu, e2, r2) =
          >>=-eq-ok (mtu_of_cluster_network env cn_name (find key_uplink_mtu cn.annotations)) _
            r1 in
        (cn, mtu, e1, sym (mtu_of_cluster_network-target_mtu cn_name _) ∙ e2, r2)

    -- A creation of a bridge network whose label names the cluster network of its bridge and whose
    -- VLAN ids are valid: what the mutator makes of it decodes and passes `checkNadConfig` of the
    -- validator, the comparison of the MTU included.
    pub create-check_nad_config :
        MtuSetter
        → is_vlan_config_valid nc ≡ ok tt
        → get_nad_label nad key_cluster_network_label ≡ cn_name
        → create env nad ≡ ok ops
        → (after : NetConf) × (decode_nad_config env (patched_nad ops nad) ≡ ok after)
          × (check_nad_config env after (patched_nad ops nad) ≡ ok tt)
    unfolding create get_nad_label is_kube_ovn_cni is_vlan_config_valid
    create-check_nad_config setter valid label h =
        let (cn, mtu, found, target, r) = patch_mtu-ok h in
        elim (Bool-cases (are_equal_mtus mtu nc.mtu)) [
          | inl same ↦
              let p : ok [] ≡ ok ops = simp same at r in
              let q : [] ≡ ops = cc in
              rw (sym q) (
                nc,
                decodes,
                fits nad nc cn_name cn mtu bridge valid prefix label found target same,
              )
          | inr differs ↦
              let (config, e, r2) = >>=-eq-ok (env.set_mtu nad.config mtu) _ (simp differs at r) in
              let p : ok (replace_config config ∷ []) ≡ ok ops = r2 in
              let q : replace_config config ∷ [] ≡ ops = cc in
              let next : Nad = record nad { config = config } in
              let set : NetConf = record nc { mtu = mtu } in
              rw (sym q) (
                set,
                setter nad nc mtu config decodes e,
                fits next set cn_name cn mtu bridge valid prefix label found target
                    (equal_self mtu),
              )
        ]
