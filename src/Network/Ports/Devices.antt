-- ===== src/Network/Ports/Devices.antt =====
-- The name of the VLAN sub-interface that an agent makes for a host network configuration.
use mathlib.Core.List.{append_assoc}
use network_controller_harve.Common.{
  ℕ, ◌≤◌, ◌%◌, ◌^◌, ◌≡◌, refl, sym, ◌∙◌, ap, true, false, List, [], ◌∷◌, ◌++◌, Bytes, arith,
  All-mono, Any, ltb, pos, ltb_ℤ, leb_ℤ, atoi, atoi-itoa_ℕ, itoa_ℕ, itoa_ℕ-All, NoDot, split-part,
  split-last, split_from, has_prefix, has_prefix-append, length, inl, inr,
}
use network_controller_harve.Bridge.{
  bridge_suffix, device_prefix, vlan_device, br_vlan_device, generate_bridge_name, generate_name,
}
use network_controller_harve.Network.{Link}
use network_controller_harve.Network.Ports.{manual_id, manual_vlan, manual_vlans}

NoDot-append : (s r : Bytes) → NoDot s → NoDot r → NoDot (s ++ r)
NoDot-append [] r h k = k
NoDot-append (c ∷ s) r h k = (h.0, NoDot-append s r h.1 k)

itoa_ℕ-NoDot : (n : ℕ) → NoDot (itoa_ℕ n)
itoa_ℕ-NoDot n = All-mono (λ c d e. ground (arith, e, d)) (itoa_ℕ n) (itoa_ℕ-All n)

device-parts :
    (cn_name : Bytes) (vid : ℕ)
    → NoDot cn_name
    → split_from b'.' [] (vlan_device cn_name vid)
      ≡ (cn_name ++ bridge_suffix) ∷ itoa_ℕ (vid % 2 ^ 16) ∷ []
unfolding vlan_device device_prefix
device-parts cn_name vid plain =
    let suffix : NoDot bridge_suffix =
      (λ e. omega (arith, e), (λ e. omega (arith, e), (λ e. omega (arith, e), tt))) in
    ap (λ s. split_from b'.' [] s)
      (append_assoc (cn_name ++ bridge_suffix) (b'.' ∷ []) (itoa_ℕ (vid % 2 ^ 16)))
    ∙ split-part (cn_name ++ bridge_suffix) [] (itoa_ℕ (vid % 2 ^ 16))
        (NoDot-append cn_name bridge_suffix plain suffix)
    ∙ ap (λ ps. (cn_name ++ bridge_suffix) ∷ ps)
        (split-last (itoa_ℕ (vid % 2 ^ 16)) [] (itoa_ℕ-NoDot _))

vlan_device-prefix :
    (cn_name : Bytes) (vid : ℕ)
    → has_prefix (vlan_device cn_name vid) (device_prefix cn_name) ≡ true
unfolding vlan_device
vlan_device-prefix cn_name vid = has_prefix-append (device_prefix cn_name) (itoa_ℕ (vid % 2 ^ 16))

manual_id-itoa :
    (vid : ℕ) → 2 ≤ vid → vid ≤ 4094 → manual_id (atoi (itoa_ℕ (vid % 2 ^ 16))) ≡ vid ∷ []
manual_id-itoa vid lo hi =
    let small : vid % 2 ^ 16 ≡ vid = omega arith in
    let read = atoi-itoa_ℕ vid (omega arith) in
    let above : ltb_ℤ (pos 1) (pos vid) ≡ true = ground arith in
    let below : leb_ℤ (pos vid) (pos 4094) ≡ true = ground arith in
    rw (small, read, above, below, small) refl

-- For a cluster network of which the name holds no dot and an id in [2, 4094],
-- `getManuallyConfiguredVlans` takes the name of `GetClusterNetworkVlanDevice` for a sub-interface
-- with exactly that id.
manual_vlan-vlan_device :
    (cn_name : Bytes) (vid : ℕ)
    → NoDot cn_name
    → 2 ≤ vid
    → vid ≤ 4094
    → manual_vlan (device_prefix cn_name) (vlan_device cn_name vid) ≡ vid ∷ []
manual_vlan-vlan_device cn_name vid plain lo hi =
    rw (vlan_device-prefix cn_name vid, device-parts cn_name vid plain) (manual_id-itoa vid lo hi)

Any-append-right : (P : ℕ → Type 0) (xs ys : List ℕ) → Any P ys → Any P (xs ++ ys)
Any-append-right P [] ys h = h
Any-append-right P (x ∷ xs) ys h = inr (Any-append-right P xs ys h)

-- Whenever the links of a node include the sub-interface that an agent names for a host network
-- configuration, with an id in [2, 4094] on a cluster network of which the name holds no dot, the ids
-- of `getManuallyConfiguredVlans` for the cluster network include that id.
pub manual_vlans-vlan_device :
    (cn_name : Bytes) (vid : ℕ) (links : List Link)
    → NoDot cn_name
    → 2 ≤ vid
    → vid ≤ 4094
    → Any (λ (l : Link). l.name ≡ vlan_device cn_name vid) links
    → Any (λ v. v ≡ vid) (manual_vlans cn_name links)
unfolding manual_vlans
manual_vlans-vlan_device cn_name vid [] plain lo hi h = elim h [ ]
manual_vlans-vlan_device cn_name vid (l ∷ links) plain lo hi (inl named) =
    rw (named, manual_vlan-vlan_device cn_name vid plain lo hi) (inl refl)
manual_vlans-vlan_device cn_name vid (l ∷ links) plain lo hi (inr later) =
    Any-append-right (λ v. v ≡ vid) (manual_vlan (device_prefix cn_name) l.name)
      (manual_vlans cn_name links) (manual_vlans-vlan_device cn_name vid links plain lo hi later)

-- The device that the agent makes at the bridge of a cluster network, of which the name fits, has
-- the name of `GetClusterNetworkVlanDevice`.
br_vlan_device-generate_bridge_name :
    (cn_name : Bytes) (vid : ℕ)
    → length cn_name ≤ 12
    → br_vlan_device (generate_bridge_name cn_name) vid ≡ vlan_device cn_name vid
unfolding br_vlan_device generate_bridge_name generate_name vlan_device device_prefix
br_vlan_device-generate_bridge_name cn_name vid fits =
    let short : ltb 12 (length cn_name) ≡ false = ground arith in
    rw short (sym (append_assoc (cn_name ++ bridge_suffix) (b'.' ∷ []) (itoa_ℕ (vid % 2 ^ 16))))
