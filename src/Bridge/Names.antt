-- ===== src/Bridge/Names.antt =====
-- A bridge name carries the name of its cluster network.
use network_controller_harve.Common.{
  ℕ, ◌+◌, ◌-◌, ◌≤◌, ◌<◌, ◌≡◌, sym, ◌∙◌, ap, true, false, ◌++◌, ltb, length, take, arith, Bytes,
  has_suffix, ok, ◌↔◌, length-append, length-take, take-append, has_suffix-append,
  append_of_has_suffix,
}
use network_controller_harve.Bridge.{
  bridge_suffix, max_cluster_network_name_len, is_bridge_name_valid, get_bridge_name_prefix,
  generate_bridge_name, is_cluster_network_name_valid,
}

valid_of_prefix :
    (b cn : Bytes)
    → get_bridge_name_prefix b ≡ ok cn
    → (3 < length b)
      × (length b ≤ 15)
      × (has_suffix b bridge_suffix ≡ true)
      × (take (length b - 3) b ≡ cn)
unfolding get_bridge_name_prefix is_bridge_name_valid
valid_of_prefix b cn h = ground arith

prefix_of_valid :
    (b : Bytes)
    → 3 < length b
    → length b ≤ 15
    → has_suffix b bridge_suffix ≡ true
    → get_bridge_name_prefix b ≡ ok (take (length b - 3) b)
unfolding get_bridge_name_prefix is_bridge_name_valid
prefix_of_valid b lo hi e = ground arith

abbrev pub IsBridgeOf : Bytes → Bytes → Type 0
IsBridgeOf cn b =
    (b ≡ cn ++ bridge_suffix) × (0 < length cn) × (length cn ≤ max_cluster_network_name_len)

IsBridgeOf-prefix : (b cn : Bytes) → get_bridge_name_prefix b ≡ ok cn → IsBridgeOf cn b
IsBridgeOf-prefix b cn h =
    let (lo, hi, e, cut) = valid_of_prefix b cn h in
    let n : length cn ≡ length b - 3 =
      ap length (sym cut) ∙ length-take (length b - 3) b (omega arith) in
    (
      sym (append_of_has_suffix b bridge_suffix e) ∙ ap (λ p. p ++ bridge_suffix) cut,
      omega arith,
      omega arith,
    )

prefix_of_bridge :
    (cn : Bytes)
    → 0 < length cn
    → length cn ≤ max_cluster_network_name_len
    → get_bridge_name_prefix (cn ++ bridge_suffix) ≡ ok cn
prefix_of_bridge cn lo hi =
    let n : length (cn ++ bridge_suffix) ≡ length cn + 3 = length-append cn bridge_suffix in
    let k : length (cn ++ bridge_suffix) - 3 ≡ length cn = omega arith in
    prefix_of_valid (cn ++ bridge_suffix) (omega arith) (omega arith)
      (has_suffix-append cn bridge_suffix)
    ∙ ap ok (ap (λ (m : ℕ). take m (cn ++ bridge_suffix)) k ∙ take-append cn bridge_suffix)

-- `GetBridgeNamePrefix` answers with the cluster network `cn` exactly if the bridge name is `cn`
-- with the suffix "-br", and `cn` has 1 to 12 bytes.
pub get_bridge_name_prefix-eq-ok :
    (br_name cn : Bytes) → (get_bridge_name_prefix br_name ≡ ok cn) ↔ IsBridgeOf cn br_name
get_bridge_name_prefix-eq-ok br_name cn =
    (IsBridgeOf-prefix br_name cn, λ h. rw h.0 (prefix_of_bridge cn h.1 h.2))

-- For every name that is not empty and that `IsClusterNetworkNameValid` accepts, the bridge name
-- that is generated for it is a valid bridge name, whose prefix is the name again.
get_bridge_name_prefix-generate_bridge_name :
    (cn : Bytes)
    → 0 < length cn
    → is_cluster_network_name_valid cn ≡ ok tt
    → get_bridge_name_prefix (generate_bridge_name cn) ≡ ok cn
unfolding generate_bridge_name is_cluster_network_name_valid
get_bridge_name_prefix-generate_bridge_name cn lo h =
    let fits : ltb 12 (length cn) ≡ false = ground arith in
    rw fits (prefix_of_bridge cn lo (ground arith))
