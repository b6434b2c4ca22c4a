-- ===== src/Network/Ports/Manual.antt =====
-- The VLAN ids that the links of a node name.
use network_controller_harve.Common.{
  ℕ, ◌≤◌, ◌≡◌, refl, Bool, true, false, not, ◌&&◌, List, [], ◌∷◌, ◌++◌, Bytes, nat_eq, arith,
  if◌then◌else◌, All, Option, some, none, ℤ, pos, negsuc, ltb_ℤ, leb_ℤ, ◌%◌, ◌^◌, atoi, split_from,
  has_prefix,
}
use network_controller_harve.Bridge.{device_prefix}
use network_controller_harve.Network.{Link}
use network_controller_harve.Network.Ports.{manual_id, second_part, manual_vlan, manual_vlans}

-- An id that a user may have configured.
abbrev pub IsConfigurable : ℕ → Type 0
IsConfigurable v = (2 ≤ v) × (v ≤ 4094)

gate :
    (b : Bool) (v : ℕ)
    → (b ≡ true → IsConfigurable v)
    → All IsConfigurable (if b then v ∷ [] else [])
gate true v h = (h refl, tt)
gate false v h = tt

manual_id-IsConfigurable : (o : Option ℤ) → All IsConfigurable (manual_id o)
manual_id-IsConfigurable none = tt
manual_id-IsConfigurable (some (pos n)) =
    gate (ltb_ℤ (pos 1) (pos n) && leb_ℤ (pos n) (pos 4094)) (n % 2 ^ 16)
      (λ e. (ground arith, ground arith))
manual_id-IsConfigurable (some (negsuc n)) =
    gate (ltb_ℤ (pos 1) (negsuc n) && leb_ℤ (negsuc n) (pos 4094)) 0 (λ e. absurd (ground arith))

All-append : (P : ℕ → Type 0) (xs ys : List ℕ) → All P xs → All P ys → All P (xs ++ ys)
All-append P [] ys h k = k
All-append P (x ∷ xs) ys h k = (h.0, All-append P xs ys h.1 k)

second_part-IsConfigurable : (parts : List Bytes) → All IsConfigurable (second_part parts)
second_part-IsConfigurable [] = tt
second_part-IsConfigurable (a ∷ []) = tt
second_part-IsConfigurable (a ∷ b ∷ []) = manual_id-IsConfigurable (atoi b)
second_part-IsConfigurable (a ∷ b ∷ c ∷ rest) = tt

-- Every id of `getManuallyConfiguredVlans`, whatever the names of the links, lies in [2, 4094].
pub manual_vlans-IsConfigurable :
    (cn_name : Bytes) (links : List Link) → All IsConfigurable (manual_vlans cn_name links)
unfolding manual_vlans
manual_vlans-IsConfigurable cn_name [] = tt
manual_vlans-IsConfigurable cn_name (link ∷ links) =
    All-append IsConfigurable (manual_vlan (device_prefix cn_name) link.name)
      (manual_vlans cn_name links) (one (has_prefix link.name (device_prefix cn_name)))
      (manual_vlans-IsConfigurable cn_name links)
  where
    one :
        (b : Bool)
        → All IsConfigurable (if not b then [] else second_part (split_from b'.' [] link.name))
    one true = second_part-IsConfigurable (split_from b'.' [] link.name)
    one false = tt
