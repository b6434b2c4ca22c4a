-- ===== src/Vlan/Print.antt =====
-- `VidSetToString` fills its slots exactly, and prints the ids in ascending order.
use network_controller_harve.Common.{
  ℕ, zero, suc, ◌+◌, ◌-◌, ◌≡◌, refl, inl, inr, Bool, true, false, arith, some, map, if◌then◌else◌,
  nat_eq, ◌==◌, ltb, Bool-cases, ◌∙◌, ap, List, [], ◌∷◌, itoa_ℕ, join,
}
use network_controller_harve.Vlan.{
  VlanIdSet, max_vlan_id, default_vlan_id, fill_target, vid_set_to_string, comma, joined,
}
use network_controller_harve.Vlan.Count.{IsWell, count_in, members_in}

-- The ids that a set holds, in ascending order.
abbrev pub ids : VlanIdSet → List ℕ
ids vis =
    if vis.is_trunk_mode
    then members_in vis.vid_set default_vlan_id max_vlan_id
    else if vis.vid == 0
    then []
    else vis.vid ∷ []

-- With as many slots left as there are ids, no write falls past the end and no slot stays empty.
fill_target_exact :
    (cap : ℕ) (f : ℕ → Bool) (n i k : ℕ)
    → cap ≡ k + count_in f i n
    → fill_target cap f i n k ≡ some (map itoa_ℕ (members_in f i n))
unfolding fill_target members_in count_in
fill_target_exact cap f zero i k e = let left : cap - k ≡ 0 = omega arith in rw left refl
fill_target_exact cap f (suc n) i k e = elim (Bool-cases (f i)) [
  | inl here ↦
      let rest : cap ≡ suc k + count_in f (i + 1) n = ground arith in
      let room : ltb k cap ≡ true = ground arith in
      rw (here, room, fill_target_exact cap f n (i + 1) (suc k) rest) refl
  | inr gone ↦ rw (gone, fill_target_exact cap f n (i + 1) k (ground arith)) refl
]

vid_set_to_string_trunk :
    (vis : VlanIdSet)
    → vis.is_trunk_mode ≡ true
    → vid_set_to_string vis
      ≡ joined (fill_target vis.vlan_count vis.vid_set default_vlan_id max_vlan_id 0)
unfolding vid_set_to_string
vid_set_to_string_trunk vis trunk = ground arith

vid_set_to_string_single :
    (vis : VlanIdSet)
    → vis.is_trunk_mode ≡ false
    → vid_set_to_string vis ≡ some (join comma (map itoa_ℕ (ids vis)))
unfolding vid_set_to_string join
vid_set_to_string_single vis single = elim (Bool-cases (vis.vid == 0)) [
  | inl z ↦ simp (single, z)
  | inr nz ↦ simp (single, nz)
]

ids-trunk :
    (vis : VlanIdSet)
    → vis.is_trunk_mode ≡ true
    → members_in vis.vid_set default_vlan_id max_vlan_id ≡ ids vis
ids-trunk vis trunk = ground arith

-- On a well-formed set `VidSetToString` never writes past its slots, and returns the decimal texts
-- of the ids that the set holds, in ascending order, joined by commas.
pub vid_set_to_string_lem :
    (vis : VlanIdSet)
    → IsWell vis
    → vid_set_to_string vis ≡ some (join comma (map itoa_ℕ (ids vis)))
vid_set_to_string_lem vis well = elim (Bool-cases vis.is_trunk_mode) [
  | inl trunk ↦
      vid_set_to_string_trunk vis trunk
      ∙ ap joined (
          fill_target_exact vis.vlan_count vis.vid_set max_vlan_id 1 0
            (omega (arith, well.counted)))
      ∙ ap (λ l. some (join comma (map itoa_ℕ l))) (ids-trunk vis trunk)
  | inr single ↦ vid_set_to_string_single vis single
]
