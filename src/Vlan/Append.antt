-- ===== src/Vlan/Append.antt =====
-- `Append` is the union of two sets.
use network_controller_harve.Common.{
  ℕ, zero, suc, ◌+◌, ◌≤◌, ◌<◌, ◌≡◌, refl, inl, inr, Bool, true, false, ◌||◌, ◌&&◌, arith, some,
  nat_iff, nat_eq, ◌==◌, ltb, leb, pos, ok, Bool-cases, ◌∙◌, ap,
}
use network_controller_harve.Vlan.{
  VlanIdSet, max_vlan_id, default_vlan_id, set_vid, copy_vids, append,
}
use network_controller_harve.Vlan.Count.{count_in, clear_of_count_in, IsWell}
use network_controller_harve.Vlan.Set.{holds, set_vid-trunk}

-- `t` is a well-formed trunk set that holds what `vis` holds, and the ids of `more`.
abbrev pub Joins : VlanIdSet → (ℕ → Bool) → VlanIdSet → Type 0
Joins vis more t =
    IsWell t × (t.is_trunk_mode ≡ true) × ((j : ℕ) → t.vid_set j ≡ (vis.vid_set j || more j))

module _ (other : VlanIdSet) where
  abbrev in_range : ℕ → ℕ → ℕ → Bool
  in_range i n j = other.vid_set j && leb i j && ltb j (i + n)

  copy_vids-Joins :
      (n i : ℕ) (vis : VlanIdSet)
      → IsWell vis
      → vis.is_trunk_mode ≡ true
      → 0 < i
      → i + n ≤ suc max_vlan_id
      → (t : VlanIdSet) × (copy_vids other i n vis ≡ ok t) × Joins vis (in_range i n) t
  unfolding copy_vids
  copy_vids-Joins zero i vis well trunk above fits = (vis, refl, (well, trunk, λ j. ground arith))
  copy_vids-Joins (suc n) i vis well trunk above fits = elim (Bool-cases (other.vid_set i)) [
    | inl here ↦
        let (mid, did, mid_well, mid_trunk, mid_ids) =
          set_vid-trunk vis i well (omega arith) trunk in
        let (t, e, joins) =
          copy_vids-Joins n (i + 1) mid mid_well mid_trunk (omega arith) (omega arith) in
        let (t_well, t_trunk, ids) = joins in
        (t, rw (here, did) e, (t_well, t_trunk, λ j. ground (arith, ids j, mid_ids j, nat_iff j i)))
    | inr gone ↦
        let (t, e, joins) = copy_vids-Joins n (i + 1) vis well trunk (omega arith) (omega arith) in
        let (t_well, t_trunk, ids) = joins in
        (t, rw gone e, (t_well, t_trunk, λ j. ground (arith, ids j, nat_iff j i)))
  ]

module _ (vis other : VlanIdSet) (trunk : vis.is_trunk_mode ≡ true) where
  append-nothing :
      other.is_trunk_mode ≡ true → (other.vlan_count == 0) ≡ true → append vis (some other) ≡ ok vis
  unfolding append
  append-nothing trunk' e = ground arith

  append-loop :
      other.is_trunk_mode ≡ true
      → (other.vlan_count == 0) ≡ false
      → append vis (some other) ≡ copy_vids other default_vlan_id max_vlan_id vis
  unfolding append
  append-loop trunk' e = ground arith

  append-vid : other.is_trunk_mode ≡ false → append vis (some other) ≡ set_vid vis (pos other.vid)
  unfolding append
  append-vid single = ground arith

-- The ids of a well-formed set lie in the range of the loop.
in_range_all :
    (other : VlanIdSet) → IsWell other → (j : ℕ) → in_range other 1 max_vlan_id j ≡ other.vid_set j
in_range_all other well zero = ground (arith, well.zero_clear)
in_range_all other well (suc j) = ground (arith, well.high_clear (suc j))

-- Appending a trunk set to a trunk set, both well-formed, always succeeds; the result is
-- well-formed, with an exact counter, and holds exactly the ids of both.
append-trunk :
    (vis other : VlanIdSet)
    → IsWell vis
    → IsWell other
    → vis.is_trunk_mode ≡ true
    → other.is_trunk_mode ≡ true
    → (t : VlanIdSet) × (append vis (some other) ≡ ok t) × Joins vis other.vid_set t
append-trunk vis other well well' trunk trunk' = elim (Bool-cases (other.vlan_count == 0)) [
  | inl e ↦
      let zero_count : count_in other.vid_set 1 max_vlan_id ≡ 0 =
        ground (arith, well'.counted, nat_iff other.vlan_count 0) in
      let clear : (j : ℕ) → other.vid_set j ≡ false = λ j. ground (
        arith,
        in_range_all other well' j,
        clear_of_count_in other.vid_set 1 max_vlan_id j zero_count,
      ) in
      (vis, append-nothing vis other trunk trunk' e, (well, trunk, λ j. ground (arith, clear j)))
  | inr e ↦
      let (t, did, joins) =
        copy_vids-Joins other max_vlan_id 1 vis well trunk (omega arith) (omega arith) in
      let ids = joins.2 in
      (
        t,
        append-loop vis other trunk trunk' e ∙ did,
        (joins.0, joins.1, λ j. ids j ∙ ap (λ b. vis.vid_set j || b) (in_range_all other well' j)),
      )
]

-- Appending a well-formed single-mode set to a trunk set adds its one id, unless that is 0.
append-single :
    (vis other : VlanIdSet)
    → IsWell vis
    → IsWell other
    → vis.is_trunk_mode ≡ true
    → other.is_trunk_mode ≡ false
    → (t : VlanIdSet) × (append vis (some other) ≡ ok t) × Joins vis (holds other) t
append-single vis other well well' trunk single =
    let (t, e, t_well, t_trunk, ids) = set_vid-trunk vis other.vid well well'.vid_in_range trunk in
    (t, append-vid vis other trunk single ∙ e, (t_well, t_trunk, λ j. ground (arith, ids j)))

-- Whatever the mode of the second set, appending it to a trunk set succeeds, and the result is
-- well-formed and holds exactly what the two hold.
pub append-Joins :
    (vis other : VlanIdSet)
    → IsWell vis
    → IsWell other
    → vis.is_trunk_mode ≡ true
    → (t : VlanIdSet) × (append vis (some other) ≡ ok t) × Joins vis (holds other) t
append-Joins vis other well well' trunk = elim (Bool-cases other.is_trunk_mode) [
  | inr single ↦ append-single vis other well well' trunk single
  | inl trunk' ↦
      let (t, e, joins) = append-trunk vis other well well' trunk trunk' in
      let ids = joins.2 in (t, e, (joins.0, joins.1, λ j. ground (arith, ids j)))
]
