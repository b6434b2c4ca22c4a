-- ===== src/Vlan/Set.antt =====
-- `SetVID`, `_unsetVID` and `ConvertToTrunkMode` keep a set well-formed.
use network_controller_harve.Common.{
  ℕ, zero, suc, ◌+◌, ◌-◌, ◌%◌, ◌^◌, ◌≤◌, ◌<◌, ◌≡◌, refl, inl, inr, Bool, true, false, ◌||◌, ◌&&◌,
  arith, if◌then◌else◌, nat_iff, nat_eq, ◌==◌, ltb, ℤ, pos, negsuc, ok, ◌≤ℤ◌, Bool-cases, ◌∙◌, sym,
}
use network_controller_harve.Vlan.{
  VlanIdSet, write, max_vlan_id, set_in_range, set_vid, unset_vid, convert_to_trunk_mode,
  new_from_single_vid,
}
use network_controller_harve.Vlan.Count.{
  count_in, count_in-le, count_in-set, count_in-clear, count_in-ext, write_ne, IsWell,
}

-- What a set holds, in either mode: the ids of the slice, or the one id that is not 0.
abbrev pub holds : VlanIdSet → ℕ → Bool
holds vis i = if vis.is_trunk_mode then vis.vid_set i else ltb 0 i && i == vis.vid

-- The set after an id that was clear is set in trunk mode, as `_setVID` writes it.
abbrev added : VlanIdSet → ℕ → VlanIdSet
added vis v = record vis {
  vid_set = write vis.vid_set v true;
  vlan_count = (vis.vlan_count + 1) % 2 ^ 32;
}

abbrev removed : VlanIdSet → ℕ → VlanIdSet
removed vis v = record vis {
  vid_set = write vis.vid_set v false;
  vlan_count = (vis.vlan_count + 2 ^ 32 - 1) % 2 ^ 32;
}

module _ (vis : VlanIdSet) (v : ℕ) (well : IsWell vis) (fits : v ≤ max_vlan_id) where
  added-IsWell : 0 < v → vis.is_trunk_mode ≡ true → vis.vid_set v ≡ false → IsWell (added vis v)
  added-IsWell above trunk clear = record {
    counted = omega (
      arith,
      well.counted,
      count_in-set vis.vid_set v 1 max_vlan_id clear above (omega arith),
      count_in-le vis.vid_set 1 max_vlan_id,
    );
    zero_clear = ground (arith, write_ne vis.vid_set v true 0, well.zero_clear);
    high_clear = λ i h. ground (arith, write_ne vis.vid_set v true i, well.high_clear i h);
    vid_in_range = well.vid_in_range;
    single_clear = λ e. cc;
  }

  removed-IsWell : 0 < v → vis.is_trunk_mode ≡ true → vis.vid_set v ≡ true → IsWell (removed vis v)
  removed-IsWell above trunk isset = record {
    counted = omega (
      arith,
      well.counted,
      count_in-clear vis.vid_set v 1 max_vlan_id isset above (omega arith),
      count_in-le vis.vid_set 1 max_vlan_id,
    );
    zero_clear = ground (arith, write_ne vis.vid_set v false 0, well.zero_clear);
    high_clear = λ i h. ground (arith, write_ne vis.vid_set v false i, well.high_clear i h);
    vid_in_range = well.vid_in_range;
    single_clear = λ e. cc;
  }

  single-IsWell : vis.is_trunk_mode ≡ false → IsWell (record vis { vid = v })
  single-IsWell single = record {
    counted = well.counted;
    zero_clear = well.zero_clear;
    high_clear = well.high_clear;
    vid_in_range = fits;
    single_clear = well.single_clear;
  }

  pub set_in_range-IsWell : IsWell (set_in_range vis v)
  unfolding set_in_range
  set_in_range-IsWell = elim (Bool-cases (v == 0)) [
    | inl z ↦ let e : set_in_range vis v ≡ vis = ground arith in rw e well
    | inr nz ↦ elim (Bool-cases vis.is_trunk_mode) [
      | inl trunk ↦ elim (Bool-cases (vis.vid_set v)) [
        | inl old ↦ let e : set_in_range vis v ≡ vis = ground arith in rw e well
        | inr new ↦
            let e : set_in_range vis v ≡ added vis v = ground arith in
            rw e (added-IsWell (ground (arith, nat_iff v 0)) trunk new)
      ]
      | inr single ↦
          let e : set_in_range vis v ≡ record vis { vid = v } = ground arith in
          rw e (single-IsWell single)
    ]
  ]

  pub vid_set-set_in_range :
      (i : ℕ)
      → vis.is_trunk_mode ≡ true
      → (set_in_range vis v).vid_set i ≡ (vis.vid_set i || (ltb 0 i && i == v))
  unfolding set_in_range
  vid_set-set_in_range i trunk =
      ground (arith, well.zero_clear, write_ne vis.vid_set v true i, nat_iff i v)

  pub is_trunk_mode-set_in_range : (set_in_range vis v).is_trunk_mode ≡ vis.is_trunk_mode
  unfolding set_in_range
  is_trunk_mode-set_in_range = ground arith

  -- Within the range [0, 4094] `SetVID` succeeds. In trunk mode it then holds the id as well, and
  -- what it held before; 0 is never held. The set stays well-formed, so its counter is exact.
  pub set_vid-trunk :
      vis.is_trunk_mode ≡ true
      → (t : VlanIdSet) × (set_vid vis (pos v) ≡ ok t)
        × IsWell t
        × (t.is_trunk_mode ≡ true)
        × ((i : ℕ) → t.vid_set i ≡ (vis.vid_set i || (ltb 0 i && i == v)))
  unfolding set_vid
  set_vid-trunk trunk = (
    set_in_range vis v,
    ground arith,
    set_in_range-IsWell,
    is_trunk_mode-set_in_range ∙ trunk,
    λ i. vid_set-set_in_range i trunk,
  )

-- `_unsetVID` of a set id in [1, 4094] keeps a trunk set well-formed, and takes only that id away.
unset_vid-IsWell :
    (vis : VlanIdSet) (v : ℕ)
    → IsWell vis
    → v ≤ max_vlan_id
    → vis.is_trunk_mode ≡ true
    → IsWell (unset_vid vis v)
      × ((i : ℕ) → (unset_vid vis v).vid_set i ≡ write vis.vid_set v false i)
unfolding unset_vid
unset_vid-IsWell vis v well fits trunk = elim (Bool-cases (vis.vid_set v)) [
  | inl old ↦
      let e : unset_vid vis v ≡ removed vis v = ground arith in
      let above : 0 < v = ground (arith, well.zero_clear) in
      rw e (removed-IsWell vis v well fits above trunk old, λ i. refl)
  | inr new ↦
      let e : unset_vid vis v ≡ vis = ground arith in rw e (well, λ i. ground (arith, nat_iff i v))
]

-- Setting a fresh id in [1, 4094] of a trunk set and unsetting it gives back the same ids, and the
-- same counter.
unset_vid-set_in_range :
    (vis : VlanIdSet) (v : ℕ)
    → IsWell vis
    → 0 < v
    → v ≤ max_vlan_id
    → vis.is_trunk_mode ≡ true
    → vis.vid_set v ≡ false
    → ((i : ℕ) → (unset_vid (set_in_range vis v) v).vid_set i ≡ vis.vid_set i)
      × ((unset_vid (set_in_range vis v) v).vlan_count ≡ vis.vlan_count)
unset_vid-set_in_range vis v well above fits trunk new =
    let mid = set_in_range-IsWell vis v well fits in
    let on = is_trunk_mode-set_in_range vis v well fits ∙ trunk in
    let (after, ids) = unset_vid-IsWell (set_in_range vis v) v mid fits on in
    let same : (i : ℕ) → (unset_vid (set_in_range vis v) v).vid_set i ≡ vis.vid_set i =
      λ i. ground (arith, ids i, vid_set-set_in_range vis v well fits i trunk, nat_iff i v) in
    (same, after.counted ∙ count_in-ext _ _ 1 max_vlan_id (λ j lo hi. same j) ∙ sym well.counted)

-- The empty set of `NewVlanIDSet` is well-formed.
count_in-clear_all : (i n : ℕ) → count_in (λ j. false) i n ≡ 0
unfolding count_in
count_in-clear_all i zero = refl
count_in-clear_all i (suc n) = omega (arith, count_in-clear_all (i + 1) n)

pub empty-IsWell :
    (trunk : Bool)
    → IsWell (record { vlan_count = 0; vid_set = λ i. false; vid = 0; is_trunk_mode = trunk })
empty-IsWell trunk = record {
  counted = sym (count_in-clear_all 1 max_vlan_id);
  zero_clear = refl;
  high_clear = λ i h. refl;
  vid_in_range = omega arith;
  single_clear = λ e i. refl;
}

abbrev opened : VlanIdSet → VlanIdSet
opened vis = record vis { vid_set = λ i. false; is_trunk_mode = true }

opened-IsWell : (vis : VlanIdSet) → IsWell vis → vis.is_trunk_mode ≡ false → IsWell (opened vis)
opened-IsWell vis well single = record {
  counted =
      well.counted
      ∙ count_in-ext vis.vid_set (λ i. false) 1 max_vlan_id (λ j lo hi. well.single_clear single j);
  zero_clear = refl;
  high_clear = λ i h. refl;
  vid_in_range = well.vid_in_range;
  single_clear = λ e i. refl;
}

convert-single :
    (vis : VlanIdSet)
    → vis.is_trunk_mode ≡ false
    → convert_to_trunk_mode vis ≡ set_in_range (opened vis) vis.vid
unfolding convert_to_trunk_mode
convert-single vis single = ground arith

convert-trunk : (vis : VlanIdSet) → vis.is_trunk_mode ≡ true → convert_to_trunk_mode vis ≡ vis
unfolding convert_to_trunk_mode
convert-trunk vis trunk = ground arith

-- A well-formed set converts to a well-formed trunk set that holds the same ids.
convert_to_trunk_mode_lem :
    (vis : VlanIdSet)
    → IsWell vis
    → IsWell (convert_to_trunk_mode vis)
      × ((convert_to_trunk_mode vis).is_trunk_mode ≡ true)
      × ((i : ℕ) → holds (convert_to_trunk_mode vis) i ≡ holds vis i)
convert_to_trunk_mode_lem vis well = elim (Bool-cases vis.is_trunk_mode) [
  | inl trunk ↦ rw (convert-trunk vis trunk) (well, trunk, λ i. refl)
  | inr single ↦
      let start = opened-IsWell vis well single in
      let mode = is_trunk_mode-set_in_range (opened vis) vis.vid start well.vid_in_range in
      let ids =
        λ (i : ℕ). vid_set-set_in_range (opened vis) vis.vid start well.vid_in_range i refl in
      rw (convert-single vis single) (
        set_in_range-IsWell (opened vis) vis.vid start well.vid_in_range,
        mode,
        λ i. ground (arith, mode, ids i),
      )
]

-- `NewVlanIDSetFromSingleVID` of an id in [0, 4094] is a well-formed single-mode set with that id.
pub new_from_single_vid_lem :
    (v : ℤ)
    → pos 0 ≤ℤ v
    → v ≤ℤ pos max_vlan_id
    → (t : VlanIdSet) × (new_from_single_vid v ≡ ok t)
      × IsWell t
      × (t.is_trunk_mode ≡ false)
      × (v ≡ pos t.vid)
unfolding new_from_single_vid
new_from_single_vid_lem (negsuc v) lo hi = absurd (omega arith)
new_from_single_vid_lem (pos v) lo hi =
    let start : VlanIdSet = record {
      vlan_count = 0;
      vid_set = λ i. false;
      vid = 0;
      is_trunk_mode = false;
    } in
    let well : IsWell start = empty-IsWell false in
    (
      set_in_range start v,
      ground arith,
      set_in_range-IsWell start v well (omega arith),
      is_trunk_mode-set_in_range start v well (omega arith),
      ground (arith, nat_iff v 0),
    )
