-- ===== src/Vlan/Diff.antt =====
-- `Diff` finds exactly the ids to add and to remove.
use network_controller_harve.Common.{
  ℕ, zero, suc, ◌+◌, ◌-◌, ◌≤◌, ◌<◌, ◌≡◌, refl, inl, inr, Bool, true, false, ◌||◌, ◌&&◌, not, arith,
  some, nat_iff, nat_eq, ◌==◌, ltb, leb, ok, Bool-cases, ◌∙◌,
}
use network_controller_harve.Vlan.{
  VlanIdSet, max_vlan_id, default_vlan_id, set_if, diff_vids, diff, new_vlan_id_set,
}
use network_controller_harve.Vlan.Count.{IsWell}
use network_controller_harve.Vlan.Set.{
  set_in_range-IsWell, vid_set-set_in_range, is_trunk_mode-set_in_range, empty-IsWell,
}
use network_controller_harve.Vlan.Append.{Joins}

set_if-Joins :
    (b : Bool) (vis : VlanIdSet) (i : ℕ)
    → IsWell vis
    → vis.is_trunk_mode ≡ true
    → 0 < i
    → i ≤ max_vlan_id
    → Joins vis (λ j. b && j == i) (set_if b vis i)
set_if-Joins false vis i well trunk above fits = (well, trunk, λ j. ground arith)
set_if-Joins true vis i well trunk above fits = (
  set_in_range-IsWell vis i well fits,
  is_trunk_mode-set_in_range vis i well fits ∙ trunk,
  λ j. ground (arith, vid_set-set_in_range vis i well fits j trunk, nat_iff j i),
)

-- The ids of the range that `p` has and `q` has not.
abbrev less : (ℕ → Bool) → (ℕ → Bool) → ℕ → ℕ → ℕ → Bool
less p q i n j = p j && not (q j) && (leb i j && ltb j (i + n))

module _ (new old : ℕ → Bool) where
  diff_vids-Joins :
      (n i : ℕ) (added removed : VlanIdSet)
      → IsWell added
      → added.is_trunk_mode ≡ true
      → IsWell removed
      → removed.is_trunk_mode ≡ true
      → 0 < i
      → i + n ≤ suc max_vlan_id
      → Joins added (less new old i n) (diff_vids new old i n added removed).0
        × Joins removed (less old new i n) (diff_vids new old i n added removed).1
  unfolding diff_vids
  diff_vids-Joins zero i added removed aw at' rw' rt above fits =
      ((aw, at', λ j. ground arith), (rw', rt, λ j. ground arith))
  diff_vids-Joins (suc n) i added removed aw at' rw' rt above fits =
      let (aw', at'', a_ids) =
        set_if-Joins (new i && not (old i)) added i aw at' above (omega arith) in
      let (rw'', rt', r_ids) =
        set_if-Joins (old i && not (new i)) removed i rw' rt above (omega arith) in
      let (a, r) =
        diff_vids-Joins n (i + 1) (set_if (new i && not (old i)) added i)
          (set_if (old i && not (new i)) removed i) aw' at'' rw'' rt' (omega arith) (omega arith) in
      let (a_well, a_trunk, a_all) = a in
      let (r_well, r_trunk, r_all) = r in
      (
        (a_well, a_trunk, λ j. ground (arith, a_all j, a_ids j, nat_iff j i)),
        (r_well, r_trunk, λ j. ground (arith, r_all j, r_ids j, nat_iff j i)),
      )

diff_trunk :
    (vis existing : VlanIdSet)
    → vis.is_trunk_mode ≡ true
    → existing.is_trunk_mode ≡ true
    → diff vis (some existing)
      ≡ ok (
          diff_vids vis.vid_set existing.vid_set
            (default_vlan_id + 1)
            (max_vlan_id - 1)
            new_vlan_id_set
            new_vlan_id_set)
unfolding diff
diff_trunk vis existing trunk trunk' = ground arith

-- An id that a diff is about: 1 is always there and never added or removed.
abbrev pub IsDiffed : ℕ → Type 0
IsDiffed j = (default_vlan_id + 1 ≤ j) × (j ≤ max_vlan_id)

window : ℕ → Bool
window j = leb 2 j && ltb j 4095

window-true : (j : ℕ) → window j ≡ true → IsDiffed j
unfolding window
window-true j h = ground arith

window-false : (j : ℕ) → ¬ IsDiffed j → window j ≡ false
window-false j h = elim (Bool-cases (window j)) [ inl e ↦ absurd (h (window-true j e)) | inr e ↦ e ]

less_in : (p q : ℕ → Bool) (j : ℕ) → IsDiffed j → less p q 2 4093 j ≡ (p j && not (q j))
less_in p q j h = ground arith

less_out : (p q : ℕ → Bool) (j : ℕ) → ¬ IsDiffed j → less p q 2 4093 j ≡ false
unfolding window
less_out p q j h = ground (arith, window-false j h)

-- Adding what is only in `new` to `old` and taking away what is only in `old` gives `new`.
patched : (new old : Bool) → ((old || (new && not old)) && not (old && not new)) ≡ new
patched true true = refl
patched true false = refl
patched false true = refl
patched false false = refl

-- `Diff` of two trunk sets succeeds, and both results are well-formed trunk sets. For every id in
-- [2, 4094], `added` holds it exactly if only the new set does, `removed` exactly if only the
-- existing set does, and taking the existing ids, adding `added` and taking `removed` away gives the
-- new set. Neither result holds any other id.
pub diff_lem :
    (vis existing : VlanIdSet)
    → vis.is_trunk_mode ≡ true
    → existing.is_trunk_mode ≡ true
    → (added : VlanIdSet) × (removed : VlanIdSet) × (diff vis (some existing) ≡ ok (added, removed))
      × IsWell added
      × (added.is_trunk_mode ≡ true)
      × IsWell removed
      × (removed.is_trunk_mode ≡ true)
      × ((j : ℕ)
          → IsDiffed j
          → (added.vid_set j ≡ (vis.vid_set j && not (existing.vid_set j)))
            × (removed.vid_set j ≡ (existing.vid_set j && not (vis.vid_set j)))
            × (((existing.vid_set j || added.vid_set j) && not (removed.vid_set j))
                ≡ vis.vid_set j))
      × ((j : ℕ) → ¬ IsDiffed j → (added.vid_set j ≡ false) × (removed.vid_set j ≡ false))
unfolding new_vlan_id_set
diff_lem vis existing trunk trunk' =
    let new = vis.vid_set in
    let old = existing.vid_set in
    let (a, r) =
      diff_vids-Joins new old (max_vlan_id - 1) (default_vlan_id + 1) new_vlan_id_set
        new_vlan_id_set (empty-IsWell true) refl (empty-IsWell true) refl (omega arith)
        (omega arith) in
    let (a_well, a_trunk, a_ids) = a in
    let (r_well, r_trunk, r_ids) = r in
    let only_new = λ (j : ℕ) (h : IsDiffed j). a_ids j ∙ less_in new old j h in
    let only_old = λ (j : ℕ) (h : IsDiffed j). r_ids j ∙ less_in old new j h in
    (
      _,
      _,
      diff_trunk vis existing trunk trunk',
      a_well,
      a_trunk,
      r_well,
      r_trunk,
      λ j h.
          (only_new j h, only_old j h, rw (only_new j h, only_old j h) (patched (new j) (old j))),
      λ j h. (a_ids j ∙ less_out new old j h, r_ids j ∙ less_out old new j h),
    )
