-- ===== src/Tests/Sets.antt =====
-- Id sets: the theorems at the set of the ids 10, 11, 12 and 20, and at the single id 30.
use network_controller_harve.Common.{
  ℕ, ◌≡◌, refl, true, false, not, ◌||◌, ◌&&◌, some, nat_eq, arith, ok,
}
use network_controller_harve.Vlan.{VlanIdSet, set_in_range, append, diff}
use network_controller_harve.Vlan.Count.{IsWell}
use network_controller_harve.Vlan.Set.{holds, empty-IsWell, set_in_range-IsWell}
use network_controller_harve.Vlan.Append.{Joins, append-Joins}
use network_controller_harve.Vlan.Diff.{IsDiffed, diff_lem}

abbrev pub no_ids : VlanIdSet
no_ids = record { vlan_count = 0; vid_set = λ i. false; vid = 0; is_trunk_mode = true }

abbrev pub single_30 : VlanIdSet
single_30 = record { vlan_count = 0; vid_set = λ i. false; vid = 0; is_trunk_mode = false }

abbrev pub only_10 : VlanIdSet
only_10 = set_in_range no_ids 10

only_10-IsWell : IsWell only_10
only_10-IsWell = set_in_range-IsWell no_ids 10 (empty-IsWell true) (omega arith)

only_10-trunk : only_10.is_trunk_mode ≡ true
unfolding set_in_range
only_10-trunk = refl

append-Joins_example :
    (t : VlanIdSet) × (append only_10 (some only_10) ≡ ok t) × Joins only_10 (holds only_10) t
append-Joins_example = append-Joins only_10 only_10 only_10-IsWell only_10-IsWell only_10-trunk

diff_lem_example :
    (added : VlanIdSet) × (removed : VlanIdSet) × (diff only_10 (some no_ids) ≡ ok (added, removed))
    × IsWell added
    × (added.is_trunk_mode ≡ true)
    × IsWell removed
    × (removed.is_trunk_mode ≡ true)
    × ((j : ℕ)
        → IsDiffed j
        → (added.vid_set j ≡ (only_10.vid_set j && not (no_ids.vid_set j)))
          × (removed.vid_set j ≡ (no_ids.vid_set j && not (only_10.vid_set j)))
          × (((no_ids.vid_set j || added.vid_set j) && not (removed.vid_set j))
              ≡ only_10.vid_set j))
    × ((j : ℕ) → ¬ IsDiffed j → (added.vid_set j ≡ false) × (removed.vid_set j ≡ false))
diff_lem_example = diff_lem only_10 no_ids only_10-trunk refl
