-- ===== src/NetConf/Dump.antt =====
-- `dumpVlanIDSet` collects exactly the ids for which `HasTrunkVlanID` answers yes.
use network_controller_harve.Common.{
  ℕ, zero, suc, ◌+◌, ◌-◌, ◌≤◌, ◌<◌, ◌≡◌, refl, ◌≢◌, ◌⊎◌, inl, inr, Bool, true, false, ◌||◌, ◌&&◌,
  Option, none, some, List, [], ◌∷◌, ltb, leb, length, arith, ℤ, pos, negsuc, int_iff, nat_iff, ok,
  err, Result, All, Any, nil_dereference, int_eq, nat_eq, ◌==◌, ◌∙◌, ap, sym, if◌then◌else◌,
}
use network_controller_harve.Objects.{VlanTrunk, NetConf}
use network_controller_harve.Vlan.{VlanIdSet, max_vlan_id, new_vlan_id_set}
use network_controller_harve.Vlan.Count.{IsWell}
use network_controller_harve.Vlan.Set.{holds, set_vid-trunk, empty-IsWell, new_from_single_vid_lem}
use network_controller_harve.Vlan.Append.{Joins}
use network_controller_harve.NetConf.{
  set_span, rounds, dump_id, dump_span, dump_items, dump_vlan_id_set, is_id, in_span,
  has_trunk_item, has_trunk_vlan_id, is_vlan_config_valid, is_vlan_access_mode,
}
use network_controller_harve.NetConf.Valid.{IsSpan, IsId, IsItem, is_vlan_config_valid_iff}

Joins-nothing :
    (vis : VlanIdSet) (more : ℕ → Bool)
    → IsWell vis
    → vis.is_trunk_mode ≡ true
    → ((j : ℕ) → more j ≡ false)
    → Joins vis more vis
Joins-nothing vis more well trunk h = (well, trunk, λ j. ground (arith, h j))

-- The set exists, and joins `more` to `vis`.
abbrev Yields : Result VlanIdSet → VlanIdSet → (ℕ → Bool) → Type 0
Yields r vis more = (t : VlanIdSet) × (r ≡ ok t) × Joins vis more t

set_span-Joins :
    (n l : ℕ) (vis : VlanIdSet)
    → IsWell vis
    → vis.is_trunk_mode ≡ true
    → 0 < l
    → l + n ≤ suc max_vlan_id
    → Yields (set_span (pos l) n vis) vis (λ j. leb l j && ltb j (l + n))
unfolding set_span
set_span-Joins zero l vis well trunk above fits =
    (vis, refl, Joins-nothing vis _ well trunk (λ j. ground arith))
set_span-Joins (suc n) l vis well trunk above fits =
    let (mid, did, mid_well, mid_trunk, mid_ids) = set_vid-trunk vis l well (omega arith) trunk in
    let (t, e, joins) =
      set_span-Joins n (l + 1) mid mid_well mid_trunk (omega arith) (omega arith) in
    let ids = joins.2 in
    (t, rw did e, (joins.0, joins.1, λ j. ground (arith, ids j, mid_ids j, nat_iff j l)))

dump_id-Joins :
    (v : Option ℤ) (vis : VlanIdSet)
    → IsWell vis
    → vis.is_trunk_mode ≡ true
    → IsId v
    → Yields (dump_id v vis) vis (λ j. is_id v (pos j))
dump_id-Joins none vis well trunk h = (vis, refl, Joins-nothing vis _ well trunk (λ j. refl))
dump_id-Joins (some (negsuc v)) vis well trunk h = absurd (omega arith)
dump_id-Joins (some (pos v)) vis well trunk h =
    let (t, e, t_well, t_trunk, ids) = set_vid-trunk vis v well (omega arith) trunk in
    (t, e, (t_well, t_trunk, λ j. ground (arith, ids j, nat_iff j v, nat_iff v j)))

dump_span-Joins :
    (lo hi : Option ℤ) (vis : VlanIdSet)
    → IsWell vis
    → vis.is_trunk_mode ≡ true
    → IsSpan lo hi
    → Yields (dump_span lo hi vis) vis (λ j. in_span lo hi (pos j))
dump_span-Joins none hi vis well trunk h = (vis, refl, Joins-nothing vis _ well trunk (λ j. refl))
dump_span-Joins (some lo) none vis well trunk h =
    (vis, refl, Joins-nothing vis _ well trunk (λ j. refl))
dump_span-Joins (some (negsuc lo)) (some hi) vis well trunk h = absurd (omega arith)
dump_span-Joins (some (pos lo)) (some (negsuc hi)) vis well trunk h = absurd (omega arith)
dump_span-Joins (some (pos lo)) (some (pos hi)) vis well trunk h =
    let n : rounds (pos lo) (pos hi) ≡ hi - lo + 1 = ground arith in
    let (t, e, joins) =
      set_span-Joins (hi - lo + 1) lo vis well trunk (omega arith) (omega arith) in
    let ids = joins.2 in
    (
      t,
      ap (λ (r : ℕ). set_span (pos lo) r vis) n ∙ e,
      (joins.0, joins.1, λ j. ground (arith, ids j)),
    )

-- Every trunk item is there: no pointer is nil.
abbrev pub NoNil : List (Option VlanTrunk) → Type 0
NoNil items = All (λ item. item ≢ none) items

-- Some item names the id.
abbrev pub names : List (Option VlanTrunk) → ℤ → Bool
names [] v = false
names (none ∷ items) v = names items v
names (some vt ∷ items) v = is_id vt.id v || (in_span vt.min_id vt.max_id v || names items v)

pub has_trunk_item-names :
    (items : List (Option VlanTrunk)) (v : ℤ)
    → NoNil items
    → has_trunk_item items v ≡ ok (names items v)
unfolding has_trunk_item
has_trunk_item-names [] v h = refl
has_trunk_item-names (none ∷ items) v h = absurd (h.0 refl)
has_trunk_item-names (some vt ∷ items) v h = ground (arith, has_trunk_item-names items v h.1)

dump_items-Joins :
    (items : List (Option VlanTrunk)) (vis : VlanIdSet)
    → IsWell vis
    → vis.is_trunk_mode ≡ true
    → All IsItem items
    → NoNil items
    → Yields (dump_items items vis) vis (λ j. names items (pos j))
unfolding dump_items
dump_items-Joins [] vis well trunk good there =
    (vis, refl, Joins-nothing vis _ well trunk (λ j. refl))
dump_items-Joins (none ∷ items) vis well trunk good there = absurd (there.0 refl)
dump_items-Joins (some vt ∷ items) vis well trunk good there =
    let (a, ea, ja) = dump_id-Joins vt.id vis well trunk good.0.1 in
    let (b, eb, jb) = dump_span-Joins vt.min_id vt.max_id a ja.0 ja.1 good.0.0 in
    let (c, ec, jc) = dump_items-Joins items b jb.0 jb.1 good.1 there.1 in
    let a_ids = ja.2 in
    let b_ids = jb.2 in
    let c_ids = jc.2 in
    (c, rw (ea, eb) ec, (jc.0, jc.1, λ j. ground (arith, a_ids j, b_ids j, c_ids j)))

new_vlan_id_set_lem :
    IsWell new_vlan_id_set
    × (new_vlan_id_set.is_trunk_mode ≡ true)
    × ((j : ℕ) → new_vlan_id_set.vid_set j ≡ false)
unfolding new_vlan_id_set
new_vlan_id_set_lem = (empty-IsWell true, refl, λ j. refl)

empty-or-some : (items : List (Option VlanTrunk)) → (items ≡ []) ⊎ (items ≢ [])
empty-or-some [] = inl refl
empty-or-some (item ∷ items) = inr (λ e. cc)

-- For a trunk configuration that `IsVlanConfigValid` accepts and that has no nil item,
-- `dumpVlanIDSet` succeeds with a well-formed trunk set, and the set holds an id exactly if
-- `HasTrunkVlanID` answers yes for it.
dump_vlan_id_set-trunk :
    (nc : NetConf)
    → is_vlan_config_valid nc ≡ ok tt
    → NoNil nc.vlan_trunk
    → nc.vlan_trunk ≢ []
    → (t : VlanIdSet) × (dump_vlan_id_set nc ≡ ok t)
      × IsWell t
      × (t.is_trunk_mode ≡ true)
      × ((j : ℕ) → has_trunk_vlan_id nc (pos j) ≡ ok (t.vid_set j))
unfolding dump_vlan_id_set has_trunk_vlan_id
dump_vlan_id_set-trunk nc valid there some_items =
    let good = (is_vlan_config_valid_iff nc).0 valid in
    let (t, e, joins) =
      dump_items-Joins nc.vlan_trunk new_vlan_id_set new_vlan_id_set_lem.0 new_vlan_id_set_lem.1
        good.3 there in
    let ids = joins.2 in
    (
      t,
      ground (arith, e),
      joins.0,
      joins.1,
      λ j.
          has_trunk_item-names nc.vlan_trunk (pos j) there
          ∙ ap ok
              (sym (ids j ∙ ap (λ b. b || names nc.vlan_trunk (pos j)) (new_vlan_id_set_lem.2 j))),
    )

-- For a valid configuration without trunk items `dumpVlanIDSet` succeeds with a well-formed set
-- that holds the VLAN id and nothing else, and nothing at all if the id is 0.
dump_vlan_id_set-access :
    (nc : NetConf)
    → is_vlan_config_valid nc ≡ ok tt
    → nc.vlan_trunk ≡ []
    → (t : VlanIdSet) × (dump_vlan_id_set nc ≡ ok t)
      × IsWell t
      × (t.is_trunk_mode ≡ false)
      × (nc.vlan ≡ pos t.vid)
unfolding dump_vlan_id_set
dump_vlan_id_set-access nc valid empty =
    let good = (is_vlan_config_valid_iff nc).0 valid in
    let (t, e, well, single, same) = new_from_single_vid_lem nc.vlan good.0 good.1 in
    let access : is_vlan_access_mode nc ≡ true = ground (arith, ap (λ l. length l) empty) in
    (t, rw access e, well, single, same)

dump_items-nil :
    (items : List (Option VlanTrunk)) (vis : VlanIdSet)
    → IsWell vis
    → vis.is_trunk_mode ≡ true
    → All IsItem items
    → Any (λ item. item ≡ none) items
    → dump_items items vis ≡ err nil_dereference
unfolding dump_items
dump_items-nil [] vis well trunk good gone = absurd gone
dump_items-nil (none ∷ items) vis well trunk good gone = refl
dump_items-nil (some vt ∷ items) vis well trunk good (inl e) = cc
dump_items-nil (some vt ∷ items) vis well trunk good (inr gone) =
    let (a, ea, ja) = dump_id-Joins vt.id vis well trunk good.0.1 in
    let (b, eb, jb) = dump_span-Joins vt.min_id vt.max_id a ja.0 ja.1 good.0.0 in
    rw (ea, eb) (dump_items-nil items b jb.0 jb.1 good.1 gone)

not-access :
    (items : List (Option VlanTrunk))
    → Any (λ item. item ≡ none) items
    → (length items == 0) ≡ false
not-access [] gone = absurd gone
not-access (item ∷ items) gone = ground arith

-- A configuration that `IsVlanConfigValid` accepts and that has a nil trunk item makes
-- `dumpVlanIDSet` read a nil pointer.
dump_vlan_id_set-nil :
    (nc : NetConf)
    → is_vlan_config_valid nc ≡ ok tt
    → Any (λ item. item ≡ none) nc.vlan_trunk
    → dump_vlan_id_set nc ≡ err nil_dereference
unfolding dump_vlan_id_set
dump_vlan_id_set-nil nc valid gone =
    let good = (is_vlan_config_valid_iff nc).0 valid in
    let e =
      dump_items-nil nc.vlan_trunk new_vlan_id_set new_vlan_id_set_lem.0 new_vlan_id_set_lem.1
        good.3 gone in
    rw (not-access nc.vlan_trunk gone) e

-- What a configuration carries: its VLAN id, or the ids that its trunk items name.
abbrev pub carries : NetConf → ℕ → Bool
carries nc j =
    if is_vlan_access_mode nc then ltb 0 j && nc.vlan == pos j else names nc.vlan_trunk (pos j)

holds-single :
    (t : VlanIdSet) (nc : NetConf) (j : ℕ)
    → nc.vlan_trunk ≡ []
    → t.is_trunk_mode ≡ false
    → nc.vlan ≡ pos t.vid
    → holds t j ≡ carries nc j
holds-single t nc j empty single same =
    ground (arith, ap (λ l. length l) empty, nat_iff j t.vid, int_iff nc.vlan (pos j))

holds-trunk :
    (t : VlanIdSet) (nc : NetConf) (j : ℕ)
    → NoNil nc.vlan_trunk
    → (length nc.vlan_trunk == 0) ≡ false
    → t.is_trunk_mode ≡ true
    → has_trunk_vlan_id nc (pos j) ≡ ok (t.vid_set j)
    → holds t j ≡ carries nc j
unfolding has_trunk_vlan_id
holds-trunk t nc j there trunked trunk e =
    ground (arith, has_trunk_item-names nc.vlan_trunk (pos j) there)

trunked : (items : List (Option VlanTrunk)) → items ≢ [] → (length items == 0) ≡ false
trunked [] h = absurd (h refl)
trunked (item ∷ items) h = ground arith

-- `dumpVlanIDSet` of a valid configuration without nil items succeeds with a well-formed set that
-- holds exactly what the configuration carries.
pub dump_vlan_id_set-carries :
    (nc : NetConf)
    → is_vlan_config_valid nc ≡ ok tt
    → NoNil nc.vlan_trunk
    → (t : VlanIdSet) × (dump_vlan_id_set nc ≡ ok t)
      × IsWell t
      × ((j : ℕ) → holds t j ≡ carries nc j)
dump_vlan_id_set-carries nc valid there = elim (empty-or-some nc.vlan_trunk) [
  | inl e ↦
      let (t, did, well, single, same) = dump_vlan_id_set-access nc valid e in
      (t, did, well, λ j. holds-single t nc j e single same)
  | inr e ↦
      let (t, did, well, trunk, member) = dump_vlan_id_set-trunk nc valid there e in
      (t, did, well, λ j. holds-trunk t nc j there (trunked nc.vlan_trunk e) trunk (member j))
]
