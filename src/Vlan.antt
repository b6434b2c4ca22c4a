-- ===== src/Vlan.antt =====
-- The set of VLAN ids of a cluster network or of one network: pkg/utils/vlan.go.
pub mod Count
pub mod Set
pub mod Append
pub mod Diff
pub mod Print
pub mod Walk
use network_controller_harve.Common.{
  Effect, and_then, ℕ, zero, suc, ◌+◌, ◌-◌, ◌%◌, ◌^◌, Bool, true, false, ◌||◌, ◌&&◌, not, Option,
  none, some, List, [], ◌∷◌, ltb, leb, ltb_ℤ, ◌==◌, ◌!=◌, nat_eq, if◌then◌else◌, ℤ, pos, pos_part,
  Bytes, itoa_ℕ, join, Result, ok, err, ◌>>=◌, Check, Error, vid_out_of_range, append_needs_trunk,
  diff_on_nil, diff_needs_trunk, walk_failed,
}

abbrev pub max_vlan_id : ℕ
max_vlan_id = 4094

abbrev pub min_vlan_id : ℕ
min_vlan_id = 0

abbrev pub default_vlan_id : ℕ
default_vlan_id = 1

-- `VlanIDSet`. `vid_set` is the slice of 4096 flags as a function of the index: every index that
-- the code uses has passed the check of `SetVID` or counts to 4094. A nil slice is all false.
-- `vlan_count` is a uint32; `vid` is an int that only `_setVID` writes, so it is never negative.
pub record VlanIdSet : Type 0 where
  pub vlan_count : ℕ
  pub vid_set : ℕ → Bool
  pub vid : ℕ
  pub is_trunk_mode : Bool

-- `vidSet[i] = b`
abbrev pub write : (ℕ → Bool) → ℕ → Bool → ℕ → Bool
write f i b j = if j == i then b else f j

-- `_setVID`
unfoldable pub set_in_range : VlanIdSet → ℕ → VlanIdSet
set_in_range vis v =
    if v == min_vlan_id
    then vis
    else if vis.is_trunk_mode
    then (if vis.vid_set v then vis else record vis {
      vid_set = write vis.vid_set v true;
      vlan_count = (vis.vlan_count + 1) % 2 ^ 32;
    })
    else record vis { vid = v }

-- `SetVID`
unfoldable pub set_vid : VlanIdSet → ℤ → Result VlanIdSet
unfolding set_in_range
set_vid vis v =
    if ltb_ℤ v (pos min_vlan_id) || ltb_ℤ (pos max_vlan_id) v
    then err (vid_out_of_range v)
    else ok (set_in_range vis (pos_part v))

-- `SetUint16VID`
unfoldable pub set_uint16_vid : VlanIdSet → ℕ → Result VlanIdSet
unfolding set_vid
set_uint16_vid vis v = set_vid vis (pos (v % 2 ^ 16))

-- `_unsetVID`; the decrement is that of a uint32.
unfoldable pub unset_vid : VlanIdSet → ℕ → VlanIdSet
unset_vid vis v =
    if vis.is_trunk_mode
    then (if vis.vid_set v
        then record vis {
          vid_set = write vis.vid_set v false;
          vlan_count = (vis.vlan_count + 2 ^ 32 - 1) % 2 ^ 32;
        }
        else vis)
    else vis

-- The loop of `Append` over `n` ids from `i` on.
unfoldable pub copy_vids : VlanIdSet → ℕ → ℕ → VlanIdSet → Result VlanIdSet
copy_vids other i zero vis = ok vis
copy_vids other i (suc n) vis =
    (if other.vid_set i then set_vid vis (pos i) else ok vis) >>= λ v. copy_vids other (i + 1) n v

-- `Append`; a nil `other` is `none`. On an error the callers drop the receiver.
unfoldable pub append : VlanIdSet → Option VlanIdSet → Result VlanIdSet
append vis none = if vis.is_trunk_mode then ok vis else err append_needs_trunk
append vis (some other) =
    let copied = copy_vids other default_vlan_id max_vlan_id vis in
    if vis.is_trunk_mode
    then (if other.is_trunk_mode
        then (if other.vlan_count == 0 then ok vis else copied)
        else set_vid vis (pos other.vid))
    else err append_needs_trunk

abbrev pub blanks : ℕ → List Bytes
blanks zero = []
blanks (suc n) = [] ∷ blanks n

abbrev pub prepend : Bytes → Option (List Bytes) → Option (List Bytes)
prepend s none = none
prepend s (some ss) = some (s ∷ ss)

-- The list of slots that `VidSetToString` fills: `target[k] = Itoa(i)` for each id that is set.
-- `none` is a write past the `cap` slots, which panics; slots that stay unwritten are empty texts.
unfoldable pub fill_target : ℕ → (ℕ → Bool) → ℕ → ℕ → ℕ → Option (List Bytes)
fill_target cap vids i zero k = some (blanks (cap - k))
fill_target cap vids i (suc n) k =
    let skipped = fill_target cap vids (i + 1) n k in
    let rest = fill_target cap vids (i + 1) n (suc k) in
    if vids i then (if ltb k cap then prepend (itoa_ℕ i) rest else none) else skipped

abbrev pub comma : Bytes
comma = b',' ∷ []

abbrev pub joined : Option (List Bytes) → Option Bytes
joined none = none
joined (some ss) = some (join comma ss)

-- `VidSetToString`
unfoldable pub vid_set_to_string : VlanIdSet → Option Bytes
vid_set_to_string vis =
    let filled = fill_target vis.vlan_count vis.vid_set default_vlan_id max_vlan_id 0 in
    if vis.is_trunk_mode
    then joined filled
    else if vis.vid == min_vlan_id
    then some []
    else some (itoa_ℕ vis.vid)

-- `VidSetToStringHash`, with the digits of SHA-256 as a parameter.
abbrev pub with_hash : (Bytes → Bytes) → Option Bytes → Option (Bytes × Bytes)
with_hash sha256 none = none
with_hash sha256 (some text) = some (text, sha256 text)

unfoldable pub vid_set_to_string_hash : (Bytes → Bytes) → VlanIdSet → Option (Bytes × Bytes)
vid_set_to_string_hash sha256 vis = with_hash sha256 (vid_set_to_string vis)

-- `NewVlanIDSet`
unfoldable pub new_vlan_id_set : VlanIdSet
new_vlan_id_set = record { vlan_count = 0; vid_set = λ i. false; vid = 0; is_trunk_mode = true }

-- `NewVlanIDSetFromSingleVID`
unfoldable pub new_from_single_vid : ℤ → Result VlanIdSet
unfolding set_vid
new_from_single_vid v =
    set_vid (record { vlan_count = 0; vid_set = λ i. false; vid = 0; is_trunk_mode = false }) v

abbrev pub set_if : Bool → VlanIdSet → ℕ → VlanIdSet
set_if b vis i = if b then set_in_range vis i else vis

-- The loop of `Diff` over `n` ids from `i` on, with the two results so far.
unfoldable pub diff_vids :
    (ℕ → Bool) → (ℕ → Bool) → ℕ → ℕ → VlanIdSet → VlanIdSet → VlanIdSet × VlanIdSet
diff_vids new old i zero added removed = (added, removed)
diff_vids new old i (suc n) added removed =
    diff_vids new old (i + 1) n (set_if (new i && not (old i)) added i)
      (set_if (old i && not (new i)) removed i)

-- `Diff`; a nil `existing` is `none`.
unfoldable pub diff : VlanIdSet → Option VlanIdSet → Result (VlanIdSet × VlanIdSet)
diff vis none = err diff_on_nil
diff vis (some existing) =
    let pair =
      diff_vids vis.vid_set existing.vid_set (default_vlan_id + 1) (max_vlan_id - 1) new_vlan_id_set
        new_vlan_id_set in
    if vis.is_trunk_mode
    then (if existing.is_trunk_mode then ok pair else err diff_needs_trunk)
    else err diff_needs_trunk

-- `GetVlanCount`
unfoldable pub get_vlan_count : VlanIdSet → ℕ
get_vlan_count vis =
    if vis.is_trunk_mode then vis.vlan_count else if ltb min_vlan_id vis.vid then 1 else 0

-- `ConvertToTrunkMode`
unfoldable pub convert_to_trunk_mode : VlanIdSet → VlanIdSet
unfolding set_in_range
convert_to_trunk_mode vis =
    if vis.is_trunk_mode
    then vis
    else set_in_range (record vis { vid_set = λ i. false; is_trunk_mode = true }) vis.vid

abbrev pub wrapped : Check → Check
wrapped (ok done) = ok done
wrapped (err e) = err (walk_failed e)

-- The callback of `WalkVIDs` over a state of the caller's; its error is wrapped and ends the walk,
-- and what it did before stays.
module _ {S : Type 0} (callback : ℕ → S → Effect S) where
  abbrev pub call : ℕ → S → Effect S
  call i s = let (t, r) = callback (i % 2 ^ 16) s in (t, wrapped r)

  -- The loop of `WalkVIDs` over `n` ids from `i` on.
  unfoldable pub walk_from : (ℕ → Bool) → ℕ → ℕ → S → Effect S
  walk_from vids i zero s = (s, ok tt)
  walk_from vids i (suc n) s =
      and_then (if vids i then call i s else (s, ok tt)) (λ t. walk_from vids (i + 1) n t)

  -- `WalkVIDs`
  unfoldable pub walk_vids : VlanIdSet → S → Effect S
  walk_vids vis s =
      let walked = walk_from vis.vid_set (default_vlan_id + 1) (max_vlan_id - 1) s in
      if vis.is_trunk_mode
      then (if vis.vlan_count == 0 then (s, ok tt) else walked)
      else if leb vis.vid default_vlan_id
      then (s, ok tt)
      else call vis.vid s
