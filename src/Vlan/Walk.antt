-- ===== src/Vlan/Walk.antt =====
-- `WalkVIDs` calls back on exactly the ids above 1, in ascending order.
use network_controller_harve.Common.{
  Effect, and_then, ℕ, zero, suc, ◌+◌, ◌-◌, ◌%◌, ◌^◌, ◌≤◌, ◌<◌, ◌≡◌, refl, inl, inr, Bool, true,
  false, arith, if◌then◌else◌, nat_iff, nat_eq, ◌==◌, leb, ltb, Bool-cases, fun_ext, ◌∙◌, ap, List,
  [], ◌∷◌, ok, err,
}
use network_controller_harve.Vlan.{
  VlanIdSet, max_vlan_id, default_vlan_id, walk_from, walk_vids, wrapped,
}
use network_controller_harve.Vlan.Count.{IsWell, count_in, members_in, clear_of_count_in}

-- The ids above 1 that a set holds, in ascending order.
abbrev pub walked_ids : VlanIdSet → List ℕ
walked_ids vis =
    if vis.is_trunk_mode
    then members_in vis.vid_set (default_vlan_id + 1) (max_vlan_id - 1)
    else if ltb default_vlan_id vis.vid
    then vis.vid ∷ []
    else []

module _ {S : Type 0} (callback : ℕ → S → Effect S) where
  -- The callback on each id of a list in turn; the first error ends it.
  unfoldable pub call_all : List ℕ → S → Effect S
  call_all [] s = (s, ok tt)
  call_all (i ∷ is) s = let (t, r) = callback i s in and_then (t, wrapped r) (λ u. call_all is u)

  walk_from-call_all :
      (f : ℕ → Bool) (n i : ℕ) (s : S)
      → i + n ≤ suc max_vlan_id
      → walk_from callback f i n s ≡ call_all (members_in f i n) s
  unfolding walk_from call_all members_in
  walk_from-call_all f zero i s h = refl
  walk_from-call_all f (suc n) i s h = elim (Bool-cases (f i)) [
    | inl here ↦
        let same : i % 2 ^ 16 ≡ i = omega arith in
        rw (here, same)
          (ap (λ k. and_then ((callback i s).0, wrapped (callback i s).1) k)
            (fun_ext (λ t. walk_from-call_all f n (i + 1) t (omega arith))))
    | inr gone ↦ rw gone (walk_from-call_all f n (i + 1) s (omega arith))
  ]

members_in-nil :
    (f : ℕ → Bool) (n i : ℕ) → ((j : ℕ) → i ≤ j → j < i + n → f j ≡ false) → members_in f i n ≡ []
unfolding members_in
members_in-nil f zero i h = refl
members_in-nil f (suc n) i h =
    rw (h i (omega arith) (omega arith))
      (members_in-nil f n (i + 1) (λ j lo hi. h j (omega arith) (omega arith)))

and_then-ok : {S : Type 0} (m : Effect S) → m ≡ and_then m (λ t. (t, ok tt))
and_then-ok (s, ok done) = refl
and_then-ok (s, err e) = refl

no_members :
    (vis : VlanIdSet)
    → IsWell vis
    → (vis.vlan_count == 0) ≡ true
    → members_in vis.vid_set 2 4093 ≡ []
no_members vis well e =
    let z : count_in vis.vid_set 1 max_vlan_id ≡ 0 =
      ground (arith, well.counted, nat_iff vis.vlan_count 0) in
    members_in-nil vis.vid_set 4093 2
      λ j lo hi. clear_of_count_in vis.vid_set 1 max_vlan_id j z (omega arith) (omega arith)

module _ {S : Type 0} (callback : ℕ → S → Effect S) (vis : VlanIdSet) (well : IsWell vis)
    (s : S) where
  walk-trunk :
      vis.is_trunk_mode ≡ true
      → walk_vids callback vis s ≡ call_all callback (members_in vis.vid_set 2 4093) s
  unfolding walk_vids call_all
  walk-trunk trunk = elim (Bool-cases (vis.vlan_count == 0)) [
    | inl e ↦ simp (trunk, e, no_members vis well e, call_all)
    | inr e ↦ simp (trunk, e) (walk_from-call_all callback vis.vid_set 4093 2 s (omega arith))
  ]

  walk-single :
      vis.is_trunk_mode ≡ false
      → walk_vids callback vis s
        ≡ call_all callback (if ltb default_vlan_id vis.vid then vis.vid ∷ [] else []) s
  unfolding walk_vids call_all
  walk-single single = elim (Bool-cases (leb vis.vid default_vlan_id)) [
    | inl low ↦ let e : ltb default_vlan_id vis.vid ≡ false = ground arith in simp (single, low, e)
    | inr high ↦
        let e : ltb default_vlan_id vis.vid ≡ true = ground arith in
        let same : vis.vid % 2 ^ 16 ≡ vis.vid = omega (arith, well.vid_in_range) in
        simp (single, high, e, same)
          (and_then-ok ((callback vis.vid s).0, wrapped (callback vis.vid s).1))
  ]

  -- On a well-formed set `WalkVIDs` runs the callback on exactly the ids above 1 that the set
  -- holds, in ascending order, each given as it is; the first error of the callback ends the walk
  -- and is the result, wrapped.
  pub walk_vids-call_all : walk_vids callback vis s ≡ call_all callback (walked_ids vis) s
  walk_vids-call_all = elim (Bool-cases vis.is_trunk_mode) [
    | inl trunk ↦ walk-trunk trunk ∙ ap (λ l. call_all callback l s) (ground arith)
    | inr single ↦ walk-single single ∙ ap (λ l. call_all callback l s) (ground arith)
  ]
