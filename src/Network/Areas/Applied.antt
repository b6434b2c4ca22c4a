-- ===== src/Network/Areas/Applied.antt =====
-- What the VLAN filter of an uplink lets through after ids are added and removed.
use network_controller_harve.Common.{
  [], ℕ, zero, suc, ◌+◌, ◌%◌, ◌^◌, ◌≤◌, ◌<◌, ◌≡◌, refl, Bool, true, false, not, ◌||◌, ◌&&◌, List,
  Option, some, ◌==◌, nat_eq, nat_iff, leb, ltb, any, arith, ok, Bool-cases, inl, inr, ap, ◌∙◌,
}
use network_controller_harve.Vlan.{VlanIdSet}
use network_controller_harve.Vlan.Count.{IsWell, members_in}
use network_controller_harve.Vlan.Walk.{call_all, walk_vids-call_all}
use network_controller_harve.Network.{Netlink, Link, master}
use network_controller_harve.Network.Ports.{add_bridge_vlan, del_bridge_vlan}
use network_controller_harve.Network.Areas.{add_local_areas, remove_local_areas}

-- The documented behaviour of the VLAN filter of one link: `port s` are the ids of its entries, each
-- a uint16.
pub record PortLaws (nl : Netlink) (l : Link) : Type 0 where
  pub port : nl.State → ℕ → Bool
  pub listed :
      (s : nl.State) (entries : ℕ → Option (List ℕ)) (vids : List ℕ)
      → nl.bridge_vlan_list s ≡ ok entries
      → entries l.index ≡ some vids
      → (j : ℕ) → port s j ≡ any (λ v. v % 2 ^ 16 == j) vids
  pub added :
      (v : ℕ) (s : nl.State)
      → v < 2 ^ 16
      → (nl.bridge_vlan_add l v master s).1 ≡ ok tt
      → (j : ℕ) → port (nl.bridge_vlan_add l v master s).0 j ≡ (port s j || j == v)
  pub deleted :
      (v : ℕ) (s : nl.State)
      → v < 2 ^ 16
      → (nl.bridge_vlan_del l v master s).1 ≡ ok tt
      → (j : ℕ) → port (nl.bridge_vlan_del l v master s).0 j ≡ (port s j && not (j == v))

-- Every change of the filter of the link by a uint16 succeeds.
abbrev pub NeverFails : (nl : Netlink) → Link → Type 0
NeverFails nl l =
    (v : ℕ) (s : nl.State)
    → v < 2 ^ 16
    → ((nl.bridge_vlan_add l v master s).1 ≡ ok tt) × ((nl.bridge_vlan_del l v master s).1 ≡ ok tt)

-- The ids of `f` among the `n` from `i` on.
abbrev pub among : (ℕ → Bool) → ℕ → ℕ → ℕ → Bool
among f i n j = f j && (leb i j && ltb j (i + n))

module _ (nl : Netlink) (l : Link) (laws : PortLaws nl l) (works : NeverFails nl l) where
  add_one :
      (v : ℕ) (s : nl.State)
      → 2 ≤ v
      → v < 2 ^ 16
      → add_bridge_vlan nl l master v s ≡ ((nl.bridge_vlan_add l v master s).0, ok tt)
  unfolding add_bridge_vlan
  add_one v s h fits = ground (arith, (works v s fits).0)

  del_one :
      (v : ℕ) (s : nl.State)
      → 2 ≤ v
      → v < 2 ^ 16
      → del_bridge_vlan nl l master v s ≡ ((nl.bridge_vlan_del l v master s).0, ok tt)
  unfolding del_bridge_vlan
  del_one v s h fits = ground (arith, (works v s fits).1)

  add_members :
      (f : ℕ → Bool) (n i : ℕ) (s : nl.State)
      → 2 ≤ i
      → i + n ≤ 2 ^ 16
      → (j : ℕ)
      → laws.port (call_all (add_bridge_vlan nl l master) (members_in f i n) s).0 j
        ≡ (laws.port s j || among f i n j)
  unfolding members_in call_all
  add_members f zero i s h fits j = ground arith
  add_members f (suc n) i s h fits j = elim (Bool-cases (f i)) [
    | inr gone ↦
        let same : j ≡ i → f j ≡ false = λ e. ap (λ (k : ℕ). f k) e ∙ gone in
        rw gone (
          add_members f n (i + 1) s (omega arith) (omega arith) j
          ∙ ground (arith, nat_iff j i, same))
    | inl here ↦
        let same : j ≡ i → f j ≡ true = λ e. ap (λ (k : ℕ). f k) e ∙ here in
        let t = (nl.bridge_vlan_add l i master s).0 in
        rw (here, add_one i s h (omega arith))
          (add_members f n (i + 1) t (omega arith) (omega arith) j
            ∙ ground (
              arith,
              laws.added i s (omega arith) (works i s (omega arith)).0 j,
              nat_iff j i,
              same,
            ))
  ]

  del_members :
      (f : ℕ → Bool) (n i : ℕ) (s : nl.State)
      → 2 ≤ i
      → i + n ≤ 2 ^ 16
      → (j : ℕ)
      → laws.port (call_all (del_bridge_vlan nl l master) (members_in f i n) s).0 j
        ≡ (laws.port s j && not (among f i n j))
  unfolding members_in call_all
  del_members f zero i s h fits j = ground arith
  del_members f (suc n) i s h fits j = elim (Bool-cases (f i)) [
    | inr gone ↦
        let same : j ≡ i → f j ≡ false = λ e. ap (λ (k : ℕ). f k) e ∙ gone in
        rw gone (
          del_members f n (i + 1) s (omega arith) (omega arith) j
          ∙ ground (arith, nat_iff j i, same))
    | inl here ↦
        let same : j ≡ i → f j ≡ true = λ e. ap (λ (k : ℕ). f k) e ∙ here in
        let t = (nl.bridge_vlan_del l i master s).0 in
        rw (here, del_one i s h (omega arith))
          (del_members f n (i + 1) t (omega arith) (omega arith) j
            ∙ ground (
              arith,
              laws.deleted i s (omega arith) (works i s (omega arith)).1 j,
              nat_iff j i,
              same,
            ))
  ]

  -- `AddLocalAreas` of a well-formed trunk set adds exactly its ids above 1.
  pub port-add_local_areas :
      (vis : VlanIdSet) (s : nl.State)
      → IsWell vis
      → vis.is_trunk_mode ≡ true
      → (j : ℕ)
      → laws.port (add_local_areas nl (some l) (some vis) s).0 j
        ≡ (laws.port s j || among vis.vid_set 2 4093 j)
  unfolding add_local_areas
  port-add_local_areas vis s well trunk j =
      let e = walk_vids-call_all (add_bridge_vlan nl l master) vis well s in
      rw (e, trunk) (add_members vis.vid_set 4093 2 s (omega arith) (omega arith) j)

  -- `RemoveLocalAreas` of a well-formed trunk set removes exactly its ids above 1.
  pub port-remove_local_areas :
      (vis : VlanIdSet) (s : nl.State)
      → IsWell vis
      → vis.is_trunk_mode ≡ true
      → (j : ℕ)
      → laws.port (remove_local_areas nl (some l) (some vis) s).0 j
        ≡ (laws.port s j && not (among vis.vid_set 2 4093 j))
  unfolding remove_local_areas
  port-remove_local_areas vis s well trunk j =
      let e = walk_vids-call_all (del_bridge_vlan nl l master) vis well s in
      rw (e, trunk) (del_members vis.vid_set 4093 2 s (omega arith) (omega arith) j)

members_in-none : (f : ℕ → Bool) (n i : ℕ) → ((j : ℕ) → i ≤ j → f j ≡ false) → members_in f i n ≡ []
unfolding members_in
members_in-none f zero i h = refl
members_in-none f (suc n) i h =
    rw (h i (omega arith)) (members_in-none f n (i + 1) (λ j lo. h j (omega arith)))

module _ (nl : Netlink) (l : Link) (vis : VlanIdSet) (s : nl.State) (well : IsWell vis)
    (trunk : vis.is_trunk_mode ≡ true) (empty : (j : ℕ) → vis.vid_set j ≡ false) where
  -- Adding the ids of an empty set changes nothing.
  pub add_local_areas-empty : add_local_areas nl (some l) (some vis) s ≡ (s, ok tt)
  unfolding add_local_areas call_all
  add_local_areas-empty =
      let e = walk_vids-call_all (add_bridge_vlan nl l master) vis well s in
      let no_ids = members_in-none vis.vid_set 4093 2 (λ j lo. empty j) in
      rw (e, trunk, no_ids) refl

  pub remove_local_areas-empty : remove_local_areas nl (some l) (some vis) s ≡ (s, ok tt)
  unfolding remove_local_areas call_all
  remove_local_areas-empty =
      let e = walk_vids-call_all (del_bridge_vlan nl l master) vis well s in
      let no_ids = members_in-none vis.vid_set 4093 2 (λ j lo. empty j) in
      rw (e, trunk, no_ids) refl
