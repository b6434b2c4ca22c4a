-- ===== src/Vlan/Count.antt =====
-- How many ids of a range are set, how a write changes that, and the well-formed sets.
use network_controller_harve.Common.{
  ℕ, zero, suc, ◌+◌, ◌≤◌, ◌<◌, ◌≡◌, refl, ◌≢◌, ◌⊎◌, inl, inr, Bool, true, false, List, [], ◌∷◌,
  arith, length, if◌then◌else◌, nat_iff, nat_eq,
}
use network_controller_harve.Vlan.{VlanIdSet, write, max_vlan_id, default_vlan_id}

abbrev pub bit : Bool → ℕ
bit true = 1
bit false = 0

-- The number of ids set among the `n` from `i` on.
unfoldable pub count_in : (ℕ → Bool) → ℕ → ℕ → ℕ
count_in f i zero = 0
count_in f i (suc n) = bit (f i) + count_in f (i + 1) n

-- The ids set among the `n` from `i` on, in ascending order.
unfoldable pub members_in : (ℕ → Bool) → ℕ → ℕ → List ℕ
members_in f i zero = []
members_in f i (suc n) = if f i then i ∷ members_in f (i + 1) n else members_in f (i + 1) n

length-members_in : (f : ℕ → Bool) (i n : ℕ) → length (members_in f i n) ≡ count_in f i n
unfolding members_in count_in
length-members_in f i zero = refl
length-members_in f i (suc n) = ground (arith, length-members_in f (i + 1) n)

pub count_in-le : (f : ℕ → Bool) (i n : ℕ) → count_in f i n ≤ n
unfolding count_in
count_in-le f i zero = omega arith
count_in-le f i (suc n) = ground (arith, count_in-le f (i + 1) n)

pub count_in-ext :
    (f g : ℕ → Bool) (i n : ℕ)
    → ((j : ℕ) → i ≤ j → j < i + n → f j ≡ g j)
    → count_in f i n ≡ count_in g i n
unfolding count_in
count_in-ext f g i zero h = refl
count_in-ext f g i (suc n) h = ground (
  arith,
  h i (omega arith) (omega arith),
  count_in-ext f g (i + 1) n (λ j lo hi. h j (omega arith) (omega arith)),
)

write_self : (f : ℕ → Bool) (v : ℕ) (b : Bool) → write f v b v ≡ b
write_self f v b = ground arith

pub write_ne : (f : ℕ → Bool) (v : ℕ) (b : Bool) (j : ℕ) → j ≢ v → write f v b j ≡ f j
write_ne f v b j h = ground (arith, nat_iff j v)

le_split : (i v : ℕ) → i ≤ v → (i ≡ v) ⊎ (i + 1 ≤ v)
le_split i v h = ground arith

module _ (f : ℕ → Bool) (v : ℕ) where
  count_in-write_above : (b : Bool) (i n : ℕ) → v < i → count_in (write f v b) i n ≡ count_in f i n
  count_in-write_above b i n h =
      count_in-ext (write f v b) f i n (λ j lo hi. write_ne f v b j (λ e. omega arith))

  -- Setting a clear id of the range adds one.
  pub count_in-set :
      (i n : ℕ)
      → f v ≡ false
      → i ≤ v
      → v < i + n
      → count_in (write f v true) i n ≡ count_in f i n + 1
  unfolding count_in
  count_in-set i zero e lo hi = absurd (omega arith)
  count_in-set i (suc n) e lo hi = elim (le_split i v lo) [
    | inl p ↦ ground (arith, count_in-write_above true (i + 1) n)
    | inr p ↦ ground (arith, count_in-set (i + 1) n e p, write_ne f v true i)
  ]

  -- Clearing a set id of the range takes one away.
  pub count_in-clear :
      (i n : ℕ)
      → f v ≡ true
      → i ≤ v
      → v < i + n
      → count_in (write f v false) i n + 1 ≡ count_in f i n
  unfolding count_in
  count_in-clear i zero e lo hi = absurd (omega arith)
  count_in-clear i (suc n) e lo hi = elim (le_split i v lo) [
    | inl p ↦ ground (arith, count_in-write_above false (i + 1) n)
    | inr p ↦ ground (arith, count_in-clear (i + 1) n e p, write_ne f v false i)
  ]

-- A range in which nothing is counted has no id set.
pub clear_of_count_in :
    (f : ℕ → Bool) (i n j : ℕ) → count_in f i n ≡ 0 → i ≤ j → j < i + n → f j ≡ false
unfolding count_in
clear_of_count_in f i zero j e lo hi = absurd (omega arith)
clear_of_count_in f i (suc n) j e lo hi = elim (le_split i j lo) [
  | inl p ↦ ground arith
  | inr p ↦ clear_of_count_in f (i + 1) n j (ground arith) p (omega arith)
]

-- The counter of a set in trunk mode is the number of its ids, all of them lie in [1, 4094], and a
-- set that is not in trunk mode has no slice.
pub record IsWell (vis : VlanIdSet) : Type 0 where
  pub counted : vis.vlan_count ≡ count_in vis.vid_set default_vlan_id max_vlan_id
  pub zero_clear : vis.vid_set 0 ≡ false
  pub high_clear : (i : ℕ) → max_vlan_id < i → vis.vid_set i ≡ false
  pub vid_in_range : vis.vid ≤ max_vlan_id
  pub single_clear : vis.is_trunk_mode ≡ false → (i : ℕ) → vis.vid_set i ≡ false
