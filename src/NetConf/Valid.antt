-- ===== src/NetConf/Valid.antt =====
-- What `IsVlanConfigValid` accepts.
use network_controller_harve.Common.{
  ◌≡◌, refl, ◌≢◌, ◌↔◌, ◌⊎◌, inl, inr, false, Option, none, some, List, [], ◌∷◌, ltb, length, arith,
  ltb_ℤ, ◌≤ℤ◌, ℤ, pos, int_iff, ok, >>-eq-ok, refuse_if, refuse_if-eq-ok, for_each, trunk_empty,
  vid_out_of_range, vlan_with_trunk, ◌&&◌, ◌||◌, ◌!=◌, All, int_eq,
}
use network_controller_harve.Objects.{VlanTrunk, NetConf}
use network_controller_harve.Vlan.{max_vlan_id}
use network_controller_harve.NetConf.{
  check_span, check_id, is_unset, is_valid, is_vlan_config_valid,
}

-- An id that a trunk may carry.
abbrev pub IsTrunkId : ℤ → Type 0
IsTrunkId v = (pos 1 ≤ℤ v) × (v ≤ℤ pos max_vlan_id)

abbrev pub IsSpan : Option ℤ → Option ℤ → Type 0
IsSpan (some lo) (some hi) = IsTrunkId lo × IsTrunkId hi × (lo ≤ℤ hi)
IsSpan none none = Unit {0}
IsSpan none (some hi) = ⊥
IsSpan (some lo) none = ⊥

abbrev pub IsId : Option ℤ → Type 0
IsId none = Unit {0}
IsId (some v) = IsTrunkId v

-- A nil item, or one with an id in range, a span in range whose bounds are in order, or both.
abbrev pub IsItem : Option VlanTrunk → Type 0
IsItem none = Unit {0}
IsItem (some vt) = IsSpan vt.min_id vt.max_id × IsId vt.id × ((vt.id ≢ none) ⊎ (vt.min_id ≢ none))

abbrev pub IsVlanConfig : NetConf → Type 0
IsVlanConfig nc =
    (pos 0 ≤ℤ nc.vlan)
    × (nc.vlan ≤ℤ pos max_vlan_id)
    × ((nc.vlan ≡ pos 0) ⊎ (nc.vlan_trunk ≡ []))
    × All IsItem nc.vlan_trunk

check_span_iff : (lo hi : Option ℤ) → (check_span lo hi ≡ ok tt) ↔ IsSpan lo hi
check_span_iff (some lo) (some hi) = (λ h. ground arith, λ h. ground arith)
check_span_iff none (some hi) = (λ h. ground arith, λ h. ground arith)
check_span_iff (some lo) none = (λ h. ground arith, λ h. ground arith)
check_span_iff none none = (λ h. tt, λ h. refl)

check_id_iff : (v : Option ℤ) → (check_id v ≡ ok tt) ↔ IsId v
check_id_iff none = (λ h. tt, λ h. refl)
check_id_iff (some v) = (λ h. ground arith, λ h. ground arith)

nonempty_iff :
    (v lo hi : Option ℤ)
    → IsSpan lo hi
    → ((is_unset v && (is_unset lo && is_unset hi)) ≡ false) ↔ ((v ≢ none) ⊎ (lo ≢ none))
nonempty_iff (some v) lo hi h = (λ e. inl (λ p. cc), λ q. refl)
nonempty_iff none (some lo) (some hi) h = (λ e. inr (λ p. cc), λ q. refl)
nonempty_iff none none none h =
    (λ e. cc, λ q. elim q [ inl p ↦ absurd (p refl) | inr p ↦ absurd (p refl) ])
nonempty_iff none none (some hi) h = absurd h
nonempty_iff none (some lo) none h = absurd h

is_valid_iff : (item : Option VlanTrunk) → (is_valid item ≡ ok tt) ↔ IsItem item
unfolding is_valid
is_valid_iff none = (λ h. tt, λ h. refl)
is_valid_iff (some vt) = (
  λ h.
      let (a, rest) = >>-eq-ok (check_span vt.min_id vt.max_id) _ h in
      let (b, c) = >>-eq-ok (check_id vt.id) _ rest in
      let span = (check_span_iff vt.min_id vt.max_id).0 a in
      (
        span,
        (check_id_iff vt.id).0 b,
        (nonempty_iff vt.id vt.min_id vt.max_id span).0 (refuse_if-eq-ok _ trunk_empty c),
      ),
  λ h.
      let a = (check_span_iff vt.min_id vt.max_id).1 h.0 in
      let b = (check_id_iff vt.id).1 h.1 in
      let c = (nonempty_iff vt.id vt.min_id vt.max_id h.0).1 h.2 in rw (a, b, c) refl,
)

for_each_iff :
    (items : List (Option VlanTrunk)) → (for_each is_valid items ≡ ok tt) ↔ All IsItem items
for_each_iff [] = (λ h. tt, λ h. refl)
for_each_iff (item ∷ items) = (
  λ h.
      let (a, b) = >>-eq-ok (is_valid item) _ h in
      ((is_valid_iff item).0 a, (for_each_iff items).0 b),
  λ h. rw ((is_valid_iff item).1 h.0) ((for_each_iff items).1 h.1),
)

vlan_with_trunk_iff :
    (nc : NetConf)
    → ((nc.vlan != pos 0 && ltb 0 (length nc.vlan_trunk)) ≡ false)
      ↔ ((nc.vlan ≡ pos 0) ⊎ (nc.vlan_trunk ≡ []))
vlan_with_trunk_iff nc =
    (λ h. ground (arith, int_iff nc.vlan (pos 0)), λ h. ground (arith, int_iff nc.vlan (pos 0)))

range_iff :
    (v : ℤ)
    → ((ltb_ℤ v (pos 0) || ltb_ℤ (pos max_vlan_id) v) ≡ false)
      ↔ ((pos 0 ≤ℤ v) × (v ≤ℤ pos max_vlan_id))
range_iff v = (λ h. ground arith, λ h. ground arith)

-- `IsVlanConfigValid` accepts a configuration exactly if its VLAN id lies in [0, 4094], it is 0
-- where there are trunk items, and each trunk item is nil or well-formed: both bounds or neither,
-- every id that it names in [1, 4094], the bounds in order, and not all fields empty.
pub is_vlan_config_valid_iff : (nc : NetConf) → (is_vlan_config_valid nc ≡ ok tt) ↔ IsVlanConfig nc
unfolding is_vlan_config_valid
is_vlan_config_valid_iff nc = (
  λ h.
      let (a, rest) = >>-eq-ok (refuse_if _ (vid_out_of_range nc.vlan)) _ h in
      let (b, c) = >>-eq-ok (refuse_if _ vlan_with_trunk) _ rest in
      let range = (range_iff nc.vlan).0 (refuse_if-eq-ok _ _ a) in
      (
        range.0,
        range.1,
        (vlan_with_trunk_iff nc).0 (refuse_if-eq-ok _ _ b),
        (for_each_iff nc.vlan_trunk).0 c,
      ),
  λ h.
      let a = (range_iff nc.vlan).1 (h.0, h.1) in
      let b = (vlan_with_trunk_iff nc).1 h.2 in simp (a, b) ((for_each_iff nc.vlan_trunk).1 h.3),
)
