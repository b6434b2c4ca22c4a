-- ===== src/Manager/VlanConfig/Source.antt =====
-- Which VLAN configuration takes over as the source of the MTU.
use mathlib.Core.Path.{subst}
use network_controller_harve.Common.{
  ◌≡◌, refl, ap, inl, inr, ◌⊎◌, Bool, Bool-cases, true, false, All, ◌++◌, not, ◌&&◌, List, [], ◌∷◌,
  Option, none, some, Bytes, ◌==◌, ◌!=◌, bytes_eq, int_eq, arith, if◌then◌else◌, pos, ◌∙◌, sym,
  Option-cases,
}
use network_controller_harve.Objects.{VlanConfig}
use network_controller_harve.Mtu.{is_valid_mtu, get_mtu_from_vlan_config}
use network_controller_harve.Manager.VlanConfig.{find_candidate}

-- Another active configuration, with a valid MTU.
abbrev pub is_eligible : Bytes → VlanConfig → Bool
is_eligible removed vc =
    vc.name != removed && (not vc.deleting && is_valid_mtu (get_mtu_from_vlan_config vc))

abbrev pub has_zero_mtu : VlanConfig → Bool
has_zero_mtu vc = get_mtu_from_vlan_config vc == pos 0

-- The first element that passes a test.
pub first : (VlanConfig → Bool) → List VlanConfig → Option VlanConfig
first p [] = none
first p (vc ∷ vcs) = let rest = first p vcs in if p vc then some vc else rest

abbrev pub or_else : Option VlanConfig → Option VlanConfig → Option VlanConfig
or_else none o = o
or_else (some vc) o = some vc

-- The first eligible configuration with an MTU that is not 0, and the first with MTU 0.
abbrev pub first_set : Bytes → List VlanConfig → Option VlanConfig
first_set removed vcs = first (λ vc. is_eligible removed vc && not (has_zero_mtu vc)) vcs

abbrev pub first_zero : Bytes → List VlanConfig → Option VlanConfig
first_zero removed vcs = first (λ vc. is_eligible removed vc && has_zero_mtu vc) vcs

find_candidate-first :
    (removed : Bytes) (vcs : List VlanConfig) (z : Option VlanConfig)
    → find_candidate removed vcs z
      ≡ or_else (first_set removed vcs) (or_else z (first_zero removed vcs))
unfolding find_candidate first
find_candidate-first removed [] none = refl
find_candidate-first removed [] (some vc) = refl
find_candidate-first removed (vc ∷ vcs) none =
    ground
      (arith, find_candidate-first removed vcs none, find_candidate-first removed vcs (some vc))
find_candidate-first removed (vc ∷ vcs) (some v) =
    ground (arith, find_candidate-first removed vcs (some v))

-- The single pass of `OnVlanConfigRemove` chooses as two passes would: the first other active
-- configuration with a valid MTU that is not 0; if there is none, the first with MTU 0; and nothing
-- if no configuration is eligible.
find_candidate_lem :
    (removed : Bytes) (vcs : List VlanConfig)
    → find_candidate removed vcs none ≡ or_else (first_set removed vcs) (first_zero removed vcs)
find_candidate_lem removed vcs = find_candidate-first removed vcs none

-- An element of a list that passes a test which every element before it fails.
abbrev pub IsFirst : (VlanConfig → Bool) → List VlanConfig → VlanConfig → Type 0
IsFirst p vcs vc =
    (before rest : List VlanConfig) × (vcs ≡ before ++ vc ∷ rest)
    × All (λ v. p v ≡ false) before
    × (p vc ≡ true)

first-none :
    (p : VlanConfig → Bool) (vcs : List VlanConfig)
    → first p vcs ≡ none
    → All (λ v. p v ≡ false) vcs
unfolding first
first-none p [] e = tt
first-none p (v ∷ vcs) e = elim (Bool-cases (p v)) [
  | inl passed ↦ let found : some v ≡ none = simp passed at e in absurd (cc)
  | inr failed ↦ (failed, first-none p vcs (simp failed at e))
]

first-IsFirst :
    (p : VlanConfig → Bool) (vcs : List VlanConfig) (vc : VlanConfig)
    → first p vcs ≡ some vc
    → IsFirst p vcs vc
unfolding first
first-IsFirst p [] vc e = absurd (cc)
first-IsFirst p (v ∷ vcs) vc e = elim (Bool-cases (p v)) [
  | inl passed ↦
      let found : some v ≡ some vc = simp passed at e in
      let same : v ≡ vc = cc in
      ([], vcs, ap (λ x. x ∷ vcs) same, tt, subst (λ x. p x ≡ true) same passed)
  | inr failed ↦
      let (before, rest, split, failing, passed) = first-IsFirst p vcs vc (simp failed at e) in
      (v ∷ before, rest, ap (λ xs. v ∷ xs) split, (failed, failing), passed)
]

-- Eligible with an MTU that is not 0, and with MTU 0.
abbrev pub is_set : Bytes → VlanConfig → Bool
is_set removed vc = is_eligible removed vc && not (has_zero_mtu vc)

abbrev pub is_zero : Bytes → VlanConfig → Bool
is_zero removed vc = is_eligible removed vc && has_zero_mtu vc

-- The configuration of the list that has to take over: the first eligible one with an MTU that is
-- not 0, or, where no eligible one has such an MTU, the first with MTU 0.
abbrev pub IsChosen : Bytes → List VlanConfig → VlanConfig → Type 0
IsChosen removed vcs vc =
    IsFirst (is_set removed) vcs vc
    ⊎ (All (λ v. is_set removed v ≡ false) vcs × IsFirst (is_zero removed) vcs vc)

pub chosen-eligible :
    (removed : Bytes) (vcs : List VlanConfig) (vc : VlanConfig)
    → IsChosen removed vcs vc
    → is_eligible removed vc ≡ true
chosen-eligible removed vcs vc (inl (before, rest, split, failing, passed)) = ground (arith, passed)
chosen-eligible removed vcs vc (inr (none_set, (before, rest, split, failing, passed))) =
    ground (arith, passed)

-- The chosen configuration is the one of the list that has to take over.
pub find_candidate-IsChosen :
    (removed : Bytes) (vcs : List VlanConfig) (vc : VlanConfig)
    → find_candidate removed vcs none ≡ some vc
    → IsChosen removed vcs vc
find_candidate-IsChosen removed vcs vc e =
    let chosen = sym (find_candidate_lem removed vcs) ∙ e in
    elim (Option-cases (first_set removed vcs)) [
      | inl none_set ↦
          inr (first-none _ vcs none_set, first-IsFirst _ vcs vc (simp none_set at chosen))
      | inr (v, found) ↦
          let same : some v ≡ some vc = simp found at chosen in
          inl (first-IsFirst _ vcs vc (found ∙ same))
    ]

none_of_both :
    (removed : Bytes) (vcs : List VlanConfig)
    → All (λ v. is_set removed v ≡ false) vcs
    → All (λ v. is_zero removed v ≡ false) vcs
    → All (λ v. is_eligible removed v ≡ false) vcs
none_of_both removed [] h k = tt
none_of_both removed (v ∷ vcs) h k = (ground (arith, h.0, k.0), none_of_both removed vcs h.1 k.1)

-- Where none is chosen, no configuration of the list is eligible.
pub find_candidate-none :
    (removed : Bytes) (vcs : List VlanConfig)
    → find_candidate removed vcs none ≡ none
    → All (λ v. is_eligible removed v ≡ false) vcs
find_candidate-none removed vcs e =
    let chosen = sym (find_candidate_lem removed vcs) ∙ e in
    elim (Option-cases (first_set removed vcs)) [
      | inl none_set ↦
          none_of_both removed vcs (first-none _ vcs none_set)
            (first-none _ vcs (simp none_set at chosen))
      | inr (v, found) ↦ let same : some v ≡ none = simp found at chosen in absurd (cc)
    ]
