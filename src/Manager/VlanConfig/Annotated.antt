-- ===== src/Manager/VlanConfig/Annotated.antt =====
-- The annotations that the controller keeps, and how the webhook of cluster networks reads them.
use network_controller_harve.Common.{
  String, ◌≡◌, refl, ◌∙◌, ap, All, sym, Option-cases, or_empty, atoi, Error, not_found, List, true,
  false, Option, none, some, Bytes, ◌==◌, bytes_eq, bytes_iff, int_eq, int_iff, ℤ, pos, arith,
  if◌then◌else◌, Bool-cases, inl, inr, ◌⊎◌, find, get, put, entries, remove, lookup-insert,
  lookup-remove, itoa, GoMap, Result, ok, err, string_eq, [],
}
use network_controller_harve.Objects.{
  ClusterNetwork, VlanConfig, key_uplink_mtu, key_mtu_source_vlan_config,
}
use network_controller_harve.Mtu.{
  default_mtu, is_valid_mtu, get_mtu_from_vlan_config, get_mtu_from_string, mtu_default_to,
}
use network_controller_harve.Mtu.Laws.{get_mtu_from_string-itoa}
use network_controller_harve.Webhook.ClusterNetwork.{annotated_mtu}
use network_controller_harve.Manager.VlanConfig.{
  Action, unchanged, create_cn, update_cn, wanted_mtu, with_source, without_source, ensure,
  find_candidate, replace_source, fresh,
}
use network_controller_harve.Manager.VlanConfig.Source.{
  is_eligible, IsChosen, chosen-eligible, find_candidate-IsChosen, find_candidate-none,
}

find-put-same : (k : String) (v : Bytes) (m : GoMap) → (k == k) ≡ true → find k (put k v m) ≡ some v
find-put-same k v m h = lookup-insert k k v (entries m) ∙ ap (λ b. if b then some v else find k m) h

find-put-other :
    (k j : String) (v : Bytes) (m : GoMap) → (k == j) ≡ false → find j (put k v m) ≡ find j m
find-put-other k j v m h =
    lookup-insert k j v (entries m) ∙ ap (λ b. if b then some v else find j m) h

mtu_of_with_source :
    (cn : ClusterNetwork) (mtu source : Bytes)
    → find key_uplink_mtu (with_source cn mtu source).annotations ≡ some mtu
mtu_of_with_source cn mtu source =
    find-put-other key_mtu_source_vlan_config key_uplink_mtu source
      (put key_uplink_mtu mtu cn.annotations) refl
    ∙ find-put-same key_uplink_mtu mtu cn.annotations refl

source_of_with_source :
    (cn : ClusterNetwork) (mtu source : Bytes)
    → find key_mtu_source_vlan_config (with_source cn mtu source).annotations ≡ some source
source_of_with_source cn mtu source =
    find-put-same key_mtu_source_vlan_config source (put key_uplink_mtu mtu cn.annotations) refl

wanted_mtu-valid : (vc : VlanConfig) → is_valid_mtu (wanted_mtu vc) ≡ true
unfolding is_valid_mtu
wanted_mtu-valid vc = ground (arith, int_iff (get_mtu_from_vlan_config vc) (pos 0))

annotated_mtu-with_source :
    (cn : ClusterNetwork) (mtu : ℤ) (source : Bytes)
    → is_valid_mtu mtu ≡ true
    → annotated_mtu (with_source cn (itoa mtu) source) ≡ ok mtu
unfolding annotated_mtu
annotated_mtu-with_source cn mtu source h =
    rw (mtu_of_with_source cn (itoa mtu) source) (get_mtu_from_string-itoa mtu h)

-- The cluster network as an action leaves it; `cn` is what was there before.
abbrev pub after : Action → Option ClusterNetwork → Option ClusterNetwork
after unchanged cn = cn
after (create_cn new) cn = some new
after (update_cn new) cn = some new

abbrev pub cached : Result ClusterNetwork → Option ClusterNetwork
cached (ok cn) = some cn
cached (err e) = none

-- The annotation of a cluster network, read by the webhook, gives this MTU.
abbrev pub Gives : Option ClusterNetwork → ℤ → Type 0
Gives none mtu = ⊥
Gives (some cn) mtu = annotated_mtu cn ≡ ok mtu

no_mtu : (mtu : ℤ) → get_mtu_from_string [] ≡ ok mtu → ⊥
unfolding get_mtu_from_string atoi
no_mtu mtu h = cc

itoa-nonempty : (mtu : ℤ) → is_valid_mtu mtu ≡ true → [] ≡ itoa mtu → ⊥
itoa-nonempty mtu valid e =
    no_mtu mtu (ap get_mtu_from_string e ∙ get_mtu_from_string-itoa mtu valid)

itoa-get :
    (m : GoMap) (mtu : ℤ)
    → is_valid_mtu mtu ≡ true
    → get key_uplink_mtu m ≡ itoa mtu
    → find key_uplink_mtu m ≡ some (itoa mtu)
itoa-get m mtu valid e = elim (Option-cases (find key_uplink_mtu m)) [
  | inl gone ↦ absurd (itoa-nonempty mtu valid (ap or_empty (sym gone) ∙ e))
  | inr (v, is) ↦ is ∙ ap some (ap or_empty (sym is) ∙ e)
]

-- The two ways in which `ensureClusterNetwork` succeeds on a cluster network that is there.
ensure-found :
    (vc : VlanConfig) (cn : ClusterNetwork) (a : Action)
    → ensure vc (ok cn) ≡ ok a
    → ((unchanged ≡ a) × (get key_uplink_mtu cn.annotations ≡ itoa (wanted_mtu vc)))
      ⊎ (update_cn (with_source cn (itoa (wanted_mtu vc)) vc.name) ≡ a)
unfolding ensure
ensure-found vc cn a h =
    elim (Bool-cases (get key_uplink_mtu cn.annotations == itoa (wanted_mtu vc))) [
      | inl e ↦ let r : ok unchanged ≡ ok a = simp e at h in inl (cc, (bytes_iff _ _).0 e)
      | inr e ↦
          let r : ok (update_cn (with_source cn (itoa (wanted_mtu vc)) vc.name)) ≡ ok a =
            simp e at h in
          inr cc
    ]

ensure-missing :
    (vc : VlanConfig) (e : Error) (a : Action)
    → ensure vc (err e) ≡ ok a
    → create_cn (with_source (fresh vc.cluster_network) (itoa (wanted_mtu vc)) vc.name) ≡ a
unfolding ensure
ensure-missing vc not_found a h = cc
ensure-missing vc e a h = cc

-- Whenever `ensureClusterNetwork` succeeds, the cluster network that it leaves behind has an
-- annotation that the webhook reads as the wanted MTU: the configuration's, or 1500 if that is
-- 0 or invalid.
ensure-Gives :
    (vc : VlanConfig) (r : Result ClusterNetwork) (a : Action)
    → ensure vc r ≡ ok a
    → Gives (after a (cached r)) (wanted_mtu vc)
unfolding annotated_mtu
ensure-Gives vc (ok cn) a h = elim (ensure-found vc cn a h) [
  | inl (is, e) ↦
      let same = itoa-get cn.annotations (wanted_mtu vc) (wanted_mtu-valid vc) e in
      rw (sym is, same) (get_mtu_from_string-itoa (wanted_mtu vc) (wanted_mtu-valid vc))
  | inr is ↦
      rw (sym is) (annotated_mtu-with_source cn (wanted_mtu vc) vc.name (wanted_mtu-valid vc))
]
ensure-Gives vc (err e) a h = rw (sym (ensure-missing vc e a h)) (
    annotated_mtu-with_source (fresh vc.cluster_network) (wanted_mtu vc) vc.name
      (wanted_mtu-valid vc))

ensure-again :
    (vc : VlanConfig) (cn : ClusterNetwork)
    → find key_uplink_mtu cn.annotations ≡ some (itoa (wanted_mtu vc))
    → ensure vc (ok cn) ≡ ok unchanged
unfolding ensure
ensure-again vc cn e = let same = (bytes_iff _ _).1 (ap or_empty e) in simp same

-- A second run of `ensureClusterNetwork` on what the first one left behind writes nothing.
pub ensure-idempotent :
    (vc : VlanConfig) (r : Result ClusterNetwork) (a : Action) (cn : ClusterNetwork)
    → ensure vc r ≡ ok a
    → after a (cached r) ≡ some cn
    → ensure vc (ok cn) ≡ ok unchanged
ensure-idempotent vc (ok old) a cn h e = elim (ensure-found vc old a h) [
  | inl (is, same) ↦
      let p : some old ≡ some cn = ap (λ x. after x (some old)) is ∙ e in
      let q : old ≡ cn = cc in
      rw (sym q)
        (ensure-again vc old (itoa-get old.annotations (wanted_mtu vc) (wanted_mtu-valid vc) same))
  | inr is ↦
      let p : some (with_source old (itoa (wanted_mtu vc)) vc.name) ≡ some cn =
        ap (λ x. after x (some old)) is ∙ e in
      let q : with_source old (itoa (wanted_mtu vc)) vc.name ≡ cn = cc in
      rw (sym q) (ensure-again vc _ (mtu_of_with_source old (itoa (wanted_mtu vc)) vc.name))
]
ensure-idempotent vc (err f) a cn h e =
    let p : some (with_source (fresh vc.cluster_network) (itoa (wanted_mtu vc)) vc.name) ≡ some cn =
      ap (λ x. after x none) (ensure-missing vc f a h) ∙ e in
    let q : with_source (fresh vc.cluster_network) (itoa (wanted_mtu vc)) vc.name ≡ cn = cc in
    rw (sym q) (
      ensure-again vc _
        (mtu_of_with_source (fresh vc.cluster_network) (itoa (wanted_mtu vc)) vc.name))

source_gone :
    (cn : ClusterNetwork) → find key_mtu_source_vlan_config (without_source cn).annotations ≡ none
source_gone cn =
    lookup-remove key_uplink_mtu key_mtu_source_vlan_config
      (remove key_mtu_source_vlan_config (entries cn.annotations))
    ∙ lookup-remove key_mtu_source_vlan_config key_mtu_source_vlan_config (entries cn.annotations)

mtu_gone : (cn : ClusterNetwork) → find key_uplink_mtu (without_source cn).annotations ≡ none
mtu_gone cn =
    lookup-remove key_uplink_mtu key_uplink_mtu
      (remove key_mtu_source_vlan_config (entries cn.annotations))

-- What a removal has to leave behind: no source and the default MTU, where no configuration of the
-- list is eligible, or the source that has to take over, with its MTU.
abbrev pub IsTakenOver : Bytes → List VlanConfig → Option ClusterNetwork → Type 0
IsTakenOver removed vcs none = ⊥
IsTakenOver removed vcs (some cn) =
    ((find key_mtu_source_vlan_config cn.annotations ≡ none)
      × (annotated_mtu cn ≡ ok default_mtu)
      × All (λ v. is_eligible removed v ≡ false) vcs)
    ⊎ ((vc : VlanConfig) × (find key_mtu_source_vlan_config cn.annotations ≡ some vc.name)
        × IsChosen removed vcs vc
        × (annotated_mtu cn ≡ ok (mtu_default_to (get_mtu_from_vlan_config vc))))

default_to-valid : (mtu : ℤ) → is_valid_mtu mtu ≡ true → is_valid_mtu (mtu_default_to mtu) ≡ true
unfolding is_valid_mtu mtu_default_to
default_to-valid mtu h = ground (arith, int_iff mtu (pos 0))

eligible-valid :
    (removed : Bytes) (vc : VlanConfig)
    → is_eligible removed vc ≡ true
    → is_valid_mtu (get_mtu_from_vlan_config vc) ≡ true
eligible-valid removed vc h = ground arith

-- The write of `OnVlanConfigRemove` leaves a cluster network with no source and the default MTU,
-- where no configuration of the list is eligible: active, with a valid MTU, and not the removed one.
-- Or else it leaves the name and the MTU, 0 standing for 1500, of the first eligible configuration of
-- the list whose MTU is not 0, or, where there is none, of the first eligible one.
pub replace_source-IsTakenOver :
    (removed : Bytes) (cn : ClusterNetwork) (vcs : List VlanConfig)
    → IsTakenOver removed vcs
        (after (replace_source cn (find_candidate removed vcs none)) (some cn))
unfolding annotated_mtu
replace_source-IsTakenOver removed cn vcs = elim (Option-cases (find_candidate removed vcs none)) [
  | inl e ↦ rw e (inl (source_gone cn, rw (mtu_gone cn) refl, find_candidate-none removed vcs e))
  | inr (vc, e) ↦
      let chosen = find_candidate-IsChosen removed vcs vc e in
      let good = chosen-eligible removed vcs vc chosen in
      let mtu = mtu_default_to (get_mtu_from_vlan_config vc) in
      rw e (
        inr (
          vc,
          source_of_with_source cn (itoa mtu) vc.name,
          chosen,
          annotated_mtu-with_source cn mtu vc.name
              (default_to-valid _ (eligible-valid removed vc good)),
        ))
]
