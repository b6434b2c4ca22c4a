-- ===== src/Tests/Writes.antt =====
-- The manager's writes: the theorems at the objects of the tests.
use network_controller_harve.Common.{
  ◌≡◌, refl, [], ◌∷◌, none, some, codes, ok, err, not_found, itoa, bytes_beq, lookup,
}
use network_controller_harve.Manager.VlanConfig.{
  Action, unchanged, create_cn, ensure, find_candidate, replace_source, wanted_mtu, with_source,
  fresh, on_vlan_config_remove, remove_source,
}
use network_controller_harve.Manager.VlanConfig.Annotated.{
  after, IsTakenOver, ensure-idempotent, replace_source-IsTakenOver,
}
use network_controller_harve.Env.{Env}
use network_controller_harve.Manager.VlanConfig.Removed.{IsFreeOf, on_vlan_config_remove_sound}
use network_controller_harve.Tests.{env_of, vc1, vc2, net}

abbrev made : Action
made = create_cn (with_source (fresh (codes "net")) (itoa (wanted_mtu vc2)) (codes "vc2"))

ensured : ensure vc2 (err not_found) ≡ ok made
unfolding ensure
ensured = refl

ensure-idempotent_example :
    ensure vc2 (ok (with_source (fresh (codes "net")) (itoa (wanted_mtu vc2)) (codes "vc2")))
    ≡ ok unchanged
ensure-idempotent_example = ensure-idempotent vc2 (err not_found) made _ ensured refl

replace_source-IsTakenOver_example :
    IsTakenOver
      (codes "vc1")
      (vc1 ∷ vc2 ∷ [])
      (after (replace_source net (find_candidate (codes "vc1") (vc1 ∷ vc2 ∷ []) none)) (some net))
replace_source-IsTakenOver_example = replace_source-IsTakenOver (codes "vc1") net (vc1 ∷ vc2 ∷ [])

abbrev caches : Env
caches = env_of [] (vc1 ∷ vc2 ∷ [])

vc1_removed :
    on_vlan_config_remove caches vc1
    ≡ ok (replace_source net (find_candidate (codes "vc1") (vc1 ∷ vc2 ∷ []) none))
unfolding on_vlan_config_remove remove_source bytes_beq lookup
vc1_removed = refl

on_vlan_config_remove_sound_example :
    IsFreeOf
      (codes "vc1")
      (after (replace_source net (find_candidate (codes "vc1") (vc1 ∷ vc2 ∷ []) none)) (some net))
unfolding bytes_beq
on_vlan_config_remove_sound_example =
    on_vlan_config_remove_sound caches vc1 net
      (replace_source net (find_candidate (codes "vc1") (vc1 ∷ vc2 ∷ []) none)) (λ e. cc) refl
      vc1_removed
