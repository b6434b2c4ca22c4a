-- ===== src/Network/Areas/Torn.antt =====
-- After a teardown the bridge and the uplink of the cluster network are gone.
use mathlib.Core.Path.{subst}
use network_controller_harve.Common.{
  ℕ, zero, suc, Bool, ◌||◌, List, [], ◌∷◌, Result, Error, ◌≡◌, sym, ◌∙◌, ap, some, Bytes, ◌==◌,
  bytes_eq, bytes_iff, bytes_beq, Bool-cases, inl, inr, ok, err, >>=-eq-ok, Effect, and_then-eq-ok,
  link_not_found,
}
use network_controller_harve.Bridge.{generate_bridge_name, generate_bond_name}
use network_controller_harve.Network.{Netlink, Link, kind_bridge, kind_bond}
use network_controller_harve.Network.Bonds.{
  again, retry, retry_on_kernel_conflict, is_up, up_unless, set_link_up, get_slaves, recover,
  remove_with, remove_bond, remove_link,
}
use network_controller_harve.Network.Ports.{set_no_master}
use network_controller_harve.Network.Areas.{Vlan, fetch_bridge, get_vlan, teardown}

-- The documented behaviour of looking up and deleting links.
pub record LinkLaws (nl : Netlink) : Type 0 where
  pub named :
      (name : Bytes) (s : nl.State) (l : Link) → nl.link_by_name name s ≡ ok l → l.name ≡ name
  pub gone :
      (l : Link) (s : nl.State)
      → (nl.link_del l s).1 ≡ ok tt
      → nl.link_by_name l.name (nl.link_del l s).0 ≡ err link_not_found

-- A link that is not there is not made by deleting a link or by setting one up.
pub record MakesNone (nl : Netlink) : Type 0 where
  pub del_makes_none :
      (name : Bytes) (l : Link) (s : nl.State)
      → nl.link_by_name name s ≡ err link_not_found
      → nl.link_by_name name (nl.link_del l s).0 ≡ err link_not_found
  pub up_makes_none :
      (name : Bytes) (l : Link) (s : nl.State)
      → nl.link_by_name name s ≡ err link_not_found
      → nl.link_by_name name (nl.link_set_up l s).0 ≡ err link_not_found

-- What an operation keeps is kept by its repetition.
module _ {S : Type 0} (P : S → Type 0) (is_conflict : Error → Bool) (operation : S → Effect S)
    (step : (s : S) → P s → P (operation s).0) where
  again-keeps :
      (m : Effect S) (next : S → Effect S)
      → P m.0
      → ((t : S) → P t → P (next t).0)
      → P (again is_conflict m next).0
  again-keeps (t, ok done) next h f = h
  again-keeps (t, err e) next h f = elim (Bool-cases (is_conflict e)) [
    | inl busy ↦ rw busy (f t h)
    | inr other ↦ rw other h
  ]

  retry-keeps : (n : ℕ) (s : S) → P s → P (retry is_conflict operation n s).0
  unfolding retry
  retry-keeps zero s h = step s h
  retry-keeps (suc n) s h =
      again-keeps (operation s) (λ t. retry is_conflict operation n t) (step s h) (retry-keeps n)

  retry_on_kernel_conflict-keeps :
      (s : S) → P s → P (retry_on_kernel_conflict is_conflict operation s).0
  unfolding retry_on_kernel_conflict
  retry_on_kernel_conflict-keeps s h = retry-keeps 1 s h

module _ (nl : Netlink) where
  -- No link has this name.
  abbrev pub IsGone : Bytes → nl.State → Type 0
  IsGone name s = nl.link_by_name name s ≡ err link_not_found

  -- The bridge and the uplink of the cluster network are gone.
  abbrev pub IsTornDown : Bytes → nl.State → Type 0
  IsTornDown cn_name t =
      IsGone (generate_bridge_name cn_name) t × IsGone (generate_bond_name cn_name) t

module _ (nl : Netlink) (laws : LinkLaws nl) (none_made : MakesNone nl) where
  fetch_bridge-ok :
      (name : Bytes) (s : nl.State) (br : Link)
      → fetch_bridge nl name s ≡ ok br
      → (br.name ≡ name) × (br.kind ≡ kind_bridge)
  unfolding fetch_bridge
  fetch_bridge-ok name s br h =
      let (l, e, r) = >>=-eq-ok (nl.link_by_name name s) _ h in
      elim (Bool-cases (l.kind == kind_bridge)) [
        | inl same ↦
            let p : ok l ≡ ok br = simp same at r in
            let q : l ≡ br = cc in
            rw (sym q) (laws.named name s l e, (bytes_iff l.kind kind_bridge).0 same)
        | inr other ↦ let p = simp other at r in absurd (cc)
      ]

  remove_bridge :
      (br : Link) (s : nl.State) → br.kind ≡ kind_bridge → remove_link nl br s ≡ nl.link_del br s
  unfolding remove_link bytes_beq
  remove_bridge br s kind = simp kind

  up_unless-IsGone :
      (name : Bytes) (found : Result Link) (s : nl.State)
      → IsGone nl name s
      → IsGone nl name (up_unless nl found s).0
  up_unless-IsGone name (err e) s h = h
  up_unless-IsGone name (ok l) s h = elim (Bool-cases (is_up l.oper_state || l.flag_up)) [
    | inl up ↦ rw up h
    | inr down ↦ rw down (none_made.up_makes_none name l s h)
  ]

  set_link_up-IsGone :
      (name other : Bytes) (s : nl.State)
      → IsGone nl name s
      → IsGone nl name (set_link_up nl other s).0
  unfolding set_link_up
  set_link_up-IsGone name other s h =
      retry_on_kernel_conflict-keeps (IsGone nl name) nl.is_conflict
        (λ t. up_unless nl (nl.link_by_name other t) t)
        (λ t k. up_unless-IsGone name (nl.link_by_name other t) t k) s h

  recover-IsGone :
      (name : Bytes) (slaves : List Link) (s : nl.State)
      → IsGone nl name s
      → IsGone nl name (recover nl slaves s).0
  unfolding recover
  recover-IsGone name [] s h = h
  recover-IsGone name (slave ∷ slaves) s h =
      recover-IsGone name slaves (set_link_up nl slave.name s).0
        (set_link_up-IsGone name slave.name s h)

  deleted : (l : Link) (s t : nl.State) → nl.link_del l s ≡ (t, ok tt) → IsGone nl l.name t
  deleted l s t h =
      let done = laws.gone l s (ap (λ (m : Effect nl.State). m.1) h) in
      subst (IsGone nl l.name) (ap (λ (m : Effect nl.State). m.0) h) done

  remove_with-IsGone :
      (l : Link) (slaves : Result (List Link)) (s t : nl.State)
      → remove_with nl l slaves s ≡ (t, ok tt)
      → IsGone nl l.name t
  remove_with-IsGone l (err e) s t h =
      let p : err e ≡ ok tt = ap (λ (m : Effect nl.State). m.1) h in absurd (cc)
  remove_with-IsGone l (ok slaves) s t h =
      let (u, e, r) = and_then-eq-ok (nl.link_del l s) _ h in
      subst (IsGone nl l.name) (ap (λ (m : Effect nl.State). m.0) r)
        (recover-IsGone l.name slaves u (deleted l s u e))

  -- A removal that succeeds leaves no link of the name, with the slaves of a bond brought up again.
  remove_link-IsGone :
      (l : Link) (s t : nl.State) → remove_link nl l s ≡ (t, ok tt) → IsGone nl l.name t
  unfolding remove_link remove_bond
  remove_link-IsGone l s t h = elim (Bool-cases (l.kind == kind_bond)) [
    | inl bond ↦ remove_with-IsGone l (get_slaves nl l.index s) s t (simp bond at h)
    | inr other ↦ deleted l s t (simp other at h)
  ]

  -- A teardown that succeeds removes the uplink, then the bridge, and leaves neither.
  torn :
      (name : Bytes) (br l : Link) (s t : nl.State)
      → br.kind ≡ kind_bridge
      → teardown nl (record { name = name; bridge = br; uplink = some l }) s ≡ (t, ok tt)
      → IsGone nl br.name t × IsGone nl l.name t
  unfolding teardown
  torn name br l s t kind h =
      let (a, e, r) = and_then-eq-ok (set_no_master nl l s) _ h in
      let (b, e', r') = and_then-eq-ok (remove_link nl l a) _ r in
      let last = sym (remove_bridge br b kind) ∙ r' in
      (
        deleted br b t last,
        subst (IsGone nl l.name) (ap (λ (m : Effect nl.State). m.0) last)
            (none_made.del_makes_none l.name br b (remove_link-IsGone l a b e')),
      )

  -- A teardown that succeeds on what `GetVlan` returned leaves neither the bridge nor the uplink of
  -- the cluster network.
  pub teardown-IsTornDown :
      (cn_name : Bytes) (v : Vlan) (s t : nl.State)
      → get_vlan nl cn_name s ≡ ok v
      → teardown nl v s ≡ (t, ok tt)
      → IsTornDown nl cn_name t
  unfolding get_vlan
  teardown-IsTornDown cn_name v s t found h =
      let (br, e, r) = >>=-eq-ok (fetch_bridge nl (generate_bridge_name cn_name) s) _ found in
      let (l, e', r') = >>=-eq-ok (nl.link_by_name (generate_bond_name cn_name) s) _ r in
      let p : ok (record { name = cn_name; bridge = br; uplink = some l }) ≡ ok v = r' in
      let q : record { name = cn_name; bridge = br; uplink = some l } ≡ v = cc in
      let (name, kind) = fetch_bridge-ok (generate_bridge_name cn_name) s br e in
      let h' : teardown nl (record { name = cn_name; bridge = br; uplink = some l }) s
          ≡ (t, ok tt) =
        ap (λ (w : Vlan). teardown nl w s) q ∙ h in
      let (bridge, uplink) = torn cn_name br l s t kind h' in
      (
        subst (λ n. IsGone nl n t) name bridge,
        subst (λ n. IsGone nl n t) (laws.named (generate_bond_name cn_name) s l e') uplink,
      )
