-- ===== src/Vmis/Using.antt =====
-- What it says of the machines that no name is listed.
use network_controller_harve.Common.{
  ◌≡◌, refl, inl, inr, Bool, true, false, List, [], ◌∷◌, ◌++◌, Option, none, some, Bytes, arith, ok,
  >>=-eq-ok, if◌then◌else◌, Bool-cases, ◌==◌, nat_eq, nat_iff, length, keep, All, All-mono, ◌∙◌, ap,
}
use network_controller_harve.Objects.{Nad, Vmi}
use network_controller_harve.Env.{Env, SetLaws}
use network_controller_harve.Vmis.{
  name_list, on_nodes, indexed, who_use_nad, who_use_nads, vmi_names_who_use_nads,
}

nil_of_name_list : (vmis : List Vmi) → name_list vmis ≡ [] → vmis ≡ []
unfolding name_list
nil_of_name_list [] e = refl
nil_of_name_list (vmi ∷ vmis) e = cc

nil_of_append : (xs ys : List Vmi) → xs ++ ys ≡ [] → (xs ≡ []) × (ys ≡ [])
nil_of_append [] ys e = (refl, e)
nil_of_append (x ∷ xs) ys e = cc

keep-nil : (p : Vmi → Bool) (vmis : List Vmi) → keep p vmis ≡ [] → All (λ v. p v ≡ false) vmis
keep-nil p [] e = tt
keep-nil p (v ∷ vmis) e = elim (Bool-cases (p v)) [
  | inl t ↦ ground arith
  | inr f ↦ (f, keep-nil p vmis (ground arith))
]

module _ (env : Env) where
  nil_of_names :
      SetLaws env
      → (nads : List Nad) (flag : Bool) (nodes : Option env.Set)
      → vmi_names_who_use_nads env nads flag nodes ≡ ok []
      → who_use_nads env nads flag nodes ≡ ok []
  unfolding vmi_names_who_use_nads
  nil_of_names laws nads flag nodes h =
      let (vmis, e, rest) = >>=-eq-ok (who_use_nads env nads flag nodes) _ h in
      e ∙ ap ok (nil_of_rest vmis rest)
    where
      nil_of_rest :
          (vmis : List Vmi)
          → (if length vmis == 0
              then ok []
              else if length vmis == 1
              then ok (name_list vmis)
              else ok (env.to_slice (env.set_of (name_list vmis))))
            ≡ ok []
          → vmis ≡ []
      nil_of_rest [] r = refl
      nil_of_rest (v ∷ []) r = nil_of_name_list _ (ground arith)
      nil_of_rest (v ∷ w ∷ vmis) r = nil_of_name_list _ (laws.nil_of_to_slice _ (ground arith))

  -- Where no name of a machine on the list of networks comes back, none of the networks is used.
  All-nil :
      (nads : List Nad) (flag : Bool) (nodes : Option env.Set)
      → who_use_nads env nads flag nodes ≡ ok []
      → All (λ nad. who_use_nad env nad flag nodes ≡ ok []) nads
  unfolding who_use_nads
  All-nil [] flag nodes h = tt
  All-nil (nad ∷ nads) flag nodes h =
      let (vmis, e, rest) = >>=-eq-ok (who_use_nad env nad flag nodes) _ h in
      let (more, e', sum) = >>=-eq-ok (who_use_nads env nads flag nodes) _ rest in
      let (a, b) = nil_of_append vmis more (ok_inj sum) in
      (e ∙ ap ok a, All-nil nads flag nodes (e' ∙ ap ok b))
    where
      ok_inj : {x y : List Vmi} → ok x ≡ ok y → x ≡ y
      ok_inj h = cc

  -- No machine of the network is on one of the nodes.
  abbrev pub NoneOnNodes : env.Set → Nad → Type 0
  NoneOnNodes nodes nad =
      (vmis : List Vmi)
      → indexed env env.vmis_by_network nad ≡ ok vmis
      → All (λ vmi. env.contains nodes vmi.node_name ≡ false) vmis

  pub All-outside :
      (nodes : env.Set) (vmis : List Vmi)
      → ((x : Bytes) → env.contains nodes x ≡ false)
      → All (λ vmi. env.contains nodes vmi.node_name ≡ false) vmis
  All-outside nodes [] h = tt
  All-outside nodes (v ∷ vmis) h = (h v.node_name, All-outside nodes vmis h)

  pub NoneOnNodes-nil :
      SetLaws env
      → (nodes : env.Set) (nad : Nad) → who_use_nad env nad true (some nodes) ≡ ok []
      → NoneOnNodes nodes nad
  unfolding who_use_nad
  NoneOnNodes-nil laws nodes nad h vmis e = elim (Bool-cases (env.cardinality nodes == 0)) [
    | inl z ↦
        All-outside nodes vmis
          (λ x. laws.contains-empty nodes x (ground (arith, nat_iff (env.cardinality nodes) 0)))
    | inr nz ↦
        let kept : keep (on_nodes env (some nodes)) vmis ≡ [] = ground arith in
        keep-nil (on_nodes env (some nodes)) vmis kept
  ]

  -- No machine uses the network.
  unused_of_nil :
      (nad : Nad) (nodes : Option env.Set)
      → who_use_nad env nad false nodes ≡ ok []
      → indexed env env.vmis_by_network nad ≡ ok []
  unfolding who_use_nad
  unused_of_nil nad nodes h = ground arith

  -- Where `VmiNamesWhoUseNads` filtered by nodes lists no name, no machine of the networks is on
  -- one of these nodes.
  pub NoneOnNodes-names :
      SetLaws env
      → (nads : List Nad) (nodes : env.Set)
      → vmi_names_who_use_nads env nads true (some nodes) ≡ ok []
      → All (NoneOnNodes nodes) nads
  NoneOnNodes-names laws nads nodes h =
      All-mono (λ nad e. NoneOnNodes-nil laws nodes nad e) nads
        (All-nil nads true (some nodes) (nil_of_names laws nads true (some nodes) h))

  -- Where `VmiNamesWhoUseNads` without a filter lists no name, no machine uses the networks.
  pub unused_of_names :
      SetLaws env
      → (nads : List Nad) → vmi_names_who_use_nads env nads false none ≡ ok []
      → All (λ nad. indexed env env.vmis_by_network nad ≡ ok []) nads
  unused_of_names laws nads h =
      All-mono (λ nad e. unused_of_nil nad none e) nads
        (All-nil nads false none (nil_of_names laws nads false none h))
