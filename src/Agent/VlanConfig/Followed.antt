-- ===== src/Agent/VlanConfig/Followed.antt =====
-- The VLAN configuration of `mgmt` follows the bond of the management network.
use mathlib.Core.Path.{subst}
use network_controller_harve.Common.{
  ◌≡◌, refl, ◌∙◌, ap, Bool, true, false, ◌⊎◌, inl, inr, List, [], ◌∷◌, Bytes, ◌==◌, bytes_eq,
  bytes_iff, int_eq, int_iff, nat_eq, nat_iff, arith, length, any, all, Result, ok, err, Error,
  Effect, Check, if◌then◌else◌, Bool-cases, is_already_exists, already_exists, is_not_found,
  nil_dereference,
}
use network_controller_harve.Objects.{VlanConfig}
use network_controller_harve.Mgmt.{
  MgmtInfo, mgmt_vlan_config_name, get_mgmt_bond_info, compare_string_slices, or_default_attrs,
  or_default_options, build_updated_vlan_config,
}
use network_controller_harve.Env.{Env}
use network_controller_harve.Requests.{Log, Server, create_vlan_config, update_vlan_config}
use network_controller_harve.Requests.Rounds.{Taken, send-Taken}
use network_controller_harve.Network.{Netlink}
use network_controller_harve.Agent.VlanConfig.Management.{
  empty_vlan_config, mgmt_vlan_config, after_create, create_mgmt_vlan_config, send_changed,
  update_existing, create_or_update_with, create_or_update_found, create_or_update_mgmt,
}

-- A name is in a list.
abbrev pub IsListed : Bytes → List Bytes → Type 0
IsListed name [] = ⊥
IsListed name (x ∷ xs) = (x ≡ name) ⊎ IsListed name xs

-- The configuration has the MTU and the mode of the bond, the missing ones of the configuration
-- being 0 and empty, and as many NICs as the bond has slaves, all slaves among them.
abbrev pub IsFollowing : VlanConfig → MgmtInfo → Type 0
IsFollowing vc info =
    ((or_default_attrs vc.uplink.link_attrs).mtu ≡ info.mtu)
    × ((or_default_options vc.uplink.bond_options).mode ≡ info.bond_mode)
    × (length vc.uplink.nics ≡ length info.slave_names)
    × ((name : Bytes) → IsListed name info.slave_names → IsListed name vc.uplink.nics)

any-IsListed : (name : Bytes) (xs : List Bytes) → any (λ x. x == name) xs ≡ true → IsListed name xs
any-IsListed name [] h = absurd (cc)
any-IsListed name (x ∷ xs) h = elim (Bool-cases (x == name)) [
  | inl same ↦ inl ((bytes_iff x name).0 same)
  | inr other ↦ inr (any-IsListed name xs (simp other at h))
]

all-IsListed :
    (a b : List Bytes)
    → all (λ v. any (λ w. w == v) a) b ≡ true
    → (name : Bytes) → IsListed name b
    → IsListed name a
all-IsListed a [] h name there = elim there [ ]
all-IsListed a (x ∷ b) h name (inl same) =
    any-IsListed name a (subst (λ n. any (λ w. w == n) a ≡ true) same (ground (arith, h)))
all-IsListed a (x ∷ b) h name (inr later) = all-IsListed a b (ground (arith, h)) name later

compare_string_slices_sound :
    (a b : List Bytes)
    → compare_string_slices a b ≡ true
    → (length a ≡ length b) × ((name : Bytes) → IsListed name b → IsListed name a)
unfolding compare_string_slices
compare_string_slices_sound a b h =
    ((nat_iff (length a) (length b)).0 (ground (arith, h)), all-IsListed a b (ground (arith, h)))

-- What `BuildUpdatedVlanConfig` makes of a configuration follows the bond.
built-IsFollowing :
    (vc : VlanConfig) (info : MgmtInfo) → IsFollowing (build_updated_vlan_config vc info).0 info
unfolding build_updated_vlan_config
built-IsFollowing vc info = (refl, refl, nics.0, nics.1)
  where
    nics :
        let xs =
          if compare_string_slices vc.uplink.nics info.slave_names
          then vc.uplink.nics
          else info.slave_names in
        (length xs ≡ length info.slave_names)
        × ((name : Bytes) → IsListed name info.slave_names → IsListed name xs)
    nics = elim (Bool-cases (compare_string_slices vc.uplink.nics info.slave_names)) [
      | inl same ↦ rw same (compare_string_slices_sound vc.uplink.nics info.slave_names same)
      | inr other ↦ rw other (refl, λ name h. h)
    ]

-- What it says not to have changed follows the bond already.
unchanged-IsFollowing :
    (vc : VlanConfig) (info : MgmtInfo)
    → (build_updated_vlan_config vc info).1 ≡ false
    → IsFollowing vc info
unfolding build_updated_vlan_config
unchanged-IsFollowing vc info h =
    let same : compare_string_slices vc.uplink.nics info.slave_names ≡ true = ground (arith, h) in
    let (size, listed) = compare_string_slices_sound vc.uplink.nics info.slave_names same in
    (
      (int_iff (or_default_attrs vc.uplink.link_attrs).mtu info.mtu).0 (ground (arith, h)),
      (bytes_iff (or_default_options vc.uplink.bond_options).mode info.bond_mode).0
          (ground (arith, h)),
      size,
      listed,
    )

is_already_exists-eq : (e : Error) → is_already_exists e ≡ true → e ≡ already_exists
is_already_exists-eq already_exists h = refl
is_already_exists-eq _ h = cc

after_create-ok :
    (vc : VlanConfig) (answer : Check)
    → after_create vc answer ≡ ok tt
    → (answer ≡ ok tt) ⊎ (answer ≡ err already_exists)
after_create-ok vc (ok done) h = inl refl
after_create-ok vc (err e) h = elim (Bool-cases (is_already_exists e)) [
  | inl there ↦ inr (ap err (is_already_exists-eq e there))
  | inr other ↦ let p : err e ≡ ok tt = simp other at h in absurd (cc)
]

module _ (env : Env) (nl : Netlink) (server : Server) (node_name : Bytes) where
  -- A configuration that follows the bond is in the cache as it is, or the server has taken its
  -- update or its creation.
  abbrev pub IsStored : MgmtInfo → Log → Type 0
  IsStored info next =
      (vc : VlanConfig) × IsFollowing vc info
      × ((env.get_vlan_config (mgmt_vlan_config_name node_name) ≡ ok vc)
          ⊎ Taken server next (update_vlan_config vc)
          ⊎ Taken server next (create_vlan_config vc))

  -- The cache has no configuration, and the server has one already.
  abbrev pub IsStale : MgmtInfo → Type 0
  IsStale info =
      (e : Error) × (env.get_vlan_config (mgmt_vlan_config_name node_name) ≡ err e)
      × (is_not_found e ≡ true)
      × (server (create_vlan_config (mgmt_vlan_config node_name info)) ≡ err already_exists)

  changed-IsStored :
      (vc : VlanConfig) (info : MgmtInfo) (log next : Log)
      → env.get_vlan_config (mgmt_vlan_config_name node_name) ≡ ok vc
      → send_changed env nl server node_name (build_updated_vlan_config vc info) log ≡ (next, ok tt)
      → IsStored info next
  changed-IsStored vc info log next cached h = sent (build_updated_vlan_config vc info) refl h
    where
      sent :
          (r : VlanConfig × Bool)
          → build_updated_vlan_config vc info ≡ r
          → send_changed env nl server node_name r log ≡ (next, ok tt)
          → IsStored info next
      sent (vc', true) e k = (
        vc',
        subst (λ (v : VlanConfig × Bool). IsFollowing v.0 info) e (built-IsFollowing vc info),
        inr (inl (send-Taken server (update_vlan_config vc') log next k)),
      )
      sent (vc', false) e k =
          (vc, unchanged-IsFollowing vc info (ap (λ (v : VlanConfig × Bool). v.1) e), inl cached)

  created-IsStored :
      (info : MgmtInfo) (e : Error) (log next : Log)
      → env.get_vlan_config (mgmt_vlan_config_name node_name) ≡ err e
      → is_not_found e ≡ true
      → create_mgmt_vlan_config env nl server node_name (mgmt_vlan_config node_name info) log
        ≡ (next, ok tt)
      → IsStored info next ⊎ IsStale info
  unfolding create_mgmt_vlan_config
  created-IsStored info e log next cached missing h =
      let vc = mgmt_vlan_config node_name info in
      let answer = server (create_vlan_config vc) in
      elim (after_create-ok vc answer (ap (λ (m : Effect Log). m.1) h)) [
        | inl taken ↦ inl (
          vc,
          (refl, refl, refl, λ name k. k),
          inr (
              inr (
                send-Taken server (create_vlan_config vc) log next (
                  ap (λ (m : Effect Log). (m.0, answer)) h ∙ ap (λ (r : Check). (next, r)) taken))),
        )
        | inr there ↦ inr (e, cached, missing, there)
      ]

  existing-IsStored :
      (info : MgmtInfo) (cached : Result VlanConfig) (log next : Log)
      → env.get_vlan_config (mgmt_vlan_config_name node_name) ≡ cached
      → update_existing env nl server node_name info cached log ≡ (next, ok tt)
      → IsStored info next ⊎ IsStale info
  existing-IsStored info (ok vc) log next cached h =
      inl (changed-IsStored vc info log next cached h)
  existing-IsStored info (err e) log next cached h = elim (Bool-cases (is_not_found e)) [
    | inl missing ↦ created-IsStored info e log next cached missing (simp missing at h)
    | inr other ↦
        let run : ◌≡◌ {A = Effect Log} (log, err e) (next, ok tt) = simp other at h in
        let p : err e ≡ ok tt = ap (λ (m : Effect Log). m.1) run in absurd (cc)
  ]

  -- What the agent's start has reached: the parameters of the bond are known, and a configuration
  -- follows them, or they are not known.
  abbrev pub IsReached : nl.State → Log → Type 0
  IsReached s next =
      ((info : MgmtInfo) × (get_mgmt_bond_info nl s ≡ ok info)
        × (IsStored info next ⊎ IsStale info))
      ⊎ ((e : Error) × (get_mgmt_bond_info nl s ≡ err e)
          × (server (create_vlan_config (empty_vlan_config node_name)) ≡ err already_exists))

  -- Whenever `CreateOrUpdateMgmtVlanConfig` succeeds on a node of which the parameters of the
  -- management bond can be read, the VLAN configuration that the cache holds, as it is, or that the
  -- server has taken in an update or a creation, has the MTU and the mode of the bond, a missing one
  -- being 0 or empty, and as many NICs as the bond has slaves, all slaves among them; or the cache
  -- holds none, and the server answers the creation that there is one already. On a node of which
  -- they cannot be read, it succeeds only if the server answers the creation of the empty
  -- configuration that there is one already.
  pub create_or_update_mgmt-IsReached :
      (s : nl.State) (log next : Log)
      → create_or_update_mgmt env nl server node_name s log ≡ (next, ok tt)
      → IsReached s next
  unfolding create_or_update_mgmt create_or_update_with create_mgmt_vlan_config
  create_or_update_mgmt-IsReached s log next h = known (get_mgmt_bond_info nl s) refl h
    where
      refused :
          (answer : Check)
          → after_create (empty_vlan_config node_name) answer ≡ ok tt
          → answer ≡ err already_exists
      refused (ok done) q = let p : err nil_dereference ≡ ok tt = q in absurd (cc)
      refused (err f) q = elim (after_create-ok (empty_vlan_config node_name) (err f) q) [
        | inl taken ↦ let p : err f ≡ ok tt = taken in absurd (cc)
        | inr there ↦ there
      ]

      known :
          (r : Result MgmtInfo)
          → get_mgmt_bond_info nl s ≡ r
          → create_or_update_found env nl server node_name r log ≡ (next, ok tt)
          → IsReached s next
      known (ok info) e k = inl (
        info,
        e,
        existing-IsStored info (env.get_vlan_config (mgmt_vlan_config_name node_name)) log next refl
            k,
      )
      known (err e') e k = inr (
        e',
        e,
        refused (server (create_vlan_config (empty_vlan_config node_name)))
            (ap (λ (m : Effect Log). m.1) k),
      )
