-- ===== src/Manager/Nad/Synced.antt =====
-- What the manager sends when the MTU of a cluster network or the VLAN ids of its networks change.
use network_controller_harve.Common.{
  bytes_iff, arith, ◌≡◌, ◌≢◌, refl, sym, ◌∙◌, ap, Bool, true, false, ◌⊎◌, inl, inr, List, [], ◌∷◌,
  ◌++◌, map, any, join, ℕ, itoa_ℕ, Option, some, none, Bytes, bytes_eq, bytes_ne, bytes_beq_refl,
  get, ℤ, Result, ok, err, Check, Effect, and_then-eq-ok, if◌then◌else◌, Bool-cases, All,
  lookup-insert, eq_iff,
}
use network_controller_harve.Objects.{
  Nad, NetConf, ClusterNetwork, key_cluster_network_label, key_uplink_mtu, key_vlan_id_set_str,
  key_vlan_id_set_str_hash,
}
use network_controller_harve.Mtu.{are_equal_mtus, get_mtu_from_string}
use network_controller_harve.Vlan.{VlanIdSet, vid_set_to_string_hash, comma}
use network_controller_harve.Vlan.Print.{ids, vid_set_to_string_lem}
use network_controller_harve.Env.{Env, equals}
use network_controller_harve.Nads.{
  decoded, get_nad_label, list_nads_on_cluster_network, vlan_id_set_of_cluster_network,
}
use network_controller_harve.Nads.VidSet.{IsUsable, nad_carries, new_from_nad_list_lem}
use network_controller_harve.Requests.{
  Request, Log, Server, send, each, update_nad, update_cluster_network, append_nil, Adds, Adds-each,
  IsIn, IsIn-right, IsIn-left,
}
use network_controller_harve.Manager.Nad.{
  sync_mtu, sync_config, sync_decoded, on_cn_change, vlan_annotations_unchanged,
  set_vlan_annotations, wanted_annotations, write_annotations, update_cluster_network_vlan_set,
}

-- The cluster network as `UpdateClusterNetworkVlanSet` wants it.
abbrev pub annotated : ClusterNetwork → Bytes × Bytes → ClusterNetwork
annotated cn (vidstr, vidhash) =
    if vlan_annotations_unchanged cn vidstr vidhash
    then cn
    else set_vlan_annotations cn vidstr vidhash

abbrev pub annotate_request : ClusterNetwork → Bytes × Bytes → List Request
annotate_request cn (vidstr, vidhash) =
    if vlan_annotations_unchanged cn vidstr vidhash
    then []
    else update_cluster_network (set_vlan_annotations cn vidstr vidhash) ∷ []

set-unchanged :
    (cn : ClusterNetwork) (vidstr vidhash : Bytes)
    → vlan_annotations_unchanged (set_vlan_annotations cn vidstr vidhash) vidstr vidhash ≡ true
unfolding vlan_annotations_unchanged set_vlan_annotations
set-unchanged cn vidstr vidhash = simp (
  lookup-insert,
  (eq_iff key_vlan_id_set_str key_vlan_id_set_str).1 refl,
  (eq_iff key_vlan_id_set_str_hash key_vlan_id_set_str_hash).1 refl,
  bytes_beq_refl vidstr,
  bytes_beq_refl vidhash,
)

annotated-unchanged :
    (cn : ClusterNetwork) (vidstr vidhash : Bytes)
    → vlan_annotations_unchanged (annotated cn (vidstr, vidhash)) vidstr vidhash ≡ true
annotated-unchanged cn vidstr vidhash =
    elim (Bool-cases (vlan_annotations_unchanged cn vidstr vidhash)) [
      | inl same ↦
          let e : annotated cn (vidstr, vidhash) ≡ cn = simp same in
          ap (λ (c : ClusterNetwork). vlan_annotations_unchanged c vidstr vidhash) e ∙ same
      | inr other ↦
          let e : annotated cn (vidstr, vidhash) ≡ set_vlan_annotations cn vidstr vidhash =
            simp other in
          ap (λ (c : ClusterNetwork). vlan_annotations_unchanged c vidstr vidhash) e
          ∙ set-unchanged cn vidstr vidhash
    ]

-- The annotations of the ids and of their hash are these.
abbrev pub IsAnnotated : ClusterNetwork → Bytes × Bytes → Type 0
IsAnnotated cn (vidstr, vidhash) =
    (get key_vlan_id_set_str cn.annotations ≡ vidstr)
    × (get key_vlan_id_set_str_hash cn.annotations ≡ vidhash)

unchanged-IsAnnotated :
    (cn : ClusterNetwork) (vidstr vidhash : Bytes)
    → vlan_annotations_unchanged cn vidstr vidhash ≡ true
    → IsAnnotated cn (vidstr, vidhash)
unfolding vlan_annotations_unchanged
unchanged-IsAnnotated cn vidstr vidhash h = (
  (bytes_iff (get key_vlan_id_set_str cn.annotations) vidstr).0 (ground (arith, h)),
  (bytes_iff (get key_vlan_id_set_str_hash cn.annotations) vidhash).0 (ground (arith, h)),
)

-- The text of a set of ids, and its hash.
abbrev pub printed : Env → List ℕ → Bytes × Bytes
printed env vids = (join comma (map itoa_ℕ vids), env.sha256 (join comma (map itoa_ℕ vids)))

-- The annotations that the manager wants are the printed ids of the active bridge networks.
wanted_annotations-printed :
    (env : Env) (cn : ClusterNetwork) (nads : List Nad)
    → list_nads_on_cluster_network env cn.name ≡ ok nads
    → All (IsUsable env) nads
    → (vis : VlanIdSet) × (wanted_annotations env cn ≡ ok (printed env (ids vis)))
      × (vis.is_trunk_mode ≡ true)
      × ((j : ℕ) → vis.vid_set j ≡ any (λ nad. nad_carries env nad j) nads)
unfolding wanted_annotations vlan_id_set_of_cluster_network vid_set_to_string_hash
wanted_annotations-printed env cn nads listed usable =
    let (vis, e, well, trunk, carries) = new_from_nad_list_lem env nads usable in
    (vis, simp (listed, e, vid_set_to_string_lem vis well), trunk, carries)

module _ (server : Server) (accepts : (r : Request) → server r ≡ ok tt) where
  write_annotations-request :
      (env : Env) (cn : ClusterNetwork) (want : Bytes × Bytes) (log : Log)
      → write_annotations env server cn (ok want) log ≡ (log ++ annotate_request cn want, ok tt)
  write_annotations-request env cn (vidstr, vidhash) log =
      elim (Bool-cases (vlan_annotations_unchanged cn vidstr vidhash)) [
        | inl same ↦ simp (same, append_nil log)
        | inr other ↦
            simp (other, accepts (update_cluster_network (set_vlan_annotations cn vidstr vidhash)))
      ]

  -- A change of a network whose label names an active cluster network, when every network that the
  -- cache lists on that is usable and the server accepts every request:
  -- `UpdateClusterNetworkVlanSet` succeeds; it sends at most an update of the cluster network, after
  -- which its annotations are the ids that the active bridge networks of the list carry, in
  -- ascending order, and their hash.
  pub update_cluster_network_vlan_set-settles :
      (env : Env) (nad : Nad) (cn : ClusterNetwork) (nads : List Nad) (log : Log)
      → get_nad_label nad key_cluster_network_label ≢ []
      → env.get_cluster_network (get_nad_label nad key_cluster_network_label) ≡ ok cn
      → cn.deleting ≡ false
      → list_nads_on_cluster_network env cn.name ≡ ok nads
      → All (IsUsable env) nads
      → (vis : VlanIdSet) × (vis.is_trunk_mode ≡ true)
        × ((j : ℕ) → vis.vid_set j ≡ any (λ n. nad_carries env n j) nads)
        × (update_cluster_network_vlan_set env server nad log
            ≡ (log ++ annotate_request cn (printed env (ids vis)), ok tt))
        × IsAnnotated (annotated cn (printed env (ids vis))) (printed env (ids vis))
  unfolding update_cluster_network_vlan_set
  update_cluster_network_vlan_set-settles env nad cn nads log named found active listed usable =
      let (vis, wanted, trunk, carries) = wanted_annotations-printed env cn nads listed usable in
      let want = printed env (ids vis) in
      let label = bytes_ne (get_nad_label nad key_cluster_network_label) [] named in
      (
        vis,
        trunk,
        carries,
        simp (label, found, active, wanted) (write_annotations-request env cn want log),
        unchanged-IsAnnotated (annotated cn want) want.0 want.1
            (annotated-unchanged cn want.0 want.1),
      )

  -- Where the annotations agree already, nothing is sent.
  update_cluster_network_vlan_set-unchanged :
      (env : Env) (nad : Nad) (cn : ClusterNetwork) (vidstr vidhash : Bytes) (log : Log)
      → get_nad_label nad key_cluster_network_label ≢ []
      → env.get_cluster_network (get_nad_label nad key_cluster_network_label) ≡ ok cn
      → cn.deleting ≡ false
      → wanted_annotations env cn ≡ ok (vidstr, vidhash)
      → vlan_annotations_unchanged cn vidstr vidhash ≡ true
      → update_cluster_network_vlan_set env server nad log ≡ (log, ok tt)
  unfolding update_cluster_network_vlan_set
  update_cluster_network_vlan_set-unchanged env nad cn vidstr vidhash log named found active wanted
        same =
      simp (
        bytes_ne (get_nad_label nad key_cluster_network_label) [] named,
        found,
        active,
        wanted,
        same,
      )

-- The documented behaviour of `sjson.Set` of the key "mtu" on a text that decodes.
abbrev pub SetsMtu : Env → Type 0
SetsMtu env =
    (text config : Bytes) (nc : NetConf) (mtu : ℤ)
    → env.decode_net_conf text ≡ some nc
    → env.set_mtu text mtu ≡ ok config
    → env.decode_net_conf config ≡ some (record nc { mtu = mtu })

-- A network that agrees with an MTU as it is, or for which the log has an update that the server
-- took and after which it has that MTU.
abbrev pub Agrees : Env → Server → ℤ → Log → Nad → Type 0
Agrees env server mtu log nad =
    (nc : NetConf) × (env.decode_net_conf nad.config ≡ some nc)
    × ((are_equal_mtus mtu nc.mtu ≡ true)
        ⊎ ((config : Bytes) × (env.decode_net_conf config ≡ some (record nc { mtu = mtu }))
            × IsIn (update_nad (record nad { config = config })) log
            × (server (update_nad (record nad { config = config })) ≡ ok tt)))

decoded-ok : (o : Option NetConf) (nc : NetConf) → decoded o ≡ ok nc → o ≡ some nc
decoded-ok none nc h = absurd (cc)
decoded-ok (some x) nc h = let p : ok x ≡ ok nc = h in let q : x ≡ nc = cc in ap some q

module _ (env : Env) (server : Server) (setter : SetsMtu env) (mtu : ℤ) where
  abbrev anything : Request → Bool
  anything r = true

  nothing_sent : (log : Log) (r : Check) → Adds anything log (log, r)
  nothing_sent log r = ([], sym (append_nil log), refl)

  sync_config-Adds :
      (nad : Nad) (config : Result Bytes) (log : Log)
      → Adds anything log (sync_config env server nad config log)
  sync_config-Adds nad (err e) log = nothing_sent log (err e)
  sync_config-Adds nad (ok config) log =
      (update_nad (record nad { config = config }) ∷ [], refl, refl)

  sync_decoded-Adds :
      (nad : Nad) (nc : Result NetConf) (log : Log)
      → Adds anything log (sync_decoded env server mtu nad nc log)
  sync_decoded-Adds nad (err e) log = nothing_sent log (err e)
  sync_decoded-Adds nad (ok nc) log = elim (Bool-cases (are_equal_mtus mtu nc.mtu)) [
    | inl same ↦ rw same (nothing_sent log (ok tt))
    | inr other ↦ rw other (sync_config-Adds nad (env.set_mtu nad.config mtu) log)
  ]

  sync_mtu-Adds : (nad : Nad) (log : Log) → Adds anything log (sync_mtu env server mtu nad log)
  unfolding sync_mtu
  sync_mtu-Adds nad log = sync_decoded-Adds nad (decoded (env.decode_net_conf nad.config)) log

  sync_decoded-Agrees :
      (nad : Nad) (nc : Result NetConf) (log next : Log)
      → decoded (env.decode_net_conf nad.config) ≡ nc
      → sync_decoded env server mtu nad nc log ≡ (next, ok tt)
      → Agrees env server mtu next nad
  sync_decoded-Agrees nad (err e) log next d h =
      let p : err e ≡ ok tt = ap (λ (m : Effect Log). m.1) h in absurd (cc)
  sync_decoded-Agrees nad (ok nc) log next d h =
      let text = decoded-ok (env.decode_net_conf nad.config) nc d in
      elim (Bool-cases (are_equal_mtus mtu nc.mtu)) [
        | inl same ↦ (nc, text, inl same)
        | inr other ↦
            let (config, e, sent_one) =
              sync_config-ok nad (env.set_mtu nad.config mtu) log next (simp other at h) in
            let taken : server (update_nad (record nad { config = config })) ≡ ok tt =
              ap (λ (m : Effect Log). m.1) sent_one in
            let logged : log ++ update_nad (record nad { config = config }) ∷ [] ≡ next =
              ap (λ (m : Effect Log). m.0) sent_one in
            (
              nc,
              text,
              inr (
                config,
                setter nad.config config nc mtu text e,
                rw (sym logged) (IsIn-right (update_nad (record nad { config = config })) log),
                taken,
              ),
            )
      ]
    where
      sync_config-ok :
          (nad : Nad) (config : Result Bytes) (log next : Log)
          → sync_config env server nad config log ≡ (next, ok tt)
          → (text : Bytes) × (config ≡ ok text)
            × (send server (update_nad (record nad { config = text })) log ≡ (next, ok tt))
      sync_config-ok nad (err e) log next h =
          let p : err e ≡ ok tt = ap (λ (m : Effect Log). m.1) h in absurd (cc)
      sync_config-ok nad (ok text) log next h = (text, refl, h)

  Agrees-longer :
      (nad : Nad) (log more : Log)
      → Agrees env server mtu log nad
      → Agrees env server mtu (log ++ more) nad
  Agrees-longer nad log more (nc, text, inl same) = (nc, text, inl same)
  Agrees-longer nad log more (nc, text, inr (config, sets, there, taken)) =
      (nc, text, inr (config, sets, IsIn-left _ log more there, taken))

  each-Agrees :
      (nads : List Nad) (log next : Log)
      → each (sync_mtu env server mtu) nads log ≡ (next, ok tt)
      → All (Agrees env server mtu next) nads
  unfolding each sync_mtu
  each-Agrees [] log next h = tt
  each-Agrees (nad ∷ nads) log next h =
      let (mid, e, rest) = and_then-eq-ok (sync_mtu env server mtu nad log) _ h in
      let (more, grows, any_of) =
        Adds-each anything (sync_mtu env server mtu) sync_mtu-Adds nads mid in
      let longer : mid ++ more ≡ next = sym grows ∙ ap (λ (m : Effect Log). m.0) rest in
      let here = Agrees-longer nad mid more (sync_decoded-Agrees nad _ log mid refl e) in
      (rw (sym longer) here, each-Agrees nads mid next rest)

  -- Whenever `OnCNChange` succeeds for an active cluster network whose MTU annotation can be read,
  -- every network that the cache lists on it decodes, and it agrees with that MTU, 0 standing for
  -- 1500, or the server has taken an update after which it has exactly that MTU.
  pub on_cn_change-Agrees :
      (cn : ClusterNetwork) (nads : List Nad) (log next : Log)
      → cn.deleting ≡ false
      → get key_uplink_mtu cn.annotations ≢ []
      → get_mtu_from_string (get key_uplink_mtu cn.annotations) ≡ ok mtu
      → env.list_nads [] (equals key_cluster_network_label cn.name ∷ []) ≡ ok nads
      → on_cn_change env server cn log ≡ (next, ok tt)
      → All (Agrees env server mtu next) nads
  unfolding on_cn_change
  on_cn_change-Agrees cn nads log next active set readable listed h =
      each-Agrees nads log next
        (simp (active, bytes_ne (get key_uplink_mtu cn.annotations) [] set, readable, listed) at h)
