-- ===== src/Manager/Nad/Cleared.antt =====
-- What is left of the job of a network attachment that is removed.
use mathlib.Core.Path.{subst}
use network_controller_harve.Common.{
  if◌then◌else◌, ◌≡◌, refl, ◌∙◌, ap, Bool, true, false, ◌&&◌, ◌⊎◌, inl, inr, [], ◌∷◌, Option, none,
  some, Bytes, ◌==◌, bytes_eq, bytes_iff, arith, Result, ok, err, Error, Effect, and_then,
  and_then-eq-ok, Bool-cases, is_not_found,
}
use network_controller_harve.Objects.{Nad, ClusterNetwork, Job, key_cluster_network_label}
use network_controller_harve.Nads.{get_nad_label, is_overlay_nad}
use network_controller_harve.Env.{Env}
use network_controller_harve.Requests.{
  Log, Server, send, delete_job, update_nad, update_cluster_network,
}
use network_controller_harve.Requests.Rounds.{
  Grows, Grows-none, Grows-send, Grows-if, Within, Grows-Within, Taken, send-Taken,
}
use network_controller_harve.Manager.Nad.{
  update_cluster_network_vlan_set, update_cached, write_annotations, wanted_annotations,
  vlan_annotations_unchanged, set_vlan_annotations,
}
use network_controller_harve.Manager.Nad.Jobs.{
  Items, same_item, remove_item, item_of, job_name, on_log, dropped, clear_found, clear_job,
  send_released, on_remove,
}

-- The gateway of a network that is pinged, if there is one.
abbrev pub gateway_of : Bytes × Bytes → Items → Option Bytes
gateway_of key [] = none
gateway_of key ((k, addr) ∷ items) =
    let rest = gateway_of key items in if same_item key k then some addr else rest

both : (a b : Bool) → (a && b) ≡ true → (a ≡ true) × (b ≡ true)
both true b h = (refl, h)
both false b h = absurd (cc)

same_item-eq : (a b : Bytes × Bytes) → same_item a b ≡ true → (b.0 ≡ a.0) × (b.1 ≡ a.1)
same_item-eq (n, m) (n', m') h =
    let (x, y) = both (n' == n) (m' == m) h in ((bytes_iff n' n).0 x, (bytes_iff m' m).0 y)

same_item-moved :
    (a b c : Bytes × Bytes) → same_item a b ≡ true → same_item a c ≡ false → same_item c b ≡ false
same_item-moved (n, m) (n', m') (p, q) h other = ground (
  arith,
  h,
  other,
  bytes_iff n' n,
  bytes_iff m' m,
  bytes_iff n' p,
  bytes_iff m' q,
  bytes_iff p n,
  bytes_iff q m,
)

remove_item-gateway_of :
    (nn : Bytes × Bytes) (items : Items)
    → (gateway_of nn (remove_item nn items) ≡ none)
      × ((key : Bytes × Bytes)
          → same_item nn key ≡ false
          → gateway_of key (remove_item nn items) ≡ gateway_of key items)
unfolding remove_item
remove_item-gateway_of nn [] = (refl, λ key other. refl)
remove_item-gateway_of nn ((k, addr) ∷ items) =
    let (gone, kept) = remove_item-gateway_of nn items in
    elim (Bool-cases (same_item nn k)) [
      | inl same ↦ (
        rw same gone,
        λ key other. rw same (rw (same_item-moved nn k key same other) (kept key other)),
      )
      | inr differs ↦ (
        rw differs (rw differs gone),
        λ key other.
            rw differs (ap (λ r. if same_item key k then some addr else r) (kept key other)),
      )
    ]

module _ (env : Env) (server : Server) (jobs_namespace image : Bytes) where
  write_annotations-Grows :
      (cn : ClusterNetwork) (texts : Result (Bytes × Bytes)) (log : Log)
      → Grows log (write_annotations env server cn texts log)
  write_annotations-Grows cn (err e) log = Grows-none log (err e)
  write_annotations-Grows cn (ok (vidstr, vidhash)) log =
      Grows-if (vlan_annotations_unchanged cn vidstr vidhash) log _ _ (Grows-none log (ok tt))
        (Grows-send server (update_cluster_network (set_vlan_annotations cn vidstr vidhash)) log)

  update_cached-Grows :
      (cached : Result ClusterNetwork) (log : Log) → Grows log (update_cached env server cached log)
  update_cached-Grows (err e) log = Grows-none log (err e)
  update_cached-Grows (ok cn) log =
      Grows-if cn.deleting log _ _ (Grows-none log (ok tt))
        (write_annotations-Grows cn (wanted_annotations env cn) log)

  update_cluster_network_vlan_set-Grows :
      (nad : Nad) (log : Log) → Grows log (update_cluster_network_vlan_set env server nad log)
  unfolding update_cluster_network_vlan_set
  update_cluster_network_vlan_set-Grows nad log =
      let name = get_nad_label nad key_cluster_network_label in
      Grows-if (name == []) log _ _ (Grows-none log (ok tt))
        (update_cached-Grows (env.get_cluster_network name) log)

  send_released-Grows :
      (released : Option Nad) (log : Log)
      → Grows log (send_released env server jobs_namespace image released log)
  send_released-Grows none log = Grows-none log (ok tt)
  send_released-Grows (some nad) log = Grows-send server (update_nad nad) log

  -- A job that the cache does not hold, or holds as one that is being deleted, or whose deletion the
  -- server took.
  abbrev pub IsCleared : Bytes → Log → Type 0
  IsCleared name log =
      ((e : Error) × (env.get_job jobs_namespace name ≡ err e) × (is_not_found e ≡ true))
      ⊎ ((job : Job) × (env.get_job jobs_namespace name ≡ ok job) × (job.deleting ≡ true))
      ⊎ Taken server log (delete_job jobs_namespace name)

  IsCleared-Within :
      (name : Bytes) (log next : Log) → Within log next → IsCleared name log → IsCleared name next
  IsCleared-Within name log next later (inl missing) = inl missing
  IsCleared-Within name log next later (inr (inl deleting)) = inr (inl deleting)
  IsCleared-Within name log next later (inr (inr (here, taken))) = inr (inr (later _ here, taken))

  on_log-split :
      (f : Log → Effect Log) (items after : Items) (log next : Log)
      → on_log env server jobs_namespace image f (items, log) ≡ ((after, next), ok tt)
      → (items ≡ after) × (f log ≡ (next, ok tt))
  on_log-split f items after log next h = (
    ap (λ (m : Effect (Items × Log)). m.0.0) h,
    ap (λ (m : Effect (Items × Log)). (m.0.1, m.1)) h,
  )

  -- What a step that forgets the gateway leaves.
  abbrev pub Forgets : Nad → Items → Items × Log → Type 0
  Forgets nad items (after, next) =
      (remove_item (item_of nad) items ≡ after)
      × IsCleared (job_name env nad.namespace nad.name) next

  clear_found-Forgets :
      (nad : Nad) (answer : Result Job) (items after : Items) (log next : Log)
      → env.get_job jobs_namespace (job_name env nad.namespace nad.name) ≡ answer
      → clear_found env server jobs_namespace image nad answer (items, log) ≡ ((after, next), ok tt)
      → Forgets nad items (after, next)
  clear_found-Forgets nad (err e) items after log next cached h =
      elim (Bool-cases (is_not_found e)) [
        | inl missing ↦
            let run : ◌≡◌ {A = Effect (Items × Log)} ((remove_item (item_of nad) items, log), ok tt)
                ((after, next), ok tt) =
              simp missing at h in
            (ap (λ (m : Effect (Items × Log)). m.0.0) run, inl (e, cached, missing))
        | inr other ↦
            let run : ◌≡◌ {A = Effect (Items × Log)} ((items, log), err e) ((after, next), ok tt) =
              simp other at h in
            let p : err e ≡ ok tt = ap (λ (m : Effect (Items × Log)). m.1) run in absurd (cc)
      ]
  clear_found-Forgets nad (ok job) items after log next cached h =
      let name = job_name env nad.namespace nad.name in
      let drop = dropped env server jobs_namespace image nad in
      elim (Bool-cases job.deleting) [
        | inl deleting ↦
            let run : drop (items, log) ≡ ((after, next), ok tt) = simp deleting at h in
            (ap (λ (m : Effect (Items × Log)). m.0.0) run, inr (inl (job, cached, deleting)))
        | inr active ↦
            let sent =
              on_log env server jobs_namespace image (send server (delete_job jobs_namespace name))
                (items, log) in
            let run : and_then sent drop ≡ ((after, next), ok tt) = simp active at h in
            let ((mid, l), e, rest) = and_then-eq-ok sent drop run in
            let (same, took) =
              on_log-split (send server (delete_job jobs_namespace name)) items mid log l e in
            let taken = send-Taken server (delete_job jobs_namespace name) log l took in
            (
              ap (λ i. remove_item (item_of nad) i) same
                  ∙ ap (λ (m : Effect (Items × Log)). m.0.0) rest,
              inr (
                  inr (
                    subst (λ k. Taken server k (delete_job jobs_namespace name))
                      (ap (λ (m : Effect (Items × Log)). m.0.1) rest) taken)),
            )
      ]

  -- Whenever `OnRemove` succeeds for a network that is no overlay network, its gateway is no longer
  -- pinged, the gateways of other networks are pinged as before, and its job is missing in the
  -- cache, being deleted there, or the server has taken its deletion.
  pub on_remove-IsCleared :
      (nad : Nad) (items after : Items) (log next : Log)
      → is_overlay_nad nad ≡ false
      → on_remove env server jobs_namespace image nad (items, log) ≡ ((after, next), ok tt)
      → (gateway_of (item_of nad) after ≡ none)
        × ((key : Bytes × Bytes)
            → same_item (item_of nad) key ≡ false
            → gateway_of key after ≡ gateway_of key items)
        × IsCleared (job_name env nad.namespace nad.name) next
  unfolding on_remove clear_job
  on_remove-IsCleared nad items after log next bridge h =
      let name = job_name env nad.namespace nad.name in
      let lift = on_log env server jobs_namespace image in
      let release = send_released env server jobs_namespace image (env.remove_finalizer nad) in
      let sets = update_cluster_network_vlan_set env server nad in
      let rest = λ (t : Items × Log). and_then (lift sets t) (λ u. lift release u) in
      let first = clear_job env server jobs_namespace image nad (items, log) in
      let run : and_then first rest ≡ ((after, next), ok tt) = simp bridge at h in
      let ((i1, l1), cleared, r1) = and_then-eq-ok first rest run in
      let ((i2, l2), e2, e3) = and_then-eq-ok (lift sets (i1, l1)) (λ u. lift release u) r1 in
      let (s1, g1) = on_log-split sets i1 i2 l1 l2 e2 in
      let (s2, g2) = on_log-split release i2 after l2 next e3 in
      let (removed, done) =
        clear_found-Forgets nad (env.get_job jobs_namespace name) items i1 log l1 refl cleared in
      let w1 =
        Grows-Within l1 l2 (sets l1) (ok tt) (update_cluster_network_vlan_set-Grows nad l1) g1 in
      let w2 =
        Grows-Within l2 next (release l2) (ok tt)
          (send_released-Grows (env.remove_finalizer nad) l2) g2 in
      let (gone, kept) = remove_item-gateway_of (item_of nad) items in
      let same : remove_item (item_of nad) items ≡ after = removed ∙ s1 ∙ s2 in
      (
        subst (λ i. gateway_of (item_of nad) i ≡ none) same gone,
        (λ key other. subst (λ i. gateway_of key i ≡ gateway_of key items) same (kept key other)),
        IsCleared-Within name l1 next (λ q here. w2 q (w1 q here)) done,
      )
