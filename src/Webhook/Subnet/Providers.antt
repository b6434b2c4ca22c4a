-- ===== src/Webhook/Subnet/Providers.antt =====
-- Admitted subnets have distinct networks, each an overlay network that exists.
use network_controller_harve.Common.{
  ◌≡◌, ◌≢◌, refl, ◌||◌, List, Bytes, ◌==◌, ◌!=◌, bytes_eq, bytes_ne, bytes_iff, arith, get, is_nil,
  Result, ok, err, >>=-eq-ok, >>-eq-ok, Bool-cases, inl, inr, All, All-mono, for_each-eq-ok,
  refuse_if-eq-ok, provider_taken, nad_not_overlay, is_not_found,
}
use network_controller_harve.Objects.{Nad, Subnet, key_network_type}
use network_controller_harve.NetConf.{type_text, overlay_network}
use network_controller_harve.Env.{Env}
use network_controller_harve.Nads.{get_nad_name_from_provider}
use network_controller_harve.Webhook.Subnet.{
  join_subnet, ovn_default_subnet, is_reserved_subnet, check_if_valid_nad, check_found,
  check_subnets_using_nad, create,
}

module _ (env : Env) where
  -- A provider that names an overlay network of the cache.
  abbrev pub IsOverlay : Bytes → Type 0
  IsOverlay provider =
      (name : Bytes) × (namespace : Bytes) × (nad : Nad) × (get_nad_name_from_provider provider
        ≡ ok (name, namespace))
      × (env.get_nad namespace name ≡ ok nad)
      × (get key_network_type nad.labels ≡ type_text overlay_network)

  found_overlay :
      (r : Result Nad)
      → check_found r ≡ ok tt
      → (nad : Nad) × (r ≡ ok nad) × (get key_network_type nad.labels ≡ type_text overlay_network)
  found_overlay (ok nad) h =
      let e =
        refuse_if-eq-ok
          (is_nil nad.labels || get key_network_type nad.labels != type_text overlay_network)
          nad_not_overlay h in
      (
        nad,
        refl,
        ground (arith, e, bytes_iff (get key_network_type nad.labels) (type_text overlay_network)),
      )
  found_overlay (err e) h = elim (Bool-cases (is_not_found e)) [
    | inl gone ↦ let p = simp gone at h in absurd (cc)
    | inr other ↦ let p = simp other at h in absurd (cc)
  ]

  check_if_valid_nad-IsOverlay :
      (provider : Bytes) → check_if_valid_nad env provider ≡ ok tt → IsOverlay provider
  unfolding check_if_valid_nad
  check_if_valid_nad-IsOverlay provider h =
      let (names, e, r) = >>=-eq-ok (get_nad_name_from_provider provider) _ h in
      let (nad, found, overlay) = found_overlay (env.get_nad names.1 names.0) r in
      (names.0, names.1, nad, e, found, overlay)

  free_of :
      (provider : Bytes) (subnets : List Subnet)
      → env.list_subnets ≡ ok subnets
      → check_subnets_using_nad env provider ≡ ok tt
      → All (λ other. other.provider ≢ provider) subnets
  unfolding check_subnets_using_nad
  free_of provider subnets listed h =
      All-mono
        (λ other p. λ e. ground (
          arith,
          refuse_if-eq-ok (other.provider == provider) provider_taken p,
          bytes_iff other.provider provider,
        ))
        subnets (for_each-eq-ok _ subnets (simp listed at h))

  -- An admitted creation of a subnet that is none of the two reserved ones: its provider names an
  -- overlay network that exists, and no listed subnet has the same provider.
  create_provider_sound :
      (subnet : Subnet) (subnets : List Subnet)
      → env.list_subnets ≡ ok subnets
      → subnet.name ≢ join_subnet
      → subnet.name ≢ ovn_default_subnet
      → create env subnet ≡ ok tt
      → IsOverlay subnet.provider × All (λ other. other.provider ≢ subnet.provider) subnets
  unfolding create is_reserved_subnet
  create_provider_sound subnet subnets listed not_join not_default h =
      let r =
        simp
          (
            bytes_ne subnet.name join_subnet not_join,
            bytes_ne subnet.name ovn_default_subnet not_default,
          )
          at h in
      let (valid, r1) = >>-eq-ok (check_if_valid_nad env subnet.provider) _ r in
      let (free, r2) = >>-eq-ok (check_subnets_using_nad env subnet.provider) _ r1 in
      (
        check_if_valid_nad-IsOverlay subnet.provider valid,
        free_of subnet.provider subnets listed free,
      )
