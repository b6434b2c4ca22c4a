-- ===== src/Common/Errors.antt =====
-- Go's `(value, error)` and `error` results. An error is what the code refuses or fails with; the
-- texts of the messages and their wrapping by `%w` are left out.
use mathlib.Core.Path.{◌≡◌, refl, ap}
use mathlib.Core.Bool.{Bool, true, false}
use mathlib.Core.List.{List, [], ◌∷◌}
use network_controller_harve.Common.Int.{ℤ}
use network_controller_harve.Common.Lists.{Bytes, All}

pub data Error : Type 0 where
  -- what the API server and its caches answer
  not_found : Error
  link_not_found : Error
  link_failure : Error
  not_a_bridge : Error
  not_a_bond : Error
  no_uplink : Error
  enslaved_elsewhere : Error
  invalid_index : Error
  slaves_left : Error
  no_management_interface : Error
  already_exists : Error
  cache_failure : Error
  -- a nil pointer is read: a panic, which no code above handles
  nil_dereference : Error
  -- a write past a slice: a panic
  index_out_of_range : Error
  -- pkg/utils
  vid_out_of_range : ℤ → Error
  append_needs_trunk : Error
  diff_on_nil : Error
  diff_needs_trunk : Error
  walk_failed : Error → Error
  not_an_integer : Bytes → Error
  mtu_out_of_range : Error
  trunk_min_id : ℤ → Error
  trunk_max_id : ℤ → Error
  trunk_id : ℤ → Error
  trunk_order : Error
  trunk_min_missing : Error
  trunk_max_missing : Error
  trunk_empty : Error
  vlan_with_trunk : Error
  unknown_network_type : Error
  bad_interface : Error
  bridge_name_short : Error
  bridge_name_long : Error
  bridge_name_suffix : Error
  bad_json : Error
  name_too_long : Error
  provider_empty : Error
  provider_short : Error
  -- pkg/webhook
  annotation_not_allowed : Error
  not_a_default_subnet : Error
  subnet_in_use : Error
  nad_missing : Error
  nad_not_overlay : Error
  vpc_missing : Error
  provider_taken : Error
  underlay_exists : Error
  underlay_enabled : Error
  same_vlan_exists : Error
  immutable_field : Error
  nodes_not_matched : Error
  status_missing : Error
  status_not_ready : Error
  vlan_configs_missing : Error
  static_ip_missing : Error
  static_ips_differ : Error
  bad_cidr : Error
  mgmt_delete : Error
  mgmt_user_request : Error
  still_vlan_configs : Error
  still_nads : Error
  still_vmis : Error
  still_vms : Error
  still_system_nad : Error
  still_subnets : Error
  mtu_differs : Error
  label_invalid : Error
  overlaps : Error
  reserved_vlan : Error
  kubeovn_disabled : Error
  provider_mismatch : Error
  label_mismatch : Error
  type_changed : Error
  bridge_changed : Error
  system_params_changed : Error
  bad_route : Error
  -- pkg/controller
  other_status_remains : Error
  no_address : Error
  job_deleting : Error
  unsupported_mode : Error
  lease_without_mask : Error
  lease_mask_length : Error
  lease_mask_invalid : Error
  no_lease_address : Error
  not_a_bond_device : Error

pub data Result {ℓ} (T : Type ℓ) : Type ℓ where
  err : Error → Result T
  ok : T → Result T

-- The result of a function that returns only an `error`; nil is `ok tt`.
abbrev pub Check : Type 0
Check = Result (Unit {0})

-- `x, err := m; if err != nil { return err }; k(x)`
infixl 5 ◌>>=◌ ◌>>◌
abbrev pub ◌>>=◌ {ℓ κ} : {T : Type ℓ} {R : Type κ} → Result T → (T → Result R) → Result R
err e >>= k = err e
ok x >>= k = k x

abbrev pub ◌>>◌ {ℓ} : {R : Type ℓ} → Check → Result R → Result R
check >> next = check >>= λ _. next

-- `if bad { return err }`
abbrev pub refuse_if : Bool → Error → Check
refuse_if true e = err e
refuse_if false e = ok tt

-- `for _, x := range xs { if err := f(x); err != nil { return err } }`
abbrev pub for_each {ℓ} : {A : Type ℓ} → (A → Check) → List A → Check
for_each f [] = ok tt
for_each f (x ∷ xs) = f x >> for_each f xs

pub >>=-eq-ok {ℓ κ} :
    {T : Type ℓ} {R : Type κ} (m : Result T) (k : T → Result R) {y : R}
    → (m >>= k) ≡ ok y
    → (x : T) × (m ≡ ok x) × (k x ≡ ok y)
>>=-eq-ok (err e) k passed = cc
>>=-eq-ok (ok x) k passed = (x, refl, passed)

-- A chain of checks is passed exactly if each is.
pub >>-eq-ok : (m k : Check) → (m >> k) ≡ ok tt → (m ≡ ok tt) × (k ≡ ok tt)
>>-eq-ok (ok tt) k h = (refl, h)
>>-eq-ok (err e) k h = cc

pub refuse_if-eq-ok : (b : Bool) (e : Error) → refuse_if b e ≡ ok tt → b ≡ false
refuse_if-eq-ok true e h = cc
refuse_if-eq-ok false e h = refl

-- `apierrors.IsNotFound`
abbrev pub is_not_found : Error → Bool
is_not_found not_found = true
is_not_found _ = false

pub is_not_found-eq : (e : Error) → is_not_found e ≡ true → e ≡ not_found
is_not_found-eq not_found h = refl
is_not_found-eq _ h = cc

-- `apierrors.IsAlreadyExists`
abbrev pub is_already_exists : Error → Bool
is_already_exists already_exists = true
is_already_exists _ = false

-- A function that changes a state and returns an `error`: what it has written before the error
-- stays written.
abbrev pub Effect {ℓ} : Type ℓ → Type ℓ
Effect S = S × Check

-- `if err := m; err != nil { return err }; return k`
abbrev pub and_then {ℓ} : {S : Type ℓ} → Effect S → (S → Effect S) → Effect S
and_then (s, ok done) k = k s
and_then (s, err e) k = (s, err e)

pub and_then-eq-ok {ℓ} :
    {S : Type ℓ} (m : Effect S) (k : S → Effect S) {t : S}
    → and_then m k ≡ (t, ok tt)
    → (u : S) × (m ≡ (u, ok tt)) × (k u ≡ (t, ok tt))
and_then-eq-ok (u, ok done) k h = (u, refl, h)
and_then-eq-ok (u, err e) k {t} h =
    let p : err e ≡ ok tt = ap (λ (m : Effect _). m.1) h in absurd (cc)

-- A loop of checks is passed exactly if each round is.
pub for_each-eq-ok {ℓ} :
    {A : Type ℓ} (f : A → Check) (xs : List A) → for_each f xs ≡ ok tt → All (λ x. f x ≡ ok tt) xs
for_each-eq-ok f [] h = tt
for_each-eq-ok f (x ∷ xs) h =
    let (here, rest) = >>-eq-ok (f x) (for_each f xs) h in (here, for_each-eq-ok f xs rest)
