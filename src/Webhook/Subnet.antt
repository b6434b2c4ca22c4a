-- ===== src/Webhook/Subnet.antt =====
-- Admission of the subnets of kube-ovn: pkg/webhook/subnet/validator.go, and pkg/utils/subnet.go.
pub mod Providers
use network_controller_harve.Common.{
  ℕ, Bool, true, false, not, ◌||◌, ◌&&◌, List, [], ◌∷◌, Option, none, some, Bytes, codes, ◌==◌,
  ◌!=◌, bytes_eq, ltb, length, get, is_nil, Result, ok, err, ◌>>=◌, ◌>>◌, refuse_if, for_each,
  Check, if◌then◌else◌, is_not_found, Error, still_vmis, not_a_default_subnet, subnet_in_use,
  nad_missing, nad_not_overlay, vpc_missing, provider_taken,
}
use network_controller_harve.Objects.{Nad, Subnet, key_network_type}
use network_controller_harve.NetConf.{type_text, overlay_network}
use network_controller_harve.Env.{Env}
use network_controller_harve.Nads.{get_nad_name_from_provider}
use network_controller_harve.Vmis.{vmi_names_who_use_nad}

abbrev pub join_subnet : Bytes
join_subnet = codes "join"

abbrev pub ovn_default_subnet : Bytes
ovn_default_subnet = codes "ovn-default"

abbrev pub ovn_provider : Bytes
ovn_provider = codes "ovn"

-- `IsReservedSubnet`: `none` where it says no, and else its error.
unfoldable pub is_reserved_subnet : Bytes → Bytes → Option Check
is_reserved_subnet name provider =
    if name == join_subnet || name == ovn_default_subnet
    then some (refuse_if (provider != ovn_provider) not_a_default_subnet)
    else none

-- `if isReserved { return err }`
abbrev pub unless_reserved : Option Check → Check → Check
unless_reserved (some answer) rest = answer
unless_reserved none rest = rest

-- The answer of the cache in `checkIfValidNad`.
abbrev pub check_found : Result Nad → Check
check_found (err e) = if is_not_found e then err nad_missing else err e
check_found (ok nad) =
    refuse_if (is_nil nad.labels || get key_network_type nad.labels != type_text overlay_network)
      nad_not_overlay

-- The answer of the cache in `checkIfVpcExists`; every error of it is returned.
abbrev pub check_vpc : Check → Check
check_vpc (ok done) = ok tt
check_vpc (err e) = if is_not_found e then err vpc_missing else err e

abbrev pub same_bool : Bool → Bool → Bool
same_bool true b = b
same_bool false b = not b

module _ (env : Env) where
  -- `checkIfValidNad`
  unfoldable pub check_if_valid_nad : Bytes → Check
  check_if_valid_nad provider =
      get_nad_name_from_provider provider >>= λ names. check_found (env.get_nad names.1 names.0)

  -- `checkIfVpcExists`
  unfoldable pub check_if_vpc_exists : Bytes → Check
  check_if_vpc_exists vpc = if vpc != [] then check_vpc (env.get_vpc vpc) else ok tt

  -- `checkSubnetsUsingNAD`
  unfoldable pub check_subnets_using_nad : Bytes → Check
  check_subnets_using_nad provider = env.list_subnets >>= λ subnets.
      for_each (λ subnet. refuse_if (subnet.provider == provider) provider_taken) subnets

  -- `checkVmi`
  unfoldable pub check_vmi : Nad → Check
  check_vmi nad = vmi_names_who_use_nad env nad false none >>= λ names.
      refuse_if (ltb 0 (length names)) still_vmis

  -- `canUpdateDHCPSetting`
  unfoldable pub can_update_dhcp_setting : Subnet → Subnet → Check
  can_update_dhcp_setting old new = if same_bool old.enable_dhcp new.enable_dhcp then ok tt else do
    names ← get_nad_name_from_provider new.provider
    nad ← env.get_nad names.1 names.0
    check_vmi nad

  -- `Validator.Create`
  unfoldable pub create : Subnet → Check
  create subnet = unless_reserved (is_reserved_subnet subnet.name subnet.provider) (do
    check_if_valid_nad subnet.provider
    check_subnets_using_nad subnet.provider
    check_if_vpc_exists subnet.vpc)

  -- `Validator.Update`; `in_use` says that the status of the old subnet counts addresses in use.
  unfoldable pub update : Subnet → Subnet → Check
  update old new =
      if new.deleting
      then ok tt
      else if env.same_subnet_spec new old
      then ok tt
      else unless_reserved (is_reserved_subnet new.name new.provider) (do
        refuse_if (new.provider != old.provider && old.in_use) subnet_in_use
        refuse_if (new.vpc != old.vpc && old.in_use) subnet_in_use
        check_if_valid_nad new.provider
        if new.provider != old.provider then check_subnets_using_nad new.provider else ok tt
        check_if_vpc_exists new.vpc
        can_update_dhcp_setting old new)
