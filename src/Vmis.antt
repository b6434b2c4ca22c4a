-- ===== src/Vmis.antt =====
-- Which virtual machines use a network: pkg/utils/vmi.go and vm.go.
pub mod Using
use network_controller_harve.Common.{
  ℕ, zero, suc, Bool, true, false, not, ◌||◌, ◌&&◌, List, [], ◌∷◌, ◌++◌, Option, none, some, Bytes,
  ◌==◌, bytes_eq, nat_eq, keep, length, map, Result, ok, err, ◌>>=◌, if◌then◌else◌,
}
use network_controller_harve.Objects.{Nad, Vmi}
use network_controller_harve.Env.{Env}

-- `namespace/name`
abbrev pub full_name : Bytes → Bytes → Bytes
full_name namespace name = namespace ++ b'/' ∷ name

-- `generateVmiNameList`, `generateVMNameList`
unfoldable pub name_list : List Vmi → List Bytes
name_list vmis = map (λ vmi. full_name vmi.namespace vmi.name) vmis

module _ (env : Env) where
  -- `nodesFilter == nil || nodesFilter.Cardinality() == 0`
  abbrev pub no_nodes : Option env.Set → Bool
  no_nodes none = true
  no_nodes (some nodes) = env.cardinality nodes == 0

  abbrev pub on_nodes : Option env.Set → Vmi → Bool
  on_nodes none vmi = false
  on_nodes (some nodes) vmi = env.contains nodes vmi.node_name

  -- The machines of both indices: those under the full name, and those of the network's own
  -- namespace under the short name.
  unfoldable pub indexed : (Bytes → Result (List Vmi)) → Nad → Result (List Vmi)
  indexed by_network nad = do
    vmis ← by_network (full_name nad.namespace nad.name)
    tmp ← by_network nad.name
    ok (vmis ++ keep (λ vmi. vmi.namespace == nad.namespace) tmp)

  -- `VmiGetter.WhoUseNad`
  unfoldable pub who_use_nad : Nad → Bool → Option env.Set → Result (List Vmi)
  who_use_nad nad filter_flag nodes = if filter_flag && no_nodes nodes then ok [] else do
    vmis ← indexed env.vmis_by_network nad
    if not filter_flag then ok vmis else ok (keep (on_nodes nodes) vmis)

  -- `VmiGetter.WhoUseNads`
  unfoldable pub who_use_nads : List Nad → Bool → Option env.Set → Result (List Vmi)
  who_use_nads [] filter_flag nodes = ok []
  who_use_nads (nad ∷ nads) filter_flag nodes = do
    vmis ← who_use_nad nad filter_flag nodes
    rest ← who_use_nads nads filter_flag nodes
    ok (vmis ++ rest)

  -- `VmiGetter.VmiNamesWhoUseNad`
  unfoldable pub vmi_names_who_use_nad : Nad → Bool → Option env.Set → Result (List Bytes)
  vmi_names_who_use_nad nad filter_flag nodes = do
    vmis ← who_use_nad nad filter_flag nodes
    ok (name_list vmis)

  -- `VmiGetter.VmiNamesWhoUseNads`; with two machines or more the set drops repeated names.
  unfoldable pub vmi_names_who_use_nads : List Nad → Bool → Option env.Set → Result (List Bytes)
  vmi_names_who_use_nads nads filter_flag nodes = do
    vmis ← who_use_nads nads filter_flag nodes
    (if length vmis == 0
        then ok []
        else if length vmis == 1
        then ok (name_list vmis)
        else ok (env.to_slice (env.set_of (name_list vmis))))

  -- `VMGetter.WhoUseNad`, `VMGetter.VMNamesWhoUseNad`
  unfoldable pub vm_names_who_use_nad : Nad → Result (List Bytes)
  vm_names_who_use_nad nad = do vms ← indexed env.vms_by_network nad; ok (name_list vms)
