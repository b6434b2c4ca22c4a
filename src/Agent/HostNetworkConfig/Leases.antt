-- ===== src/Agent/HostNetworkConfig/Leases.antt =====
-- The manager of a DHCP lease: pkg/controller/agent/hostnetworkconfig/leasemanager.go, with the DHCP
-- client as a parameter.
use network_controller_harve.Common.{
  ℕ, Bool, true, [], ◌∷◌, ◌++◌, Option, none, some, Bytes, ◌==◌, ◌!=◌, nat_eq, bytes_eq, length,
  itoa_ℕ, Result, ok, err, Effect, if◌then◌else◌, lease_without_mask, lease_mask_length,
  lease_mask_invalid, no_lease_address,
}
use network_controller_harve.Network.{Netlink, Link}
use network_controller_harve.Network.SubInterfaces.{set_ip_address}

-- What the code uses of nclient4 and of net, over the state of the node.
pub record Dhcp (State : Type 0) : Type 1 where
  pub Client : Type 0
  pub Lease : Type 0
  pub new_client : Bytes → State → Result Client
  pub request : Client → State → State × Result Lease
  pub renew : Client → Lease → State → State × Result Lease
  pub release : Client → Lease → State → State
  -- the option of the subnet mask, the size of a mask, and the text of the address
  pub subnet_mask : Lease → Option Bytes
  pub mask_size : Bytes → ℕ × ℕ
  pub your_ip : Lease → Bytes

module _ (nl : Netlink) (dhcp : Dhcp nl.State) where
  -- `LeaseManager`; no lease and a nil `cancel` are those of a manager that does not run.
  pub record LeaseManager : Type 0 where
    pub iface : Bytes
    pub link : Link
    pub vlan_id : ℕ
    pub client : dhcp.Client
    pub lease : Option dhcp.Lease
    pub ip_addr : Bytes
    pub running : Bool

  abbrev pub sized : Bytes → ℕ × ℕ → Result Bytes
  sized ip (ones, bits) =
      if bits != 32 then err lease_mask_invalid else ok (ip ++ b'/' ∷ itoa_ℕ ones)

  abbrev pub masked : Bytes → Option Bytes → Result Bytes
  masked ip none = err lease_without_mask
  masked ip (some mask) =
      if length mask != 4 then err lease_mask_length else sized ip (dhcp.mask_size mask)

  -- `ipAddrFromLease`
  unfoldable pub ip_addr_from_lease : dhcp.Lease → Result Bytes
  ip_addr_from_lease lease = masked (dhcp.your_ip lease) (dhcp.subnet_mask lease)

  -- The state of the node and a manager.
  abbrev pub Held : Type 0
  Held = nl.State × LeaseManager

  abbrev pub runs_with : LeaseManager → dhcp.Lease → Bytes → Effect nl.State → Effect Held
  runs_with lm lease ip (s, err e) = ((s, lm), err e)
  runs_with lm lease ip (s, ok done) =
      ((s, record lm { lease = some lease; ip_addr = ip; running = true }), ok tt)

  abbrev pub addressed : LeaseManager → dhcp.Lease → Result Bytes → nl.State → Effect Held
  addressed lm lease (err e) s = ((s, lm), err e)
  addressed lm lease (ok ip) s =
      if ip == []
      then ((s, lm), err no_lease_address)
      else runs_with lm lease ip (set_ip_address nl lm.link ip lm.vlan_id s)

  abbrev pub leased : LeaseManager → nl.State × Result dhcp.Lease → Effect Held
  leased lm (s, err e) = ((s, lm), err e)
  leased lm (s, ok lease) = addressed lm lease (ip_addr_from_lease lease) s

  -- `Start`; the loop that renews the lease then runs in the background.
  unfoldable pub start : LeaseManager → nl.State → Effect Held
  start lm s = if lm.running then ((s, lm), ok tt) else leased lm (dhcp.request lm.client s)

  -- The lease that a round of `renewLoop` gets.
  abbrev pub or_request : LeaseManager → nl.State × Result dhcp.Lease → nl.State × Result dhcp.Lease
  or_request lm (s, ok lease) = (s, ok lease)
  or_request lm (s, err e) = dhcp.request lm.client s

  abbrev pub moves_to : LeaseManager → Bytes → Effect nl.State → Held
  moves_to lm ip (s, err e) = (s, lm)
  moves_to lm ip (s, ok done) = (s, record lm { ip_addr = ip })

  abbrev pub renewed_at : LeaseManager → dhcp.Lease → Result Bytes → nl.State → Held
  renewed_at lm lease (err e) s = (s, lm)
  renewed_at lm lease (ok ip) s =
      let next = record lm { lease = some lease } in
      if ip == lm.ip_addr
      then (s, next)
      else moves_to next ip (set_ip_address nl lm.link ip lm.vlan_id s)

  abbrev pub renewed : LeaseManager → nl.State × Result dhcp.Lease → Held
  renewed lm (s, err e) = (s, lm)
  renewed lm (s, ok lease) = renewed_at lm lease (ip_addr_from_lease lease) s

  abbrev pub renew_held : LeaseManager → Option dhcp.Lease → nl.State → Held
  renew_held lm none s = (s, lm)
  renew_held lm (some lease) s = renewed lm (or_request lm (dhcp.renew lm.client lease s))

  -- A round of `renewLoop` of which the timer has fired.
  unfoldable pub renew_round : LeaseManager → nl.State → Held
  renew_round lm s = renew_held lm lm.lease s

  abbrev pub released : LeaseManager → Option dhcp.Lease → nl.State → nl.State
  released lm none s = s
  released lm (some lease) s = dhcp.release lm.client lease s

  -- `Stop`; the manager itself is then dropped.
  unfoldable pub stop : LeaseManager → nl.State → nl.State
  stop lm s = if lm.running then released lm lm.lease s else s
