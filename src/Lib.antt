-- ===== src/Lib.antt =====
-- The network controller of Harvester: what its webhooks admit and patch, what its manager then
-- writes, and what its agents do on a node.
--
-- Cluster networks, VLAN configurations (the uplinks of a cluster network on a set of nodes),
-- network attachment definitions (the networks that virtual machines use) and host network
-- configurations (VLAN interfaces of the nodes) are Kubernetes objects. A mutating webhook patches a
-- new object, and a validating webhook accepts or refuses it by what the caches hold of the other
-- objects. The manager's controllers follow the admitted objects: they keep annotations with the
-- MTU, its source and the VLAN ids in use on each cluster network, which the webhooks and the agents
-- read in turn, the nodes that each configuration matches, the readiness of what depends on a cluster
-- network, and the jobs that find out routes. The agent on each node makes the uplink and the bridge
-- of a cluster network, lets those VLAN ids through the uplink, makes the VLAN interfaces of host
-- networks with their addresses, and reports links. All of them share the helpers of
-- pkg/utils, and the agents those of pkg/network.
--
-- The files, and the code that each models:
--   Common      numbers, lists, byte texts, maps that may be nil, `error` results, and effects that
--               keep what was done before an error
--   Objects     the fields of the objects that the code reads: pkg/apis/network.harvesterhci.io,
--               and the keys of pkg/utils/labels.go
--   Env         other projects' code, as one parameter: the caches, the sets of names, the JSON
--               codecs, `reflect.DeepEqual`, checksums, the parsers of addresses
--   Vlan        `VlanIDSet`, pkg/utils/vlan.go: Set (one id), Append, Diff, Print, Walk
--   Bridge      names of bridges and cluster networks: pkg/utils/bridge.go, clusternetwork.go
--   Mtu         pkg/utils/mtu.go
--   NetConf     the configuration of a network, pkg/utils/nad.go: Valid (what is accepted), Dump
--               (its id set), Labels (what is written to the attachment's labels)
--   Layer3      routes: `Layer3NetworkConf` of pkg/utils/nad.go
--   Nads        network attachments, pkg/utils/nad.go: VidSet (the id set of a list), Mode (that it
--               is in trunk mode), Provider
--   Vmis        the machines that use a network: pkg/utils/vmi.go and vm.go
--   Webhook     the validators of pkg/webhook/clusternetwork, vlanconfig, nad, hostnetworkconfig and
--               subnet, each with what an admitted request ensures, the mutators of nad and
--               vlanconfig (Mutator, and Mutated for what the validator then sees), and Patch
--   Requests    what a controller sends to the API server, in order, and the server's answers;
--               Rounds (what a loop that succeeds has sent)
--   Mgmt        the management bond: pkg/utils/mgmt.go and bondInterface.go
--   Manager     pkg/controller/manager: VlanConfig, ClusterNetwork, Node, and Nad with Jobs
--   Network     netlink as a parameter, and pkg/network: Ports (iface/link.go), Bonds
--               (iface/bond.go), SubInterfaces (iface/vlan.go), Areas (iface/bridge.go and
--               vlan/vlan.go), Monitor (monitor/monitor.go)
--   Agent       pkg/controller/agent: ClusterNetwork, VlanConfig with Management, HostNetworkConfig
--               with Leases (leasemanager.go) and Status, LinkMonitor, on the node's links
--   Tests       objects, caches, a node and the theorems at them
--
-- How the code is read. A function that returns an `error` is a `Result`, of which the error has a
-- constructor and no text. A read of a nil pointer, which panics in Go, is the error
-- `nil_dereference`; a write past the end of a slice is `none` where the code could make one. A
-- handler of Manager/VlanConfig returns the write that it asks the client for, since it makes one at
-- most; the other handlers extend the log of the requests that were sent, and end at the first one
-- that the server refuses, unless the code goes on. A mutator returns its patch. A function of pkg/network
-- takes the state of the node's links to a new one and an `error`: what was done before an error
-- stays done. A text is the list of its bytes, an `int` an integer that is not bounded (the ones
-- here are ids, lengths and MTUs), a `uint16` and a `uint32` are taken modulo their sizes. The slice
-- of 4096 flags of an id set is a function of the index. A set is well-formed if its flags lie in
-- [1, 4094] and, in trunk mode, its counter is their number, or, in single mode, its id is in range.
-- Loops are recursion over the list or over the number of rounds that are left, of which there are
-- always enough: no function of the model stops early.
--
-- The caches are one snapshot for a handler, and a map of which the code reads the entries in an
-- order of its own is a list in some order. The lease manager of an interface is made over a DHCP
-- client, which is a parameter as netlink is (`Dhcp`); one round of its loop is modelled. What the
-- theorems take of other projects' code are the documented behaviour of the sets of names
-- (`SetLaws`), that the JSON codecs of routes and of names read back what they write, that setting
-- the MTU in a configuration changes nothing else of it, that equal specifications have equal
-- fields, that netlink's VLAN filter of a link holds what was added and not deleted (`PortLaws`),
-- that it does not find a link that it has deleted (`LinkLaws`), and that it makes none by deleting
-- one or by setting one up (`MakesNone`).
--
-- Not modelled: the timer of the pings, the subscription to the kernel's messages, locks and
-- goroutines, iptables and routes of a node (effects on the node), start-up, registration, logging,
-- and generated and vendored code.
pub mod Common
pub mod Vlan
pub mod Objects
pub mod Bridge
pub mod NetConf
pub mod Mgmt
pub mod Mtu
pub mod Env
pub mod Vmis
pub mod Nads
pub mod Webhook
pub mod Manager
pub mod Layer3
pub mod Tests
pub mod Requests
pub mod Network
pub mod Agent
