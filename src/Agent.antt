-- ===== src/Agent.antt =====
-- The controllers of the agent on each node: pkg/controller/agent.
pub mod ClusterNetwork
pub mod VlanConfig
pub mod HostNetworkConfig
pub mod LinkMonitor
