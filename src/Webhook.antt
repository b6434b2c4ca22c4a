-- ===== src/Webhook.antt =====
-- The admission webhooks: pkg/webhook.
pub mod Patch
pub mod ClusterNetwork
pub mod VlanConfig
pub mod Nad
pub mod HostNetworkConfig
pub mod Subnet
