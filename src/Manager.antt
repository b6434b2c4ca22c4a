-- ===== src/Manager.antt =====
-- The controllers of the manager: pkg/controller/manager.
pub mod VlanConfig
pub mod ClusterNetwork
pub mod Nad
pub mod Node
