-- ===== src/Contract/CallerSessions.antt =====
-- pkgs/contract/contract.go: the methods of `ContractCallerSession`.
pub mod Epochs
pub mod Batches
pub mod Snapshots
pub mod Slots
pub mod Members
pub mod Markets
