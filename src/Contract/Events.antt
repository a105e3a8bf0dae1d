-- ===== src/Contract/Events.antt =====
-- pkgs/contract/contract.go: the struct and the operations of each event of the contract.
pub mod Access
pub mod Lifecycle
pub mod Epochs
pub mod Snapshots
pub mod Batches
pub mod Attestations
