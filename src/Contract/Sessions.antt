-- ===== src/Contract/Sessions.antt =====
-- pkgs/contract/contract.go: `ContractSession`, the methods of a contract with options set before.
pub mod Epochs
pub mod Batches
pub mod Snapshots
pub mod Slots
pub mod Members
pub mod Markets
pub mod Submitting
pub mod Administration
pub mod Tuning
pub mod Session
