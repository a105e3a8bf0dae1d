-- ===== src/Contract/Callers.antt =====
-- pkgs/contract/contract.go: `ContractCaller`, the calls that read from the contract, over its bound
-- contract.
pub mod Epochs
pub mod Batches
pub mod Snapshots
pub mod Slots
pub mod Members
pub mod Markets
