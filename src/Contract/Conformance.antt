-- ===== src/Contract/Conformance.antt =====
-- What the methods of a session give, by the ABI of the contract.
pub mod Epochs
pub mod Batches
pub mod Snapshots
pub mod Slots
pub mod Members
pub mod Markets
pub mod Submitting
pub mod Administration
pub mod Tuning
pub mod Structs
pub mod Whole
