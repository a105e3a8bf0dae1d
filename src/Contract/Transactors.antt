-- ===== src/Contract/Transactors.antt =====
-- pkgs/contract/contract.go: `ContractTransactor`, the calls that send transactions to the contract,
-- over its bound contract.
pub mod Submitting
pub mod Administration
pub mod Tuning
