-- ===== src/Contract/TransactorSessions.antt =====
-- pkgs/contract/contract.go: the methods of `ContractTransactorSession`.
pub mod Submitting
pub mod Administration
pub mod Tuning
