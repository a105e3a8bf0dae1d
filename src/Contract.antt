-- ===== src/Contract.antt =====
-- pkgs/contract/contract.go: the generated binding of the protocol contract's events. Each event has
-- the same four operations, which are defined once and used for every event in `Events`.
pub mod Event
pub mod Iterate
pub mod Watching
pub mod Events
pub mod Queries
pub mod Values
pub mod Abi
pub mod Bound
pub mod Serving
pub mod Packing
pub mod Outputs
pub mod Callers
pub mod Transactors
pub mod Sessions
pub mod CallerSessions
pub mod TransactorSessions
pub mod Binding
pub mod Raw
pub mod Conformance
