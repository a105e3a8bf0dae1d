-- ===== src/Contract/Abi.antt =====
-- The ABI that pkgs/contract/contract.go embeds: the names and the types of the contract's methods.
pub mod Types
mod Views
mod Transactions
pub use Views.{views}
pub use Transactions.{transactions}
