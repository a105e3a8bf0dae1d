-- ===== src/Contract/Events/Lifecycle.antt =====
-- pkgs/contract/contract.go, the events of the contract, its data markets and their projects.
use libp2p_submission_sequen.Prelude.{Bytes, codes, List, [], ◌∷◌, Result, ℕ, Bool}
use libp2p_submission_sequen.Contract.Event.{
  Address, BigInt, address_rule, Raised, Choice, BoundContract, Iterator, Verdict, Watch, filter,
  watch, watch_loop, parse, next,
}

pub record Initialized : Type 0 where
  pub version : ℕ

module _ {F W Log : Type 0} (contract : BoundContract F W Initialized Log) where
  unfoldable pub filter_initialized : F → Result Bytes (Iterator Initialized Log)
  filter_initialized opts = filter contract (codes "Initialized") ([]) opts

  unfoldable pub watch_initialized : W → Result Bytes (Watch Initialized Log)
  watch_initialized opts = watch contract (codes "Initialized") ([]) opts

  -- The loop of the subscription.
  unfoldable pub run_initialized : List (Choice Log) → Watch Initialized Log → Watch Initialized Log
  run_initialized = watch_loop contract (codes "Initialized")

  unfoldable pub parse_initialized : Log → Result Bytes (Raised Initialized Log)
  parse_initialized = parse contract (codes "Initialized")

  unfoldable pub next_initialized : Iterator Initialized Log → Verdict × Iterator Initialized Log
  next_initialized = next contract

pub record Upgraded : Type 0 where
  pub implementation : Address

module _ {F W Log : Type 0} (contract : BoundContract F W Upgraded Log) where
  unfoldable pub filter_upgraded : F → List Address → Result Bytes (Iterator Upgraded Log)
  filter_upgraded opts implementation =
      filter contract (codes "Upgraded") (address_rule implementation ∷ []) opts

  unfoldable pub watch_upgraded : W → List Address → Result Bytes (Watch Upgraded Log)
  watch_upgraded opts implementation =
      watch contract (codes "Upgraded") (address_rule implementation ∷ []) opts

  -- The loop of the subscription.
  unfoldable pub run_upgraded : List (Choice Log) → Watch Upgraded Log → Watch Upgraded Log
  run_upgraded = watch_loop contract (codes "Upgraded")

  unfoldable pub parse_upgraded : Log → Result Bytes (Raised Upgraded Log)
  parse_upgraded = parse contract (codes "Upgraded")

  unfoldable pub next_upgraded : Iterator Upgraded Log → Verdict × Iterator Upgraded Log
  next_upgraded = next contract

pub record DataMarketCreated : Type 0 where
  pub owner_address : Address
  pub epoch_size : ℕ
  pub source_chain_id : BigInt
  pub source_chain_block_time : BigInt
  pub use_block_number_as_epoch_id : Bool
  pub protocol_state : Address
  pub data_market_address : Address

module _ {F W Log : Type 0} (contract : BoundContract F W DataMarketCreated Log) where
  unfoldable pub filter_data_market_created :
      F → List Address → Result Bytes (Iterator DataMarketCreated Log)
  filter_data_market_created opts owner_address =
      filter contract (codes "DataMarketCreated") (address_rule owner_address ∷ []) opts

  unfoldable pub watch_data_market_created :
      W → List Address → Result Bytes (Watch DataMarketCreated Log)
  watch_data_market_created opts owner_address =
      watch contract (codes "DataMarketCreated") (address_rule owner_address ∷ []) opts

  -- The loop of the subscription.
  unfoldable pub run_data_market_created :
      List (Choice Log) → Watch DataMarketCreated Log → Watch DataMarketCreated Log
  run_data_market_created = watch_loop contract (codes "DataMarketCreated")

  unfoldable pub parse_data_market_created : Log → Result Bytes (Raised DataMarketCreated Log)
  parse_data_market_created = parse contract (codes "DataMarketCreated")

  unfoldable pub next_data_market_created :
      Iterator DataMarketCreated Log → Verdict × Iterator DataMarketCreated Log
  next_data_market_created = next contract

pub record ProjectTypeUpdated : Type 0 where
  pub data_market_address : Address
  pub project_type : Bytes
  pub allowed : Bool
  pub enable_epoch_id : BigInt

module _ {F W Log : Type 0} (contract : BoundContract F W ProjectTypeUpdated Log) where
  unfoldable pub filter_project_type_updated :
      F → List Address → Result Bytes (Iterator ProjectTypeUpdated Log)
  filter_project_type_updated opts data_market_address =
      filter contract (codes "ProjectTypeUpdated") (address_rule data_market_address ∷ []) opts

  unfoldable pub watch_project_type_updated :
      W → List Address → Result Bytes (Watch ProjectTypeUpdated Log)
  watch_project_type_updated opts data_market_address =
      watch contract (codes "ProjectTypeUpdated") (address_rule data_market_address ∷ []) opts

  -- The loop of the subscription.
  unfoldable pub run_project_type_updated :
      List (Choice Log) → Watch ProjectTypeUpdated Log → Watch ProjectTypeUpdated Log
  run_project_type_updated = watch_loop contract (codes "ProjectTypeUpdated")

  unfoldable pub parse_project_type_updated : Log → Result Bytes (Raised ProjectTypeUpdated Log)
  parse_project_type_updated = parse contract (codes "ProjectTypeUpdated")

  unfoldable pub next_project_type_updated :
      Iterator ProjectTypeUpdated Log → Verdict × Iterator ProjectTypeUpdated Log
  next_project_type_updated = next contract

pub record ProjectsUpdated : Type 0 where
  pub data_market_address : Address
  pub projects : List Bytes
  pub status : List Bool
  pub enable_epoch_id : BigInt

module _ {F W Log : Type 0} (contract : BoundContract F W ProjectsUpdated Log) where
  unfoldable pub filter_projects_updated :
      F → List Address → Result Bytes (Iterator ProjectsUpdated Log)
  filter_projects_updated opts data_market_address =
      filter contract (codes "ProjectsUpdated") (address_rule data_market_address ∷ []) opts

  unfoldable pub watch_projects_updated :
      W → List Address → Result Bytes (Watch ProjectsUpdated Log)
  watch_projects_updated opts data_market_address =
      watch contract (codes "ProjectsUpdated") (address_rule data_market_address ∷ []) opts

  -- The loop of the subscription.
  unfoldable pub run_projects_updated :
      List (Choice Log) → Watch ProjectsUpdated Log → Watch ProjectsUpdated Log
  run_projects_updated = watch_loop contract (codes "ProjectsUpdated")

  unfoldable pub parse_projects_updated : Log → Result Bytes (Raised ProjectsUpdated Log)
  parse_projects_updated = parse contract (codes "ProjectsUpdated")

  unfoldable pub next_projects_updated :
      Iterator ProjectsUpdated Log → Verdict × Iterator ProjectsUpdated Log
  next_projects_updated = next contract
