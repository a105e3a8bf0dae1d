-- ===== src/Contract/Events/Access.antt =====
-- pkgs/contract/contract.go, the events of who may act for a data market.
use libp2p_submission_sequen.Prelude.{Bytes, codes, List, [], ◌∷◌, Result, Bool}
use libp2p_submission_sequen.Contract.Event.{
  Address, address_rule, Raised, Choice, BoundContract, Iterator, Verdict, Watch, filter, watch,
  watch_loop, parse, next,
}

pub record AdminsUpdated : Type 0 where
  pub data_market_address : Address
  pub admin_address : Address
  pub allowed : Bool

module _ {F W Log : Type 0} (contract : BoundContract F W AdminsUpdated Log) where
  unfoldable pub filter_admins_updated :
      F → List Address → Result Bytes (Iterator AdminsUpdated Log)
  filter_admins_updated opts data_market_address =
      filter contract (codes "AdminsUpdated") (address_rule data_market_address ∷ []) opts

  unfoldable pub watch_admins_updated : W → List Address → Result Bytes (Watch AdminsUpdated Log)
  watch_admins_updated opts data_market_address =
      watch contract (codes "AdminsUpdated") (address_rule data_market_address ∷ []) opts

  -- The loop of the subscription.
  unfoldable pub run_admins_updated :
      List (Choice Log) → Watch AdminsUpdated Log → Watch AdminsUpdated Log
  run_admins_updated = watch_loop contract (codes "AdminsUpdated")

  unfoldable pub parse_admins_updated : Log → Result Bytes (Raised AdminsUpdated Log)
  parse_admins_updated = parse contract (codes "AdminsUpdated")

  unfoldable pub next_admins_updated :
      Iterator AdminsUpdated Log → Verdict × Iterator AdminsUpdated Log
  next_admins_updated = next contract

pub record SequencersUpdated : Type 0 where
  pub data_market_address : Address
  pub sequencer_address : Address
  pub allowed : Bool

module _ {F W Log : Type 0} (contract : BoundContract F W SequencersUpdated Log) where
  unfoldable pub filter_sequencers_updated :
      F → List Address → Result Bytes (Iterator SequencersUpdated Log)
  filter_sequencers_updated opts data_market_address =
      filter contract (codes "SequencersUpdated") (address_rule data_market_address ∷ []) opts

  unfoldable pub watch_sequencers_updated :
      W → List Address → Result Bytes (Watch SequencersUpdated Log)
  watch_sequencers_updated opts data_market_address =
      watch contract (codes "SequencersUpdated") (address_rule data_market_address ∷ []) opts

  -- The loop of the subscription.
  unfoldable pub run_sequencers_updated :
      List (Choice Log) → Watch SequencersUpdated Log → Watch SequencersUpdated Log
  run_sequencers_updated = watch_loop contract (codes "SequencersUpdated")

  unfoldable pub parse_sequencers_updated : Log → Result Bytes (Raised SequencersUpdated Log)
  parse_sequencers_updated = parse contract (codes "SequencersUpdated")

  unfoldable pub next_sequencers_updated :
      Iterator SequencersUpdated Log → Verdict × Iterator SequencersUpdated Log
  next_sequencers_updated = next contract

pub record ValidatorsUpdated : Type 0 where
  pub data_market_address : Address
  pub validator_address : Address
  pub allowed : Bool

module _ {F W Log : Type 0} (contract : BoundContract F W ValidatorsUpdated Log) where
  unfoldable pub filter_validators_updated :
      F → List Address → Result Bytes (Iterator ValidatorsUpdated Log)
  filter_validators_updated opts data_market_address =
      filter contract (codes "ValidatorsUpdated") (address_rule data_market_address ∷ []) opts

  unfoldable pub watch_validators_updated :
      W → List Address → Result Bytes (Watch ValidatorsUpdated Log)
  watch_validators_updated opts data_market_address =
      watch contract (codes "ValidatorsUpdated") (address_rule data_market_address ∷ []) opts

  -- The loop of the subscription.
  unfoldable pub run_validators_updated :
      List (Choice Log) → Watch ValidatorsUpdated Log → Watch ValidatorsUpdated Log
  run_validators_updated = watch_loop contract (codes "ValidatorsUpdated")

  unfoldable pub parse_validators_updated : Log → Result Bytes (Raised ValidatorsUpdated Log)
  parse_validators_updated = parse contract (codes "ValidatorsUpdated")

  unfoldable pub next_validators_updated :
      Iterator ValidatorsUpdated Log → Verdict × Iterator ValidatorsUpdated Log
  next_validators_updated = next contract

pub record OwnershipTransferred : Type 0 where
  pub previous_owner : Address
  pub new_owner : Address

module _ {F W Log : Type 0} (contract : BoundContract F W OwnershipTransferred Log) where
  unfoldable pub filter_ownership_transferred :
      F → List Address → List Address → Result Bytes (Iterator OwnershipTransferred Log)
  filter_ownership_transferred opts previous_owner new_owner =
      filter contract (codes "OwnershipTransferred")
        (address_rule previous_owner ∷ address_rule new_owner ∷ []) opts

  unfoldable pub watch_ownership_transferred :
      W → List Address → List Address → Result Bytes (Watch OwnershipTransferred Log)
  watch_ownership_transferred opts previous_owner new_owner =
      watch contract (codes "OwnershipTransferred")
        (address_rule previous_owner ∷ address_rule new_owner ∷ []) opts

  -- The loop of the subscription.
  unfoldable pub run_ownership_transferred :
      List (Choice Log) → Watch OwnershipTransferred Log → Watch OwnershipTransferred Log
  run_ownership_transferred = watch_loop contract (codes "OwnershipTransferred")

  unfoldable pub parse_ownership_transferred : Log → Result Bytes (Raised OwnershipTransferred Log)
  parse_ownership_transferred = parse contract (codes "OwnershipTransferred")

  unfoldable pub next_ownership_transferred :
      Iterator OwnershipTransferred Log → Verdict × Iterator OwnershipTransferred Log
  next_ownership_transferred = next contract
