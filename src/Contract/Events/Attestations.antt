-- ===== src/Contract/Events/Attestations.antt =====
-- pkgs/contract/contract.go, the events of the attestations of validators.
use libp2p_submission_sequen.Prelude.{Bytes, codes, List, [], ◌∷◌, Result}
use libp2p_submission_sequen.Contract.Event.{
  Address, BigInt, address_rule, big_int_rule, Raised, Choice, BoundContract, Iterator, Verdict,
  Watch, filter, watch, watch_loop, parse, next,
}

pub record SnapshotBatchAttestationSubmitted : Type 0 where
  pub data_market_address : Address
  pub batch_id : BigInt
  pub epoch_id : BigInt
  pub timestamp : BigInt
  pub validator_addr : Address

module _ {F W Log : Type 0}
    (contract : BoundContract F W SnapshotBatchAttestationSubmitted Log) where
  unfoldable pub filter_snapshot_batch_attestation_submitted :
      F
      → List Address
      → List BigInt
      → List Address
      → Result Bytes (Iterator SnapshotBatchAttestationSubmitted Log)
  filter_snapshot_batch_attestation_submitted opts data_market_address epoch_id validator_addr =
      filter contract (codes "SnapshotBatchAttestationSubmitted")
        (address_rule data_market_address
          ∷ big_int_rule epoch_id
          ∷ address_rule validator_addr
          ∷ [])
        opts

  unfoldable pub watch_snapshot_batch_attestation_submitted :
      W
      → List Address
      → List BigInt
      → List Address
      → Result Bytes (Watch SnapshotBatchAttestationSubmitted Log)
  watch_snapshot_batch_attestation_submitted opts data_market_address epoch_id validator_addr =
      watch contract (codes "SnapshotBatchAttestationSubmitted")
        (address_rule data_market_address
          ∷ big_int_rule epoch_id
          ∷ address_rule validator_addr
          ∷ [])
        opts

  -- The loop of the subscription.
  unfoldable pub run_snapshot_batch_attestation_submitted :
      List (Choice Log)
      → Watch SnapshotBatchAttestationSubmitted Log
      → Watch SnapshotBatchAttestationSubmitted Log
  run_snapshot_batch_attestation_submitted =
      watch_loop contract (codes "SnapshotBatchAttestationSubmitted")

  unfoldable pub parse_snapshot_batch_attestation_submitted :
      Log → Result Bytes (Raised SnapshotBatchAttestationSubmitted Log)
  parse_snapshot_batch_attestation_submitted =
      parse contract (codes "SnapshotBatchAttestationSubmitted")

  unfoldable pub next_snapshot_batch_attestation_submitted :
      Iterator SnapshotBatchAttestationSubmitted Log
      → Verdict × Iterator SnapshotBatchAttestationSubmitted Log
  next_snapshot_batch_attestation_submitted = next contract

pub record DelayedAttestationSubmitted : Type 0 where
  pub data_market_address : Address
  pub batch_id : BigInt
  pub epoch_id : BigInt
  pub timestamp : BigInt
  pub validator_addr : Address

module _ {F W Log : Type 0} (contract : BoundContract F W DelayedAttestationSubmitted Log) where
  unfoldable pub filter_delayed_attestation_submitted :
      F
      → List Address
      → List BigInt
      → List Address
      → Result Bytes (Iterator DelayedAttestationSubmitted Log)
  filter_delayed_attestation_submitted opts data_market_address epoch_id validator_addr =
      filter contract (codes "DelayedAttestationSubmitted")
        (address_rule data_market_address
          ∷ big_int_rule epoch_id
          ∷ address_rule validator_addr
          ∷ [])
        opts

  unfoldable pub watch_delayed_attestation_submitted :
      W
      → List Address
      → List BigInt
      → List Address
      → Result Bytes (Watch DelayedAttestationSubmitted Log)
  watch_delayed_attestation_submitted opts data_market_address epoch_id validator_addr =
      watch contract (codes "DelayedAttestationSubmitted")
        (address_rule data_market_address
          ∷ big_int_rule epoch_id
          ∷ address_rule validator_addr
          ∷ [])
        opts

  -- The loop of the subscription.
  unfoldable pub run_delayed_attestation_submitted :
      List (Choice Log)
      → Watch DelayedAttestationSubmitted Log
      → Watch DelayedAttestationSubmitted Log
  run_delayed_attestation_submitted = watch_loop contract (codes "DelayedAttestationSubmitted")

  unfoldable pub parse_delayed_attestation_submitted :
      Log → Result Bytes (Raised DelayedAttestationSubmitted Log)
  parse_delayed_attestation_submitted = parse contract (codes "DelayedAttestationSubmitted")

  unfoldable pub next_delayed_attestation_submitted :
      Iterator DelayedAttestationSubmitted Log → Verdict × Iterator DelayedAttestationSubmitted Log
  next_delayed_attestation_submitted = next contract

pub record ValidatorAttestationsInvalidated : Type 0 where
  pub data_market_address : Address
  pub epoch_id : BigInt
  pub batch_id : BigInt
  pub validator : Address
  pub timestamp : BigInt

module _ {F W Log : Type 0}
    (contract : BoundContract F W ValidatorAttestationsInvalidated Log) where
  unfoldable pub filter_validator_attestations_invalidated :
      F
      → List Address
      → List BigInt
      → List BigInt
      → Result Bytes (Iterator ValidatorAttestationsInvalidated Log)
  filter_validator_attestations_invalidated opts data_market_address epoch_id batch_id =
      filter contract (codes "ValidatorAttestationsInvalidated")
        (address_rule data_market_address ∷ big_int_rule epoch_id ∷ big_int_rule batch_id ∷ []) opts

  unfoldable pub watch_validator_attestations_invalidated :
      W
      → List Address
      → List BigInt
      → List BigInt
      → Result Bytes (Watch ValidatorAttestationsInvalidated Log)
  watch_validator_attestations_invalidated opts data_market_address epoch_id batch_id =
      watch contract (codes "ValidatorAttestationsInvalidated")
        (address_rule data_market_address ∷ big_int_rule epoch_id ∷ big_int_rule batch_id ∷ []) opts

  -- The loop of the subscription.
  unfoldable pub run_validator_attestations_invalidated :
      List (Choice Log)
      → Watch ValidatorAttestationsInvalidated Log
      → Watch ValidatorAttestationsInvalidated Log
  run_validator_attestations_invalidated =
      watch_loop contract (codes "ValidatorAttestationsInvalidated")

  unfoldable pub parse_validator_attestations_invalidated :
      Log → Result Bytes (Raised ValidatorAttestationsInvalidated Log)
  parse_validator_attestations_invalidated =
      parse contract (codes "ValidatorAttestationsInvalidated")

  unfoldable pub next_validator_attestations_invalidated :
      Iterator ValidatorAttestationsInvalidated Log
      → Verdict × Iterator ValidatorAttestationsInvalidated Log
  next_validator_attestations_invalidated = next contract
