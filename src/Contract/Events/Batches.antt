-- ===== src/Contract/Events/Batches.antt =====
-- pkgs/contract/contract.go, the events of batches of snapshots.
use libp2p_submission_sequen.Prelude.{Bytes, codes, List, [], ◌∷◌, Result}
use libp2p_submission_sequen.Contract.Event.{
  Address, BigInt, address_rule, big_int_rule, Raised, Choice, BoundContract, Iterator, Verdict,
  Watch, filter, watch, watch_loop, parse, next,
}

pub record SnapshotBatchSubmitted : Type 0 where
  pub data_market_address : Address
  pub batch_id : BigInt
  pub batch_cid : Bytes
  pub epoch_id : BigInt
  pub timestamp : BigInt

module _ {F W Log : Type 0} (contract : BoundContract F W SnapshotBatchSubmitted Log) where
  unfoldable pub filter_snapshot_batch_submitted :
      F → List Address → List BigInt → Result Bytes (Iterator SnapshotBatchSubmitted Log)
  filter_snapshot_batch_submitted opts data_market_address epoch_id =
      filter contract (codes "SnapshotBatchSubmitted")
        (address_rule data_market_address ∷ big_int_rule epoch_id ∷ []) opts

  unfoldable pub watch_snapshot_batch_submitted :
      W → List Address → List BigInt → Result Bytes (Watch SnapshotBatchSubmitted Log)
  watch_snapshot_batch_submitted opts data_market_address epoch_id =
      watch contract (codes "SnapshotBatchSubmitted")
        (address_rule data_market_address ∷ big_int_rule epoch_id ∷ []) opts

  -- The loop of the subscription.
  unfoldable pub run_snapshot_batch_submitted :
      List (Choice Log) → Watch SnapshotBatchSubmitted Log → Watch SnapshotBatchSubmitted Log
  run_snapshot_batch_submitted = watch_loop contract (codes "SnapshotBatchSubmitted")

  unfoldable pub parse_snapshot_batch_submitted :
      Log → Result Bytes (Raised SnapshotBatchSubmitted Log)
  parse_snapshot_batch_submitted = parse contract (codes "SnapshotBatchSubmitted")

  unfoldable pub next_snapshot_batch_submitted :
      Iterator SnapshotBatchSubmitted Log → Verdict × Iterator SnapshotBatchSubmitted Log
  next_snapshot_batch_submitted = next contract

pub record DelayedBatchSubmitted : Type 0 where
  pub data_market_address : Address
  pub batch_id : BigInt
  pub batch_cid : Bytes
  pub epoch_id : BigInt
  pub timestamp : BigInt

module _ {F W Log : Type 0} (contract : BoundContract F W DelayedBatchSubmitted Log) where
  unfoldable pub filter_delayed_batch_submitted :
      F → List Address → List BigInt → Result Bytes (Iterator DelayedBatchSubmitted Log)
  filter_delayed_batch_submitted opts data_market_address epoch_id =
      filter contract (codes "DelayedBatchSubmitted")
        (address_rule data_market_address ∷ big_int_rule epoch_id ∷ []) opts

  unfoldable pub watch_delayed_batch_submitted :
      W → List Address → List BigInt → Result Bytes (Watch DelayedBatchSubmitted Log)
  watch_delayed_batch_submitted opts data_market_address epoch_id =
      watch contract (codes "DelayedBatchSubmitted")
        (address_rule data_market_address ∷ big_int_rule epoch_id ∷ []) opts

  -- The loop of the subscription.
  unfoldable pub run_delayed_batch_submitted :
      List (Choice Log) → Watch DelayedBatchSubmitted Log → Watch DelayedBatchSubmitted Log
  run_delayed_batch_submitted = watch_loop contract (codes "DelayedBatchSubmitted")

  unfoldable pub parse_delayed_batch_submitted :
      Log → Result Bytes (Raised DelayedBatchSubmitted Log)
  parse_delayed_batch_submitted = parse contract (codes "DelayedBatchSubmitted")

  unfoldable pub next_delayed_batch_submitted :
      Iterator DelayedBatchSubmitted Log → Verdict × Iterator DelayedBatchSubmitted Log
  next_delayed_batch_submitted = next contract

pub record SnapshotBatchFinalized : Type 0 where
  pub data_market_address : Address
  pub epoch_id : BigInt
  pub batch_id : BigInt
  pub timestamp : BigInt

module _ {F W Log : Type 0} (contract : BoundContract F W SnapshotBatchFinalized Log) where
  unfoldable pub filter_snapshot_batch_finalized :
      F
      → List Address
      → List BigInt
      → List BigInt
      → Result Bytes (Iterator SnapshotBatchFinalized Log)
  filter_snapshot_batch_finalized opts data_market_address epoch_id batch_id =
      filter contract (codes "SnapshotBatchFinalized")
        (address_rule data_market_address ∷ big_int_rule epoch_id ∷ big_int_rule batch_id ∷ []) opts

  unfoldable pub watch_snapshot_batch_finalized :
      W → List Address → List BigInt → List BigInt → Result Bytes (Watch SnapshotBatchFinalized Log)
  watch_snapshot_batch_finalized opts data_market_address epoch_id batch_id =
      watch contract (codes "SnapshotBatchFinalized")
        (address_rule data_market_address ∷ big_int_rule epoch_id ∷ big_int_rule batch_id ∷ []) opts

  -- The loop of the subscription.
  unfoldable pub run_snapshot_batch_finalized :
      List (Choice Log) → Watch SnapshotBatchFinalized Log → Watch SnapshotBatchFinalized Log
  run_snapshot_batch_finalized = watch_loop contract (codes "SnapshotBatchFinalized")

  unfoldable pub parse_snapshot_batch_finalized :
      Log → Result Bytes (Raised SnapshotBatchFinalized Log)
  parse_snapshot_batch_finalized = parse contract (codes "SnapshotBatchFinalized")

  unfoldable pub next_snapshot_batch_finalized :
      Iterator SnapshotBatchFinalized Log → Verdict × Iterator SnapshotBatchFinalized Log
  next_snapshot_batch_finalized = next contract
