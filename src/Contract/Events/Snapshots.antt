-- ===== src/Contract/Events/Snapshots.antt =====
-- pkgs/contract/contract.go, the events of snapshots and the batches that ask for them again.
use libp2p_submission_sequen.Prelude.{Bytes, codes, List, [], ◌∷◌, Result}
use libp2p_submission_sequen.Contract.Event.{
  Address, BigInt, address_rule, big_int_rule, Raised, Choice, BoundContract, Iterator, Verdict,
  Watch, filter, watch, watch_loop, parse, next,
}

pub record SnapshotFinalized : Type 0 where
  pub data_market_address : Address
  pub epoch_id : BigInt
  pub epoch_end : BigInt
  pub project_id : Bytes
  pub snapshot_cid : Bytes
  pub timestamp : BigInt

module _ {F W Log : Type 0} (contract : BoundContract F W SnapshotFinalized Log) where
  unfoldable pub filter_snapshot_finalized :
      F → List Address → List BigInt → Result Bytes (Iterator SnapshotFinalized Log)
  filter_snapshot_finalized opts data_market_address epoch_id =
      filter contract (codes "SnapshotFinalized")
        (address_rule data_market_address ∷ big_int_rule epoch_id ∷ []) opts

  unfoldable pub watch_snapshot_finalized :
      W → List Address → List BigInt → Result Bytes (Watch SnapshotFinalized Log)
  watch_snapshot_finalized opts data_market_address epoch_id =
      watch contract (codes "SnapshotFinalized")
        (address_rule data_market_address ∷ big_int_rule epoch_id ∷ []) opts

  -- The loop of the subscription.
  unfoldable pub run_snapshot_finalized :
      List (Choice Log) → Watch SnapshotFinalized Log → Watch SnapshotFinalized Log
  run_snapshot_finalized = watch_loop contract (codes "SnapshotFinalized")

  unfoldable pub parse_snapshot_finalized : Log → Result Bytes (Raised SnapshotFinalized Log)
  parse_snapshot_finalized = parse contract (codes "SnapshotFinalized")

  unfoldable pub next_snapshot_finalized :
      Iterator SnapshotFinalized Log → Verdict × Iterator SnapshotFinalized Log
  next_snapshot_finalized = next contract

pub record DelayedSnapshotSubmitted : Type 0 where
  pub data_market_address : Address
  pub snapshotter_addr : Address
  pub slot_id : BigInt
  pub snapshot_cid : Bytes
  pub epoch_id : BigInt
  pub project_id : Bytes
  pub timestamp : BigInt

module _ {F W Log : Type 0} (contract : BoundContract F W DelayedSnapshotSubmitted Log) where
  unfoldable pub filter_delayed_snapshot_submitted :
      F
      → List Address
      → List Address
      → List BigInt
      → Result Bytes (Iterator DelayedSnapshotSubmitted Log)
  filter_delayed_snapshot_submitted opts data_market_address snapshotter_addr epoch_id =
      filter contract (codes "DelayedSnapshotSubmitted")
        (address_rule data_market_address
          ∷ address_rule snapshotter_addr
          ∷ big_int_rule epoch_id
          ∷ [])
        opts

  unfoldable pub watch_delayed_snapshot_submitted :
      W
      → List Address
      → List Address
      → List BigInt
      → Result Bytes (Watch DelayedSnapshotSubmitted Log)
  watch_delayed_snapshot_submitted opts data_market_address snapshotter_addr epoch_id =
      watch contract (codes "DelayedSnapshotSubmitted")
        (address_rule data_market_address
          ∷ address_rule snapshotter_addr
          ∷ big_int_rule epoch_id
          ∷ [])
        opts

  -- The loop of the subscription.
  unfoldable pub run_delayed_snapshot_submitted :
      List (Choice Log) → Watch DelayedSnapshotSubmitted Log → Watch DelayedSnapshotSubmitted Log
  run_delayed_snapshot_submitted = watch_loop contract (codes "DelayedSnapshotSubmitted")

  unfoldable pub parse_delayed_snapshot_submitted :
      Log → Result Bytes (Raised DelayedSnapshotSubmitted Log)
  parse_delayed_snapshot_submitted = parse contract (codes "DelayedSnapshotSubmitted")

  unfoldable pub next_delayed_snapshot_submitted :
      Iterator DelayedSnapshotSubmitted Log → Verdict × Iterator DelayedSnapshotSubmitted Log
  next_delayed_snapshot_submitted = next contract

pub record BatchSubmissionsCompleted : Type 0 where
  pub data_market_address : Address
  pub epoch_id : BigInt
  pub timestamp : BigInt

module _ {F W Log : Type 0} (contract : BoundContract F W BatchSubmissionsCompleted Log) where
  unfoldable pub filter_batch_submissions_completed :
      F → List Address → List BigInt → Result Bytes (Iterator BatchSubmissionsCompleted Log)
  filter_batch_submissions_completed opts data_market_address epoch_id =
      filter contract (codes "BatchSubmissionsCompleted")
        (address_rule data_market_address ∷ big_int_rule epoch_id ∷ []) opts

  unfoldable pub watch_batch_submissions_completed :
      W → List Address → List BigInt → Result Bytes (Watch BatchSubmissionsCompleted Log)
  watch_batch_submissions_completed opts data_market_address epoch_id =
      watch contract (codes "BatchSubmissionsCompleted")
        (address_rule data_market_address ∷ big_int_rule epoch_id ∷ []) opts

  -- The loop of the subscription.
  unfoldable pub run_batch_submissions_completed :
      List (Choice Log) → Watch BatchSubmissionsCompleted Log → Watch BatchSubmissionsCompleted Log
  run_batch_submissions_completed = watch_loop contract (codes "BatchSubmissionsCompleted")

  unfoldable pub parse_batch_submissions_completed :
      Log → Result Bytes (Raised BatchSubmissionsCompleted Log)
  parse_batch_submissions_completed = parse contract (codes "BatchSubmissionsCompleted")

  unfoldable pub next_batch_submissions_completed :
      Iterator BatchSubmissionsCompleted Log → Verdict × Iterator BatchSubmissionsCompleted Log
  next_batch_submissions_completed = next contract

pub record TriggerBatchResubmission : Type 0 where
  pub data_market_address : Address
  pub epoch_id : BigInt
  pub batch_id : BigInt
  pub timestamp : BigInt

module _ {F W Log : Type 0} (contract : BoundContract F W TriggerBatchResubmission Log) where
  unfoldable pub filter_trigger_batch_resubmission :
      F
      → List Address
      → List BigInt
      → List BigInt
      → Result Bytes (Iterator TriggerBatchResubmission Log)
  filter_trigger_batch_resubmission opts data_market_address epoch_id batch_id =
      filter contract (codes "TriggerBatchResubmission")
        (address_rule data_market_address ∷ big_int_rule epoch_id ∷ big_int_rule batch_id ∷ []) opts

  unfoldable pub watch_trigger_batch_resubmission :
      W
      → List Address
      → List BigInt
      → List BigInt
      → Result Bytes (Watch TriggerBatchResubmission Log)
  watch_trigger_batch_resubmission opts data_market_address epoch_id batch_id =
      watch contract (codes "TriggerBatchResubmission")
        (address_rule data_market_address ∷ big_int_rule epoch_id ∷ big_int_rule batch_id ∷ []) opts

  -- The loop of the subscription.
  unfoldable pub run_trigger_batch_resubmission :
      List (Choice Log) → Watch TriggerBatchResubmission Log → Watch TriggerBatchResubmission Log
  run_trigger_batch_resubmission = watch_loop contract (codes "TriggerBatchResubmission")

  unfoldable pub parse_trigger_batch_resubmission :
      Log → Result Bytes (Raised TriggerBatchResubmission Log)
  parse_trigger_batch_resubmission = parse contract (codes "TriggerBatchResubmission")

  unfoldable pub next_trigger_batch_resubmission :
      Iterator TriggerBatchResubmission Log → Verdict × Iterator TriggerBatchResubmission Log
  next_trigger_batch_resubmission = next contract
