-- ===== src/Contract/Transactors/Tuning.antt =====
-- pkgs/contract/contract.go: the methods of `ContractTransactor` on the settings of a data market.
use libp2p_submission_sequen.Prelude.{Bytes, codes, Bool, List, [], ◌∷◌, Result}
use libp2p_submission_sequen.Contract.Event.{Address}
use libp2p_submission_sequen.Contract.Values.{GoType, BigInt, any}
use libp2p_submission_sequen.Contract.Bound.{BoundCalls}

module _ {C T Tx : Type 0} (bound : BoundCalls C T Tx) where
  abbrev pub assign_snapshotter_to_slot_bulk : T → List BigInt → List Address → Result Bytes Tx
  assign_snapshotter_to_slot_bulk opts slot_ids snapshotter_addresses =
      bound.transact opts (codes "assignSnapshotterToSlotBulk")
        (any GoType.big_ints slot_ids ∷ any GoType.addresses snapshotter_addresses ∷ [])

  abbrev pub load_current_day : T → Address → BigInt → Result Bytes Tx
  load_current_day opts data_market day_counter =
      bound.transact opts (codes "loadCurrentDay")
        (any GoType.address data_market ∷ any GoType.big_int day_counter ∷ [])

  abbrev pub load_slot_submissions : T → Address → BigInt → BigInt → BigInt → Result Bytes Tx
  load_slot_submissions opts data_market slot_id day_id snapshot_count =
      bound.transact opts (codes "loadSlotSubmissions") (
        any GoType.address data_market
        ∷ any GoType.big_int slot_id
        ∷ any GoType.big_int day_id
        ∷ any GoType.big_int snapshot_count
        ∷ [])

  abbrev pub set_sequencer_id : T → Address → Bytes → Result Bytes Tx
  set_sequencer_id opts data_market sequencer_id =
      bound.transact opts (codes "setSequencerId")
        (any GoType.address data_market ∷ any GoType.string sequencer_id ∷ [])

  abbrev pub update_allowed_project_type : T → Address → Bytes → Bool → Result Bytes Tx
  update_allowed_project_type opts data_market project_type status =
      bound.transact opts (codes "updateAllowedProjectType") (
        any GoType.address data_market
        ∷ any GoType.string project_type
        ∷ any GoType.bool status
        ∷ [])

  abbrev pub update_attestation_submission_window : T → Address → BigInt → Result Bytes Tx
  update_attestation_submission_window opts data_market newattestation_submission_window =
      bound.transact opts (codes "updateAttestationSubmissionWindow")
        (any GoType.address data_market ∷ any GoType.big_int newattestation_submission_window ∷ [])

  abbrev pub update_batch_submission_window : T → Address → BigInt → Result Bytes Tx
  update_batch_submission_window opts data_market newbatch_submission_window =
      bound.transact opts (codes "updateBatchSubmissionWindow")
        (any GoType.address data_market ∷ any GoType.big_int newbatch_submission_window ∷ [])

  abbrev pub update_daily_snapshot_quota : T → Address → BigInt → Result Bytes Tx
  update_daily_snapshot_quota opts data_market daily_snapshot_quota =
      bound.transact opts (codes "updateDailySnapshotQuota")
        (any GoType.address data_market ∷ any GoType.big_int daily_snapshot_quota ∷ [])

  abbrev pub update_min_attestations_for_consensus : T → Address → BigInt → Result Bytes Tx
  update_min_attestations_for_consensus opts data_market min_attestations_for_consensus =
      bound.transact opts (codes "updateMinAttestationsForConsensus")
        (any GoType.address data_market ∷ any GoType.big_int min_attestations_for_consensus ∷ [])

  abbrev pub update_min_snapshotters_for_consensus : T → Address → BigInt → Result Bytes Tx
  update_min_snapshotters_for_consensus opts data_market min_submissions_for_consensus =
      bound.transact opts (codes "updateMinSnapshottersForConsensus")
        (any GoType.address data_market ∷ any GoType.big_int min_submissions_for_consensus ∷ [])

  abbrev pub update_projects : T → Address → List Bytes → List Bool → Result Bytes Tx
  update_projects opts data_market projects status =
      bound.transact opts (codes "updateProjects") (
        any GoType.address data_market ∷ any GoType.strings projects ∷ any GoType.bools status ∷ [])

  abbrev pub update_reward_base_points : T → Address → BigInt → Result Bytes Tx
  update_reward_base_points opts data_market new_reward_base_points =
      bound.transact opts (codes "updateRewardBasePoints")
        (any GoType.address data_market ∷ any GoType.big_int new_reward_base_points ∷ [])

  abbrev pub update_rewards : T → Address → List BigInt → List BigInt → BigInt → Result Bytes Tx
  update_rewards opts data_market slot_ids submissions_list day =
      bound.transact opts (codes "updateRewards") (
        any GoType.address data_market
        ∷ any GoType.big_ints slot_ids
        ∷ any GoType.big_ints submissions_list
        ∷ any GoType.big_int day
        ∷ [])

  abbrev pub update_snapshot_submission_window : T → Address → BigInt → Result Bytes Tx
  update_snapshot_submission_window opts data_market newsnapshot_submission_window =
      bound.transact opts (codes "updateSnapshotSubmissionWindow")
        (any GoType.address data_market ∷ any GoType.big_int newsnapshot_submission_window ∷ [])
