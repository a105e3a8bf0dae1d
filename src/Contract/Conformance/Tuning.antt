-- ===== src/Contract/Conformance/Tuning.antt =====
-- What the transactions on the settings of a data market promise.
use libp2p_submission_sequen.Prelude.{Bytes, codes, Bool, List, [], ◌∷◌, refl}
use libp2p_submission_sequen.Contract.Event.{Address}
use libp2p_submission_sequen.Contract.Values.{GoType, any, BigInt}
use libp2p_submission_sequen.Contract.Serving.{Sent}
use libp2p_submission_sequen.Contract.Bound.{BoundCalls}
use libp2p_submission_sequen.Contract.Sessions.Session.{ContractSession}
use libp2p_submission_sequen.Contract.Sessions.Tuning

pub record SendsTuning {C T Tx : Type 0} (bound : BoundCalls C T Tx)
    (session : ContractSession C T Tx) : Type 0 where
  pub assign_snapshotter_to_slot_bulk :
      (slot_ids : List BigInt) (snapshotter_addresses : List Address)
      → Sent bound session.transact_opts
          (codes "assignSnapshotterToSlotBulk")
          (any GoType.big_ints slot_ids ∷ any GoType.addresses snapshotter_addresses ∷ [])
          (Tuning.assign_snapshotter_to_slot_bulk session slot_ids snapshotter_addresses)
  pub load_current_day :
      (data_market : Address) (day_counter : BigInt)
      → Sent bound session.transact_opts
          (codes "loadCurrentDay")
          (any GoType.address data_market ∷ any GoType.big_int day_counter ∷ [])
          (Tuning.load_current_day session data_market day_counter)
  pub load_slot_submissions :
      (data_market : Address) (slot_id : BigInt) (day_id : BigInt) (snapshot_count : BigInt)
      → Sent bound session.transact_opts
          (codes "loadSlotSubmissions")
          (any GoType.address data_market
            ∷ any GoType.big_int slot_id
            ∷ any GoType.big_int day_id
            ∷ any GoType.big_int snapshot_count
            ∷ [])
          (Tuning.load_slot_submissions session data_market slot_id day_id snapshot_count)
  pub set_sequencer_id :
      (data_market : Address) (sequencer_id : Bytes)
      → Sent bound session.transact_opts
          (codes "setSequencerId")
          (any GoType.address data_market ∷ any GoType.string sequencer_id ∷ [])
          (Tuning.set_sequencer_id session data_market sequencer_id)
  pub update_allowed_project_type :
      (data_market : Address) (project_type : Bytes) (status : Bool)
      → Sent bound session.transact_opts
          (codes "updateAllowedProjectType")
          (any GoType.address data_market
            ∷ any GoType.string project_type
            ∷ any GoType.bool status
            ∷ [])
          (Tuning.update_allowed_project_type session data_market project_type status)
  pub update_attestation_submission_window :
      (data_market : Address) (newattestation_submission_window : BigInt)
      → Sent bound session.transact_opts
          (codes "updateAttestationSubmissionWindow")
          (any GoType.address data_market
            ∷ any GoType.big_int newattestation_submission_window
            ∷ [])
          (Tuning.update_attestation_submission_window session data_market
            newattestation_submission_window)
  pub update_batch_submission_window :
      (data_market : Address) (newbatch_submission_window : BigInt)
      → Sent bound session.transact_opts
          (codes "updateBatchSubmissionWindow")
          (any GoType.address data_market ∷ any GoType.big_int newbatch_submission_window ∷ [])
          (Tuning.update_batch_submission_window session data_market newbatch_submission_window)
  pub update_daily_snapshot_quota :
      (data_market : Address) (daily_snapshot_quota : BigInt)
      → Sent bound session.transact_opts
          (codes "updateDailySnapshotQuota")
          (any GoType.address data_market ∷ any GoType.big_int daily_snapshot_quota ∷ [])
          (Tuning.update_daily_snapshot_quota session data_market daily_snapshot_quota)
  pub update_min_attestations_for_consensus :
      (data_market : Address) (min_attestations_for_consensus : BigInt)
      → Sent bound session.transact_opts
          (codes "updateMinAttestationsForConsensus")
          (any GoType.address data_market ∷ any GoType.big_int min_attestations_for_consensus ∷ [])
          (Tuning.update_min_attestations_for_consensus session data_market
            min_attestations_for_consensus)
  pub update_min_snapshotters_for_consensus :
      (data_market : Address) (min_submissions_for_consensus : BigInt)
      → Sent bound session.transact_opts
          (codes "updateMinSnapshottersForConsensus")
          (any GoType.address data_market ∷ any GoType.big_int min_submissions_for_consensus ∷ [])
          (Tuning.update_min_snapshotters_for_consensus session data_market
            min_submissions_for_consensus)
  pub update_projects :
      (data_market : Address) (projects : List Bytes) (status : List Bool)
      → Sent bound session.transact_opts
          (codes "updateProjects")
          (any GoType.address data_market
            ∷ any GoType.strings projects
            ∷ any GoType.bools status
            ∷ [])
          (Tuning.update_projects session data_market projects status)
  pub update_reward_base_points :
      (data_market : Address) (new_reward_base_points : BigInt)
      → Sent bound session.transact_opts
          (codes "updateRewardBasePoints")
          (any GoType.address data_market ∷ any GoType.big_int new_reward_base_points ∷ [])
          (Tuning.update_reward_base_points session data_market new_reward_base_points)
  pub update_rewards :
      (data_market : Address) (slot_ids : List BigInt) (submissions_list : List BigInt)
      (day : BigInt)
      → Sent bound session.transact_opts
          (codes "updateRewards")
          (any GoType.address data_market
            ∷ any GoType.big_ints slot_ids
            ∷ any GoType.big_ints submissions_list
            ∷ any GoType.big_int day
            ∷ [])
          (Tuning.update_rewards session data_market slot_ids submissions_list day)
  pub update_snapshot_submission_window :
      (data_market : Address) (newsnapshot_submission_window : BigInt)
      → Sent bound session.transact_opts
          (codes "updateSnapshotSubmissionWindow")
          (any GoType.address data_market ∷ any GoType.big_int newsnapshot_submission_window ∷ [])
          (Tuning.update_snapshot_submission_window session data_market
            newsnapshot_submission_window)

pub Session-SendsTuning :
    {C T Tx : Type 0} (session : ContractSession C T Tx)
    → SendsTuning session.contract.contract_transactor.contract session
Session-SendsTuning session = record {
  assign_snapshotter_to_slot_bulk = λ slot_ids snapshotter_addresses. (_, refl, refl, refl, refl);
  load_current_day = λ data_market day_counter. (_, refl, refl, refl, refl);
  load_slot_submissions = λ data_market slot_id day_id snapshot_count. (_, refl, refl, refl, refl);
  set_sequencer_id = λ data_market sequencer_id. (_, refl, refl, refl, refl);
  update_allowed_project_type = λ data_market project_type status. (_, refl, refl, refl, refl);
  update_attestation_submission_window =
      λ data_market newattestation_submission_window. (_, refl, refl, refl, refl);
  update_batch_submission_window =
      λ data_market newbatch_submission_window. (_, refl, refl, refl, refl);
  update_daily_snapshot_quota = λ data_market daily_snapshot_quota. (_, refl, refl, refl, refl);
  update_min_attestations_for_consensus =
      λ data_market min_attestations_for_consensus. (_, refl, refl, refl, refl);
  update_min_snapshotters_for_consensus =
      λ data_market min_submissions_for_consensus. (_, refl, refl, refl, refl);
  update_projects = λ data_market projects status. (_, refl, refl, refl, refl);
  update_reward_base_points = λ data_market new_reward_base_points. (_, refl, refl, refl, refl);
  update_rewards = λ data_market slot_ids submissions_list day. (_, refl, refl, refl, refl);
  update_snapshot_submission_window =
      λ data_market newsnapshot_submission_window. (_, refl, refl, refl, refl);
}
