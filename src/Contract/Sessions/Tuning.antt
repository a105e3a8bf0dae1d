-- ===== src/Contract/Sessions/Tuning.antt =====
-- pkgs/contract/contract.go: the methods of `ContractSession` on the settings of a data market.
use libp2p_submission_sequen.Prelude.{Bytes, Bool, List, Result}
use libp2p_submission_sequen.Contract.Event.{Address}
use libp2p_submission_sequen.Contract.Values.{BigInt}
use libp2p_submission_sequen.Contract.Sessions.Session.{ContractSession}
use libp2p_submission_sequen.Contract.Transactors.Tuning

module _ {C T Tx : Type 0} (session : ContractSession C T Tx) where
  abbrev pub assign_snapshotter_to_slot_bulk : List BigInt → List Address → Result Bytes Tx
  assign_snapshotter_to_slot_bulk slot_ids snapshotter_addresses =
      Tuning.assign_snapshotter_to_slot_bulk session.contract.contract_transactor.contract
        session.transact_opts slot_ids snapshotter_addresses

  abbrev pub load_current_day : Address → BigInt → Result Bytes Tx
  load_current_day data_market day_counter =
      Tuning.load_current_day session.contract.contract_transactor.contract session.transact_opts
        data_market day_counter

  abbrev pub load_slot_submissions : Address → BigInt → BigInt → BigInt → Result Bytes Tx
  load_slot_submissions data_market slot_id day_id snapshot_count =
      Tuning.load_slot_submissions session.contract.contract_transactor.contract
        session.transact_opts data_market slot_id day_id snapshot_count

  abbrev pub set_sequencer_id : Address → Bytes → Result Bytes Tx
  set_sequencer_id data_market sequencer_id =
      Tuning.set_sequencer_id session.contract.contract_transactor.contract session.transact_opts
        data_market sequencer_id

  abbrev pub update_allowed_project_type : Address → Bytes → Bool → Result Bytes Tx
  update_allowed_project_type data_market project_type status =
      Tuning.update_allowed_project_type session.contract.contract_transactor.contract
        session.transact_opts data_market project_type status

  abbrev pub update_attestation_submission_window : Address → BigInt → Result Bytes Tx
  update_attestation_submission_window data_market newattestation_submission_window =
      Tuning.update_attestation_submission_window session.contract.contract_transactor.contract
        session.transact_opts data_market newattestation_submission_window

  abbrev pub update_batch_submission_window : Address → BigInt → Result Bytes Tx
  update_batch_submission_window data_market newbatch_submission_window =
      Tuning.update_batch_submission_window session.contract.contract_transactor.contract
        session.transact_opts data_market newbatch_submission_window

  abbrev pub update_daily_snapshot_quota : Address → BigInt → Result Bytes Tx
  update_daily_snapshot_quota data_market daily_snapshot_quota =
      Tuning.update_daily_snapshot_quota session.contract.contract_transactor.contract
        session.transact_opts data_market daily_snapshot_quota

  abbrev pub update_min_attestations_for_consensus : Address → BigInt → Result Bytes Tx
  update_min_attestations_for_consensus data_market min_attestations_for_consensus =
      Tuning.update_min_attestations_for_consensus session.contract.contract_transactor.contract
        session.transact_opts data_market min_attestations_for_consensus

  abbrev pub update_min_snapshotters_for_consensus : Address → BigInt → Result Bytes Tx
  update_min_snapshotters_for_consensus data_market min_submissions_for_consensus =
      Tuning.update_min_snapshotters_for_consensus session.contract.contract_transactor.contract
        session.transact_opts data_market min_submissions_for_consensus

  abbrev pub update_projects : Address → List Bytes → List Bool → Result Bytes Tx
  update_projects data_market projects status =
      Tuning.update_projects session.contract.contract_transactor.contract session.transact_opts
        data_market projects status

  abbrev pub update_reward_base_points : Address → BigInt → Result Bytes Tx
  update_reward_base_points data_market new_reward_base_points =
      Tuning.update_reward_base_points session.contract.contract_transactor.contract
        session.transact_opts data_market new_reward_base_points

  abbrev pub update_rewards : Address → List BigInt → List BigInt → BigInt → Result Bytes Tx
  update_rewards data_market slot_ids submissions_list day =
      Tuning.update_rewards session.contract.contract_transactor.contract session.transact_opts
        data_market slot_ids submissions_list day

  abbrev pub update_snapshot_submission_window : Address → BigInt → Result Bytes Tx
  update_snapshot_submission_window data_market newsnapshot_submission_window =
      Tuning.update_snapshot_submission_window session.contract.contract_transactor.contract
        session.transact_opts data_market newsnapshot_submission_window
