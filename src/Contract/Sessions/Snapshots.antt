-- ===== src/Contract/Sessions/Snapshots.antt =====
-- pkgs/contract/contract.go: the methods of `ContractSession` on snapshots.
use libp2p_submission_sequen.Prelude.{Bytes}
use libp2p_submission_sequen.Contract.Event.{Address}
use libp2p_submission_sequen.Contract.Values.{GoType, Meaning, BigInt}
use libp2p_submission_sequen.Contract.Bound.{Returned}
use libp2p_submission_sequen.Contract.Outputs.{SnapshotState}
use libp2p_submission_sequen.Contract.Sessions.Session.{ContractSession}
use libp2p_submission_sequen.Contract.Callers.Snapshots

module _ {C T Tx : Type 0} (session : ContractSession C T Tx) where
  abbrev pub allowed_project_types : Address → Bytes → Returned (Meaning GoType.bool)
  allowed_project_types data_market project_type =
      Snapshots.allowed_project_types session.contract.contract_caller.contract session.call_opts
        data_market project_type

  abbrev pub daily_snapshot_quota : Address → Returned (Meaning GoType.big_int)
  daily_snapshot_quota data_market =
      Snapshots.daily_snapshot_quota session.contract.contract_caller.contract session.call_opts
        data_market

  abbrev pub last_finalized_snapshot : Address → Bytes → Returned (Meaning GoType.big_int)
  last_finalized_snapshot data_market project_id =
      Snapshots.last_finalized_snapshot session.contract.contract_caller.contract session.call_opts
        data_market project_id

  abbrev pub max_snapshots_cid : Address → Bytes → BigInt → Returned (Meaning GoType.string)
  max_snapshots_cid data_market project_id epoch_id =
      Snapshots.max_snapshots_cid session.contract.contract_caller.contract session.call_opts
        data_market project_id epoch_id

  abbrev pub min_submissions_for_consensus : Address → Returned (Meaning GoType.big_int)
  min_submissions_for_consensus data_market =
      Snapshots.min_submissions_for_consensus session.contract.contract_caller.contract
        session.call_opts data_market

  abbrev pub project_first_epoch_id : Address → Bytes → Returned (Meaning GoType.big_int)
  project_first_epoch_id data_market project_id =
      Snapshots.project_first_epoch_id session.contract.contract_caller.contract session.call_opts
        data_market project_id

  abbrev pub snapshot_status : Address → Bytes → BigInt → Returned SnapshotState
  snapshot_status data_market project_id epoch_id =
      Snapshots.snapshot_status session.contract.contract_caller.contract session.call_opts
        data_market project_id epoch_id

  abbrev pub snapshot_submission_window : Address → Returned (Meaning GoType.big_int)
  snapshot_submission_window data_market =
      Snapshots.snapshot_submission_window session.contract.contract_caller.contract
        session.call_opts data_market
