-- ===== src/Contract/Sessions/Submitting.antt =====
-- pkgs/contract/contract.go: the methods of `ContractSession` on submissions and epochs.
use libp2p_submission_sequen.Prelude.{Bytes, List, Result}
use libp2p_submission_sequen.Contract.Event.{Address}
use libp2p_submission_sequen.Contract.Values.{BigInt, DataMarketRequest}
use libp2p_submission_sequen.Contract.Sessions.Session.{ContractSession}
use libp2p_submission_sequen.Contract.Transactors.Submitting

module _ {C T Tx : Type 0} (session : ContractSession C T Tx) where
  abbrev pub end_batch_submissions : Address → BigInt → Result Bytes Tx
  end_batch_submissions data_market epoch_id =
      Submitting.end_batch_submissions session.contract.contract_transactor.contract
        session.transact_opts data_market epoch_id

  abbrev pub force_complete_consensus_attestations : Address → BigInt → BigInt → Result Bytes Tx
  force_complete_consensus_attestations data_market batch_id epoch_id =
      Submitting.force_complete_consensus_attestations session.contract.contract_transactor.contract
        session.transact_opts data_market batch_id epoch_id

  abbrev pub force_skip_epoch : Address → BigInt → BigInt → Result Bytes Tx
  force_skip_epoch data_market begin_block end_block =
      Submitting.force_skip_epoch session.contract.contract_transactor.contract
        session.transact_opts data_market begin_block end_block

  abbrev pub release_epoch : Address → BigInt → BigInt → Result Bytes Tx
  release_epoch data_market begin_block end_block =
      Submitting.release_epoch session.contract.contract_transactor.contract session.transact_opts
        data_market begin_block end_block

  abbrev pub submit_batch_attestation : Address → BigInt → BigInt → Bytes → Result Bytes Tx
  submit_batch_attestation data_market batch_id epoch_id finalized_cids_root_hash =
      Submitting.submit_batch_attestation session.contract.contract_transactor.contract
        session.transact_opts data_market batch_id epoch_id finalized_cids_root_hash

  abbrev pub submit_snapshot :
      Address → BigInt → Bytes → BigInt → Bytes → DataMarketRequest → Bytes → Result Bytes Tx
  submit_snapshot data_market slot_id snapshot_cid epoch_id project_id data_request signature =
      Submitting.submit_snapshot session.contract.contract_transactor.contract session.transact_opts
        data_market slot_id snapshot_cid epoch_id project_id data_request signature

  abbrev pub submit_submission_batch :
      Address → Bytes → BigInt → BigInt → List Bytes → List Bytes → Bytes → Result Bytes Tx
  submit_submission_batch data_market batch_cid batch_id epoch_id project_ids snapshot_cids
        finalized_cids_root_hash =
      Submitting.submit_submission_batch session.contract.contract_transactor.contract
        session.transact_opts data_market batch_cid batch_id epoch_id project_ids snapshot_cids
        finalized_cids_root_hash
