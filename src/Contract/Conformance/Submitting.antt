-- ===== src/Contract/Conformance/Submitting.antt =====
-- What the transactions on submissions and epochs promise.
use libp2p_submission_sequen.Prelude.{Bytes, codes, List, [], ◌∷◌, refl}
use libp2p_submission_sequen.Contract.Event.{Address}
use libp2p_submission_sequen.Contract.Values.{GoType, any, BigInt, DataMarketRequest}
use libp2p_submission_sequen.Contract.Serving.{Sent}
use libp2p_submission_sequen.Contract.Bound.{BoundCalls}
use libp2p_submission_sequen.Contract.Sessions.Session.{ContractSession}
use libp2p_submission_sequen.Contract.Sessions.Submitting

pub record SendsSubmitting {C T Tx : Type 0} (bound : BoundCalls C T Tx)
    (session : ContractSession C T Tx) : Type 0 where
  pub end_batch_submissions :
      (data_market : Address) (epoch_id : BigInt)
      → Sent bound session.transact_opts
          (codes "endBatchSubmissions")
          (any GoType.address data_market ∷ any GoType.big_int epoch_id ∷ [])
          (Submitting.end_batch_submissions session data_market epoch_id)
  pub force_complete_consensus_attestations :
      (data_market : Address) (batch_id : BigInt) (epoch_id : BigInt)
      → Sent bound session.transact_opts
          (codes "forceCompleteConsensusAttestations")
          (any GoType.address data_market
            ∷ any GoType.big_int batch_id
            ∷ any GoType.big_int epoch_id
            ∷ [])
          (Submitting.force_complete_consensus_attestations session data_market batch_id epoch_id)
  pub force_skip_epoch :
      (data_market : Address) (begin_block : BigInt) (end_block : BigInt)
      → Sent bound session.transact_opts
          (codes "forceSkipEpoch")
          (any GoType.address data_market
            ∷ any GoType.big_int begin_block
            ∷ any GoType.big_int end_block
            ∷ [])
          (Submitting.force_skip_epoch session data_market begin_block end_block)
  pub release_epoch :
      (data_market : Address) (begin_block : BigInt) (end_block : BigInt)
      → Sent bound session.transact_opts
          (codes "releaseEpoch")
          (any GoType.address data_market
            ∷ any GoType.big_int begin_block
            ∷ any GoType.big_int end_block
            ∷ [])
          (Submitting.release_epoch session data_market begin_block end_block)
  pub submit_batch_attestation :
      (data_market : Address) (batch_id : BigInt) (epoch_id : BigInt)
      (finalized_cids_root_hash : Bytes)
      → Sent bound session.transact_opts
          (codes "submitBatchAttestation")
          (any GoType.address data_market
            ∷ any GoType.big_int batch_id
            ∷ any GoType.big_int epoch_id
            ∷ any GoType.bytes32 finalized_cids_root_hash
            ∷ [])
          (Submitting.submit_batch_attestation session data_market batch_id epoch_id
            finalized_cids_root_hash)
  pub submit_snapshot :
      (data_market : Address) (slot_id : BigInt) (snapshot_cid : Bytes) (epoch_id : BigInt)
      (project_id : Bytes) (data_request : DataMarketRequest) (signature : Bytes)
      → Sent bound session.transact_opts
          (codes "submitSnapshot")
          (any GoType.address data_market
            ∷ any GoType.big_int slot_id
            ∷ any GoType.string snapshot_cid
            ∷ any GoType.big_int epoch_id
            ∷ any GoType.string project_id
            ∷ any GoType.request data_request
            ∷ any GoType.bytes signature
            ∷ [])
          (Submitting.submit_snapshot session data_market slot_id snapshot_cid epoch_id project_id
            data_request signature)
  pub submit_submission_batch :
      (data_market : Address) (batch_cid : Bytes) (batch_id : BigInt) (epoch_id : BigInt)
      (project_ids : List Bytes) (snapshot_cids : List Bytes) (finalized_cids_root_hash : Bytes)
      → Sent bound session.transact_opts
          (codes "submitSubmissionBatch")
          (any GoType.address data_market
            ∷ any GoType.string batch_cid
            ∷ any GoType.big_int batch_id
            ∷ any GoType.big_int epoch_id
            ∷ any GoType.strings project_ids
            ∷ any GoType.strings snapshot_cids
            ∷ any GoType.bytes32 finalized_cids_root_hash
            ∷ [])
          (Submitting.submit_submission_batch session data_market batch_cid batch_id epoch_id
            project_ids snapshot_cids finalized_cids_root_hash)

pub Session-SendsSubmitting :
    {C T Tx : Type 0} (session : ContractSession C T Tx)
    → SendsSubmitting session.contract.contract_transactor.contract session
Session-SendsSubmitting session = record {
  end_batch_submissions = λ data_market epoch_id. (_, refl, refl, refl, refl);
  force_complete_consensus_attestations =
      λ data_market batch_id epoch_id. (_, refl, refl, refl, refl);
  force_skip_epoch = λ data_market begin_block end_block. (_, refl, refl, refl, refl);
  release_epoch = λ data_market begin_block end_block. (_, refl, refl, refl, refl);
  submit_batch_attestation =
      λ data_market batch_id epoch_id finalized_cids_root_hash. (_, refl, refl, refl, refl);
  submit_snapshot = λ data_market slot_id snapshot_cid epoch_id project_id data_request signature.
      (_, refl, refl, refl, refl);
  submit_submission_batch =
      λ data_market batch_cid batch_id epoch_id project_ids snapshot_cids finalized_cids_root_hash.
        (_, refl, refl, refl, refl);
}
