-- ===== src/Contract/Transactors/Submitting.antt =====
-- pkgs/contract/contract.go: the methods of `ContractTransactor` on submissions and epochs.
use libp2p_submission_sequen.Prelude.{Bytes, codes, List, [], ◌∷◌, Result}
use libp2p_submission_sequen.Contract.Event.{Address}
use libp2p_submission_sequen.Contract.Values.{GoType, BigInt, DataMarketRequest, any}
use libp2p_submission_sequen.Contract.Bound.{BoundCalls}

module _ {C T Tx : Type 0} (bound : BoundCalls C T Tx) where
  abbrev pub end_batch_submissions : T → Address → BigInt → Result Bytes Tx
  end_batch_submissions opts data_market epoch_id =
      bound.transact opts (codes "endBatchSubmissions")
        (any GoType.address data_market ∷ any GoType.big_int epoch_id ∷ [])

  abbrev pub force_complete_consensus_attestations : T → Address → BigInt → BigInt → Result Bytes Tx
  force_complete_consensus_attestations opts data_market batch_id epoch_id =
      bound.transact opts (codes "forceCompleteConsensusAttestations") (
        any GoType.address data_market
        ∷ any GoType.big_int batch_id
        ∷ any GoType.big_int epoch_id
        ∷ [])

  abbrev pub force_skip_epoch : T → Address → BigInt → BigInt → Result Bytes Tx
  force_skip_epoch opts data_market begin_block end_block =
      bound.transact opts (codes "forceSkipEpoch") (
        any GoType.address data_market
        ∷ any GoType.big_int begin_block
        ∷ any GoType.big_int end_block
        ∷ [])

  abbrev pub release_epoch : T → Address → BigInt → BigInt → Result Bytes Tx
  release_epoch opts data_market begin_block end_block =
      bound.transact opts (codes "releaseEpoch") (
        any GoType.address data_market
        ∷ any GoType.big_int begin_block
        ∷ any GoType.big_int end_block
        ∷ [])

  abbrev pub submit_batch_attestation : T → Address → BigInt → BigInt → Bytes → Result Bytes Tx
  submit_batch_attestation opts data_market batch_id epoch_id finalized_cids_root_hash =
      bound.transact opts (codes "submitBatchAttestation") (
        any GoType.address data_market
        ∷ any GoType.big_int batch_id
        ∷ any GoType.big_int epoch_id
        ∷ any GoType.bytes32 finalized_cids_root_hash
        ∷ [])

  abbrev pub submit_snapshot :
      T → Address → BigInt → Bytes → BigInt → Bytes → DataMarketRequest → Bytes → Result Bytes Tx
  submit_snapshot opts data_market slot_id snapshot_cid epoch_id project_id data_request signature =
      bound.transact opts (codes "submitSnapshot") (
        any GoType.address data_market
        ∷ any GoType.big_int slot_id
        ∷ any GoType.string snapshot_cid
        ∷ any GoType.big_int epoch_id
        ∷ any GoType.string project_id
        ∷ any GoType.request data_request
        ∷ any GoType.bytes signature
        ∷ [])

  abbrev pub submit_submission_batch :
      T → Address → Bytes → BigInt → BigInt → List Bytes → List Bytes → Bytes → Result Bytes Tx
  submit_submission_batch opts data_market batch_cid batch_id epoch_id project_ids snapshot_cids
        finalized_cids_root_hash =
      bound.transact opts (codes "submitSubmissionBatch") (
        any GoType.address data_market
        ∷ any GoType.string batch_cid
        ∷ any GoType.big_int batch_id
        ∷ any GoType.big_int epoch_id
        ∷ any GoType.strings project_ids
        ∷ any GoType.strings snapshot_cids
        ∷ any GoType.bytes32 finalized_cids_root_hash
        ∷ [])
