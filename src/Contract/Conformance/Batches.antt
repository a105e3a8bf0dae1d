-- ===== src/Contract/Conformance/Batches.antt =====
-- What the reads on batches and their attestations promise.
use libp2p_submission_sequen.Prelude.{Bytes, codes, [], ◌∷◌, some, refl}
use libp2p_submission_sequen.Golang.Decimal.{ℤ}
use libp2p_submission_sequen.Contract.Event.{Address}
use libp2p_submission_sequen.Contract.Values.{GoType, any}
use libp2p_submission_sequen.Contract.Serving.{CallSpec, OneOutput, Calls, call_one_lem}
use libp2p_submission_sequen.Contract.Sessions.Session.{ContractSession}
use libp2p_submission_sequen.Contract.Sessions.Batches

pub record ReadsBatches {C T Tx : Type 0} (P : CallSpec C) (session : ContractSession C T Tx)
    : Type 0 where
  pub attestation_submission_window :
      (data_market : Address)
      → OneOutput P GoType.big_int session.call_opts
          (codes "attestationSubmissionWindow")
          (any GoType.address data_market ∷ [])
          (Batches.attestation_submission_window session data_market)
  pub attestations_received :
      (data_market : Address) (batch_id : ℤ) (validator : Address)
      → OneOutput P GoType.bool session.call_opts
          (codes "attestationsReceived")
          (any GoType.address data_market
            ∷ any GoType.big_int (some batch_id)
            ∷ any GoType.address validator
            ∷ [])
          (Batches.attestations_received session data_market (some batch_id) validator)
  pub attestations_received_count :
      (data_market : Address) (batch_id : ℤ) (finalized_cids_root_hash : Bytes)
      → OneOutput P GoType.big_int session.call_opts
          (codes "attestationsReceivedCount")
          (any GoType.address data_market
            ∷ any GoType.big_int (some batch_id)
            ∷ any GoType.bytes32 finalized_cids_root_hash
            ∷ [])
          (Batches.attestations_received_count session data_market
            (some batch_id)
            finalized_cids_root_hash)
  pub batch_id_attestation_status :
      (data_market : Address) (batch_id : ℤ)
      → OneOutput P GoType.bool session.call_opts
          (codes "batchIdAttestationStatus")
          (any GoType.address data_market ∷ any GoType.big_int (some batch_id) ∷ [])
          (Batches.batch_id_attestation_status session data_market (some batch_id))
  pub batch_id_divergent_validators :
      (data_market : Address) (batch_id : ℤ) (idx : ℤ)
      → OneOutput P GoType.address session.call_opts
          (codes "batchIdDivergentValidators")
          (any GoType.address data_market
            ∷ any GoType.big_int (some batch_id)
            ∷ any GoType.big_int (some idx)
            ∷ [])
          (Batches.batch_id_divergent_validators session data_market (some batch_id) (some idx))
  pub batch_id_sequencer_attestation :
      (data_market : Address) (batch_id : ℤ)
      → OneOutput P GoType.bytes32 session.call_opts
          (codes "batchIdSequencerAttestation")
          (any GoType.address data_market ∷ any GoType.big_int (some batch_id) ∷ [])
          (Batches.batch_id_sequencer_attestation session data_market (some batch_id))
  pub batch_id_to_projects :
      (data_market : Address) (batch_id : ℤ)
      → OneOutput P GoType.strings session.call_opts
          (codes "batchIdToProjects")
          (any GoType.address data_market ∷ any GoType.big_int (some batch_id) ∷ [])
          (Batches.batch_id_to_projects session data_market (some batch_id))
  pub batch_submission_window :
      (data_market : Address)
      → OneOutput P GoType.big_int session.call_opts
          (codes "batchSubmissionWindow")
          (any GoType.address data_market ∷ [])
          (Batches.batch_submission_window session data_market)
  pub check_dynamic_consensus_attestations :
      (data_market : Address) (batch_id : ℤ) (epoch_id : ℤ)
      → OneOutput P GoType.bool session.call_opts
          (codes "checkDynamicConsensusAttestations")
          (any GoType.address data_market
            ∷ any GoType.big_int (some batch_id)
            ∷ any GoType.big_int (some epoch_id)
            ∷ [])
          (Batches.check_dynamic_consensus_attestations session data_market
            (some batch_id)
            (some epoch_id))
  pub current_batch_id :
      (data_market : Address)
      → OneOutput P GoType.big_int session.call_opts
          (codes "currentBatchId")
          (any GoType.address data_market ∷ [])
          (Batches.current_batch_id session data_market)
  pub epoch_id_to_batch_ids :
      (data_market : Address) (epoch_id : ℤ)
      → OneOutput P GoType.big_ints session.call_opts
          (codes "epochIdToBatchIds")
          (any GoType.address data_market ∷ any GoType.big_int (some epoch_id) ∷ [])
          (Batches.epoch_id_to_batch_ids session data_market (some epoch_id))
  pub max_attestation_finalized_root_hash :
      (data_market : Address) (batch_id : ℤ)
      → OneOutput P GoType.bytes32 session.call_opts
          (codes "maxAttestationFinalizedRootHash")
          (any GoType.address data_market ∷ any GoType.big_int (some batch_id) ∷ [])
          (Batches.max_attestation_finalized_root_hash session data_market (some batch_id))
  pub max_attestations_count :
      (data_market : Address) (batch_id : ℤ)
      → OneOutput P GoType.big_int session.call_opts
          (codes "maxAttestationsCount")
          (any GoType.address data_market ∷ any GoType.big_int (some batch_id) ∷ [])
          (Batches.max_attestations_count session data_market (some batch_id))
  pub min_attestations_for_consensus :
      (data_market : Address)
      → OneOutput P GoType.big_int session.call_opts
          (codes "minAttestationsForConsensus")
          (any GoType.address data_market ∷ [])
          (Batches.min_attestations_for_consensus session data_market)

pub Session-ReadsBatches :
    {C T Tx : Type 0} {P : CallSpec C} (session : ContractSession C T Tx)
    → Calls P session.contract.contract_caller.contract
    → ReadsBatches P session
Session-ReadsBatches session law = record {
  attestation_submission_window =
      λ data_market. call_one_lem law GoType.big_int _ _ _ _ refl refl refl refl refl;
  attestations_received = λ data_market batch_id validator.
      call_one_lem law GoType.bool _ _ _ _ refl refl refl refl refl;
  attestations_received_count = λ data_market batch_id finalized_cids_root_hash.
      call_one_lem law GoType.big_int _ _ _ _ refl refl refl refl refl;
  batch_id_attestation_status =
      λ data_market batch_id. call_one_lem law GoType.bool _ _ _ _ refl refl refl refl refl;
  batch_id_divergent_validators =
      λ data_market batch_id idx. call_one_lem law GoType.address _ _ _ _ refl refl refl refl refl;
  batch_id_sequencer_attestation =
      λ data_market batch_id. call_one_lem law GoType.bytes32 _ _ _ _ refl refl refl refl refl;
  batch_id_to_projects =
      λ data_market batch_id. call_one_lem law GoType.strings _ _ _ _ refl refl refl refl refl;
  batch_submission_window =
      λ data_market. call_one_lem law GoType.big_int _ _ _ _ refl refl refl refl refl;
  check_dynamic_consensus_attestations = λ data_market batch_id epoch_id.
      call_one_lem law GoType.bool _ _ _ _ refl refl refl refl refl;
  current_batch_id =
      λ data_market. call_one_lem law GoType.big_int _ _ _ _ refl refl refl refl refl;
  epoch_id_to_batch_ids =
      λ data_market epoch_id. call_one_lem law GoType.big_ints _ _ _ _ refl refl refl refl refl;
  max_attestation_finalized_root_hash =
      λ data_market batch_id. call_one_lem law GoType.bytes32 _ _ _ _ refl refl refl refl refl;
  max_attestations_count =
      λ data_market batch_id. call_one_lem law GoType.big_int _ _ _ _ refl refl refl refl refl;
  min_attestations_for_consensus =
      λ data_market. call_one_lem law GoType.big_int _ _ _ _ refl refl refl refl refl;
}
