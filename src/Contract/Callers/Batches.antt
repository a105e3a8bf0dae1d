-- ===== src/Contract/Callers/Batches.antt =====
-- pkgs/contract/contract.go: the methods of `ContractCaller` on batches and their attestations.
use libp2p_submission_sequen.Prelude.{Bytes, codes, [], ◌∷◌}
use libp2p_submission_sequen.Contract.Event.{Address}
use libp2p_submission_sequen.Contract.Values.{GoType, Meaning, BigInt, any}
use libp2p_submission_sequen.Contract.Bound.{BoundCalls, Returned, call_one}

module _ {C T Tx : Type 0} (bound : BoundCalls C T Tx) where
  abbrev pub attestation_submission_window : C → Address → Returned (Meaning GoType.big_int)
  attestation_submission_window opts data_market =
      call_one bound GoType.big_int opts (codes "attestationSubmissionWindow")
        (any GoType.address data_market ∷ [])

  abbrev pub attestations_received : C → Address → BigInt → Address → Returned (Meaning GoType.bool)
  attestations_received opts data_market batch_id validator =
      call_one bound GoType.bool opts (codes "attestationsReceived") (
        any GoType.address data_market
        ∷ any GoType.big_int batch_id
        ∷ any GoType.address validator
        ∷ [])

  abbrev pub attestations_received_count :
      C → Address → BigInt → Bytes → Returned (Meaning GoType.big_int)
  attestations_received_count opts data_market batch_id finalized_cids_root_hash =
      call_one bound GoType.big_int opts (codes "attestationsReceivedCount") (
        any GoType.address data_market
        ∷ any GoType.big_int batch_id
        ∷ any GoType.bytes32 finalized_cids_root_hash
        ∷ [])

  abbrev pub batch_id_attestation_status : C → Address → BigInt → Returned (Meaning GoType.bool)
  batch_id_attestation_status opts data_market batch_id =
      call_one bound GoType.bool opts (codes "batchIdAttestationStatus")
        (any GoType.address data_market ∷ any GoType.big_int batch_id ∷ [])

  abbrev pub batch_id_divergent_validators :
      C → Address → BigInt → BigInt → Returned (Meaning GoType.address)
  batch_id_divergent_validators opts data_market batch_id idx =
      call_one bound GoType.address opts (codes "batchIdDivergentValidators")
        (any GoType.address data_market ∷ any GoType.big_int batch_id ∷ any GoType.big_int idx ∷ [])

  abbrev pub batch_id_sequencer_attestation :
      C → Address → BigInt → Returned (Meaning GoType.bytes32)
  batch_id_sequencer_attestation opts data_market batch_id =
      call_one bound GoType.bytes32 opts (codes "batchIdSequencerAttestation")
        (any GoType.address data_market ∷ any GoType.big_int batch_id ∷ [])

  abbrev pub batch_id_to_projects : C → Address → BigInt → Returned (Meaning GoType.strings)
  batch_id_to_projects opts data_market batch_id =
      call_one bound GoType.strings opts (codes "batchIdToProjects")
        (any GoType.address data_market ∷ any GoType.big_int batch_id ∷ [])

  abbrev pub batch_submission_window : C → Address → Returned (Meaning GoType.big_int)
  batch_submission_window opts data_market =
      call_one bound GoType.big_int opts (codes "batchSubmissionWindow")
        (any GoType.address data_market ∷ [])

  abbrev pub check_dynamic_consensus_attestations :
      C → Address → BigInt → BigInt → Returned (Meaning GoType.bool)
  check_dynamic_consensus_attestations opts data_market batch_id epoch_id =
      call_one bound GoType.bool opts (codes "checkDynamicConsensusAttestations") (
        any GoType.address data_market
        ∷ any GoType.big_int batch_id
        ∷ any GoType.big_int epoch_id
        ∷ [])

  abbrev pub current_batch_id : C → Address → Returned (Meaning GoType.big_int)
  current_batch_id opts data_market =
      call_one bound GoType.big_int opts (codes "currentBatchId")
        (any GoType.address data_market ∷ [])

  abbrev pub epoch_id_to_batch_ids : C → Address → BigInt → Returned (Meaning GoType.big_ints)
  epoch_id_to_batch_ids opts data_market epoch_id =
      call_one bound GoType.big_ints opts (codes "epochIdToBatchIds")
        (any GoType.address data_market ∷ any GoType.big_int epoch_id ∷ [])

  abbrev pub max_attestation_finalized_root_hash :
      C → Address → BigInt → Returned (Meaning GoType.bytes32)
  max_attestation_finalized_root_hash opts data_market batch_id =
      call_one bound GoType.bytes32 opts (codes "maxAttestationFinalizedRootHash")
        (any GoType.address data_market ∷ any GoType.big_int batch_id ∷ [])

  abbrev pub max_attestations_count : C → Address → BigInt → Returned (Meaning GoType.big_int)
  max_attestations_count opts data_market batch_id =
      call_one bound GoType.big_int opts (codes "maxAttestationsCount")
        (any GoType.address data_market ∷ any GoType.big_int batch_id ∷ [])

  abbrev pub min_attestations_for_consensus : C → Address → Returned (Meaning GoType.big_int)
  min_attestations_for_consensus opts data_market =
      call_one bound GoType.big_int opts (codes "minAttestationsForConsensus")
        (any GoType.address data_market ∷ [])
