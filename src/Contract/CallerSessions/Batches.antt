-- ===== src/Contract/CallerSessions/Batches.antt =====
-- pkgs/contract/contract.go: the methods of `ContractCallerSession` on batches and their attestations.
use libp2p_submission_sequen.Prelude.{Bytes}
use libp2p_submission_sequen.Contract.Event.{Address}
use libp2p_submission_sequen.Contract.Values.{GoType, Meaning, BigInt}
use libp2p_submission_sequen.Contract.Bound.{Returned}
use libp2p_submission_sequen.Contract.Sessions.Session.{ContractCallerSession}
use libp2p_submission_sequen.Contract.Callers.Batches

module _ {C T Tx : Type 0} (session : ContractCallerSession C T Tx) where
  abbrev pub attestation_submission_window : Address → Returned (Meaning GoType.big_int)
  attestation_submission_window data_market =
      Batches.attestation_submission_window session.contract.contract session.call_opts data_market

  abbrev pub attestations_received : Address → BigInt → Address → Returned (Meaning GoType.bool)
  attestations_received data_market batch_id validator =
      Batches.attestations_received session.contract.contract session.call_opts data_market batch_id
        validator

  abbrev pub attestations_received_count :
      Address → BigInt → Bytes → Returned (Meaning GoType.big_int)
  attestations_received_count data_market batch_id finalized_cids_root_hash =
      Batches.attestations_received_count session.contract.contract session.call_opts data_market
        batch_id finalized_cids_root_hash

  abbrev pub batch_id_attestation_status : Address → BigInt → Returned (Meaning GoType.bool)
  batch_id_attestation_status data_market batch_id =
      Batches.batch_id_attestation_status session.contract.contract session.call_opts data_market
        batch_id

  abbrev pub batch_id_divergent_validators :
      Address → BigInt → BigInt → Returned (Meaning GoType.address)
  batch_id_divergent_validators data_market batch_id idx =
      Batches.batch_id_divergent_validators session.contract.contract session.call_opts data_market
        batch_id idx

  abbrev pub batch_id_sequencer_attestation : Address → BigInt → Returned (Meaning GoType.bytes32)
  batch_id_sequencer_attestation data_market batch_id =
      Batches.batch_id_sequencer_attestation session.contract.contract session.call_opts data_market
        batch_id

  abbrev pub batch_id_to_projects : Address → BigInt → Returned (Meaning GoType.strings)
  batch_id_to_projects data_market batch_id =
      Batches.batch_id_to_projects session.contract.contract session.call_opts data_market batch_id

  abbrev pub batch_submission_window : Address → Returned (Meaning GoType.big_int)
  batch_submission_window data_market =
      Batches.batch_submission_window session.contract.contract session.call_opts data_market

  abbrev pub check_dynamic_consensus_attestations :
      Address → BigInt → BigInt → Returned (Meaning GoType.bool)
  check_dynamic_consensus_attestations data_market batch_id epoch_id =
      Batches.check_dynamic_consensus_attestations session.contract.contract session.call_opts
        data_market batch_id epoch_id

  abbrev pub current_batch_id : Address → Returned (Meaning GoType.big_int)
  current_batch_id data_market =
      Batches.current_batch_id session.contract.contract session.call_opts data_market

  abbrev pub epoch_id_to_batch_ids : Address → BigInt → Returned (Meaning GoType.big_ints)
  epoch_id_to_batch_ids data_market epoch_id =
      Batches.epoch_id_to_batch_ids session.contract.contract session.call_opts data_market epoch_id

  abbrev pub max_attestation_finalized_root_hash :
      Address → BigInt → Returned (Meaning GoType.bytes32)
  max_attestation_finalized_root_hash data_market batch_id =
      Batches.max_attestation_finalized_root_hash session.contract.contract session.call_opts
        data_market batch_id

  abbrev pub max_attestations_count : Address → BigInt → Returned (Meaning GoType.big_int)
  max_attestations_count data_market batch_id =
      Batches.max_attestations_count session.contract.contract session.call_opts data_market
        batch_id

  abbrev pub min_attestations_for_consensus : Address → Returned (Meaning GoType.big_int)
  min_attestations_for_consensus data_market =
      Batches.min_attestations_for_consensus session.contract.contract session.call_opts data_market
