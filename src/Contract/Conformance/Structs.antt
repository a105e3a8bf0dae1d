-- ===== src/Contract/Conformance/Structs.antt =====
-- The outputs of the ABI for which the structs stand.
use libp2p_submission_sequen.Prelude.{List, [], ◌∷◌}
use libp2p_submission_sequen.Contract.Values.{GoType, Any, any}
use libp2p_submission_sequen.Contract.Outputs.{
  EpochRange, EpochRelease, SnapshotState, DataMarketInfo,
}

abbrev pub values_of_current_epoch : EpochRange → List Any
values_of_current_epoch s =
    any GoType.big_int s.begin_block
    ∷ any GoType.big_int s.end_block
    ∷ any GoType.big_int s.epoch_id
    ∷ []

abbrev pub values_of_epoch_info : EpochRelease → List Any
values_of_epoch_info s =
    any GoType.big_int s.timestamp
    ∷ any GoType.big_int s.blocknumber
    ∷ any GoType.big_int s.epoch_end
    ∷ []

abbrev pub values_of_snapshot_status : SnapshotState → List Any
values_of_snapshot_status s =
    any GoType.uint8 s.status
    ∷ any GoType.string s.snapshot_cid
    ∷ any GoType.big_int s.timestamp
    ∷ []

abbrev pub values_of_data_markets : DataMarketInfo → List Any
values_of_data_markets s =
    any GoType.address s.owner_address
    ∷ any GoType.uint8 s.epoch_size
    ∷ any GoType.big_int s.source_chain_id
    ∷ any GoType.big_int s.source_chain_block_time
    ∷ any GoType.bool s.use_block_number_as_epoch_id
    ∷ any GoType.bool s.enabled
    ∷ any GoType.address s.data_market_address
    ∷ any GoType.big_int s.created_at
    ∷ []
