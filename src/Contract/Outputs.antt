-- ===== src/Contract/Outputs.antt =====
-- pkgs/contract/contract.go: the structs that methods of `ContractCaller` return, and their zero
-- values.
use libp2p_submission_sequen.Prelude.{ℕ, Bytes, Bool}
use libp2p_submission_sequen.Contract.Event.{Address}
use libp2p_submission_sequen.Contract.Values.{GoType, BigInt, zero_of}

pub record EpochRange : Type 0 where
  pub begin_block : BigInt
  pub end_block : BigInt
  pub epoch_id : BigInt

abbrev pub no_current_epoch : EpochRange
no_current_epoch = record {
  begin_block = zero_of GoType.big_int;
  end_block = zero_of GoType.big_int;
  epoch_id = zero_of GoType.big_int;
}

pub record EpochRelease : Type 0 where
  pub timestamp : BigInt
  pub blocknumber : BigInt
  pub epoch_end : BigInt

abbrev pub no_epoch_info : EpochRelease
no_epoch_info = record {
  timestamp = zero_of GoType.big_int;
  blocknumber = zero_of GoType.big_int;
  epoch_end = zero_of GoType.big_int;
}

pub record SnapshotState : Type 0 where
  pub status : ℕ
  pub snapshot_cid : Bytes
  pub timestamp : BigInt

abbrev pub no_snapshot_status : SnapshotState
no_snapshot_status = record {
  status = zero_of GoType.uint8;
  snapshot_cid = zero_of GoType.string;
  timestamp = zero_of GoType.big_int;
}

pub record DataMarketInfo : Type 0 where
  pub owner_address : Address
  pub epoch_size : ℕ
  pub source_chain_id : BigInt
  pub source_chain_block_time : BigInt
  pub use_block_number_as_epoch_id : Bool
  pub enabled : Bool
  pub data_market_address : Address
  pub created_at : BigInt

abbrev pub no_data_markets : DataMarketInfo
no_data_markets = record {
  owner_address = zero_of GoType.address;
  epoch_size = zero_of GoType.uint8;
  source_chain_id = zero_of GoType.big_int;
  source_chain_block_time = zero_of GoType.big_int;
  use_block_number_as_epoch_id = zero_of GoType.bool;
  enabled = zero_of GoType.bool;
  data_market_address = zero_of GoType.address;
  created_at = zero_of GoType.big_int;
}
