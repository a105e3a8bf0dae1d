-- ===== src/Contract/Callers/Epochs.antt =====
-- pkgs/contract/contract.go: the methods of `ContractCaller` on epochs and the chain they follow.
use libp2p_submission_sequen.Prelude.{codes, [], ◌∷◌, none, some}
use libp2p_submission_sequen.Contract.Event.{Address}
use libp2p_submission_sequen.Contract.Values.{GoType, Meaning, BigInt, any}
use libp2p_submission_sequen.Contract.Outputs.{
  EpochRange, EpochRelease, no_current_epoch, no_epoch_info,
}
use libp2p_submission_sequen.Contract.Bound.{BoundCalls, Returned, convert_at, call_with, call_one}

module _ {C T Tx : Type 0} (bound : BoundCalls C T Tx) where
  abbrev pub epoch_size : C → Address → Returned (Meaning GoType.uint8)
  epoch_size opts data_market =
      call_one bound GoType.uint8 opts (codes "EPOCH_SIZE") (any GoType.address data_market ∷ [])

  abbrev pub source_chain_block_time : C → Address → Returned (Meaning GoType.big_int)
  source_chain_block_time opts data_market =
      call_one bound GoType.big_int opts (codes "SOURCE_CHAIN_BLOCK_TIME")
        (any GoType.address data_market ∷ [])

  abbrev pub source_chain_id : C → Address → Returned (Meaning GoType.big_int)
  source_chain_id opts data_market =
      call_one bound GoType.big_int opts (codes "SOURCE_CHAIN_ID")
        (any GoType.address data_market ∷ [])

  abbrev pub use_block_number_as_epoch_id : C → Address → Returned (Meaning GoType.bool)
  use_block_number_as_epoch_id opts data_market =
      call_one bound GoType.bool opts (codes "USE_BLOCK_NUMBER_AS_EPOCH_ID")
        (any GoType.address data_market ∷ [])

  abbrev pub current_epoch : C → Address → Returned EpochRange
  current_epoch opts data_market =
      call_with bound no_current_epoch
        (λ out. convert_at bound GoType.big_int 0 out (λ begin_block.
          convert_at bound GoType.big_int 1 out (λ end_block.
            convert_at bound GoType.big_int 2 out (λ epoch_id. some (
              record { begin_block = begin_block; end_block = end_block; epoch_id = epoch_id },
              none,
            )))))
        opts (codes "currentEpoch") (any GoType.address data_market ∷ [])

  abbrev pub day_counter : C → Address → Returned (Meaning GoType.big_int)
  day_counter opts data_market =
      call_one bound GoType.big_int opts (codes "dayCounter") (any GoType.address data_market ∷ [])

  abbrev pub deployment_block_number : C → Address → Returned (Meaning GoType.big_int)
  deployment_block_number opts data_market =
      call_one bound GoType.big_int opts (codes "deploymentBlockNumber")
        (any GoType.address data_market ∷ [])

  abbrev pub epoch_info : C → Address → BigInt → Returned EpochRelease
  epoch_info opts data_market epoch_id =
      call_with bound no_epoch_info
        (λ out. convert_at bound GoType.big_int 0 out (λ timestamp.
          convert_at bound GoType.big_int 1 out (λ blocknumber.
            convert_at bound GoType.big_int 2 out (λ epoch_end. some (
              record { timestamp = timestamp; blocknumber = blocknumber; epoch_end = epoch_end },
              none,
            )))))
        opts (codes "epochInfo") (any GoType.address data_market ∷ any GoType.big_int epoch_id ∷ [])

  abbrev pub epoch_manager : C → Address → Returned (Meaning GoType.address)
  epoch_manager opts data_market =
      call_one bound GoType.address opts (codes "epochManager")
        (any GoType.address data_market ∷ [])

  abbrev pub epochs_in_a_day : C → Address → Returned (Meaning GoType.big_int)
  epochs_in_a_day opts data_market =
      call_one bound GoType.big_int opts (codes "epochsInADay")
        (any GoType.address data_market ∷ [])

  abbrev pub get_epoch_manager : C → Address → Returned (Meaning GoType.address)
  get_epoch_manager opts data_market =
      call_one bound GoType.address opts (codes "getEpochManager")
        (any GoType.address data_market ∷ [])
