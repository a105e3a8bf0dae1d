-- ===== src/Contract/Conformance/Epochs.antt =====
-- What the reads on epochs and the chain they follow promise.
use libp2p_submission_sequen.Prelude.{codes, [], ◌∷◌, some, refl}
use libp2p_submission_sequen.Golang.Decimal.{ℤ}
use libp2p_submission_sequen.Contract.Event.{Address}
use libp2p_submission_sequen.Contract.Values.{GoType, any}
use libp2p_submission_sequen.Contract.Serving.{CallSpec, OneOutput, Calls, call_one_lem}
use libp2p_submission_sequen.Contract.Conformance.Structs.{
  values_of_current_epoch, values_of_epoch_info,
}
use libp2p_submission_sequen.Contract.Outputs.{
  EpochRange, EpochRelease, no_current_epoch, no_epoch_info,
}
use libp2p_submission_sequen.Contract.Sessions.Session.{ContractSession}
use libp2p_submission_sequen.Contract.Sessions.Epochs

pub record ReadsEpochs {C T Tx : Type 0} (P : CallSpec C) (session : ContractSession C T Tx)
    : Type 0 where
  pub epoch_size :
      (data_market : Address)
      → OneOutput P GoType.uint8 session.call_opts
          (codes "EPOCH_SIZE")
          (any GoType.address data_market ∷ [])
          (Epochs.epoch_size session data_market)
  pub source_chain_block_time :
      (data_market : Address)
      → OneOutput P GoType.big_int session.call_opts
          (codes "SOURCE_CHAIN_BLOCK_TIME")
          (any GoType.address data_market ∷ [])
          (Epochs.source_chain_block_time session data_market)
  pub source_chain_id :
      (data_market : Address)
      → OneOutput P GoType.big_int session.call_opts
          (codes "SOURCE_CHAIN_ID")
          (any GoType.address data_market ∷ [])
          (Epochs.source_chain_id session data_market)
  pub use_block_number_as_epoch_id :
      (data_market : Address)
      → OneOutput P GoType.bool session.call_opts
          (codes "USE_BLOCK_NUMBER_AS_EPOCH_ID")
          (any GoType.address data_market ∷ [])
          (Epochs.use_block_number_as_epoch_id session data_market)
  pub current_epoch :
      (data_market : Address)
      → P EpochRange no_current_epoch values_of_current_epoch session.call_opts
          (codes "currentEpoch")
          (any GoType.address data_market ∷ [])
          (Epochs.current_epoch session data_market)
  pub day_counter :
      (data_market : Address)
      → OneOutput P GoType.big_int session.call_opts
          (codes "dayCounter")
          (any GoType.address data_market ∷ [])
          (Epochs.day_counter session data_market)
  pub deployment_block_number :
      (data_market : Address)
      → OneOutput P GoType.big_int session.call_opts
          (codes "deploymentBlockNumber")
          (any GoType.address data_market ∷ [])
          (Epochs.deployment_block_number session data_market)
  pub epoch_info :
      (data_market : Address) (epoch_id : ℤ)
      → P EpochRelease no_epoch_info values_of_epoch_info session.call_opts
          (codes "epochInfo")
          (any GoType.address data_market ∷ any GoType.big_int (some epoch_id) ∷ [])
          (Epochs.epoch_info session data_market (some epoch_id))
  pub epoch_manager :
      (data_market : Address)
      → OneOutput P GoType.address session.call_opts
          (codes "epochManager")
          (any GoType.address data_market ∷ [])
          (Epochs.epoch_manager session data_market)
  pub epochs_in_a_day :
      (data_market : Address)
      → OneOutput P GoType.big_int session.call_opts
          (codes "epochsInADay")
          (any GoType.address data_market ∷ [])
          (Epochs.epochs_in_a_day session data_market)
  pub get_epoch_manager :
      (data_market : Address)
      → OneOutput P GoType.address session.call_opts
          (codes "getEpochManager")
          (any GoType.address data_market ∷ [])
          (Epochs.get_epoch_manager session data_market)

pub Session-ReadsEpochs :
    {C T Tx : Type 0} {P : CallSpec C} (session : ContractSession C T Tx)
    → Calls P session.contract.contract_caller.contract
    → ReadsEpochs P session
Session-ReadsEpochs session law = record {
  epoch_size = λ data_market. call_one_lem law GoType.uint8 _ _ _ _ refl refl refl refl refl;
  source_chain_block_time =
      λ data_market. call_one_lem law GoType.big_int _ _ _ _ refl refl refl refl refl;
  source_chain_id = λ data_market. call_one_lem law GoType.big_int _ _ _ _ refl refl refl refl refl;
  use_block_number_as_epoch_id =
      λ data_market. call_one_lem law GoType.bool _ _ _ _ refl refl refl refl refl;
  current_epoch = λ data_market.
      law.gives _ _ _ _ _ _ _ (GoType.big_int ∷ GoType.big_int ∷ GoType.big_int ∷ []) refl refl refl
        refl refl
        (λ xs. (
          record { begin_block = xs.0; end_block = (xs.1).0; epoch_id = ((xs.1).1).0 },
          rw
              (
                law.keeps (any GoType.big_int (xs.0)),
                law.keeps (any GoType.big_int ((xs.1).0)),
                law.keeps (any GoType.big_int (((xs.1).1).0)),
              )
              refl,
          refl,
        ));
  day_counter = λ data_market. call_one_lem law GoType.big_int _ _ _ _ refl refl refl refl refl;
  deployment_block_number =
      λ data_market. call_one_lem law GoType.big_int _ _ _ _ refl refl refl refl refl;
  epoch_info = λ data_market epoch_id.
      law.gives _ _ _ _ _ _ _ (GoType.big_int ∷ GoType.big_int ∷ GoType.big_int ∷ []) refl refl refl
        refl refl
        (λ xs. (
          record { timestamp = xs.0; blocknumber = (xs.1).0; epoch_end = ((xs.1).1).0 },
          rw
              (
                law.keeps (any GoType.big_int (xs.0)),
                law.keeps (any GoType.big_int ((xs.1).0)),
                law.keeps (any GoType.big_int (((xs.1).1).0)),
              )
              refl,
          refl,
        ));
  epoch_manager = λ data_market. call_one_lem law GoType.address _ _ _ _ refl refl refl refl refl;
  epochs_in_a_day = λ data_market. call_one_lem law GoType.big_int _ _ _ _ refl refl refl refl refl;
  get_epoch_manager =
      λ data_market. call_one_lem law GoType.address _ _ _ _ refl refl refl refl refl;
}
