-- ===== src/Contract/Conformance/Markets.antt =====
-- What the reads on data markets and the contract itself promise.
use libp2p_submission_sequen.Prelude.{ℕ, codes, [], ◌∷◌, refl}
use libp2p_submission_sequen.Contract.Event.{Address}
use libp2p_submission_sequen.Contract.Values.{GoType, any}
use libp2p_submission_sequen.Contract.Serving.{CallSpec, OneOutput, Calls, call_one_lem}
use libp2p_submission_sequen.Contract.Conformance.Structs.{values_of_data_markets}
use libp2p_submission_sequen.Contract.Outputs.{DataMarketInfo, no_data_markets}
use libp2p_submission_sequen.Contract.Sessions.Session.{ContractSession}
use libp2p_submission_sequen.Contract.Sessions.Markets

pub record ReadsMarkets {C T Tx : Type 0} (P : CallSpec C) (session : ContractSession C T Tx)
    : Type 0 where
  pub upgrade_interface_version :
      OneOutput P GoType.string session.call_opts
        (codes "UPGRADE_INTERFACE_VERSION")
        []
        (Markets.upgrade_interface_version session)
  pub data_market_count :
      OneOutput P GoType.uint8 session.call_opts
        (codes "dataMarketCount")
        []
        (Markets.data_market_count session)
  pub data_market_enabled :
      (data_market_address : Address)
      → OneOutput P GoType.bool session.call_opts
          (codes "dataMarketEnabled")
          (any GoType.address data_market_address ∷ [])
          (Markets.data_market_enabled session data_market_address)
  pub data_market_factory :
      OneOutput P GoType.address session.call_opts
        (codes "dataMarketFactory")
        []
        (Markets.data_market_factory session)
  pub data_market_id_to_address :
      (data_market_id : ℕ)
      → OneOutput P GoType.address session.call_opts
          (codes "dataMarketIdToAddress")
          (any GoType.uint8 data_market_id ∷ [])
          (Markets.data_market_id_to_address session data_market_id)
  pub data_markets :
      (key : Address)
      → P DataMarketInfo no_data_markets values_of_data_markets session.call_opts
          (codes "dataMarkets")
          (any GoType.address key ∷ [])
          (Markets.data_markets session key)
  pub owner :
      OneOutput P GoType.address session.call_opts (codes "owner") [] (Markets.owner session)
  pub proxiable_uuid :
      OneOutput P GoType.bytes32 session.call_opts
        (codes "proxiableUUID")
        []
        (Markets.proxiable_uuid session)

pub Session-ReadsMarkets :
    {C T Tx : Type 0} {P : CallSpec C} (session : ContractSession C T Tx)
    → Calls P session.contract.contract_caller.contract
    → ReadsMarkets P session
Session-ReadsMarkets session law = record {
  upgrade_interface_version = call_one_lem law GoType.string _ _ _ _ refl refl refl refl refl;
  data_market_count = call_one_lem law GoType.uint8 _ _ _ _ refl refl refl refl refl;
  data_market_enabled =
      λ data_market_address. call_one_lem law GoType.bool _ _ _ _ refl refl refl refl refl;
  data_market_factory = call_one_lem law GoType.address _ _ _ _ refl refl refl refl refl;
  data_market_id_to_address =
      λ data_market_id. call_one_lem law GoType.address _ _ _ _ refl refl refl refl refl;
  data_markets = λ key.
      law.gives _ _ _ _ _ _ _
        (GoType.address ∷ GoType.uint8 ∷ GoType.big_int ∷ GoType.big_int ∷ GoType.bool ∷ GoType.bool
          ∷ GoType.address ∷ GoType.big_int ∷ [])
        refl refl refl refl refl
        (λ xs. (
          record {
            owner_address = xs.0;
            epoch_size = (xs.1).0;
            source_chain_id = ((xs.1).1).0;
            source_chain_block_time = (((xs.1).1).1).0;
            use_block_number_as_epoch_id = ((((xs.1).1).1).1).0;
            enabled = (((((xs.1).1).1).1).1).0;
            data_market_address = ((((((xs.1).1).1).1).1).1).0;
            created_at = (((((((xs.1).1).1).1).1).1).1).0;
          },
          rw
              (
                law.keeps (any GoType.address (xs.0)),
                law.keeps (any GoType.uint8 ((xs.1).0)),
                law.keeps (any GoType.big_int (((xs.1).1).0)),
                law.keeps (any GoType.big_int ((((xs.1).1).1).0)),
                law.keeps (any GoType.bool (((((xs.1).1).1).1).0)),
                law.keeps (any GoType.bool ((((((xs.1).1).1).1).1).0)),
                law.keeps (any GoType.address (((((((xs.1).1).1).1).1).1).0)),
                law.keeps (any GoType.big_int ((((((((xs.1).1).1).1).1).1).1).0)),
              )
              refl,
          refl,
        ));
  owner = call_one_lem law GoType.address _ _ _ _ refl refl refl refl refl;
  proxiable_uuid = call_one_lem law GoType.bytes32 _ _ _ _ refl refl refl refl refl;
}
