-- ===== src/Contract/Callers/Markets.antt =====
-- pkgs/contract/contract.go: the methods of `ContractCaller` on data markets and the contract itself.
use libp2p_submission_sequen.Prelude.{ℕ, codes, [], ◌∷◌, none, some}
use libp2p_submission_sequen.Contract.Event.{Address}
use libp2p_submission_sequen.Contract.Values.{GoType, Meaning, any}
use libp2p_submission_sequen.Contract.Outputs.{DataMarketInfo, no_data_markets}
use libp2p_submission_sequen.Contract.Bound.{BoundCalls, Returned, convert_at, call_with, call_one}

module _ {C T Tx : Type 0} (bound : BoundCalls C T Tx) where
  abbrev pub upgrade_interface_version : C → Returned (Meaning GoType.string)
  upgrade_interface_version opts =
      call_one bound GoType.string opts (codes "UPGRADE_INTERFACE_VERSION") []

  abbrev pub data_market_count : C → Returned (Meaning GoType.uint8)
  data_market_count opts = call_one bound GoType.uint8 opts (codes "dataMarketCount") []

  abbrev pub data_market_enabled : C → Address → Returned (Meaning GoType.bool)
  data_market_enabled opts data_market_address =
      call_one bound GoType.bool opts (codes "dataMarketEnabled")
        (any GoType.address data_market_address ∷ [])

  abbrev pub data_market_factory : C → Returned (Meaning GoType.address)
  data_market_factory opts = call_one bound GoType.address opts (codes "dataMarketFactory") []

  abbrev pub data_market_id_to_address : C → ℕ → Returned (Meaning GoType.address)
  data_market_id_to_address opts data_market_id =
      call_one bound GoType.address opts (codes "dataMarketIdToAddress")
        (any GoType.uint8 data_market_id ∷ [])

  abbrev pub data_markets : C → Address → Returned DataMarketInfo
  data_markets opts key =
      call_with bound no_data_markets
        (λ out. convert_at bound GoType.address 0 out (λ owner_address.
          convert_at bound GoType.uint8 1 out (λ epoch_size.
            convert_at bound GoType.big_int 2 out (λ source_chain_id.
              convert_at bound GoType.big_int 3 out (λ source_chain_block_time.
                convert_at bound GoType.bool 4 out (λ use_block_number_as_epoch_id.
                  convert_at bound GoType.bool 5 out (λ enabled.
                    convert_at bound GoType.address 6 out (λ data_market_address.
                      convert_at bound GoType.big_int 7 out (λ created_at. some (
                        record {
                          owner_address = owner_address;
                          epoch_size = epoch_size;
                          source_chain_id = source_chain_id;
                          source_chain_block_time = source_chain_block_time;
                          use_block_number_as_epoch_id = use_block_number_as_epoch_id;
                          enabled = enabled;
                          data_market_address = data_market_address;
                          created_at = created_at;
                        },
                        none,
                      ))))))))))
        opts (codes "dataMarkets") (any GoType.address key ∷ [])

  abbrev pub owner : C → Returned (Meaning GoType.address)
  owner opts = call_one bound GoType.address opts (codes "owner") []

  abbrev pub proxiable_uuid : C → Returned (Meaning GoType.bytes32)
  proxiable_uuid opts = call_one bound GoType.bytes32 opts (codes "proxiableUUID") []
