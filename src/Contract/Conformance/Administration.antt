-- ===== src/Contract/Conformance/Administration.antt =====
-- What the transactions on data markets and ownership promise.
use libp2p_submission_sequen.Prelude.{ℕ, Bytes, codes, Bool, List, [], ◌∷◌, refl}
use libp2p_submission_sequen.Contract.Event.{Address}
use libp2p_submission_sequen.Contract.Values.{GoType, any, BigInt}
use libp2p_submission_sequen.Contract.Serving.{Sent}
use libp2p_submission_sequen.Contract.Bound.{BoundCalls}
use libp2p_submission_sequen.Contract.Sessions.Session.{ContractSession}
use libp2p_submission_sequen.Contract.Sessions.Administration

pub record SendsAdministration {C T Tx : Type 0} (bound : BoundCalls C T Tx)
    (session : ContractSession C T Tx) : Type 0 where
  pub create_data_market :
      (owner_address : Address) (epoch_size : ℕ) (source_chain_id : BigInt)
      (source_chain_block_time : BigInt) (use_block_number_as_epoch_id : Bool)
      → Sent bound session.transact_opts
          (codes "createDataMarket")
          (any GoType.address owner_address
            ∷ any GoType.uint8 epoch_size
            ∷ any GoType.big_int source_chain_id
            ∷ any GoType.big_int source_chain_block_time
            ∷ any GoType.bool use_block_number_as_epoch_id
            ∷ [])
          (Administration.create_data_market session owner_address epoch_size source_chain_id
            source_chain_block_time use_block_number_as_epoch_id)
  pub initialize :
      (initial_owner : Address)
      → Sent bound session.transact_opts
          (codes "initialize")
          (any GoType.address initial_owner ∷ [])
          (Administration.initialize session initial_owner)
  pub renounce_ownership :
      Sent bound session.transact_opts
        (codes "renounceOwnership")
        []
        (Administration.renounce_ownership session)
  pub toggle_data_market :
      (data_market_address : Address) (enabled : Bool)
      → Sent bound session.transact_opts
          (codes "toggleDataMarket")
          (any GoType.address data_market_address ∷ any GoType.bool enabled ∷ [])
          (Administration.toggle_data_market session data_market_address enabled)
  pub toggle_fallback :
      (data_market : Address)
      → Sent bound session.transact_opts
          (codes "toggleFallback")
          (any GoType.address data_market ∷ [])
          (Administration.toggle_fallback session data_market)
  pub toggle_rewards :
      (data_market : Address)
      → Sent bound session.transact_opts
          (codes "toggleRewards")
          (any GoType.address data_market ∷ [])
          (Administration.toggle_rewards session data_market)
  pub transfer_ownership :
      (new_owner : Address)
      → Sent bound session.transact_opts
          (codes "transferOwnership")
          (any GoType.address new_owner ∷ [])
          (Administration.transfer_ownership session new_owner)
  pub update_addresses :
      (data_market : Address) (role : ℕ) (addrs : List Address) (status : List Bool)
      → Sent bound session.transact_opts
          (codes "updateAddresses")
          (any GoType.address data_market
            ∷ any GoType.uint8 role
            ∷ any GoType.addresses addrs
            ∷ any GoType.bools status
            ∷ [])
          (Administration.update_addresses session data_market role addrs status)
  pub update_data_market_factory :
      (addr : Address)
      → Sent bound session.transact_opts
          (codes "updateDataMarketFactory")
          (any GoType.address addr ∷ [])
          (Administration.update_data_market_factory session addr)
  pub update_epoch_manager :
      (data_market : Address) (addr : Address)
      → Sent bound session.transact_opts
          (codes "updateEpochManager")
          (any GoType.address data_market ∷ any GoType.address addr ∷ [])
          (Administration.update_epoch_manager session data_market addr)
  pub update_fallback_nodes :
      (data_market : Address) (fallback_nodes : List Address) (status : List Bool)
      → Sent bound session.transact_opts
          (codes "updateFallbackNodes")
          (any GoType.address data_market
            ∷ any GoType.addresses fallback_nodes
            ∷ any GoType.bools status
            ∷ [])
          (Administration.update_fallback_nodes session data_market fallback_nodes status)
  pub update_snapshotter_state :
      (addr : Address)
      → Sent bound session.transact_opts
          (codes "updateSnapshotterState")
          (any GoType.address addr ∷ [])
          (Administration.update_snapshotter_state session addr)
  pub upgrade_to_and_call :
      (new_implementation : Address) (call_data : Bytes)
      → Sent bound session.transact_opts
          (codes "upgradeToAndCall")
          (any GoType.address new_implementation ∷ any GoType.bytes call_data ∷ [])
          (Administration.upgrade_to_and_call session new_implementation call_data)

pub Session-SendsAdministration :
    {C T Tx : Type 0} (session : ContractSession C T Tx)
    → SendsAdministration session.contract.contract_transactor.contract session
Session-SendsAdministration session = record {
  create_data_market =
      λ owner_address epoch_size source_chain_id source_chain_block_time
          use_block_number_as_epoch_id.
        (_, refl, refl, refl, refl);
  initialize = λ initial_owner. (_, refl, refl, refl, refl);
  renounce_ownership = (_, refl, refl, refl, refl);
  toggle_data_market = λ data_market_address enabled. (_, refl, refl, refl, refl);
  toggle_fallback = λ data_market. (_, refl, refl, refl, refl);
  toggle_rewards = λ data_market. (_, refl, refl, refl, refl);
  transfer_ownership = λ new_owner. (_, refl, refl, refl, refl);
  update_addresses = λ data_market role addrs status. (_, refl, refl, refl, refl);
  update_data_market_factory = λ addr. (_, refl, refl, refl, refl);
  update_epoch_manager = λ data_market addr. (_, refl, refl, refl, refl);
  update_fallback_nodes = λ data_market fallback_nodes status. (_, refl, refl, refl, refl);
  update_snapshotter_state = λ addr. (_, refl, refl, refl, refl);
  upgrade_to_and_call = λ new_implementation call_data. (_, refl, refl, refl, refl);
}
