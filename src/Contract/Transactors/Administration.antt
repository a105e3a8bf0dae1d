-- ===== src/Contract/Transactors/Administration.antt =====
-- pkgs/contract/contract.go: the methods of `ContractTransactor` on data markets and ownership.
use libp2p_submission_sequen.Prelude.{ℕ, Bytes, codes, Bool, List, [], ◌∷◌, Result}
use libp2p_submission_sequen.Contract.Event.{Address}
use libp2p_submission_sequen.Contract.Values.{GoType, BigInt, any}
use libp2p_submission_sequen.Contract.Bound.{BoundCalls}

module _ {C T Tx : Type 0} (bound : BoundCalls C T Tx) where
  abbrev pub create_data_market : T → Address → ℕ → BigInt → BigInt → Bool → Result Bytes Tx
  create_data_market opts owner_address epoch_size source_chain_id source_chain_block_time
        use_block_number_as_epoch_id =
      bound.transact opts (codes "createDataMarket") (
        any GoType.address owner_address
        ∷ any GoType.uint8 epoch_size
        ∷ any GoType.big_int source_chain_id
        ∷ any GoType.big_int source_chain_block_time
        ∷ any GoType.bool use_block_number_as_epoch_id
        ∷ [])

  abbrev pub initialize : T → Address → Result Bytes Tx
  initialize opts initial_owner =
      bound.transact opts (codes "initialize") (any GoType.address initial_owner ∷ [])

  abbrev pub renounce_ownership : T → Result Bytes Tx
  renounce_ownership opts = bound.transact opts (codes "renounceOwnership") []

  abbrev pub toggle_data_market : T → Address → Bool → Result Bytes Tx
  toggle_data_market opts data_market_address enabled =
      bound.transact opts (codes "toggleDataMarket")
        (any GoType.address data_market_address ∷ any GoType.bool enabled ∷ [])

  abbrev pub toggle_fallback : T → Address → Result Bytes Tx
  toggle_fallback opts data_market =
      bound.transact opts (codes "toggleFallback") (any GoType.address data_market ∷ [])

  abbrev pub toggle_rewards : T → Address → Result Bytes Tx
  toggle_rewards opts data_market =
      bound.transact opts (codes "toggleRewards") (any GoType.address data_market ∷ [])

  abbrev pub transfer_ownership : T → Address → Result Bytes Tx
  transfer_ownership opts new_owner =
      bound.transact opts (codes "transferOwnership") (any GoType.address new_owner ∷ [])

  abbrev pub update_addresses : T → Address → ℕ → List Address → List Bool → Result Bytes Tx
  update_addresses opts data_market role addrs status =
      bound.transact opts (codes "updateAddresses") (
        any GoType.address data_market
        ∷ any GoType.uint8 role
        ∷ any GoType.addresses addrs
        ∷ any GoType.bools status
        ∷ [])

  abbrev pub update_data_market_factory : T → Address → Result Bytes Tx
  update_data_market_factory opts addr =
      bound.transact opts (codes "updateDataMarketFactory") (any GoType.address addr ∷ [])

  abbrev pub update_epoch_manager : T → Address → Address → Result Bytes Tx
  update_epoch_manager opts data_market addr =
      bound.transact opts (codes "updateEpochManager")
        (any GoType.address data_market ∷ any GoType.address addr ∷ [])

  abbrev pub update_fallback_nodes : T → Address → List Address → List Bool → Result Bytes Tx
  update_fallback_nodes opts data_market fallback_nodes status =
      bound.transact opts (codes "updateFallbackNodes") (
        any GoType.address data_market
        ∷ any GoType.addresses fallback_nodes
        ∷ any GoType.bools status
        ∷ [])

  abbrev pub update_snapshotter_state : T → Address → Result Bytes Tx
  update_snapshotter_state opts addr =
      bound.transact opts (codes "updateSnapshotterState") (any GoType.address addr ∷ [])

  abbrev pub upgrade_to_and_call : T → Address → Bytes → Result Bytes Tx
  upgrade_to_and_call opts new_implementation call_data =
      bound.transact opts (codes "upgradeToAndCall")
        (any GoType.address new_implementation ∷ any GoType.bytes call_data ∷ [])
