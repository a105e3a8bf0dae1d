-- ===== src/Contract/TransactorSessions/Administration.antt =====
-- pkgs/contract/contract.go: the methods of `ContractTransactorSession` on data markets and ownership.
use libp2p_submission_sequen.Prelude.{ℕ, Bytes, Bool, List, Result}
use libp2p_submission_sequen.Contract.Event.{Address}
use libp2p_submission_sequen.Contract.Values.{BigInt}
use libp2p_submission_sequen.Contract.Sessions.Session.{ContractTransactorSession}
use libp2p_submission_sequen.Contract.Transactors.Administration

module _ {C T Tx : Type 0} (session : ContractTransactorSession C T Tx) where
  abbrev pub create_data_market : Address → ℕ → BigInt → BigInt → Bool → Result Bytes Tx
  create_data_market owner_address epoch_size source_chain_id source_chain_block_time
        use_block_number_as_epoch_id =
      Administration.create_data_market session.contract.contract session.transact_opts
        owner_address epoch_size source_chain_id source_chain_block_time
        use_block_number_as_epoch_id

  abbrev pub initialize : Address → Result Bytes Tx
  initialize initial_owner =
      Administration.initialize session.contract.contract session.transact_opts initial_owner

  abbrev pub renounce_ownership : Result Bytes Tx
  renounce_ownership =
      Administration.renounce_ownership session.contract.contract session.transact_opts

  abbrev pub toggle_data_market : Address → Bool → Result Bytes Tx
  toggle_data_market data_market_address enabled =
      Administration.toggle_data_market session.contract.contract session.transact_opts
        data_market_address enabled

  abbrev pub toggle_fallback : Address → Result Bytes Tx
  toggle_fallback data_market =
      Administration.toggle_fallback session.contract.contract session.transact_opts data_market

  abbrev pub toggle_rewards : Address → Result Bytes Tx
  toggle_rewards data_market =
      Administration.toggle_rewards session.contract.contract session.transact_opts data_market

  abbrev pub transfer_ownership : Address → Result Bytes Tx
  transfer_ownership new_owner =
      Administration.transfer_ownership session.contract.contract session.transact_opts new_owner

  abbrev pub update_addresses : Address → ℕ → List Address → List Bool → Result Bytes Tx
  update_addresses data_market role addrs status =
      Administration.update_addresses session.contract.contract session.transact_opts data_market
        role addrs status

  abbrev pub update_data_market_factory : Address → Result Bytes Tx
  update_data_market_factory addr =
      Administration.update_data_market_factory session.contract.contract session.transact_opts addr

  abbrev pub update_epoch_manager : Address → Address → Result Bytes Tx
  update_epoch_manager data_market addr =
      Administration.update_epoch_manager session.contract.contract session.transact_opts
        data_market addr

  abbrev pub update_fallback_nodes : Address → List Address → List Bool → Result Bytes Tx
  update_fallback_nodes data_market fallback_nodes status =
      Administration.update_fallback_nodes session.contract.contract session.transact_opts
        data_market fallback_nodes status

  abbrev pub update_snapshotter_state : Address → Result Bytes Tx
  update_snapshotter_state addr =
      Administration.update_snapshotter_state session.contract.contract session.transact_opts addr

  abbrev pub upgrade_to_and_call : Address → Bytes → Result Bytes Tx
  upgrade_to_and_call new_implementation call_data =
      Administration.upgrade_to_and_call session.contract.contract session.transact_opts
        new_implementation call_data
