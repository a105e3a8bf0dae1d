-- ===== src/Contract/Sessions/Epochs.antt =====
-- pkgs/contract/contract.go: the methods of `ContractSession` on epochs and the chain they follow.
use libp2p_submission_sequen.Contract.Event.{Address}
use libp2p_submission_sequen.Contract.Values.{GoType, Meaning, BigInt}
use libp2p_submission_sequen.Contract.Bound.{Returned}
use libp2p_submission_sequen.Contract.Outputs.{EpochRange, EpochRelease}
use libp2p_submission_sequen.Contract.Sessions.Session.{ContractSession}
use libp2p_submission_sequen.Contract.Callers.Epochs

module _ {C T Tx : Type 0} (session : ContractSession C T Tx) where
  abbrev pub epoch_size : Address → Returned (Meaning GoType.uint8)
  epoch_size data_market =
      Epochs.epoch_size session.contract.contract_caller.contract session.call_opts data_market

  abbrev pub source_chain_block_time : Address → Returned (Meaning GoType.big_int)
  source_chain_block_time data_market =
      Epochs.source_chain_block_time session.contract.contract_caller.contract session.call_opts
        data_market

  abbrev pub source_chain_id : Address → Returned (Meaning GoType.big_int)
  source_chain_id data_market =
      Epochs.source_chain_id session.contract.contract_caller.contract session.call_opts data_market

  abbrev pub use_block_number_as_epoch_id : Address → Returned (Meaning GoType.bool)
  use_block_number_as_epoch_id data_market =
      Epochs.use_block_number_as_epoch_id session.contract.contract_caller.contract
        session.call_opts data_market

  abbrev pub current_epoch : Address → Returned EpochRange
  current_epoch data_market =
      Epochs.current_epoch session.contract.contract_caller.contract session.call_opts data_market

  abbrev pub day_counter : Address → Returned (Meaning GoType.big_int)
  day_counter data_market =
      Epochs.day_counter session.contract.contract_caller.contract session.call_opts data_market

  abbrev pub deployment_block_number : Address → Returned (Meaning GoType.big_int)
  deployment_block_number data_market =
      Epochs.deployment_block_number session.contract.contract_caller.contract session.call_opts
        data_market

  abbrev pub epoch_info : Address → BigInt → Returned EpochRelease
  epoch_info data_market epoch_id =
      Epochs.epoch_info session.contract.contract_caller.contract session.call_opts data_market
        epoch_id

  abbrev pub epoch_manager : Address → Returned (Meaning GoType.address)
  epoch_manager data_market =
      Epochs.epoch_manager session.contract.contract_caller.contract session.call_opts data_market

  abbrev pub epochs_in_a_day : Address → Returned (Meaning GoType.big_int)
  epochs_in_a_day data_market =
      Epochs.epochs_in_a_day session.contract.contract_caller.contract session.call_opts data_market

  abbrev pub get_epoch_manager : Address → Returned (Meaning GoType.address)
  get_epoch_manager data_market =
      Epochs.get_epoch_manager session.contract.contract_caller.contract session.call_opts
        data_market
