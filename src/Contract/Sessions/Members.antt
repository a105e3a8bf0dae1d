-- ===== src/Contract/Sessions/Members.antt =====
-- pkgs/contract/contract.go: the methods of `ContractSession` on sequencers, validators and snapshotters.
use libp2p_submission_sequen.Contract.Event.{Address}
use libp2p_submission_sequen.Contract.Values.{GoType, Meaning}
use libp2p_submission_sequen.Contract.Bound.{Returned}
use libp2p_submission_sequen.Contract.Sessions.Session.{ContractSession}
use libp2p_submission_sequen.Contract.Callers.Members

module _ {C T Tx : Type 0} (session : ContractSession C T Tx) where
  abbrev pub all_snapshotters : Address → Returned (Meaning GoType.bool)
  all_snapshotters addr =
      Members.all_snapshotters session.contract.contract_caller.contract session.call_opts addr

  abbrev pub get_sequencer_id : Address → Returned (Meaning GoType.string)
  get_sequencer_id data_market =
      Members.get_sequencer_id session.contract.contract_caller.contract session.call_opts
        data_market

  abbrev pub get_sequencers : Address → Returned (Meaning GoType.addresses)
  get_sequencers data_market =
      Members.get_sequencers session.contract.contract_caller.contract session.call_opts data_market

  abbrev pub get_total_sequencers_count : Address → Returned (Meaning GoType.big_int)
  get_total_sequencers_count data_market =
      Members.get_total_sequencers_count session.contract.contract_caller.contract session.call_opts
        data_market

  abbrev pub get_total_snapshotter_count : Returned (Meaning GoType.big_int)
  get_total_snapshotter_count =
      Members.get_total_snapshotter_count session.contract.contract_caller.contract
        session.call_opts

  abbrev pub get_total_validators_count : Address → Returned (Meaning GoType.big_int)
  get_total_validators_count data_market =
      Members.get_total_validators_count session.contract.contract_caller.contract session.call_opts
        data_market

  abbrev pub get_validators : Address → Returned (Meaning GoType.addresses)
  get_validators data_market =
      Members.get_validators session.contract.contract_caller.contract session.call_opts data_market

  abbrev pub snapshotter_state : Returned (Meaning GoType.address)
  snapshotter_state =
      Members.snapshotter_state session.contract.contract_caller.contract session.call_opts
