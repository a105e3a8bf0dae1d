-- ===== src/Contract/Sessions/Slots.antt =====
-- pkgs/contract/contract.go: the methods of `ContractSession` on slots and their rewards.
use libp2p_submission_sequen.Contract.Event.{Address}
use libp2p_submission_sequen.Contract.Values.{GoType, Meaning, BigInt}
use libp2p_submission_sequen.Contract.Bound.{Returned}
use libp2p_submission_sequen.Contract.Sessions.Session.{ContractSession}
use libp2p_submission_sequen.Contract.Callers.Slots

module _ {C T Tx : Type 0} (session : ContractSession C T Tx) where
  abbrev pub check_slot_task_status_for_day :
      Address → BigInt → BigInt → Returned (Meaning GoType.bool)
  check_slot_task_status_for_day data_market slot_id day =
      Slots.check_slot_task_status_for_day session.contract.contract_caller.contract
        session.call_opts data_market slot_id day

  abbrev pub get_slot_info : Address → BigInt → Returned (Meaning GoType.slot_info)
  get_slot_info data_market slot_id =
      Slots.get_slot_info session.contract.contract_caller.contract session.call_opts data_market
        slot_id

  abbrev pub get_slot_rewards : BigInt → Returned (Meaning GoType.big_int)
  get_slot_rewards slot_id =
      Slots.get_slot_rewards session.contract.contract_caller.contract session.call_opts slot_id

  abbrev pub reward_base_points : Address → Returned (Meaning GoType.big_int)
  reward_base_points data_market =
      Slots.reward_base_points session.contract.contract_caller.contract session.call_opts
        data_market

  abbrev pub rewards_enabled : Address → Returned (Meaning GoType.bool)
  rewards_enabled data_market =
      Slots.rewards_enabled session.contract.contract_caller.contract session.call_opts data_market

  abbrev pub slot_counter : Returned (Meaning GoType.big_int)
  slot_counter = Slots.slot_counter session.contract.contract_caller.contract session.call_opts

  abbrev pub slot_reward_points : Address → BigInt → Returned (Meaning GoType.big_int)
  slot_reward_points data_market slot_id =
      Slots.slot_reward_points session.contract.contract_caller.contract session.call_opts
        data_market slot_id

  abbrev pub slot_rewards : BigInt → Returned (Meaning GoType.big_int)
  slot_rewards key =
      Slots.slot_rewards session.contract.contract_caller.contract session.call_opts key

  abbrev pub slot_snapshotter_mapping : BigInt → Returned (Meaning GoType.address)
  slot_snapshotter_mapping slot_id =
      Slots.slot_snapshotter_mapping session.contract.contract_caller.contract session.call_opts
        slot_id

  abbrev pub slot_submission_count : Address → BigInt → BigInt → Returned (Meaning GoType.big_int)
  slot_submission_count data_market slot_id day_id =
      Slots.slot_submission_count session.contract.contract_caller.contract session.call_opts
        data_market slot_id day_id
