-- ===== src/Contract/Callers/Slots.antt =====
-- pkgs/contract/contract.go: the methods of `ContractCaller` on slots and their rewards.
use libp2p_submission_sequen.Prelude.{codes, [], ◌∷◌}
use libp2p_submission_sequen.Contract.Event.{Address}
use libp2p_submission_sequen.Contract.Values.{GoType, Meaning, BigInt, any}
use libp2p_submission_sequen.Contract.Bound.{BoundCalls, Returned, call_one}

module _ {C T Tx : Type 0} (bound : BoundCalls C T Tx) where
  abbrev pub check_slot_task_status_for_day :
      C → Address → BigInt → BigInt → Returned (Meaning GoType.bool)
  check_slot_task_status_for_day opts data_market slot_id day =
      call_one bound GoType.bool opts (codes "checkSlotTaskStatusForDay")
        (any GoType.address data_market ∷ any GoType.big_int slot_id ∷ any GoType.big_int day ∷ [])

  abbrev pub get_slot_info : C → Address → BigInt → Returned (Meaning GoType.slot_info)
  get_slot_info opts data_market slot_id =
      call_one bound GoType.slot_info opts (codes "getSlotInfo")
        (any GoType.address data_market ∷ any GoType.big_int slot_id ∷ [])

  abbrev pub get_slot_rewards : C → BigInt → Returned (Meaning GoType.big_int)
  get_slot_rewards opts slot_id =
      call_one bound GoType.big_int opts (codes "getSlotRewards") (any GoType.big_int slot_id ∷ [])

  abbrev pub reward_base_points : C → Address → Returned (Meaning GoType.big_int)
  reward_base_points opts data_market =
      call_one bound GoType.big_int opts (codes "rewardBasePoints")
        (any GoType.address data_market ∷ [])

  abbrev pub rewards_enabled : C → Address → Returned (Meaning GoType.bool)
  rewards_enabled opts data_market =
      call_one bound GoType.bool opts (codes "rewardsEnabled") (any GoType.address data_market ∷ [])

  abbrev pub slot_counter : C → Returned (Meaning GoType.big_int)
  slot_counter opts = call_one bound GoType.big_int opts (codes "slotCounter") []

  abbrev pub slot_reward_points : C → Address → BigInt → Returned (Meaning GoType.big_int)
  slot_reward_points opts data_market slot_id =
      call_one bound GoType.big_int opts (codes "slotRewardPoints")
        (any GoType.address data_market ∷ any GoType.big_int slot_id ∷ [])

  abbrev pub slot_rewards : C → BigInt → Returned (Meaning GoType.big_int)
  slot_rewards opts key =
      call_one bound GoType.big_int opts (codes "slotRewards") (any GoType.big_int key ∷ [])

  abbrev pub slot_snapshotter_mapping : C → BigInt → Returned (Meaning GoType.address)
  slot_snapshotter_mapping opts slot_id =
      call_one bound GoType.address opts (codes "slotSnapshotterMapping")
        (any GoType.big_int slot_id ∷ [])

  abbrev pub slot_submission_count :
      C → Address → BigInt → BigInt → Returned (Meaning GoType.big_int)
  slot_submission_count opts data_market slot_id day_id =
      call_one bound GoType.big_int opts (codes "slotSubmissionCount") (
        any GoType.address data_market
        ∷ any GoType.big_int slot_id
        ∷ any GoType.big_int day_id
        ∷ [])
