-- ===== src/Contract/Conformance/Slots.antt =====
-- What the reads on slots and their rewards promise.
use libp2p_submission_sequen.Prelude.{codes, [], ◌∷◌, some, refl}
use libp2p_submission_sequen.Golang.Decimal.{ℤ}
use libp2p_submission_sequen.Contract.Event.{Address}
use libp2p_submission_sequen.Contract.Values.{GoType, any}
use libp2p_submission_sequen.Contract.Serving.{CallSpec, OneOutput, Calls, call_one_lem}
use libp2p_submission_sequen.Contract.Sessions.Session.{ContractSession}
use libp2p_submission_sequen.Contract.Sessions.Slots

pub record ReadsSlots {C T Tx : Type 0} (P : CallSpec C) (session : ContractSession C T Tx)
    : Type 0 where
  pub check_slot_task_status_for_day :
      (data_market : Address) (slot_id : ℤ) (day : ℤ)
      → OneOutput P GoType.bool session.call_opts
          (codes "checkSlotTaskStatusForDay")
          (any GoType.address data_market
            ∷ any GoType.big_int (some slot_id)
            ∷ any GoType.big_int (some day)
            ∷ [])
          (Slots.check_slot_task_status_for_day session data_market (some slot_id) (some day))
  pub get_slot_info :
      (data_market : Address) (slot_id : ℤ)
      → OneOutput P GoType.slot_info session.call_opts
          (codes "getSlotInfo")
          (any GoType.address data_market ∷ any GoType.big_int (some slot_id) ∷ [])
          (Slots.get_slot_info session data_market (some slot_id))
  pub get_slot_rewards :
      (slot_id : ℤ)
      → OneOutput P GoType.big_int session.call_opts
          (codes "getSlotRewards")
          (any GoType.big_int (some slot_id) ∷ [])
          (Slots.get_slot_rewards session (some slot_id))
  pub reward_base_points :
      (data_market : Address)
      → OneOutput P GoType.big_int session.call_opts
          (codes "rewardBasePoints")
          (any GoType.address data_market ∷ [])
          (Slots.reward_base_points session data_market)
  pub rewards_enabled :
      (data_market : Address)
      → OneOutput P GoType.bool session.call_opts
          (codes "rewardsEnabled")
          (any GoType.address data_market ∷ [])
          (Slots.rewards_enabled session data_market)
  pub slot_counter :
      OneOutput P GoType.big_int session.call_opts
        (codes "slotCounter")
        []
        (Slots.slot_counter session)
  pub slot_reward_points :
      (data_market : Address) (slot_id : ℤ)
      → OneOutput P GoType.big_int session.call_opts
          (codes "slotRewardPoints")
          (any GoType.address data_market ∷ any GoType.big_int (some slot_id) ∷ [])
          (Slots.slot_reward_points session data_market (some slot_id))
  pub slot_rewards :
      (key : ℤ)
      → OneOutput P GoType.big_int session.call_opts
          (codes "slotRewards")
          (any GoType.big_int (some key) ∷ [])
          (Slots.slot_rewards session (some key))
  pub slot_snapshotter_mapping :
      (slot_id : ℤ)
      → OneOutput P GoType.address session.call_opts
          (codes "slotSnapshotterMapping")
          (any GoType.big_int (some slot_id) ∷ [])
          (Slots.slot_snapshotter_mapping session (some slot_id))
  pub slot_submission_count :
      (data_market : Address) (slot_id : ℤ) (day_id : ℤ)
      → OneOutput P GoType.big_int session.call_opts
          (codes "slotSubmissionCount")
          (any GoType.address data_market
            ∷ any GoType.big_int (some slot_id)
            ∷ any GoType.big_int (some day_id)
            ∷ [])
          (Slots.slot_submission_count session data_market (some slot_id) (some day_id))

pub Session-ReadsSlots :
    {C T Tx : Type 0} {P : CallSpec C} (session : ContractSession C T Tx)
    → Calls P session.contract.contract_caller.contract
    → ReadsSlots P session
Session-ReadsSlots session law = record {
  check_slot_task_status_for_day =
      λ data_market slot_id day. call_one_lem law GoType.bool _ _ _ _ refl refl refl refl refl;
  get_slot_info =
      λ data_market slot_id. call_one_lem law GoType.slot_info _ _ _ _ refl refl refl refl refl;
  get_slot_rewards = λ slot_id. call_one_lem law GoType.big_int _ _ _ _ refl refl refl refl refl;
  reward_base_points =
      λ data_market. call_one_lem law GoType.big_int _ _ _ _ refl refl refl refl refl;
  rewards_enabled = λ data_market. call_one_lem law GoType.bool _ _ _ _ refl refl refl refl refl;
  slot_counter = call_one_lem law GoType.big_int _ _ _ _ refl refl refl refl refl;
  slot_reward_points =
      λ data_market slot_id. call_one_lem law GoType.big_int _ _ _ _ refl refl refl refl refl;
  slot_rewards = λ key. call_one_lem law GoType.big_int _ _ _ _ refl refl refl refl refl;
  slot_snapshotter_mapping =
      λ slot_id. call_one_lem law GoType.address _ _ _ _ refl refl refl refl refl;
  slot_submission_count = λ data_market slot_id day_id.
      call_one_lem law GoType.big_int _ _ _ _ refl refl refl refl refl;
}
