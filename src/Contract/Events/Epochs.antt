-- ===== src/Contract/Events/Epochs.antt =====
-- pkgs/contract/contract.go, the events of epochs and days.
use libp2p_submission_sequen.Prelude.{Bytes, codes, List, [], ◌∷◌, Result}
use libp2p_submission_sequen.Contract.Event.{
  Address, BigInt, address_rule, big_int_rule, Raised, Choice, BoundContract, Iterator, Verdict,
  Watch, filter, watch, watch_loop, parse, next,
}

pub record EpochReleased : Type 0 where
  pub data_market_address : Address
  pub epoch_id : BigInt
  pub begin : BigInt
  pub end : BigInt
  pub timestamp : BigInt

module _ {F W Log : Type 0} (contract : BoundContract F W EpochReleased Log) where
  unfoldable pub filter_epoch_released :
      F → List Address → List BigInt → Result Bytes (Iterator EpochReleased Log)
  filter_epoch_released opts data_market_address epoch_id =
      filter contract (codes "EpochReleased")
        (address_rule data_market_address ∷ big_int_rule epoch_id ∷ []) opts

  unfoldable pub watch_epoch_released :
      W → List Address → List BigInt → Result Bytes (Watch EpochReleased Log)
  watch_epoch_released opts data_market_address epoch_id =
      watch contract (codes "EpochReleased")
        (address_rule data_market_address ∷ big_int_rule epoch_id ∷ []) opts

  -- The loop of the subscription.
  unfoldable pub run_epoch_released :
      List (Choice Log) → Watch EpochReleased Log → Watch EpochReleased Log
  run_epoch_released = watch_loop contract (codes "EpochReleased")

  unfoldable pub parse_epoch_released : Log → Result Bytes (Raised EpochReleased Log)
  parse_epoch_released = parse contract (codes "EpochReleased")

  unfoldable pub next_epoch_released :
      Iterator EpochReleased Log → Verdict × Iterator EpochReleased Log
  next_epoch_released = next contract

pub record DayStartedEvent : Type 0 where
  pub data_market_address : Address
  pub day_id : BigInt
  pub timestamp : BigInt

module _ {F W Log : Type 0} (contract : BoundContract F W DayStartedEvent Log) where
  unfoldable pub filter_day_started_event :
      F → List Address → Result Bytes (Iterator DayStartedEvent Log)
  filter_day_started_event opts data_market_address =
      filter contract (codes "DayStartedEvent") (address_rule data_market_address ∷ []) opts

  unfoldable pub watch_day_started_event :
      W → List Address → Result Bytes (Watch DayStartedEvent Log)
  watch_day_started_event opts data_market_address =
      watch contract (codes "DayStartedEvent") (address_rule data_market_address ∷ []) opts

  -- The loop of the subscription.
  unfoldable pub run_day_started_event :
      List (Choice Log) → Watch DayStartedEvent Log → Watch DayStartedEvent Log
  run_day_started_event = watch_loop contract (codes "DayStartedEvent")

  unfoldable pub parse_day_started_event : Log → Result Bytes (Raised DayStartedEvent Log)
  parse_day_started_event = parse contract (codes "DayStartedEvent")

  unfoldable pub next_day_started_event :
      Iterator DayStartedEvent Log → Verdict × Iterator DayStartedEvent Log
  next_day_started_event = next contract

pub record DailyTaskCompletedEvent : Type 0 where
  pub data_market_address : Address
  pub snapshotter_address : Address
  pub slot_id : BigInt
  pub day_id : BigInt
  pub timestamp : BigInt

module _ {F W Log : Type 0} (contract : BoundContract F W DailyTaskCompletedEvent Log) where
  unfoldable pub filter_daily_task_completed_event :
      F → List Address → Result Bytes (Iterator DailyTaskCompletedEvent Log)
  filter_daily_task_completed_event opts data_market_address =
      filter contract (codes "DailyTaskCompletedEvent") (address_rule data_market_address ∷ []) opts

  unfoldable pub watch_daily_task_completed_event :
      W → List Address → Result Bytes (Watch DailyTaskCompletedEvent Log)
  watch_daily_task_completed_event opts data_market_address =
      watch contract (codes "DailyTaskCompletedEvent") (address_rule data_market_address ∷ []) opts

  -- The loop of the subscription.
  unfoldable pub run_daily_task_completed_event :
      List (Choice Log) → Watch DailyTaskCompletedEvent Log → Watch DailyTaskCompletedEvent Log
  run_daily_task_completed_event = watch_loop contract (codes "DailyTaskCompletedEvent")

  unfoldable pub parse_daily_task_completed_event :
      Log → Result Bytes (Raised DailyTaskCompletedEvent Log)
  parse_daily_task_completed_event = parse contract (codes "DailyTaskCompletedEvent")

  unfoldable pub next_daily_task_completed_event :
      Iterator DailyTaskCompletedEvent Log → Verdict × Iterator DailyTaskCompletedEvent Log
  next_daily_task_completed_event = next contract
