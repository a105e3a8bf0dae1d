-- ===== src/Contract/Queries.antt =====
-- Whole queries of the events: the filter, its topics, and what a client reads from its iterator.
use libp2p_submission_sequen.Prelude.{
  ℕ, false, ◌≡◌, ◌∙◌, ◌<◌, ◌+◌, refl, sym, ap, Bytes, codes, List, [], ◌∷◌, ◌++◌, map, Option, none,
  Result, ok, length, append_assoc, append-nil,
}
use libp2p_submission_sequen.Contract.Event.{
  Address, BigInt, Topic, address, big_int, append_items, BoundContract, Iterator, error, filter,
  iterator_over, Choice, Watch, idle, watch, subscribed,
}
use libp2p_submission_sequen.Contract.Iterate.{
  collect, collect_lem, decoded, deliveries, readable, running,
}
use libp2p_submission_sequen.Contract.Watching.{
  Sends, taken_by, has_returned, watch_loop-Sends, watch_loop-unsubscribed,
}
use libp2p_submission_sequen.Contract.Events.Epochs.{
  EpochReleased, filter_epoch_released, watch_epoch_released, run_epoch_released,
}

-- The topics of a rule are its items in order.
append_items-map {ℓ} :
    {A : Type ℓ} (inject : A → Topic) (items : List A) (rule : List Topic)
    → append_items inject items rule ≡ rule ++ map inject items
unfolding append_items
append_items-map inject [] rule = sym (append-nil rule)
append_items-map inject (item ∷ items) rule =
    append_items-map inject items (rule ++ inject item ∷ []) ∙ append_assoc rule _ _

rule_map {ℓ} :
    {A : Type ℓ} (inject : A → Topic) (items : List A)
    → append_items inject items [] ≡ map inject items
rule_map inject items = append_items-map inject items []

module _ {F W Args Log : Type 0} (contract : BoundContract F W Args Log) where
  -- A query that gave an iterator with which a client that makes enough calls reads the events of
  -- these logs, and the error of the first that cannot be unpacked or of the query.
  pub record Reads (name : Bytes) (ls : List Log) (final : Option Bytes) (enough : ℕ)
      (r : Result Bytes (Iterator Args Log)) : Type 0 where
    pub iterator : Iterator Args Log
    pub given : r ≡ ok iterator
    pub events :
        (fuel : ℕ)
        → enough < fuel
        → (collect contract fuel iterator).0 ≡ (decoded contract name ls final).0
    pub failure :
        (fuel : ℕ)
        → enough < fuel
        → error contract (collect contract fuel iterator).1 ≡ (decoded contract name ls final).1

  filter-Reads :
      (name : Bytes) (rules : List (List Topic)) (opts : F) (before : List Log)
      (final : Option Bytes) (after : List Log)
      → contract.filter_logs opts name rules ≡ ok (deliveries contract before final after)
      → Reads name
          (readable contract before final after)
          final
          (length before + length after)
          (filter contract name rules opts)
  unfolding filter
  filter-Reads name rules opts before final after h = record {
    iterator = running contract name (deliveries contract before final after) none;
    given = ap (iterator_over contract name) h;
    events = λ fuel long. (collect_lem contract name before final after none fuel long).0;
    failure = λ fuel long. (collect_lem contract name before final after none fuel long).1;
  }

-- If the node answers the query for the data markets and epochs, as the topics of the first two
-- arguments, and the end of the query, with or without an error, is received behind some of its
-- logs and before the others, then a client that makes more calls of Next than there are logs
-- reads, in order, the event of each log, those behind an end with an error excepted, up to the
-- first that cannot be unpacked, and its error or that of the query.
pub filter_epoch_released-Reads :
    {F W Log : Type 0} (contract : BoundContract F W EpochReleased Log) (opts : F)
    (data_markets : List Address) (epochs : List BigInt) (before : List Log) (final : Option Bytes)
    (after : List Log)
    → contract.filter_logs opts
        (codes "EpochReleased")
        (map address data_markets ∷ map big_int epochs ∷ [])
      ≡ ok (deliveries contract before final after)
    → Reads contract
        (codes "EpochReleased")
        (readable contract before final after)
        final
        (length before + length after)
        (filter_epoch_released contract opts data_markets epochs)
unfolding filter_epoch_released
filter_epoch_released-Reads contract opts data_markets epochs before final after h =
    filter-Reads contract (codes "EpochReleased") _ opts before final after
      (rw (rule_map address data_markets, rule_map big_int epochs) h)

-- If the node accepts the subscription for the data markets and epochs, its loop sends the events
-- of the logs that it takes, in order, all but at most the last, and gives the subscription up
-- exactly when it has returned.
pub watch_epoch_released-Sends :
    {F W Log : Type 0} (contract : BoundContract F W EpochReleased Log) (opts : W)
    (data_markets : List Address) (epochs : List BigInt) (cs : List (Choice Log))
    → contract.watch_logs opts
        (codes "EpochReleased")
        (map address data_markets ∷ map big_int epochs ∷ [])
      ≡ none
    → (w : Watch EpochReleased Log) × (watch_epoch_released contract opts data_markets epochs
        ≡ ok w)
      × Sends contract
          (codes "EpochReleased")
          (taken_by contract (codes "EpochReleased") cs w)
          (run_epoch_released contract cs w)
      × ((run_epoch_released contract cs w).unsubscribed
          ≡ has_returned contract (codes "EpochReleased") (run_epoch_released contract cs w).phase)
unfolding watch_epoch_released run_epoch_released watch
watch_epoch_released-Sends contract opts data_markets epochs cs h = (
  record { phase = idle; sunk = []; unsubscribed = false },
  ap (subscribed contract) {y = none}
      (rw (rule_map address data_markets, rule_map big_int epochs) h),
  watch_loop-Sends contract (codes "EpochReleased") cs _,
  watch_loop-unsubscribed contract (codes "EpochReleased") cs _ refl,
)
