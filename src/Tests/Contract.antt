-- ===== src/Tests/Contract.antt =====
-- The events at work: a node that answers two logs, of which the second may not unpack.
use libp2p_submission_sequen.Prelude.{
  ℕ, ◌+◌, ◌==◌, ◌≡◌, refl, Bytes, codes, false, List, [], ◌∷◌, Option, none, some, ok, length,
  if◌then◌else◌,
}
use libp2p_submission_sequen.Golang.Decimal.{pos}
use libp2p_submission_sequen.Contract.Event.{
  BoundContract, log, ended, Choice, arrived, accepted, quit, idle, Watch, watch_loop, watch_step,
}
use libp2p_submission_sequen.Contract.Watching.{Sends, taken_by, has_returned}
use libp2p_submission_sequen.Contract.Events.Epochs.{
  EpochReleased, filter_epoch_released, watch_epoch_released, run_epoch_released,
}
use libp2p_submission_sequen.Contract.Queries.{
  Reads, filter_epoch_released-Reads, watch_epoch_released-Sends,
}

abbrev released : ℕ → EpochReleased
released n = record {
  data_market_address = codes "0xE8";
  epoch_id = some (pos n);
  begin = some (pos (n + n));
  end = some (pos (n + n + 1));
  timestamp = some (pos 0);
}

abbrev unpack : ℕ → EpochReleased × Option Bytes
unpack n = if n == 9 then (released 0, some (codes "abi")) else (released n, none)

-- Logs are numbers; 9 is the one that does not unpack.
abbrev contract : BoundContract ℕ ℕ EpochReleased ℕ
contract = record {
  filter_logs = λ opts name rules. ok (log 1 ∷ ended none ∷ log 2 ∷ log 9 ∷ []);
  watch_logs = λ opts name rules. none;
  unpack_log = λ name n. unpack n;
  zero_log = 0;
}

abbrev epoch_released : Bytes
epoch_released = codes "EpochReleased"

filter_epoch_released-Reads_example :
    Reads contract epoch_released
      (1 ∷ 2 ∷ 9 ∷ [])
      none
      3
      (filter_epoch_released contract 0 (codes "0xE8" ∷ []) (some (pos 1) ∷ []))
filter_epoch_released-Reads_example =
    filter_epoch_released-Reads contract 0 (codes "0xE8" ∷ []) (some (pos 1) ∷ []) (1 ∷ []) none
      (2 ∷ 9 ∷ []) refl

abbrev choices : List (Choice ℕ)
choices = arrived 1 ∷ accepted ∷ arrived 2 ∷ quit ∷ []

watch_epoch_released-Sends_example :
    (w : Watch EpochReleased ℕ) × (watch_epoch_released contract 0 [] [] ≡ ok w)
    × Sends contract epoch_released
        (taken_by contract epoch_released choices w)
        (run_epoch_released contract choices w)
    × ((run_epoch_released contract choices w).unsubscribed
        ≡ has_returned contract epoch_released (run_epoch_released contract choices w).phase)
watch_epoch_released-Sends_example = watch_epoch_released-Sends contract 0 [] [] choices refl

abbrev fresh : Watch EpochReleased ℕ
fresh = record { phase = idle; sunk = []; unsubscribed = false }

-- The first log is sent; the second is lost, since the loop returns while it is on offer.
one_sent : length (watch_loop contract epoch_released choices fresh).sunk ≡ 1
unfolding watch_loop watch_step
one_sent = refl
