-- ===== src/Collector.antt =====
-- pkgs/service/collector.go: the handler of a collector stream. The JSON codec and the Redis server
-- are parameters; a stream is the list of what its reads return.
pub mod Chunk
pub mod Round
pub mod Observed
pub mod Queue
pub mod Counters
pub mod Crash
pub mod Fatal
pub mod Delivery
pub mod Split
pub mod Program
pub mod System
pub mod Debts
pub mod Ledger
pub mod Progress
pub mod Turns
pub mod Emits
pub mod Shuffle
use libp2p_submission_sequen.Prelude.{
  ℕ, ◌+◌, ◌-◌, ◌*◌, Bytes, codes, List, [], ◌∷◌, ◌++◌, Option, none, some, Result, ok, err, length,
  replicate,
}
use libp2p_submission_sequen.Golang.Slice.{Slice, contents, slice_range, slice_from}
use libp2p_submission_sequen.Submission.{Request, SnapshotSubmission}
use libp2p_submission_sequen.Redis.Keys.{epoch_submission_counts_received_in_slot_key}
use libp2p_submission_sequen.Redis.Client.{incr, second}
use libp2p_submission_sequen.Redis.Server.{
  Command, RedisError, Reply, Server, World, M, pure, ◌>>=◌, ◌>>◌, call, error_of,
}

-- The map `queueData`, whose values are three strings; `body` is that of the key "data".
pub record QueueData : Type 0 where
  pub submission_id : Bytes
  pub data_market_address : Bytes
  pub body : Bytes

-- `json.Unmarshal` into a `SnapshotSubmission` (`none` is an error), and `json.Marshal` of a map.
pub record Codec : Type 0 where
  pub unmarshal : Bytes → Option SnapshotSubmission
  pub marshal : QueueData → Option Bytes

-- What one `stream.Read(buf)` returns: the bytes that it wrote, and its error.
pub data ReadError : Type 0 where
  eof : ReadError
  broken : Bytes → ReadError

pub record Read : Type 0 where
  pub received : Bytes
  pub failure : Option ReadError

-- How far a stream was handled. `waiting` is the handler in its next read; `crashed` is a panic,
-- which nothing recovers.
pub data Exit : Type 0 where
  waiting ended aborted crashed : Exit

abbrev pub buffer_size : ℕ
buffer_size = 1024

abbrev pub uuid_size : ℕ
uuid_size = 36

abbrev pub submission_queue : Bytes
submission_queue = codes "submissionQueue"

-- 5 minutes, in nanoseconds.
abbrev pub count_expiration : ℕ
count_expiration = 300 * second

abbrev pub parts : Option Slice → Option Slice → Option (Bytes × Bytes)
parts none submission = none
parts (some uuid) none = none
parts (some uuid) (some submission) = some (contents uuid, contents submission)

-- The two slice expressions of `parseSubmissionBytes`; `none` is the panic of either. Its error is
-- always nil. The first one may reach past the length, up to the capacity.
unfoldable pub parse_submission_bytes : Slice → Option (Bytes × Bytes)
parse_submission_bytes s = parts (slice_range s 0 (0 + uuid_size)) (slice_from s (0 + uuid_size))

-- `buf[:length]` of a fresh buffer that a read has filled from its beginning.
unfoldable pub filled : Bytes → Slice
filled received = record {
  array = received ++ replicate (buffer_size - length received) 0;
  len = length received;
}

-- The returns on an error of a read, and the loop's next round.
abbrev pub stop : ReadError → Exit
stop eof = ended
stop (broken e) = aborted

abbrev pub after_round : M Exit → Exit × World → Exit × World
after_round rest (waiting, w) = rest w
after_round rest (ended, w) = (ended, w)
after_round rest (aborted, w) = (aborted, w)
after_round rest (crashed, w) = (crashed, w)

abbrev pub after_read : Option ReadError → M Exit → M Exit → M Exit
after_read none round rest w = after_round rest (round w)
after_read (some e) round rest w = (stop e, w)

abbrev pub queue_data : Bytes → Bytes → SnapshotSubmission → QueueData
queue_data submission_id submission actual = record {
  submission_id = submission_id;
  data_market_address = actual.data_market;
  body = submission;
}

module _ (codec : Codec) (server : Server) where
  -- The end of a round, from the increment on. A nil request panics before its fields are read.
  unfoldable pub count_request : Bytes → Option Request → M Exit
  unfolding incr
  count_request data_market none = pure crashed
  count_request data_market (some request) =
      let key =
        epoch_submission_counts_received_in_slot_key data_market request.slot_id request.epoch_id in
      do incr server key; call server (Command.expire key count_expiration); pure waiting

  unfoldable pub after_push : SnapshotSubmission → Reply → M Exit
  unfolding count_request
  after_push submission (err e) = pure waiting
  after_push submission (ok v) = count_request submission.data_market submission.request

  -- `LPush`, for the JSON of the queue's entry if there is one.
  unfoldable pub push : SnapshotSubmission → Option Bytes → M Exit
  unfolding after_push
  push submission none = pure waiting
  push submission (some queue_data_json) = do
    r ← call server (Command.l_push submission_queue queue_data_json)
    after_push submission r

  abbrev pub handle_submission : Bytes → Bytes → Option SnapshotSubmission → M Exit
  handle_submission submission_id submission none = pure waiting
  handle_submission submission_id submission (some actual) =
      push actual (codec.marshal (queue_data submission_id submission actual))

  abbrev pub handle_parsed : Option (Bytes × Bytes) → M Exit
  handle_parsed none = pure crashed
  handle_parsed (some (submission_id, submission)) =
      handle_submission submission_id submission (codec.unmarshal submission)

  -- The loop's body behind a read without error.
  unfoldable pub handle_chunk : Bytes → M Exit
  unfolding push parse_submission_bytes
  handle_chunk received = handle_parsed (parse_submission_bytes (filled received))

  -- The loop: it goes on exactly after a round that ends in `waiting`.
  unfoldable pub handle_stream : List Read → M Exit
  handle_stream [] w = (waiting, w)
  handle_stream (r ∷ reads) w =
      after_read r.failure (handle_chunk r.received) (handle_stream reads) w
