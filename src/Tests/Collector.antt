-- ===== src/Tests/Collector.antt =====
-- The collector at work.
use libp2p_submission_sequen.Prelude.{
  ℕ, ◌≡◌, ◌≢◌, ◌<◌, ◌↔◌, ◌⊎◌, refl, arith, codes, List, [], ◌∷◌, ◌++◌, none, some, if◌then◌else◌,
  leb, length, take, drop,
}
use libp2p_submission_sequen.Redis.Server.{integer, call}
use libp2p_submission_sequen.Golang.Slice.{slice_range, slice_from}
use libp2p_submission_sequen.Golang.Decimal.{pos}
use libp2p_submission_sequen.Redis.Keys.{epoch_submission_counts_key_injective}
use libp2p_submission_sequen.Collector.{
  uuid_size, ended, crashed, Read, parse_submission_bytes, filled, handle_chunk, handle_stream,
}
use libp2p_submission_sequen.Collector.Chunk.{parse_submission_bytes_lem}
use libp2p_submission_sequen.Collector.Round.{entry, Ran, handle_chunk-Ran}
use libp2p_submission_sequen.Collector.Observed.{entries, Streamed}
use libp2p_submission_sequen.Collector.Queue.{InOrder, handle_stream-InOrder}
use libp2p_submission_sequen.Collector.Counters.{BalancedFor, handle_stream-Balanced}
use libp2p_submission_sequen.Collector.Crash.{IsSound, handle_stream_safe, handle_stream_short}
use libp2p_submission_sequen.Collector.Fatal.{Unanswerable, handle_chunk-crashed}
use libp2p_submission_sequen.Collector.Delivery.{
  Message, IsDelivering, Fitting, Delivered, sent_by, handle_stream-Delivered,
}
use libp2p_submission_sequen.Collector.Split.{read_of, handle_stream_split}
use libp2p_submission_sequen.Tests.Data.{
  memory, codec, good, refused, unnamed, short, at_end, start, identifier, market, request,
  submission_with,
}

abbrev two_rounds : List Read
two_rounds = good ∷ refused ∷ good ∷ at_end ∷ []

-- Two entries are pushed, counted, and the stream ends.
two_rounds_end : (handle_stream codec memory two_rounds start).0 ≡ ended
unfolding handle_stream handle_chunk slice_range slice_from filled call
two_rounds_end = refl

six_commands : length (handle_stream codec memory two_rounds start).1.history ≡ 6
unfolding handle_stream handle_chunk slice_range slice_from filled call
six_commands = refl

handle_stream-InOrder_example :
    Streamed InOrder start (entries codec two_rounds) (handle_stream codec memory two_rounds start)
handle_stream-InOrder_example = handle_stream-InOrder codec memory two_rounds start (omega arith)

handle_stream-Balanced_example :
    Streamed BalancedFor start
      (entries codec two_rounds)
      (handle_stream codec memory two_rounds start)
handle_stream-Balanced_example = handle_stream-Balanced codec memory two_rounds start (omega arith)

pub good-IsSound : IsSound codec memory good
good-IsSound = record {
  fits = omega arith;
  long = λ _. omega arith;
  has_request = λ _ actual e h. cc;
}

refused-IsSound : IsSound codec memory refused
refused-IsSound = record {
  fits = omega arith;
  long = λ _. omega arith;
  has_request = λ _ actual e h. cc;
}

pub at_end-IsSound : IsSound codec memory at_end
at_end-IsSound = record { fits = omega arith; long = λ e. cc; has_request = λ e. cc }

handle_stream_safe_example : (handle_stream codec memory two_rounds start).0 ≢ crashed
handle_stream_safe_example =
    handle_stream_safe codec memory two_rounds start
      (good-IsSound, (refused-IsSound, (good-IsSound, (at_end-IsSound, tt))))

parse_submission_bytes_lem_example : parse_submission_bytes (filled good.received) ≡ (
    if leb uuid_size (length good.received)
    then some (take uuid_size good.received, drop uuid_size good.received)
    else none)
parse_submission_bytes_lem_example = parse_submission_bytes_lem good.received (omega arith)

handle_chunk-Ran_example :
    Ran start (entry codec good.received) (handle_chunk codec memory good.received start)
handle_chunk-Ran_example = handle_chunk-Ran codec memory start good.received (omega arith)

handle_stream_short_example :
    handle_stream codec memory (short ∷ good ∷ []) start ≡ (crashed, start)
handle_stream_short_example =
    handle_stream_short codec memory short (good ∷ []) start refl (omega arith)

handle_chunk-crashed_example :
    ((handle_chunk codec memory unnamed.received start).0 ≡ crashed)
    ↔ ((length unnamed.received < uuid_size) ⊎ Unanswerable codec memory unnamed.received start)
handle_chunk-crashed_example =
    handle_chunk-crashed codec memory unnamed.received start (omega arith)

abbrev slot : ℕ
slot = 7

abbrev epoch : ℕ
epoch = 42

epoch_submission_counts_key_injective_example : (market ≡ market) × (slot ≡ slot) × (epoch ≡ epoch)
epoch_submission_counts_key_injective_example =
    epoch_submission_counts_key_injective market market slot slot epoch epoch refl

pub memory-IsDelivering : IsDelivering codec memory
memory-IsDelivering = record {
  entry_json = λ q. q.submission_id ++ q.data_market_address ++ q.body;
  marshal_total = λ q. refl;
  acknowledgement = λ h json. integer (pos 1);
  acknowledges = λ h json. refl;
}

abbrev pub message : Message
message = record {
  id = identifier;
  body = codes "{r}";
  submission = submission_with (some request);
  request = request;
}

pub message-Fitting : Fitting codec memory memory-IsDelivering message
message-Fitting = record {
  identified = omega arith;
  fits = omega arith;
  readable = refl;
  requested = refl;
}

handle_stream-Delivered_example :
    Delivered codec memory memory-IsDelivering (message ∷ message ∷ []) start (
      handle_stream codec memory
        (sent_by codec memory memory-IsDelivering (message ∷ message ∷ []))
        start)
handle_stream-Delivered_example =
    handle_stream-Delivered codec memory memory-IsDelivering (message ∷ message ∷ []) start
      (message-Fitting, (message-Fitting, tt))

-- The submission arrives behind its identifier and a brace.
handle_stream_split_example :
    handle_stream codec memory
      (read_of (identifier ++ codes "{") ∷ read_of (codes "r}") ∷ at_end ∷ [])
      start
    ≡ (crashed, start)
handle_stream_split_example =
    handle_stream_split codec memory (identifier ++ codes "{") (codes "r}") (at_end ∷ []) start
      (omega arith) refl (omega arith)
