-- ===== src/Collector/Crash.antt =====
-- The reads that end the process.
use libp2p_submission_sequen.Prelude.{
  ◌≡◌, ◌≢◌, ◌≤◌, ◌<◌, refl, Bytes, List, [], ◌∷◌, Option, none, some, ok, err, length, take, drop,
  All,
}
use libp2p_submission_sequen.Submission.{Request, SnapshotSubmission}
use libp2p_submission_sequen.Redis.Server.{Reply, Server, World, M, call}
use libp2p_submission_sequen.Redis.Client.{incr}
use libp2p_submission_sequen.Collector.Chunk.{parse_short, parse_long}
use libp2p_submission_sequen.Collector.{
  buffer_size, uuid_size, Codec, Exit, waiting, crashed, Read, ReadError, eof, broken, stop,
  count_request, after_push, push, handle_submission, handle_chunk, after_round, after_read,
  handle_stream,
}

module _ (codec : Codec) (server : Server) where
  -- A read without error of fewer than 36 bytes ends the process, with nothing sent and no later
  -- read handled.
  pub handle_stream_short :
      (r : Read) (reads : List Read) (w : World)
      → r.failure ≡ none
      → length r.received < uuid_size
      → handle_stream codec server (r ∷ reads) w ≡ (crashed, w)
  unfolding handle_stream handle_chunk
  handle_stream_short r reads w good short = rw (good, parse_short r.received short)

  -- A read that does not end the process: one with an error, or one with an identifier and a body that
  -- is no submission or one with a request.
  pub record IsSound (r : Read) : Type 0 where
    pub fits : length r.received ≤ buffer_size
    pub long : r.failure ≡ none → uuid_size ≤ length r.received
    pub has_request :
        r.failure ≡ none
        → (actual : SnapshotSubmission) → codec.unmarshal (drop uuid_size r.received) ≡ some actual
        → actual.request ≢ none

  count_request_safe :
      (market : Bytes) (request : Option Request) (w : World)
      → request ≢ none
      → (count_request codec server market request w).0 ≡ waiting
  unfolding count_request incr call
  count_request_safe market none w h = absurd (h refl)
  count_request_safe market (some request) w h = refl

  after_push_safe :
      (actual : SnapshotSubmission) (r : Reply) (w : World)
      → actual.request ≢ none
      → (after_push codec server actual r w).0 ≡ waiting
  unfolding after_push
  after_push_safe actual (err e) w h = refl
  after_push_safe actual (ok v) w h = count_request_safe actual.data_market actual.request w h

  push_safe :
      (actual : SnapshotSubmission) (json : Option Bytes) (w : World)
      → actual.request ≢ none
      → (push codec server actual json w).0 ≡ waiting
  unfolding push call
  push_safe actual none w h = refl
  push_safe actual (some json) w h = after_push_safe actual _ _ h

  submission_safe :
      (id submission : Bytes) (parsed : Option SnapshotSubmission) (w : World)
      → ((actual : SnapshotSubmission) → parsed ≡ some actual → actual.request ≢ none)
      → (handle_submission codec server id submission parsed w).0 ≡ waiting
  submission_safe id submission none w h = refl
  submission_safe id submission (some actual) w h = push_safe actual _ w (h actual refl)

  handle_chunk_safe :
      (r : Read) (w : World)
      → r.failure ≡ none
      → IsSound r
      → (handle_chunk codec server r.received w).0 ≡ waiting
  unfolding handle_chunk
  handle_chunk_safe r w good s = rw (parse_long r.received (s.long good) s.fits) (
      submission_safe (take uuid_size r.received) (drop uuid_size r.received) _ w
        (s.has_request good))

  after_round_waiting :
      (rest : M Exit) (result : Exit × World)
      → result.0 ≡ waiting
      → after_round rest result ≡ rest result.1
  after_round_waiting rest (exit, w) h = rw h

  pub stop_safe : (e : ReadError) → stop e ≢ crashed
  stop_safe eof h = cc
  stop_safe (broken m) h = cc

  after_read_safe :
      (failure : Option ReadError) (round rest : M Exit) (w : World)
      → (failure ≡ none → (round w).0 ≡ waiting)
      → ((v : World) → (rest v).0 ≢ crashed)
      → (after_read failure round rest w).0 ≢ crashed
  after_read_safe none round rest w h ih =
      rw (after_round_waiting rest (round w) (h refl)) (ih (round w).1)
  after_read_safe (some e) round rest w h ih = stop_safe e

  -- A stream whose reads are at most a buffer and, where they have no error, have an identifier,
  -- and a request if their body is a submission, never ends the process, whatever the server
  -- answers.
  pub handle_stream_safe :
      (reads : List Read) (w : World)
      → All IsSound reads
      → (handle_stream codec server reads w).0 ≢ crashed
  unfolding handle_stream
  handle_stream_safe [] w h = λ e. cc
  handle_stream_safe (r ∷ reads) w h =
      after_read_safe r.failure (handle_chunk codec server r.received)
        (handle_stream codec server reads) w (λ good. handle_chunk_safe r w good h.0)
        (λ v. handle_stream_safe reads v h.1)
