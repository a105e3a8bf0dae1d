-- ===== src/Collector/Program.antt =====
-- The handler as what it sends and what it does with each reply, so that handlers of several streams
-- can take turns between two commands.
use libp2p_submission_sequen.Prelude.{
  ◌≡◌, ◌∙◌, refl, ap, Bytes, List, [], ◌∷◌, Option, none, some, ok, err,
}
use libp2p_submission_sequen.Submission.{Request, SnapshotSubmission}
use libp2p_submission_sequen.Redis.Keys.{epoch_submission_counts_received_in_slot_key}
use libp2p_submission_sequen.Redis.Server.{Command, Reply, Server, World, M, call}
use libp2p_submission_sequen.Redis.Client.{incr}
use libp2p_submission_sequen.Collector.{
  submission_queue, count_expiration, Codec, queue_data, Exit, waiting, ended, aborted, crashed,
  Read, ReadError, stop, filled, parse_submission_bytes, count_request, after_push, push,
  handle_submission, handle_parsed, handle_chunk, after_round, after_read, handle_stream,
}

pub data Program : Type 0 where
  finished : Exit → Program
  sends : Command → (Reply → Program) → Program

unfoldable pub run : Server → Program → M Exit
run server (finished e) w = (e, w)
run server (sends c k) w = let (r, w') = call server c w in run server (k r) w'

-- A round, and the rest of the loop.
unfoldable pub followed_by : Program → Program → Program
followed_by (finished waiting) rest = rest
followed_by (finished ended) rest = finished ended
followed_by (finished aborted) rest = finished aborted
followed_by (finished crashed) rest = finished crashed
followed_by (sends c k) rest = sends c (λ r. followed_by (k r) rest)

unfoldable pub counting_program : Bytes → Option Request → Program
counting_program data_market none = finished crashed
counting_program data_market (some request) =
    let key =
      epoch_submission_counts_received_in_slot_key data_market request.slot_id request.epoch_id in
    sends (Command.incr key)
      (λ _. sends (Command.expire key count_expiration) (λ _. finished waiting))

unfoldable pub pushed_program : SnapshotSubmission → Reply → Program
pushed_program actual (err e) = finished waiting
pushed_program actual (ok v) = counting_program actual.data_market actual.request

unfoldable pub pushing_program : SnapshotSubmission → Option Bytes → Program
pushing_program actual none = finished waiting
pushing_program actual (some json) =
    sends (Command.l_push submission_queue json) (pushed_program actual)

module _ (codec : Codec) where
  abbrev pub submission_program : Bytes → Bytes → Option SnapshotSubmission → Program
  submission_program id submission none = finished waiting
  submission_program id submission (some actual) =
      pushing_program actual (codec.marshal (queue_data id submission actual))

  abbrev pub parsed_program : Option (Bytes × Bytes) → Program
  parsed_program none = finished crashed
  parsed_program (some (id, submission)) =
      submission_program id submission (codec.unmarshal submission)

  unfoldable pub chunk_program : Bytes → Program
  chunk_program received = parsed_program (parse_submission_bytes (filled received))

  abbrev pub reading_program : Option ReadError → Program → Program → Program
  reading_program none round rest = followed_by round rest
  reading_program (some e) round rest = finished (stop e)

  -- The loop over the reads.
  unfoldable pub stream_program : List Read → Program
  stream_program [] = finished waiting
  stream_program (r ∷ reads) =
      reading_program r.failure (chunk_program r.received) (stream_program reads)

module _ (codec : Codec) (server : Server) where
  run-counting :
      (market : Bytes) (request : Option Request) (w : World)
      → run server (counting_program market request) w ≡ count_request codec server market request w
  unfolding run counting_program count_request incr call
  run-counting market none w = refl
  run-counting market (some request) w = refl

  run-pushed :
      (actual : SnapshotSubmission) (r : Reply) (w : World)
      → run server (pushed_program actual r) w ≡ after_push codec server actual r w
  unfolding run pushed_program after_push
  run-pushed actual (err e) w = refl
  run-pushed actual (ok v) w = run-counting actual.data_market actual.request w

  run-pushing :
      (actual : SnapshotSubmission) (json : Option Bytes) (w : World)
      → run server (pushing_program actual json) w ≡ push codec server actual json w
  unfolding run pushing_program push call
  run-pushing actual none w = refl
  run-pushing actual (some json) w = run-pushed actual _ _

  run-submission :
      (id submission : Bytes) (actual : Option SnapshotSubmission) (w : World)
      → run server (submission_program codec id submission actual) w
        ≡ handle_submission codec server id submission actual w
  unfolding run
  run-submission id submission none w = refl
  run-submission id submission (some actual) w = run-pushing actual _ w

  run-parsed :
      (parsed : Option (Bytes × Bytes)) (w : World)
      → run server (parsed_program codec parsed) w ≡ handle_parsed codec server parsed w
  unfolding run
  run-parsed none w = refl
  run-parsed (some (id, submission)) w = run-submission id submission _ w

  run-followed_by :
      (round rest : Program) (w : World)
      → run server (followed_by round rest) w ≡ after_round (run server rest) (run server round w)
  unfolding run followed_by call
  run-followed_by (finished waiting) rest w = refl
  run-followed_by (finished ended) rest w = refl
  run-followed_by (finished aborted) rest w = refl
  run-followed_by (finished crashed) rest w = refl
  run-followed_by (sends c k) rest w = run-followed_by (k (server w.history c)) rest _

  after_round_same :
      (rest handles : M Exit) (result : Exit × World)
      → ((v : World) → rest v ≡ handles v)
      → after_round rest result ≡ after_round handles result
  after_round_same rest handles (waiting, w) es = es w
  after_round_same rest handles (ended, w) es = refl
  after_round_same rest handles (aborted, w) es = refl
  after_round_same rest handles (crashed, w) es = refl

  run-reading :
      (failure : Option ReadError) (round rest : Program) (handle handles : M Exit) (w : World)
      → run server round w ≡ handle w
      → ((v : World) → run server rest v ≡ handles v)
      → run server (reading_program codec failure round rest) w
        ≡ after_read failure handle handles w
  unfolding run
  run-reading none round rest handle handles w e es =
      run-followed_by round rest w
      ∙ ap (after_round (run server rest)) e
      ∙ after_round_same (run server rest) handles (handle w) es
  run-reading (some f) round rest handle handles w e es = refl

  -- A stream whose commands are sent one after the other, with no other stream between them, does
  -- what the handler does: it ends as the handler does and leaves the same exchanges and alerts.
  pub run-stream_program :
      (reads : List Read) (w : World)
      → run server (stream_program codec reads) w ≡ handle_stream codec server reads w
  unfolding run stream_program handle_stream handle_chunk chunk_program
  run-stream_program [] w = refl
  run-stream_program (r ∷ reads) w =
      run-reading r.failure _ _ (handle_chunk codec server r.received)
        (handle_stream codec server reads) w
        (run-parsed (parse_submission_bytes (filled r.received)) w) (run-stream_program reads)
