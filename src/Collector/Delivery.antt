-- ===== src/Collector/Delivery.antt =====
-- A sender whose messages arrive one in each read: all of them are queued and counted.
use libp2p_submission_sequen.Prelude.{
  ◌≡◌, ◌≤◌, ◌∙◌, refl, ap, arith, Bytes, List, [], ◌∷◌, ◌++◌, none, some, ok, All, length, take_at,
  drop_at, length-append,
}
use libp2p_submission_sequen.Submission.{Request, SnapshotSubmission}
use libp2p_submission_sequen.Redis.Keys.{epoch_submission_counts_received_in_slot_key}
use libp2p_submission_sequen.Redis.Server.{exchange, Command, Value, Exchange, Server, World, call}
use libp2p_submission_sequen.Redis.Client.{incr}
use libp2p_submission_sequen.Collector.Chunk.{parse_long}
use libp2p_submission_sequen.Collector.Round.{pushing, extended, regrouped}
use libp2p_submission_sequen.Collector.Observed.{
  pushes, increments, expirations, extended-append, extended-nil,
}
use libp2p_submission_sequen.Collector.{
  buffer_size, uuid_size, count_expiration, Codec, QueueData, queue_data, Exit, waiting, Read,
  after_round, count_request, after_push, push, handle_chunk, handle_stream,
}

-- What a sender submits: an identifier and a body, with what the body is the JSON of.
pub record Message : Type 0 where
  pub id : Bytes
  pub body : Bytes
  pub submission : SnapshotSubmission
  pub request : Request

abbrev pub key_of : Message → Bytes
key_of m =
    epoch_submission_counts_received_in_slot_key m.submission.data_market m.request.slot_id
      m.request.epoch_id

-- An encoder of the queue's entries that never fails, and a server that acknowledges every push.
pub record IsDelivering (codec : Codec) (server : Server) : Type 0 where
  pub entry_json : QueueData → Bytes
  pub marshal_total : (q : QueueData) → codec.marshal q ≡ some (entry_json q)
  pub acknowledgement : List Exchange → Bytes → Value
  pub acknowledges :
      (h : List Exchange) (json : Bytes) → server h (pushing json) ≡ ok (acknowledgement h json)

module _ (codec : Codec) (server : Server) (law : IsDelivering codec server) where
  abbrev pub sent_as : Message → Read
  sent_as m = record { received = m.id ++ m.body; failure = none }

  pub record Fitting (m : Message) : Type 0 where
    pub identified : length m.id ≡ uuid_size
    pub fits : length (m.id ++ m.body) ≤ buffer_size
    pub readable : codec.unmarshal m.body ≡ some m.submission
    pub requested : m.submission.request ≡ some m.request

  abbrev pub json_of : Message → Bytes
  json_of m = law.entry_json (queue_data m.id m.body m.submission)

  abbrev pub sent_by : List Message → List Read
  sent_by [] = []
  sent_by (m ∷ ms) = sent_as m ∷ sent_by ms

  abbrev pub jsons_of : List Message → List Bytes
  jsons_of [] = []
  jsons_of (m ∷ ms) = json_of m ∷ jsons_of ms

  abbrev pub keys_of : List Message → List Bytes
  keys_of [] = []
  keys_of (m ∷ ms) = key_of m ∷ keys_of ms

  -- The exchanges of one message: the server's replies are to what was sent before.
  abbrev pushed : World → Message → Exchange
  pushed w m = exchange (pushing (json_of m)) (ok (law.acknowledgement w.history (json_of m)))

  abbrev counting : World → Message → Exchange
  counting w m =
      exchange (Command.incr (key_of m))
        (server (w.history ++ pushed w m ∷ []) (Command.incr (key_of m)))

  abbrev limiting : World → Message → Exchange
  limiting w m = exchange (Command.expire (key_of m) count_expiration) (
      server ((w.history ++ pushed w m ∷ []) ++ counting w m ∷ [])
        (Command.expire (key_of m) count_expiration))

  abbrev exchanges : World → Message → List Exchange
  exchanges w m = pushed w m ∷ counting w m ∷ limiting w m ∷ []

  handle_chunk_message :
      (m : Message) (w : World)
      → Fitting m
      → handle_chunk codec server (m.id ++ m.body) w ≡ (waiting, extended w (exchanges w m))
  unfolding handle_chunk push after_push count_request call incr
  handle_chunk_message m w f =
      rw
        (
          parse_long (m.id ++ m.body) (omega (arith, f.identified, length-append m.id m.body))
              f.fits,
          take_at uuid_size m.id m.body f.identified,
          drop_at uuid_size m.id m.body f.identified,
          f.readable,
          law.marshal_total,
          law.acknowledges,
          f.requested,
        )
        (ap (λ (v : World). (waiting, v)) (regrouped w _ _ _))

  -- What a run of a stream from `w` leaves, when it delivers `ms`.
  pub record Delivered (ms : List Message) (w : World) (result : Exit × World) : Type 0 where
    pub added : List Exchange
    pub appended : result ≡ (waiting, extended w added)
    pub queued : pushes added ≡ jsons_of ms
    pub counted : increments added ≡ keys_of ms
    pub limited : expirations added ≡ keys_of ms

  deliver_next :
      (m : Message) (ms : List Message) (w : World)
      → Fitting m
      → Delivered ms
          (extended w (exchanges w m))
          (handle_stream codec server (sent_by ms) (extended w (exchanges w m)))
      → Delivered (m ∷ ms) w (handle_stream codec server (sent_by (m ∷ ms)) w)
  unfolding handle_stream
  deliver_next m ms w f d = record {
    added = exchanges w m ++ d.added;
    appended =
        ap (after_round (handle_stream codec server (sent_by ms))) (handle_chunk_message m w f)
        ∙ d.appended
        ∙ ap (λ (v : World). (waiting, v)) (extended-append w (exchanges w m) d.added);
    queued = ap (λ (t : List Bytes). json_of m ∷ t) d.queued;
    counted = ap (λ (t : List Bytes). key_of m ∷ t) d.counted;
    limited = ap (λ (t : List Bytes). key_of m ∷ t) d.limited;
  }

  -- If the encoder of entries never fails and the server acknowledges every push, then a stream of
  -- messages, one in each read, each of an identifier of 36 bytes and a body that is the JSON of a
  -- submission with a request, and at most a buffer, puts the entry of every message into the queue
  -- in order, increments the counter of each and sets its expiration, and waits for the next read
  -- with no alert raised.
  pub handle_stream-Delivered :
      (ms : List Message) (w : World)
      → All Fitting ms
      → Delivered ms w (handle_stream codec server (sent_by ms) w)
  unfolding handle_stream
  handle_stream-Delivered [] w f = record {
    added = [];
    appended = ap (λ (v : World). (waiting, v)) (extended-nil w);
    queued = refl;
    counted = refl;
    limited = refl;
  }
  handle_stream-Delivered (m ∷ ms) w f = deliver_next m ms w f.0 (handle_stream-Delivered ms _ f.1)
