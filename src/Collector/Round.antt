-- ===== src/Collector/Round.antt =====
-- The exchanges of one round of the handler's loop, in all the ways that it can end.
use libp2p_submission_sequen.Prelude.{
  ◌≡◌, inl, inr, refl, sym, ap, Bytes, List, [], ◌∷◌, ◌++◌, Option, none, some, ok, err,
  append_assoc, append-nil, Bool-cases, leb, ◌≤◌, length, take, drop, if◌then◌else◌,
}
use libp2p_submission_sequen.Submission.{Request, SnapshotSubmission}
use libp2p_submission_sequen.Redis.Keys.{epoch_submission_counts_received_in_slot_key}
use libp2p_submission_sequen.Redis.Server.{
  exchange, Command, RedisError, Value, Reply, Exchange, Server, World, call, answered,
}
use libp2p_submission_sequen.Collector.Chunk.{parse_submission_bytes_lem}
use libp2p_submission_sequen.Collector.{
  uuid_size, buffer_size, Codec, Exit, waiting, crashed, submission_queue, count_expiration,
  count_request, handle_submission, after_push, push, handle_chunk,
}

abbrev pub pushing : Bytes → Command
pushing json = Command.l_push submission_queue json

-- What a read asks for: an entry of the queue and the key of its counter, if it has a request.
pub record Wanted : Type 0 where
  pub json : Bytes
  pub counter : Option Bytes

abbrev pub counter_key : Bytes → Option Request → Option Bytes
counter_key market none = none
counter_key market (some request) =
    some (epoch_submission_counts_received_in_slot_key market request.slot_id request.epoch_id)

-- The entry is the JSON of the identifier, the data market and the body, where the read has an
-- identifier and the body is the JSON of a submission.
module _ (codec : Codec) where
  abbrev pub optional_entry : SnapshotSubmission → Option Bytes → List Wanted
  optional_entry actual none = []
  optional_entry actual (some json) =
      record { json = json; counter = counter_key actual.data_market actual.request } ∷ []

  abbrev pub submission_entry : Bytes → Bytes → Option SnapshotSubmission → List Wanted
  submission_entry id body none = []
  submission_entry id body (some actual) = optional_entry actual (
      codec.marshal
        (record { submission_id = id; data_market_address = actual.data_market; body = body }))

  abbrev pub entry : Bytes → List Wanted
  entry received =
      if leb uuid_size (length received)
      then submission_entry (take uuid_size received) (drop uuid_size received)
          (codec.unmarshal (drop uuid_size received))
      else []

-- The exchanges `added` by a round whose read asks for `wanted`, and its `exit`. `skipped` and
-- `malformed` sent nothing; `refused` and `unnamed` sent a push only.
pub data Round (exit : Exit) (wanted : List Wanted) (added : List Exchange) : Type 0 where
  skipped : exit ≡ waiting → wanted ≡ [] → added ≡ [] → Round exit wanted added
  malformed : exit ≡ crashed → wanted ≡ [] → added ≡ [] → Round exit wanted added
  refused :
      (json : Bytes) (counter : Option Bytes) (e : RedisError)
      → exit ≡ waiting
      → wanted ≡ record { json = json; counter = counter } ∷ []
      → added ≡ exchange (pushing json) (err e) ∷ []
      → Round exit wanted added
  unnamed :
      (json : Bytes) (v : Value)
      → exit ≡ crashed
      → wanted ≡ record { json = json; counter = none } ∷ []
      → added ≡ exchange (pushing json) (ok v) ∷ []
      → Round exit wanted added
  counted :
      (json key : Bytes) (v : Value) (r r' : Reply)
      → exit ≡ waiting
      → wanted ≡ record { json = json; counter = some key } ∷ []
      → added
        ≡ exchange (pushing json) (ok v)
          ∷ exchange (Command.incr key) r
          ∷ exchange (Command.expire key count_expiration) r'
          ∷ []
      → Round exit wanted added

abbrev pub extended : World → List Exchange → World
extended w added = record w { history = w.history ++ added }

-- What a round does to the world: it appends the exchanges of a `Round`, and raises no alert.
abbrev pub Ran : World → List Wanted → Exit × World → Type 0
Ran w wanted result =
    (added : List Exchange) × (result.1 ≡ extended w added) × Round result.0 wanted added

abbrev unchanged : (w : World) → w ≡ extended w []
unchanged w = ap (λ (h : List Exchange). record w { history = h }) (sym (append-nil w.history))

pub regrouped :
    (w : World) (a b c : Exchange)
    → extended (extended (extended w (a ∷ [])) (b ∷ [])) (c ∷ []) ≡ extended w (a ∷ b ∷ c ∷ [])
regrouped w a b c = simp append_assoc

module _ (codec : Codec) (server : Server) (w : World) where
  count_request-Ran :
      (market json : Bytes) (v : Value) (request : Option Request)
      → Ran w
          (record { json = json; counter = counter_key market request } ∷ [])
          (count_request codec server market request (answered (pushing json) (ok v) w))
  unfolding count_request call
  count_request-Ran market json v none = (_, refl, unnamed json v refl refl refl)
  count_request-Ran market json v (some request) =
      let key =
        epoch_submission_counts_received_in_slot_key market request.slot_id request.epoch_id in
      let h = w.history ++ exchange (pushing json) (ok v) ∷ [] in
      let r : Reply = server h (Command.incr key) in
      let r' : Reply =
        server (h ++ exchange (Command.incr key) r ∷ []) (Command.expire key count_expiration) in
      (
        exchange (pushing json) (ok v)
            ∷ exchange (Command.incr key) r
            ∷ exchange (Command.expire key count_expiration) r'
            ∷ [],
        regrouped w _ _ _,
        counted json key v r r' refl refl refl,
      )

  after_push-Ran :
      (actual : SnapshotSubmission) (json : Bytes) (r : Reply)
      → Ran w
          (record { json = json; counter = counter_key actual.data_market actual.request } ∷ [])
          (after_push codec server actual r (answered (pushing json) r w))
  unfolding after_push
  after_push-Ran actual json (err e) = (_, refl, refused json _ e refl refl refl)
  after_push-Ran actual json (ok v) = count_request-Ran actual.data_market json v actual.request

  push-Ran :
      (actual : SnapshotSubmission) (json : Option Bytes)
      → Ran w (optional_entry codec actual json) (push codec server actual json w)
  unfolding push call
  push-Ran actual none = ([], unchanged w, skipped refl refl refl)
  push-Ran actual (some json) = after_push-Ran actual json (server w.history (pushing json))

  handle_submission-Ran :
      (id submission : Bytes) (actual : Option SnapshotSubmission)
      → Ran w
          (submission_entry codec id submission actual)
          (handle_submission codec server id submission actual w)
  handle_submission-Ran id submission none = ([], unchanged w, skipped refl refl refl)
  handle_submission-Ran id submission (some actual) = push-Ran actual _

  -- Every read of at most a buffer ends in one of five ways, each with its exact exchanges: a
  -- counter is touched only after an acknowledged push, and its expiration is set right after.
  pub handle_chunk-Ran :
      (received : Bytes)
      → length received ≤ buffer_size
      → Ran w (entry codec received) (handle_chunk codec server received w)
  unfolding handle_chunk
  handle_chunk-Ran received fits = elim (Bool-cases (leb uuid_size (length received))) [
    | inl long ↦
        rw (parse_submission_bytes_lem received fits, long)
          (handle_submission-Ran (take uuid_size received) (drop uuid_size received)
            (codec.unmarshal (drop uuid_size received)))
    | inr short ↦
        rw (parse_submission_bytes_lem received fits, short)
          ([], unchanged w, malformed refl refl refl)
  ]
