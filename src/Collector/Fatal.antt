-- ===== src/Collector/Fatal.antt =====
-- Exactly which reads end the process.
use libp2p_submission_sequen.Prelude.{
  ◌≡◌, ◌≤◌, ◌<◌, ◌⊎◌, inl, inr, ◌↔◌, ◌∙◌, refl, sym, arith, ℕ, Bytes, Option, none, some, ok, err,
  length, take, drop,
}
use libp2p_submission_sequen.Submission.{Request, SnapshotSubmission}
use libp2p_submission_sequen.Redis.Server.{Value, Reply, Server, World, call}
use libp2p_submission_sequen.Redis.Client.{incr}
use libp2p_submission_sequen.Collector.Chunk.{parse_short, parse_long}
use libp2p_submission_sequen.Collector.Round.{pushing}
use libp2p_submission_sequen.Collector.{
  buffer_size, uuid_size, Codec, crashed, queue_data, count_request, after_push, push,
  handle_submission, handle_chunk,
}

module _ (codec : Codec) (server : Server) where
  -- A body that is a submission without a request, whose entry has a JSON that is pushed.
  pub record Unanswerable (received : Bytes) (w : World) : Type 0 where
    pub long : uuid_size ≤ length received
    pub submission : SnapshotSubmission
    pub read : codec.unmarshal (drop uuid_size received) ≡ some submission
    pub unnamed : submission.request ≡ none
    pub json : Bytes
    pub encoded :
        codec.marshal (queue_data (take uuid_size received) (drop uuid_size received) submission)
        ≡ some json
    pub value : Value
    pub acknowledged : server w.history (pushing json) ≡ ok value

  count_crashes :
      (market : Bytes) (request : Option Request) (w : World)
      → (count_request codec server market request w).0 ≡ crashed
      → request ≡ none
  unfolding count_request incr call
  count_crashes market none w h = refl
  count_crashes market (some request) w h = absurd cc

  after_push_crashes :
      (actual : SnapshotSubmission) (r : Reply) (w : World)
      → (after_push codec server actual r w).0 ≡ crashed
      → (v : Value) × (r ≡ ok v) × (actual.request ≡ none)
  unfolding after_push
  after_push_crashes actual (err e) w h = absurd cc
  after_push_crashes actual (ok v) w h =
      (v, refl, count_crashes actual.data_market actual.request w h)

  push_crashes :
      (actual : SnapshotSubmission) (json : Option Bytes) (w : World)
      → (push codec server actual json w).0 ≡ crashed
      → (j : Bytes) × (json ≡ some j)
        × (v : Value) × (server w.history (pushing j) ≡ ok v)
        × (actual.request ≡ none)
  unfolding push call
  push_crashes actual none w h = absurd cc
  push_crashes actual (some j) w h =
      let (v, e, n) = after_push_crashes actual (server w.history (pushing j)) _ h in
      (j, refl, v, e, n)

  submission_crashes :
      (id body : Bytes) (actual : Option SnapshotSubmission) (w : World)
      → (handle_submission codec server id body actual w).0 ≡ crashed
      → (s : SnapshotSubmission) × (actual ≡ some s)
        × (j : Bytes) × (codec.marshal (queue_data id body s) ≡ some j)
        × (v : Value) × (server w.history (pushing j) ≡ ok v)
        × (s.request ≡ none)
  submission_crashes id body none w h = absurd cc
  submission_crashes id body (some s) w h =
      let (j, e, v, a, n) = push_crashes s _ w h in (s, refl, j, e, v, a, n)

  crash_long :
      (received : Bytes) (w : World)
      → uuid_size ≤ length received
      → length received ≤ buffer_size
      → (handle_chunk codec server received w).0
        ≡ (handle_submission codec server
            (take uuid_size received)
            (drop uuid_size received)
            (codec.unmarshal (drop uuid_size received))
            w).0
  unfolding handle_chunk
  crash_long received w long fits = rw (parse_long received long fits) refl

  long_crashes :
      (received : Bytes) (w : World)
      → uuid_size ≤ length received
      → length received ≤ buffer_size
      → (handle_chunk codec server received w).0 ≡ crashed
      → Unanswerable received w
  long_crashes received w long fits h =
      let (s, r, j, e, v, a, n) =
        submission_crashes (take uuid_size received) (drop uuid_size received) _ w
          (sym (crash_long received w long fits) ∙ h) in
      record {
        long = long;
        submission = s;
        read = r;
        unnamed = n;
        json = j;
        encoded = e;
        value = v;
        acknowledged = a;
      }

  Unanswerable-crashes :
      (received : Bytes) (w : World)
      → length received ≤ buffer_size
      → Unanswerable received w
      → (handle_chunk codec server received w).0 ≡ crashed
  unfolding handle_chunk push after_push count_request call
  Unanswerable-crashes received w fits u =
      rw (parse_long received u.long fits, u.read, u.encoded, u.acknowledged, u.unnamed) refl

  short_crashes :
      (received : Bytes) (w : World)
      → length received < uuid_size
      → (handle_chunk codec server received w).0 ≡ crashed
  unfolding handle_chunk
  short_crashes received w short = rw (parse_short received short) refl

  long_or_short : (n : ℕ) → (uuid_size ≤ n) ⊎ (n < uuid_size)
  long_or_short n = omega arith

  -- Handling a read of at most a buffer ends the process exactly when the read has fewer than 36
  -- bytes, or its body is a submission without a request whose entry has a JSON and the server
  -- acknowledges its push.
  pub handle_chunk-crashed :
      (received : Bytes) (w : World)
      → length received ≤ buffer_size
      → ((handle_chunk codec server received w).0 ≡ crashed)
        ↔ ((length received < uuid_size) ⊎ Unanswerable received w)
  handle_chunk-crashed received w fits = (
    λ h. elim (long_or_short (length received)) [
      | inl long ↦ inr (long_crashes received w long fits h)
      | inr short ↦ inl short
    ],
    λ c. elim c [
      | inl short ↦ short_crashes received w short
      | inr u ↦ Unanswerable-crashes received w fits u
    ],
  )
