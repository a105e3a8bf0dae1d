-- ===== src/Collector/Split.antt =====
-- A message that arrives in two reads: each read is taken as a message of its own.
use libp2p_submission_sequen.Prelude.{
  ◌≡◌, ◌≤◌, ◌<◌, ◌⊎◌, inl, inr, ◌∙◌, refl, arith, ℕ, Bytes, List, ◌∷◌, none, length, drop,
}
use libp2p_submission_sequen.Redis.Server.{Server, World}
use libp2p_submission_sequen.Collector.Chunk.{parse_long}
use libp2p_submission_sequen.Collector.Crash.{handle_stream_short}
use libp2p_submission_sequen.Collector.{
  buffer_size, uuid_size, Codec, crashed, Read, handle_chunk, handle_stream,
}

long_or_short : (n : ℕ) → (uuid_size ≤ n) ⊎ (n < uuid_size)
long_or_short n = omega arith

-- A read without an error.
abbrev pub read_of : Bytes → Read
read_of received = record { received = received; failure = none }

module _ (codec : Codec) (server : Server) where
  -- A read whose body is no submission leaves nothing behind.
  pub handle_stream_refused :
      (received : Bytes) (reads : List Read) (w : World)
      → uuid_size ≤ length received
      → length received ≤ buffer_size
      → codec.unmarshal (drop uuid_size received) ≡ none
      → handle_stream codec server (read_of received ∷ reads) w ≡ handle_stream codec server reads w
  unfolding handle_stream handle_chunk
  handle_stream_refused received reads w long fits refused =
      rw (parse_long received long fits, refused)

  -- Two reads without errors, of which the first is at most a buffer, with a body that is no
  -- submission, and the second shorter than an identifier, as when a message arrives in two parts,
  -- end the process, with nothing sent and no later read handled.
  pub handle_stream_split :
      (first second : Bytes) (reads : List Read) (w : World)
      → length first ≤ buffer_size
      → codec.unmarshal (drop uuid_size first) ≡ none
      → length second < uuid_size
      → handle_stream codec server (read_of first ∷ read_of second ∷ reads) w ≡ (crashed, w)
  handle_stream_split first second reads w fits refused short =
      elim (long_or_short (length first)) [
        | inl long ↦
            handle_stream_refused first (read_of second ∷ reads) w long fits refused
            ∙ handle_stream_short codec server (read_of second) reads w refl short
        | inr early ↦
            handle_stream_short codec server (read_of first) (read_of second ∷ reads) w refl early
      ]
