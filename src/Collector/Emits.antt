-- ===== src/Collector/Emits.antt =====
-- The commands that a program sends, whatever the server answers.
use libp2p_submission_sequen.Prelude.{
  ◌≡◌, arith, List, [], ◌∷◌, ◌++◌, some, All, take_at, drop_at, length-append,
}
use libp2p_submission_sequen.Redis.Server.{Command, Reply, Exchange, Server}
use libp2p_submission_sequen.Collector.{uuid_size, count_expiration, Codec, waiting}
use libp2p_submission_sequen.Collector.Chunk.{parse_long}
use libp2p_submission_sequen.Collector.Round.{pushing}
use libp2p_submission_sequen.Collector.Delivery.{
  Message, key_of, IsDelivering, Fitting, json_of, sent_by,
}
use libp2p_submission_sequen.Collector.Program.{
  Program, finished, sends, followed_by, counting_program, pushed_program, pushing_program,
  chunk_program, stream_program,
}

-- It sends these commands in their order and waits for more, at whatever times they are answered.
pub data Emits (server : Server) : Program → List Command → Type 0 where
  over : Emits server (finished waiting) []
  emits :
      {c : Command} {k : Reply → Program} {cs : List Command}
      → ((h : List Exchange) → Emits server (k (server h c)) cs)
      → Emits server (sends c k) (c ∷ cs)

followed_by-Emits :
    {server : Server} {p rest : Program} {cs ds : List Command}
    → Emits server p cs
    → Emits server rest ds
    → Emits server (followed_by p rest) (cs ++ ds)
unfolding followed_by
followed_by-Emits over q = q
followed_by-Emits (emits e) q = emits (λ h. followed_by-Emits (e h) q)

module _ (codec : Codec) (server : Server) (law : IsDelivering codec server) where
  -- One message: its entry, and its counter with the expiration.
  abbrev pub commands_for : Message → List Command
  commands_for m =
      pushing (json_of codec server law m)
      ∷ Command.incr (key_of m)
      ∷ Command.expire (key_of m) count_expiration
      ∷ []

  abbrev pub commands_of : List Message → List Command
  commands_of [] = []
  commands_of (m ∷ ms) = commands_for m ++ commands_of ms

  counted-Emits :
      (m : Message)
      → m.submission.request ≡ some m.request
      → Emits server
          (counting_program m.submission.data_market m.submission.request)
          (Command.incr (key_of m) ∷ Command.expire (key_of m) count_expiration ∷ [])
  unfolding counting_program
  counted-Emits m requested = rw requested (emits (λ h. emits (λ h'. over)))

  pushed-Emits :
      (m : Message) (h : List Exchange)
      → m.submission.request ≡ some m.request
      → Emits server
          (pushed_program m.submission (server h (pushing (json_of codec server law m))))
          (Command.incr (key_of m) ∷ Command.expire (key_of m) count_expiration ∷ [])
  unfolding pushed_program
  pushed-Emits m h requested = rw (law.acknowledges h _) (counted-Emits m requested)

  chunk-Emits :
      (m : Message)
      → Fitting codec server law m
      → Emits server (chunk_program codec (m.id ++ m.body)) (commands_for m)
  unfolding chunk_program pushing_program
  chunk-Emits m f =
      rw
        (
          parse_long (m.id ++ m.body) (omega (arith, f.identified, length-append m.id m.body))
              f.fits,
          take_at uuid_size m.id m.body f.identified,
          drop_at uuid_size m.id m.body f.identified,
          f.readable,
          law.marshal_total,
        )
        (emits (λ h. pushed-Emits m h f.requested))

  pub stream-Emits :
      (ms : List Message)
      → All (Fitting codec server law) ms
      → Emits server (stream_program codec (sent_by codec server law ms)) (commands_of ms)
  unfolding stream_program
  stream-Emits [] f = over
  stream-Emits (m ∷ ms) f = followed_by-Emits (chunk-Emits m f.0) (stream-Emits ms f.1)
