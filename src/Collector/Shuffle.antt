-- ===== src/Collector/Shuffle.antt =====
-- Streams of many senders, whose commands take turns.
use libp2p_submission_sequen.Prelude.{
  ℕ, ◌≡◌, ◌∙◌, refl, sym, List, [], ◌∷◌, ◌++◌, All, map, append-nil, append_assoc,
}
use libp2p_submission_sequen.Redis.Server.{exchange, Command, Exchange, Server}
use libp2p_submission_sequen.Collector.{Codec}
use libp2p_submission_sequen.Collector.Delivery.{Message, IsDelivering, Fitting, sent_by}
use libp2p_submission_sequen.Collector.Program.{Program, stream_program}
use libp2p_submission_sequen.Collector.Emits.{Emits, over, emits, commands_of, stream-Emits}
use libp2p_submission_sequen.Collector.System.{System, Moved, here, there, IsDone, done}
use libp2p_submission_sequen.Collector.Turns.{Turns, none_yet, turn}

-- One of the lists has the command first, and is left without it.
pub data Taken (c : Command) : List (List Command) → List (List Command) → Type 0 where
  taken : {cs : List Command} {css : List (List Command)} → Taken c ((c ∷ cs) ∷ css) (cs ∷ css)
  skipped :
      {cs : List Command} {css dss : List (List Command)}
      → Taken c css dss
      → Taken c (cs ∷ css) (cs ∷ dss)

-- A list that has each command of the lists once, those of each list in their order.
pub data Shuffled : List (List Command) → List Command → Type 0 where
  all_taken : {css : List (List Command)} → All (λ cs. cs ≡ []) css → Shuffled css []
  next :
      {c : Command} {css dss : List (List Command)} {cs : List Command}
      → Taken c css dss
      → Shuffled dss cs
      → Shuffled css (c ∷ cs)

data Emitting (server : Server) : List Program → List (List Command) → Type 0 where
  nothing : Emitting server [] []
  also :
      {p : Program} {ps : List Program} {cs : List Command} {css : List (List Command)}
      → Emits server p cs
      → Emitting server ps css
      → Emitting server (p ∷ ps) (cs ∷ css)

Moved-Taken :
    {server : Server} (h : List Exchange) {c : Command} {ps qs : List Program}
    {css : List (List Command)}
    → Moved c (server h c) ps qs
    → Emitting server ps css
    → (dss : List (List Command)) × Taken c css dss × Emitting server qs dss
Moved-Taken h here (also (emits e) rest) = (_, taken, also (e h) rest)
Moved-Taken h (there moves) (also e rest) =
    let (dss, t, es) = Moved-Taken h moves rest in (_, skipped t, also e es)

done-nil :
    {server : Server} {p : Program} {cs : List Command} → IsDone p → Emits server p cs → cs ≡ []
done-nil (done h) over = refl

emptied :
    {server : Server} {ps : List Program} {css : List (List Command)}
    → All IsDone ps
    → Emitting server ps css
    → All (λ cs. cs ≡ []) css
emptied d nothing = tt
emptied d (also e rest) = (done-nil d.0 e, emptied d.1 rest)

abbrev pub command_of : Exchange → Command
command_of e = e.command

Turns-Shuffled :
    {server : Server} {n : ℕ} {s t : System} {css : List (List Command)}
    → Turns server n s t
    → Emitting server s.programs css
    → All IsDone t.programs
    → (added : List Exchange) × (t.history ≡ s.history ++ added)
      × Shuffled css (map command_of added)
Turns-Shuffled {s = s} none_yet es d = ([], sym (append-nil s.history), all_taken (emptied d es))
Turns-Shuffled {server = server} {s = s} (turn {c = c} alive moves turns) es d =
    let (dss, t, es') = Moved-Taken s.history moves es in
    let (added, e, rest) = Turns-Shuffled turns es' d in
    (
      exchange c (server s.history c) ∷ added,
      e ∙ append_assoc s.history (exchange c (server s.history c) ∷ []) added,
      next t rest,
    )

module _ (codec : Codec) (server : Server) (law : IsDelivering codec server) where
  abbrev pub senders : List (List Message) → List Program
  senders [] = []
  senders (ms ∷ streams) = stream_program codec (sent_by codec server law ms) ∷ senders streams

  abbrev pub commands_in : List (List Message) → List (List Command)
  commands_in [] = []
  commands_in (ms ∷ streams) = commands_of codec server law ms ∷ commands_in streams

  senders-Emitting :
      (streams : List (List Message))
      → All (All (Fitting codec server law)) streams
      → Emitting server (senders streams) (commands_in streams)
  senders-Emitting [] f = nothing
  senders-Emitting (ms ∷ streams) f =
      also (stream-Emits codec server law ms f.0) (senders-Emitting streams f.1)

  -- If the encoder of entries never fails and the server acknowledges every push, then of streams
  -- whose messages come one in each read, each of an identifier of 36 bytes and a body that is the
  -- JSON of a submission with a request, and at most a buffer, the commands that are sent when all
  -- streams are done, however they took turns, are those of the messages, each once, where those of
  -- one stream are in the order of its messages: the push of its entry, the increment of its
  -- counter, and the expiration.
  pub senders-Shuffled :
      (streams : List (List Message)) (h : List Exchange) {n : ℕ} {t : System}
      → All (All (Fitting codec server law)) streams
      → Turns server n (record { programs = senders streams; history = h }) t
      → All IsDone t.programs
      → (added : List Exchange) × (t.history ≡ h ++ added)
        × Shuffled (commands_in streams) (map command_of added)
  senders-Shuffled streams h fits turns = Turns-Shuffled turns (senders-Emitting streams fits)
