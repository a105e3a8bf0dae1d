-- ===== src/Collector/System.antt =====
-- The handlers of many streams over one connection to the server. libp2p runs each in a goroutine of
-- its own; between two commands of one, others may send theirs.
use libp2p_submission_sequen.Prelude.{◌≢◌, List, [], ◌∷◌, ◌++◌, All}
use libp2p_submission_sequen.Redis.Server.{exchange, Command, Reply, Exchange, Server}
use libp2p_submission_sequen.Collector.{Codec, Exit, crashed, Read}
use libp2p_submission_sequen.Collector.Program.{Program, finished, sends, stream_program}

-- What the goroutines still have to do, and the exchanges so far.
pub record System : Type 0 where
  pub programs : List Program
  pub history : List Exchange

-- One of the programs sends the command `c`, gets the reply `r`, and goes on.
pub data Moved (c : Command) (r : Reply) : List Program → List Program → Type 0 where
  here : {k : Reply → Program} {ps : List Program} → Moved c r (sends c k ∷ ps) (k r ∷ ps)
  there : {p : Program} {ps qs : List Program} → Moved c r ps qs → Moved c r (p ∷ ps) (p ∷ qs)

-- A panic of any goroutine ends the process, and with it all the others.
abbrev pub IsAlive : System → Type 0
IsAlive s = All (λ p. p ≢ finished crashed) s.programs

-- A program that has come to its end, and not by a crash.
pub data IsDone : Program → Type 0 where
  done : {e : Exit} → e ≢ crashed → IsDone (finished e)

module _ (codec : Codec) (server : Server) where
  pub data Step (s : System) : System → Type 0 where
    opened :
        (reads : List Read)
        → Step s (record s { programs = stream_program codec reads ∷ s.programs })
    moved :
        {c : Command} {qs : List Program}
        → IsAlive s
        → Moved c (server s.history c) s.programs qs
        → Step s
            (record { programs = qs; history = s.history ++ exchange c (server s.history c) ∷ [] })

  pub data Reach (s : System) : System → Type 0 where
    at_start : Reach s s
    later : {t u : System} → Reach s t → Step t u → Reach s u

abbrev pub at_rest : List Exchange → System
at_rest history = record { programs = []; history = history }
