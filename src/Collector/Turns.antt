-- ===== src/Collector/Turns.antt =====
-- Runs in which streams take turns, with no stream opened on the way.
use libp2p_submission_sequen.Prelude.{
  ℕ, suc, ◌+◌, ◌*◌, ◌≤◌, ◌≡◌, ◌≢◌, ◌⊎◌, inl, inr, arith, List, [], ◌∷◌, ◌++◌, All, length,
}
use libp2p_submission_sequen.Redis.Server.{exchange, Command, Reply, Exchange, Server}
use libp2p_submission_sequen.Collector.{Codec, crashed, Read}
use libp2p_submission_sequen.Collector.Crash.{IsSound}
use libp2p_submission_sequen.Collector.Program.{Program, finished, stream_program}
use libp2p_submission_sequen.Collector.Progress.{Ends, over, one_more, stream-Ends}
use libp2p_submission_sequen.Collector.System.{System, Moved, here, there, IsAlive, IsDone, done}

-- `n` commands of the programs, one after the other.
pub data Turns (server : Server) : ℕ → System → System → Type 0 where
  none_yet : {s : System} → Turns server 0 s s
  turn :
      {n : ℕ} {s t : System} {c : Command} {qs : List Program}
      → IsAlive s
      → Moved c (server s.history c) s.programs qs
      → Turns server n
          (record { programs = qs; history = s.history ++ exchange c (server s.history c) ∷ [] })
          t
      → Turns server (suc n) s t

-- The programs send at most `n` commands together, and none crashes.
pub data Remaining : List Program → ℕ → Type 0 where
  nothing : Remaining [] 0
  also :
      {p : Program} {ps : List Program} {m n : ℕ}
      → Ends m p
      → Remaining ps n
      → Remaining (p ∷ ps) (m + n)

Remaining-alive : {ps : List Program} {n : ℕ} → Remaining ps n → All (λ p. p ≢ finished crashed) ps
Remaining-alive nothing = tt
Remaining-alive (also (over h) rest) = (λ e. h cc, Remaining-alive rest)
Remaining-alive (also (one_more h) rest) = (λ e. cc, Remaining-alive rest)

-- A move uses up one command.
Moved-Remaining :
    {c : Command} {r : Reply} {ps qs : List Program} {n : ℕ}
    → Moved c r ps qs
    → Remaining ps n
    → (m : ℕ) × (n ≡ suc m) × Remaining qs m
Moved-Remaining {r = r} here (also {n = n} (one_more {n = m} h) rest) =
    (m + n, omega arith, also (h r) rest)
Moved-Remaining (there moves) (also {m = m} p rest) =
    let (left, e, rest') = Moved-Remaining moves rest in (m + left, omega (arith, e), also p rest')

Turns-Remaining :
    {server : Server} {n k : ℕ} {s t : System}
    → Turns server n s t
    → Remaining s.programs k
    → (m : ℕ) × (n + m ≡ k) × Remaining t.programs m
Turns-Remaining {k = k} none_yet rest = (k, omega arith, rest)
Turns-Remaining (turn alive moves turns) rest =
    let (m, e, rest') = Moved-Remaining moves rest in
    let (left, e', rest'') = Turns-Remaining turns rest' in (left, omega (arith, e, e'), rest'')

-- Some program sends a command next, or all are done.
next_command :
    {ps : List Program} {n : ℕ}
    → Remaining ps n
    → All IsDone ps ⊎ ((c : Command) × ((r : Reply) → (qs : List Program) × Moved c r ps qs))
next_command nothing = inl tt
next_command (also (one_more {c = c} {k = k} h) rest) = inr (c, λ r. (_, here))
next_command (also (over h) rest) = elim (next_command rest) [
  | inl all_done ↦ inl (done h, all_done)
  | inr (c, go) ↦ inr (c, λ r. let (qs, moves) = go r in (_, there moves))
]

abbrev pub started : Codec → List (List Read) → List Program
started codec [] = []
started codec (reads ∷ streams) = stream_program codec reads ∷ started codec streams

abbrev pub reads_in : List (List Read) → ℕ
reads_in [] = 0
reads_in (reads ∷ streams) = length reads + reads_in streams

module _ (codec : Codec) (server : Server) where
  abbrev pub IsSoundStream : List Read → Type 0
  IsSoundStream = All (IsSound codec server)

  started-Remaining :
      (streams : List (List Read))
      → All IsSoundStream streams
      → (n : ℕ) × (n ≤ 3 * reads_in streams) × Remaining (started codec streams) n
  started-Remaining [] s = (0, omega arith, nothing)
  started-Remaining (reads ∷ streams) s =
      let (n, few, rest) = started-Remaining streams s.1 in
      (3 * length reads + n, omega (arith, few), also (stream-Ends codec server reads s.0) rest)

  -- Streams whose reads are at most a buffer and, where they have no error, have an identifier, and
  -- a request if their body is a submission, send together at most three commands for each read,
  -- however they take turns; no stream crashes, and all are done or one of them can go on.
  pub streams_end :
      (streams : List (List Read)) (h : List Exchange) {n : ℕ} {t : System}
      → All IsSoundStream streams
      → Turns server n (record { programs = started codec streams; history = h }) t
      → (n ≤ 3 * reads_in streams)
        × IsAlive t
        × (All IsDone t.programs ⊎ ((u : System) × Turns server 1 t u))
  streams_end streams h {t = t} sound turns =
      let (k, few, rest) = started-Remaining streams sound in
      let (m, e, left) = Turns-Remaining turns rest in
      let alive = Remaining-alive left in
      (
        omega (arith, few, e),
        alive,
        elim (next_command left) [
          | inl all_done ↦ inl all_done
          | inr (c, go) ↦
              let (qs, moves) = go (server t.history c) in inr (_, turn alive moves none_yet)
        ],
      )
