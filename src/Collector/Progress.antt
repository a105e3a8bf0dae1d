-- ===== src/Collector/Progress.antt =====
-- Streams that take turns come to their end.
use libp2p_submission_sequen.Prelude.{
  ℕ, zero, suc, ◌+◌, ◌*◌, ◌≤◌, ◌≡◌, ◌≢◌, refl, arith, Bytes, List, [], ◌∷◌, Option, none, some, ok,
  err, All, length, take, drop,
}
use libp2p_submission_sequen.Submission.{Request, SnapshotSubmission}
use libp2p_submission_sequen.Redis.Server.{Command, Reply, Server}
use libp2p_submission_sequen.Collector.{
  uuid_size, Codec, Exit, waiting, ended, aborted, crashed, Read, ReadError,
}
use libp2p_submission_sequen.Collector.Chunk.{parse_long}
use libp2p_submission_sequen.Collector.Crash.{IsSound, stop_safe}
use libp2p_submission_sequen.Collector.Program.{
  Program, finished, sends, followed_by, counting_program, pushed_program, pushing_program,
  submission_program, chunk_program, reading_program, stream_program,
}

-- A program that sends at most `n` commands, whatever the replies, and does not crash.
pub data Ends : ℕ → Program → Type 0 where
  over : {n : ℕ} {e : Exit} → e ≢ crashed → Ends n (finished e)
  one_more :
      {n : ℕ} {c : Command} {k : Reply → Program}
      → ((r : Reply) → Ends n (k r))
      → Ends (suc n) (sends c k)

Ends-weaken : {m n : ℕ} {p : Program} → m ≤ n → Ends m p → Ends n p
Ends-weaken le (over h) = over h
Ends-weaken {n = zero} le (one_more h) = absurd (omega arith)
Ends-weaken {n = suc n} le (one_more h) = one_more (λ r. Ends-weaken (omega arith) (h r))

followed_by-Ends :
    {m n : ℕ} {p rest : Program} → Ends m p → Ends n rest → Ends (m + n) (followed_by p rest)
unfolding followed_by
followed_by-Ends (over {e = waiting} h) q = Ends-weaken (omega arith) q
followed_by-Ends (over {e = ended} h) q = over h
followed_by-Ends (over {e = aborted} h) q = over h
followed_by-Ends (over {e = crashed} h) q = absurd (h refl)
followed_by-Ends {n = j} (one_more {n = i} h) q =
    Ends-weaken {m = suc (i + j)} (omega arith) (one_more (λ r. followed_by-Ends (h r) q))

counting-Ends :
    (market : Bytes) (request : Option Request)
    → request ≢ none
    → Ends 2 (counting_program market request)
unfolding counting_program
counting-Ends market none h = absurd (h refl)
counting-Ends market (some request) h = one_more (λ _. one_more (λ _. over (λ e. cc)))

pushed-Ends :
    (actual : SnapshotSubmission) (r : Reply)
    → actual.request ≢ none
    → Ends 2 (pushed_program actual r)
unfolding pushed_program
pushed-Ends actual (err e) h = over (λ e. cc)
pushed-Ends actual (ok v) h = counting-Ends actual.data_market actual.request h

pushing-Ends :
    (actual : SnapshotSubmission) (json : Option Bytes)
    → actual.request ≢ none
    → Ends 3 (pushing_program actual json)
unfolding pushing_program
pushing-Ends actual none h = over (λ e. cc)
pushing-Ends actual (some json) h = one_more (λ r. pushed-Ends actual r h)

module _ (codec : Codec) (server : Server) where
  submission-Ends :
      (id submission : Bytes) (parsed : Option SnapshotSubmission)
      → ((actual : SnapshotSubmission) → parsed ≡ some actual → actual.request ≢ none)
      → Ends 3 (submission_program codec id submission parsed)
  submission-Ends id submission none h = over (λ e. cc)
  submission-Ends id submission (some actual) h = pushing-Ends actual _ (h actual refl)

  chunk-Ends :
      (r : Read)
      → r.failure ≡ none
      → IsSound codec server r
      → Ends 3 (chunk_program codec r.received)
  unfolding chunk_program
  chunk-Ends r good s = rw (parse_long r.received (s.long good) s.fits) (
      submission-Ends (take uuid_size r.received) (drop uuid_size r.received) _
        (s.has_request good))

  reading-Ends :
      (failure : Option ReadError) (round rest : Program) (n : ℕ)
      → (failure ≡ none → Ends 3 round)
      → Ends n rest
      → Ends (3 + n) (reading_program codec failure round rest)
  reading-Ends none round rest n h q = followed_by-Ends (h refl) q
  reading-Ends (some e) round rest n h q = over (stop_safe codec server e)

  pub stream-Ends :
      (reads : List Read)
      → All (IsSound codec server) reads
      → Ends (3 * length reads) (stream_program codec reads)
  unfolding stream_program
  stream-Ends [] s = over (λ e. cc)
  stream-Ends (r ∷ reads) s = Ends-weaken {m = 3 + 3 * length reads} (omega arith) (
      reading-Ends r.failure _ _ (3 * length reads) (λ good. chunk-Ends r good s.0)
        (stream-Ends reads s.1))
