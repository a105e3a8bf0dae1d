-- ===== src/Collector/Debts.antt =====
-- What a program owes: increments for acknowledged pushes, and expirations for increments.
use libp2p_submission_sequen.Prelude.{
  ℕ, ◌+◌, ◌≡◌, arith, Bytes, List, [], ◌∷◌, ◌++◌, Option, none, some, ok, err,
}
use libp2p_submission_sequen.Submission.{Request, SnapshotSubmission}
use libp2p_submission_sequen.Redis.Server.{Command, Reply}
use libp2p_submission_sequen.Collector.{
  Codec, Exit, waiting, ended, aborted, crashed, Read, ReadError, filled, parse_submission_bytes,
}
use libp2p_submission_sequen.Collector.Program.{
  Program, finished, sends, followed_by, counting_program, pushed_program, pushing_program,
  submission_program, parsed_program, chunk_program, reading_program, stream_program,
}

-- How often keys occur: any weight of keys adds up over them.
abbrev pub total : (Bytes → ℕ) → List Bytes → ℕ
total f [] = 0
total f (k ∷ ks) = f k + total f ks

pub total-append :
    (f : Bytes → ℕ) (xs ys : List Bytes) → total f (xs ++ ys) ≡ total f xs + total f ys
total-append f [] ys = omega arith
total-append f (x ∷ xs) ys = omega (arith, total-append f xs ys)

abbrev acknowledgement : Reply → ℕ
acknowledgement (ok v) = 1
acknowledgement (err e) = 0

-- A program that owes `a` increments for acknowledged pushes, and the expirations of `ks`.
pub data Owes : Program → ℕ → List Bytes → Type 0 where
  settled : {e : Exit} → Owes (finished e) 0 []
  given_up : Owes (finished crashed) 1 []
  pushing :
      {queue json : Bytes} {k : Reply → Program}
      → ((r : Reply) → Owes (k r) (acknowledgement r) [])
      → Owes (sends (Command.l_push queue json) k) 0 []
  counting :
      {key : Bytes} {k : Reply → Program}
      → ((r : Reply) → Owes (k r) 0 (key ∷ []))
      → Owes (sends (Command.incr key) k) 1 []
  limiting :
      {key : Bytes} {t : ℕ} {k : Reply → Program}
      → ((r : Reply) → Owes (k r) 0 [])
      → Owes (sends (Command.expire key t) k) 0 (key ∷ [])

-- The debts of all programs together.
pub data Owed : List Program → ℕ → List Bytes → Type 0 where
  nothing : Owed [] 0 []
  also :
      {p : Program} {ps : List Program} {a b : ℕ} {ks js : List Bytes}
      → Owes p a ks
      → Owed ps b js
      → Owed (p ∷ ps) (a + b) (ks ++ js)

followed_by-Owes :
    {p rest : Program} {a : ℕ} {ks : List Bytes}
    → Owes p a ks
    → Owes rest 0 []
    → Owes (followed_by p rest) a ks
unfolding followed_by
followed_by-Owes (settled {e = waiting}) q = q
followed_by-Owes (settled {e = ended}) q = settled
followed_by-Owes (settled {e = aborted}) q = settled
followed_by-Owes (settled {e = crashed}) q = settled
followed_by-Owes given_up q = given_up
followed_by-Owes (pushing h) q = pushing (λ r. followed_by-Owes (h r) q)
followed_by-Owes (counting h) q = counting (λ r. followed_by-Owes (h r) q)
followed_by-Owes (limiting h) q = limiting (λ r. followed_by-Owes (h r) q)

counting-Owes :
    (market : Bytes) (request : Option Request) → Owes (counting_program market request) 1 []
unfolding counting_program
counting-Owes market none = given_up
counting-Owes market (some request) = counting (λ _. limiting (λ _. settled))

pushed-Owes :
    (actual : SnapshotSubmission) (r : Reply)
    → Owes (pushed_program actual r) (acknowledgement r) []
unfolding pushed_program
pushed-Owes actual (err e) = settled
pushed-Owes actual (ok v) = counting-Owes actual.data_market actual.request

pushing-Owes :
    (actual : SnapshotSubmission) (json : Option Bytes) → Owes (pushing_program actual json) 0 []
unfolding pushing_program
pushing-Owes actual none = settled
pushing-Owes actual (some json) = pushing (pushed-Owes actual)

module _ (codec : Codec) where
  submission-Owes :
      (id submission : Bytes) (actual : Option SnapshotSubmission)
      → Owes (submission_program codec id submission actual) 0 []
  submission-Owes id submission none = settled
  submission-Owes id submission (some actual) = pushing-Owes actual _

  parsed-Owes : (parsed : Option (Bytes × Bytes)) → Owes (parsed_program codec parsed) 0 []
  parsed-Owes none = settled
  parsed-Owes (some (id, submission)) = submission-Owes id submission _

  reading-Owes :
      (failure : Option ReadError) (round rest : Program)
      → Owes round 0 []
      → Owes rest 0 []
      → Owes (reading_program codec failure round rest) 0 []
  reading-Owes none round rest p q = followed_by-Owes p q
  reading-Owes (some e) round rest p q = settled

  pub stream-Owes : (reads : List Read) → Owes (stream_program codec reads) 0 []
  unfolding stream_program chunk_program
  stream-Owes [] = settled
  stream-Owes (r ∷ reads) =
      reading-Owes r.failure _ _ (parsed-Owes (parse_submission_bytes (filled r.received)))
        (stream-Owes reads)
