-- ===== src/Collector/Observed.antt =====
-- What can be read off a list of exchanges, and how it adds up over a stream.
use libp2p_submission_sequen.Prelude.{
  ◌≡◌, refl, sym, ap, ◌∙◌, Bytes, List, [], ◌∷◌, ◌++◌, ok, err, Option, none, some, append_assoc,
  append-nil, All, length, ◌≤◌,
}
use libp2p_submission_sequen.Redis.Server.{Command, Reply, Exchange, World, Server, M}
use libp2p_submission_sequen.Collector.{
  buffer_size, Codec, Exit, waiting, ended, aborted, crashed, Read, ReadError, stop, after_round,
  after_read, handle_stream, handle_chunk,
}
use libp2p_submission_sequen.Collector.Round.{
  extended, Round, skipped, malformed, refused, unnamed, counted, Wanted, entry, Ran,
  handle_chunk-Ran,
}

module _ {ℓ} {A : Type ℓ} (f : Exchange → List A) where
  abbrev pub gather : List Exchange → List A
  gather [] = []
  gather (e ∷ es) = f e ++ gather es

  pub gather-append : (xs ys : List Exchange) → gather (xs ++ ys) ≡ gather xs ++ gather ys
  gather-append [] ys = refl
  gather-append (e ∷ xs) ys =
      ap (λ (t : List A). f e ++ t) (gather-append xs ys) ∙ sym (append_assoc (f e) _ _)

abbrev pushed_value : Command → List Bytes
pushed_value (Command.l_push _ v) = v ∷ []
pushed_value _ = []

abbrev acknowledged_value : Command → Reply → List Bytes
acknowledged_value c (ok v) = pushed_value c
acknowledged_value c (err e) = []

abbrev incremented_key : Command → List Bytes
incremented_key (Command.incr k) = k ∷ []
incremented_key _ = []

abbrev expiring_key : Command → List Bytes
expiring_key (Command.expire k _) = k ∷ []
expiring_key _ = []

abbrev pub pushed : Exchange → List Bytes
pushed e = pushed_value e.command

abbrev pub accepted : Exchange → List Bytes
accepted e = acknowledged_value e.command e.reply

abbrev pub incremented : Exchange → List Bytes
incremented e = incremented_key e.command

abbrev pub expiring : Exchange → List Bytes
expiring e = expiring_key e.command

-- The entries that were pushed, those whose push succeeded, and the keys that were incremented and
-- given an expiration, each in order.
abbrev pub pushes : List Exchange → List Bytes
pushes = gather pushed

abbrev pub acknowledged : List Exchange → List Bytes
acknowledged = gather accepted

abbrev pub increments : List Exchange → List Bytes
increments = gather incremented

abbrev pub expirations : List Exchange → List Bytes
expirations = gather expiring

-- The reads before the first error; a read fills at most the buffer.
abbrev until_error : Option ReadError → List Wanted → List Wanted
until_error none wanted = wanted
until_error (some e) wanted = []

abbrev pub Fits : Read → Type 0
Fits r = length r.received ≤ buffer_size

-- The entries that the reads of a stream ask for.
abbrev pub entries : Codec → List Read → List Wanted
entries codec [] = []
entries codec (r ∷ reads) = until_error r.failure (entry codec r.received ++ entries codec reads)

abbrev pub Streamed {ℓ} :
    (Exit → List Wanted → List Exchange → Type ℓ) → World → List Wanted → Exit × World → Type ℓ
Streamed P w wanted result =
    (added : List Exchange) × (result.1 ≡ extended w added) × P result.0 wanted added

pub extended-nil : (w : World) → w ≡ extended w []
extended-nil w = ap (λ (h : List Exchange). record w { history = h }) (sym (append-nil w.history))

pub extended-append :
    (w : World) (xs ys : List Exchange) → extended (extended w xs) ys ≡ extended w (xs ++ ys)
extended-append w xs ys =
    ap (λ (h : List Exchange). record w { history = h }) (append_assoc w.history xs ys)

Round-ended : {wanted : List Wanted} {added : List Exchange} → Round ended wanted added → ⊥
Round-ended (skipped e _ _) = cc
Round-ended (malformed e _ _) = cc
Round-ended (refused _ _ _ e _ _) = cc
Round-ended (unnamed _ _ e _ _) = cc
Round-ended (counted _ _ _ _ _ e _ _) = cc

Round-aborted : {wanted : List Wanted} {added : List Exchange} → Round aborted wanted added → ⊥
Round-aborted (skipped e _ _) = cc
Round-aborted (malformed e _ _) = cc
Round-aborted (refused _ _ _ e _ _) = cc
Round-aborted (unnamed _ _ e _ _) = cc
Round-aborted (counted _ _ _ _ _ e _ _) = cc

-- A property of rounds that adds up, and that a crash leaves, holds of every stream.
module _ {ℓ} (P : Exit → List Wanted → List Exchange → Type ℓ)
    (round : (exit : Exit) (wanted : List Wanted) (added : List Exchange)
      → Round exit wanted added
      → P exit wanted added)
    (nothing : (exit : Exit) → P exit [] [])
    (more : (exit : Exit) (a b : List Wanted) (xs ys : List Exchange)
      → P waiting a xs
      → P exit b ys
      → P exit (a ++ b) (xs ++ ys))
    (cut : (a b : List Wanted) (xs : List Exchange) → P crashed a xs → P crashed (a ++ b) xs)
    (codec : Codec) (server : Server) where
  continue :
      (rest : M Exit) (w : World) (a b : List Wanted) (result : Exit × World)
      → ((v : World) → Streamed P v b (rest v))
      → Ran w a result
      → Streamed P w (a ++ b) (after_round rest result)
  continue rest w a b (waiting, w') ih (added, e, r) =
      let (after, e', p) = ih w' in
      (
        added ++ after,
        e' ∙ ap (λ (v : World). extended v after) e ∙ extended-append w added after,
        more _ a b added after (round waiting a added r) p,
      )
  continue rest w a b (ended, w') ih (added, e, r) = absurd (Round-ended r)
  continue rest w a b (aborted, w') ih (added, e, r) = absurd (Round-aborted r)
  continue rest w a b (crashed, w') ih (added, e, r) =
      (added, e, cut a b added (round crashed a added r))

  after_read-Streamed :
      (failure : Option ReadError) (received : Bytes) (b : List Wanted) (rest : M Exit) (w : World)
      → length received ≤ buffer_size
      → ((v : World) → Streamed P v b (rest v))
      → Streamed P w
          (until_error failure (entry codec received ++ b))
          (after_read failure (handle_chunk codec server received) rest w)
  after_read-Streamed none received b rest w fits ih =
      continue rest w _ b _ ih (handle_chunk-Ran codec server w received fits)
  after_read-Streamed (some e) received b rest w fits ih = ([], extended-nil w, nothing (stop e))

  pub handle_stream-Streamed :
      (reads : List Read) (w : World)
      → All Fits reads
      → Streamed P w (entries codec reads) (handle_stream codec server reads w)
  unfolding handle_stream
  handle_stream-Streamed [] w fits = ([], extended-nil w, nothing waiting)
  handle_stream-Streamed (r ∷ reads) w fits =
      after_read-Streamed r.failure r.received (entries codec reads)
        (handle_stream codec server reads) w fits.0 (λ v. handle_stream-Streamed reads v fits.1)
